-- ===== src/Network/MsgServer/Admission.antt =====
-- modules/network/keeper/msg_server.go: which attestations are admitted.
use go_execution_abci.Prelude.{
  ℕ, ◌+◌, ◌/◌, ◌%◌, ◌<◌, ◌≡◌, ◌↔◌, refl, ap, sym, ◌∙◌, true, false, Bool-cases, Option, none, some,
  List, [], ◌∷◌, length, replicate, arith, nat_eq, inl, inr,
}
use go_execution_abci.Prelude.Int.{ℤ, pos, to_u64}
use go_execution_abci.Prelude.Exec.{ok, then_ok-eq-ok, ok_inj}
use go_execution_abci.Network.Bitmap.{Bytes, new_bitmap, is_set}
use go_execution_abci.Network.Types.{
  SignMode, unspecified, checkpoint, other, Params, MsgAttest, Validator, Env, State,
}
use go_execution_abci.Network.Keeper.{
  get_params, get_validator_index, get_attestation_bitmap, get_epoch_bitmap, is_in_attester_set,
  get_current_epoch, is_checkpoint_height,
}
use go_execution_abci.Network.Keeper.IndexMap.{bonded_of}
use go_execution_abci.Network.MsgServer.{
  checkpoint_guard, check_height, count_bonded, bitmap_or_new, attest,
}
use go_execution_abci.Network.MsgServer.Attest.{CanAttest, attested, attest_steps}

-- In the checkpoint mode the height, as a uint64, is a multiple of the epoch length that is stored.
abbrev pub MayAttest : SignMode → Option Params → ℤ → Type 0
MayAttest checkpoint none height = ⊥
MayAttest checkpoint (some p) height = (0 < p.epoch_length) × (to_u64 height % p.epoch_length ≡ 0)
MayAttest unspecified params height = Unit {0}
MayAttest (other m) params height = Unit {0}

-- The bitmap that a vote is written into: the stored one, or one with a bit for each bonded validator
-- and none of them set, in whole bytes.
abbrev pub Starts : Env → Option Bytes → Bytes → Type 0
Starts env (some old) bitmap = old ≡ bitmap
Starts env none bitmap =
    (validators : List Validator) × (env.get_last_validators ≡ ok validators)
    × (replicate ((length (bonded_of validators) + 7) / 8) 0 ≡ bitmap)

count_bonded-length : (n : ℕ) (vs : List Validator) → count_bonded n vs ≡ n + length (bonded_of vs)
unfolding count_bonded
count_bonded-length n [] = omega arith
count_bonded-length n (v ∷ vs) = elim (Bool-cases v.is_bonded) [
  | inl e ↦ rw e (count_bonded-length (n + 1) vs ∙ omega arith)
  | inr e ↦ rw e (count_bonded-length n vs)
]

fresh-bits :
    (vs : List Validator)
    → new_bitmap (count_bonded 0 vs) ≡ replicate ((length (bonded_of vs) + 7) / 8) 0
unfolding new_bitmap
fresh-bits vs = ap (λ n. replicate ((n + 7) / 8) 0) (count_bonded-length 0 vs ∙ omega arith)

Starts-bitmap_or_new :
    (env : Env) (o : Option Bytes) (bitmap : Bytes)
    → (bitmap_or_new env o ≡ ok bitmap) ↔ Starts env o bitmap
unfolding bitmap_or_new
Starts-bitmap_or_new env (some old) bitmap = (ok_inj, λ e. ap ok e)
Starts-bitmap_or_new env none bitmap = (
  λ h.
      let (vs, found, e) = then_ok-eq-ok env.get_last_validators _ h in
      (vs, found, sym (fresh-bits vs) ∙ ok_inj e),
  λ (vs, found, e). rw found (ap ok (fresh-bits vs ∙ e)),
)

MayAttest-checkpoint_guard :
    (mode : SignMode) (params : Option Params) (height : ℤ) (s : State)
    → s.params ≡ params
    → (checkpoint_guard mode height s ≡ ok tt) ↔ MayAttest mode params height
unfolding is_checkpoint_height
MayAttest-checkpoint_guard unspecified params height s e = (λ _. tt, λ _. refl)
MayAttest-checkpoint_guard (other m) params height s e = (λ _. tt, λ _. refl)
MayAttest-checkpoint_guard checkpoint none height s e = (λ h. ground arith, λ x. elim x [ ])
MayAttest-checkpoint_guard checkpoint (some p) height s e = (λ h. ground arith, λ h. ground arith)

MayAttest-check_height :
    (s : State) (height : ℤ)
    → (check_height height s ≡ ok tt) ↔ MayAttest (get_params s).sign_mode s.params height
unfolding check_height
MayAttest-check_height s height =
    MayAttest-checkpoint_guard (get_params s).sign_mode s.params height s refl

epoch-get_current_epoch :
    (s : State) (block_height : ℤ) (epoch : ℕ)
    → (get_current_epoch block_height s ≡ ok epoch) ↔ (
        (0 < (get_params s).epoch_length)
        × (epoch ≡ to_u64 block_height / (get_params s).epoch_length))
unfolding get_current_epoch
epoch-get_current_epoch s block_height epoch = (λ h. ground arith, λ h. ground arith)

module _ (env : Env) (block_height : ℤ) (msg : MsgAttest) where
  -- An attestation that is admitted, and the index, the bitmaps and the epoch that it is about.
  pub record IsAdmitted (s : State) (index : ℕ) (bitmap : Bytes) (epoch : ℕ) (epoch_bitmap : Bytes)
      : Type 0 where
    pub height : MayAttest (get_params s).sign_mode s.params msg.height
    pub member : is_in_attester_set s msg.validator ≡ true
    pub indexed : get_validator_index s msg.validator ≡ some index
    pub at_height : Starts env (get_attestation_bitmap s msg.height) bitmap
    pub fresh : is_set bitmap (pos index) ≡ false
    pub epoch_length : 0 < (get_params s).epoch_length
    pub in_epoch : epoch ≡ to_u64 block_height / (get_params s).epoch_length
    pub at_epoch : Starts env (get_epoch_bitmap s epoch) epoch_bitmap

  IsAdmitted-CanAttest :
      (s : State) (index : ℕ) (bitmap : Bytes) (epoch : ℕ) (epoch_bitmap : Bytes)
      → CanAttest env block_height msg s index bitmap epoch epoch_bitmap
        ↔ IsAdmitted s index bitmap epoch epoch_bitmap
  IsAdmitted-CanAttest s index bitmap epoch epoch_bitmap = (
    λ c. record {
      height = (MayAttest-check_height s msg.height).0 c.height;
      member = c.member;
      indexed = c.indexed;
      at_height =
          (Starts-bitmap_or_new env (get_attestation_bitmap s msg.height) bitmap).0 c.at_height;
      fresh = c.fresh;
      epoch_length = ((epoch-get_current_epoch s block_height epoch).0 c.in_epoch).0;
      in_epoch = ((epoch-get_current_epoch s block_height epoch).0 c.in_epoch).1;
      at_epoch = (Starts-bitmap_or_new env (get_epoch_bitmap s epoch) epoch_bitmap).0 c.at_epoch;
    },
    λ a. record {
      height = (MayAttest-check_height s msg.height).1 a.height;
      member = a.member;
      indexed = a.indexed;
      at_height =
          (Starts-bitmap_or_new env (get_attestation_bitmap s msg.height) bitmap).1 a.at_height;
      fresh = a.fresh;
      in_epoch = (epoch-get_current_epoch s block_height epoch).1 (a.epoch_length, a.in_epoch);
      at_epoch = (Starts-bitmap_or_new env (get_epoch_bitmap s epoch) epoch_bitmap).1 a.at_epoch;
    },
  )

  -- Attest succeeds exactly when, in the checkpoint mode, there are parameters and the height is a
  -- multiple of their epoch length, the validator is in the attester set and has an index, its bit is
  -- not set in the bitmap of the height, the epoch length is positive, and, for a height or an epoch
  -- without a bitmap, the validators can be read. It then stores, for the height and for the current
  -- epoch, what SetBit makes of the stored bitmap or of an empty one with a bit for each bonded
  -- validator, in whole bytes, stores the vote and emits one event, and changes no more.
  pub attest_iff :
      (s s' : State)
      → (attest env block_height msg s ≡ (ok tt, s')) ↔ (
          (index : ℕ) × (bitmap : Bytes) × (epoch : ℕ) × (epoch_bitmap : Bytes) × IsAdmitted s index
            bitmap epoch epoch_bitmap
          × (s' ≡ attested env block_height msg s index bitmap epoch epoch_bitmap))
  attest_iff s s' = (
    λ h.
        let (index, bitmap, epoch, epoch_bitmap, can, e) =
          (attest_steps env block_height msg s s').0 h in
        (
          index,
          bitmap,
          epoch,
          epoch_bitmap,
          (IsAdmitted-CanAttest s index bitmap epoch epoch_bitmap).0 can,
          e,
        ),
    λ (index, bitmap, epoch, epoch_bitmap, admitted, e).
        (attest_steps env block_height msg s s').1 (
          index,
          bitmap,
          epoch,
          epoch_bitmap,
          (IsAdmitted-CanAttest s index bitmap epoch epoch_bitmap).1 admitted,
          e,
        ),
  )
