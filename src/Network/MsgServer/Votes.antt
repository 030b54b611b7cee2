-- ===== src/Network/MsgServer/Votes.antt =====
-- What a successful Attest changes for a reader of the bitmaps, what a second one does, and what a
-- failing one leaves.
use go_execution_abci.Prelude.{
  Eq, ℕ, ◌*◌, ◌≤◌, ◌<◌, ◌≡◌, ◌≢◌, refl, sym, ap, ◌∙◌, String, Bool, true, false, ◌&&◌, Option, none,
  some, List, arith, ◌==◌, nat_eq, string_eq, ==_refl, if◌then◌else◌, length, inl, inr, Bool-cases,
}
use go_execution_abci.Prelude.Int.{ℤ, pos, ℤ_eq}
use go_execution_abci.Prelude.Map
use go_execution_abci.Prelude.Exec.{ok, err, then_ok-eq-ok}
use go_execution_abci.Network.Bitmap.{Bytes, set_bit, is_set}
use go_execution_abci.Network.Bitmap.Bits.{is_set-set_bit, set_bit_beyond, new_bitmap_lem}
use go_execution_abci.Network.Types.{
  Error, invalid_request, MsgAttest, Validator, Env, State, key_eq,
}
use go_execution_abci.Network.Keeper.{
  get_params, get_validator_index, set_attestation_bitmap, get_attestation_bitmap, set_epoch_bitmap,
  get_epoch_bitmap, is_in_attester_set, set_signature, get_signature, get_current_epoch,
  is_checkpoint_height,
}
use go_execution_abci.Network.MsgServer.{
  count_bonded, emit_event, check_height, bitmap_or_new, attest,
}
use go_execution_abci.Network.MsgServer.Attest.{CanAttest, attested, attest_steps}

-- Bit `index` of the bitmap of a height or an epoch, while there is none the value 0.
abbrev pub bit_in : Option Bytes → ℕ → Bool
bit_in none index = false
bit_in (some bitmap) index = is_set bitmap (pos index)

bit_in-bitmap_or_new :
    (env : Env) (o : Option Bytes) (bitmap : Bytes) (j : ℕ)
    → bitmap_or_new env o ≡ ok bitmap
    → is_set bitmap (pos j) ≡ bit_in o j
unfolding bitmap_or_new
bit_in-bitmap_or_new env (some b) bitmap j h = ground arith
bit_in-bitmap_or_new env none bitmap j h =
    let (validators, _, e) = then_ok-eq-ok env.get_last_validators _ h in
    ground (arith, new_bitmap_lem (count_bonded 0 validators) j)

-- Writing a bit in the bitmap of one key sets that bit and leaves all others, of every key.
bit_in-put :
    {K : Type 0} ⦃e : Eq K⦄ (m : Map.Map K Bytes) (env : Env) (k j : K) (bitmap : Bytes)
    (index i : ℕ)
    → bitmap_or_new env (Map.get m k) ≡ ok bitmap
    → index < length bitmap * 8
    → bit_in (Map.get (Map.put m k (set_bit bitmap (pos index))) j) i
      ≡ (if k == j && index == i then true else bit_in (Map.get m j) i)
bit_in-put ⦃e⦄ m env k j bitmap index i found room = rw Map.get-put (elim (Bool-cases (k == j)) [
  | inl same ↦ rw same (
      rw (← (e.beq_iff k j).0 same) (
        rw (is_set-set_bit bitmap index i room)
          (ground (arith, bit_in-bitmap_or_new env (Map.get m k) bitmap i found))))
  | inr other ↦ rw other
])

-- The test of the height reads the parameters alone.
check_height-params :
    (height : ℤ) (s t : State) → t.params ≡ s.params → check_height height t ≡ check_height height s
unfolding check_height is_checkpoint_height
check_height-params height s t e = ground arith

attest_refused :
    (env : Env) (block_height : ℤ) (msg : MsgAttest) (s : State) (index : ℕ) (bitmap : Bytes)
    → check_height msg.height s ≡ ok tt
    → is_in_attester_set s msg.validator ≡ true
    → get_validator_index s msg.validator ≡ some index
    → get_attestation_bitmap s msg.height ≡ some bitmap
    → is_set bitmap (pos index) ≡ true
    → attest env block_height msg s ≡ (err invalid_request, s)
unfolding attest bitmap_or_new
attest_refused env block_height msg s index bitmap height member indexed at_height set =
    ground arith

module _ (env : Env) (block_height : ℤ) (msg : MsgAttest) where
  -- A validator that may attest, with an index within the bitmaps, does: then exactly its bit is added,
  -- in the bitmap of the height and in that of the current epoch; its vote is stored, and no other vote
  -- changes; parameters, attester set, validator indices and powers, and stored results stay.
  pub attest_votes :
      (s : State) (index : ℕ) (bitmap : Bytes) (epoch : ℕ) (epoch_bitmap : Bytes)
      → CanAttest env block_height msg s index bitmap epoch epoch_bitmap
      → index < length bitmap * 8
      → index < length epoch_bitmap * 8
      → (s' : State) × (attest env block_height msg s ≡ (ok tt, s'))
        × ((h : ℤ) (i : ℕ)
            → bit_in (get_attestation_bitmap s' h) i ≡ (
                if msg.height == h && index == i
                then true
                else bit_in (get_attestation_bitmap s h) i))
        × ((e i : ℕ)
            → bit_in (get_epoch_bitmap s' e) i
              ≡ (if epoch == e && index == i then true else bit_in (get_epoch_bitmap s e) i))
        × ((h : ℤ) (v : String)
            → get_signature s' h v ≡ (
                if (msg.height == h) && (msg.validator == v)
                then ok msg.vote
                else get_signature s h v))
        × (s'.params ≡ s.params)
        × (s'.attester_set ≡ s.attester_set)
        × (s'.validator_index ≡ s.validator_index)
        × (s'.validator_power ≡ s.validator_power)
        × (s'.stored_attestation_info ≡ s.stored_attestation_info)
  unfolding get_attestation_bitmap get_epoch_bitmap get_signature set_attestation_bitmap
      set_epoch_bitmap set_signature emit_event
  attest_votes s index bitmap epoch epoch_bitmap can room epoch_room = (
    attested env block_height msg s index bitmap epoch epoch_bitmap,
    (attest_steps env block_height msg s _).1 (index, bitmap, epoch, epoch_bitmap, can, refl),
    λ h i. bit_in-put s.attestation_bitmap env msg.height h bitmap index i can.at_height room,
    λ e i. bit_in-put s.epoch_bitmap env epoch e epoch_bitmap index i can.at_epoch epoch_room,
    λ h v. ground (arith, Map.get-put s.signatures (msg.height, msg.validator) (h, v) msg.vote),
    refl,
    refl,
    refl,
    refl,
    refl,
  )

  is_set_written :
      (bitmap : Bytes) (index : ℕ)
      → index < length bitmap * 8
      → is_set (set_bit bitmap (pos index)) (pos index) ≡ true
  is_set_written bitmap index room =
      is_set-set_bit bitmap index index room ∙ ground (arith, ==_refl index)

  -- After a validator with an index within the bitmap has attested a height, a second attestation of
  -- that height by it is refused as an invalid request and changes nothing, at whatever block height
  -- and with whatever vote it comes.
  pub attest_twice :
      (s s' : State) (index : ℕ) (bitmap : Bytes) (epoch : ℕ) (epoch_bitmap : Bytes) (later : ℤ)
      (vote : Bytes)
      → CanAttest env block_height msg s index bitmap epoch epoch_bitmap
      → index < length bitmap * 8
      → attest env block_height msg s ≡ (ok tt, s')
      → attest env later (record msg { vote = vote }) s' ≡ (err invalid_request, s')
  unfolding set_attestation_bitmap set_epoch_bitmap set_signature emit_event check_height
      is_in_attester_set get_validator_index get_attestation_bitmap is_checkpoint_height
  attest_twice s s' index bitmap epoch epoch_bitmap later vote can room done =
      let final : s' ≡ attested env block_height msg s index bitmap epoch epoch_bitmap =
        ap (λ r. r.1)
          (sym done
            ∙ (attest_steps env block_height msg s _).1
                (index, bitmap, epoch, epoch_bitmap, can, refl)) in
      rw final (
        attest_refused env later (record msg { vote = vote })
          (attested env block_height msg s index bitmap epoch epoch_bitmap) index
          (set_bit bitmap (pos index)) (check_height-params msg.height s _ refl ∙ can.height)
          can.member can.indexed
          (Map.get-put_self s.attestation_bitmap msg.height (set_bit bitmap (pos index)))
          (is_set_written bitmap index room))

  -- A validator whose index lies beyond the bitmap of the height, which was made for the validators
  -- bonded at its first attestation, attests with success and its bit is not set: the bitmap stays as it
  -- was, and the same attestation succeeds once more.
  pub attest_beyond :
      (s : State) (index : ℕ) (bitmap : Bytes) (epoch : ℕ) (epoch_bitmap : Bytes)
      → CanAttest env block_height msg s index bitmap epoch epoch_bitmap
      → length bitmap * 8 ≤ index
      → (s' s'' : State) × (attest env block_height msg s ≡ (ok tt, s'))
        × (get_attestation_bitmap s' msg.height ≡ some bitmap)
        × (attest env block_height msg s' ≡ (ok tt, s''))
  unfolding set_attestation_bitmap set_epoch_bitmap set_signature emit_event check_height
      is_in_attester_set get_validator_index get_attestation_bitmap get_epoch_bitmap
      get_current_epoch is_checkpoint_height bitmap_or_new
  attest_beyond s index bitmap epoch epoch_bitmap can beyond =
      let s' : State = attested env block_height msg s index bitmap epoch epoch_bitmap in
      let kept : Map.get s'.attestation_bitmap msg.height ≡ some bitmap =
        Map.get-put_self s.attestation_bitmap msg.height (set_bit bitmap (pos index))
        ∙ ap some (set_bit_beyond bitmap index beyond) in
      let again : CanAttest env block_height msg s' index bitmap epoch
          (set_bit epoch_bitmap (pos index)) =
        record {
          height = check_height-params msg.height s s' refl ∙ can.height;
          member = can.member;
          indexed = can.indexed;
          at_height = rw kept;
          fresh = can.fresh;
          in_epoch = can.in_epoch;
          at_epoch = rw (Map.get-put_self s.epoch_bitmap epoch (set_bit epoch_bitmap (pos index)));
        } in
      (
        s',
        attested env block_height msg s' index bitmap epoch (set_bit epoch_bitmap (pos index)),
        (attest_steps env block_height msg s _).1 (index, bitmap, epoch, epoch_bitmap, can, refl),
        kept,
        (attest_steps env block_height msg s' _).1
            (index, bitmap, epoch, set_bit epoch_bitmap (pos index), again, refl),
      )

  -- With parameters that have an epoch length and a staking keeper that answers, a failing Attest leaves
  -- the state as it was.
  pub attest_fails_clean :
      (s s' : State) (e : Error) (validators : List Validator)
      → (get_params s).epoch_length ≢ 0
      → env.get_last_validators ≡ ok validators
      → attest env block_height msg s ≡ (err e, s')
      → s' ≡ s
  unfolding attest get_current_epoch get_epoch_bitmap set_attestation_bitmap set_signature
      bitmap_or_new
  attest_fails_clean s s' e validators running answers h = ground arith
