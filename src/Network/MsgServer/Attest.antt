-- ===== src/Network/MsgServer/Attest.antt =====
-- What Attest does, on every branch.
use go_execution_abci.Prelude.{
  ℕ, ◌≡◌, ◌↔◌, sym, ap, ◌∙◌, true, false, not, some, arith, nat_eq, string_eq,
}
use go_execution_abci.Prelude.Int.{ℤ, pos, ℤ_eq}
use go_execution_abci.Prelude.Exec.{
  ok, or_err, ensure, continue-eq-ok, ensure-eq-ok, ensure-not-eq-ok, or_err-eq-ok,
}
use go_execution_abci.Network.Bitmap.{Bytes, set_bit, is_set}
use go_execution_abci.Network.Types.{MsgAttest, Env, State, key_eq}
use go_execution_abci.Network.Keeper.{
  get_validator_index, set_attestation_bitmap, get_attestation_bitmap, set_epoch_bitmap,
  get_epoch_bitmap, is_in_attester_set, set_signature, get_current_epoch,
}
use go_execution_abci.Network.MsgServer.{
  emit_event, check_height, bitmap_or_new, attest_event, attest,
}

module _ (env : Env) (block_height : ℤ) (msg : MsgAttest) where
  -- The guards of Attest, with the values that it computes on the way.
  pub record CanAttest (s : State) (index : ℕ) (bitmap : Bytes) (epoch : ℕ) (epoch_bitmap : Bytes)
      : Type 0 where
    pub height : check_height msg.height s ≡ ok tt
    pub member : is_in_attester_set s msg.validator ≡ true
    pub indexed : get_validator_index s msg.validator ≡ some index
    pub at_height : bitmap_or_new env (get_attestation_bitmap s msg.height) ≡ ok bitmap
    pub fresh : is_set bitmap (pos index) ≡ false
    pub in_epoch : get_current_epoch block_height s ≡ ok epoch
    pub at_epoch : bitmap_or_new env (get_epoch_bitmap s epoch) ≡ ok epoch_bitmap

  -- The state that a successful call leaves.
  abbrev pub attested : State → ℕ → Bytes → ℕ → Bytes → State
  attested s index bitmap epoch epoch_bitmap = emit_event (attest_event env msg) (
      set_epoch_bitmap epoch (set_bit epoch_bitmap (pos index)) (
        set_signature msg.height msg.validator msg.vote
          (set_attestation_bitmap msg.height (set_bit bitmap (pos index)) s)))

  attest_ok :
      (s : State) (index : ℕ) (bitmap : Bytes) (epoch : ℕ) (epoch_bitmap : Bytes)
      → CanAttest s index bitmap epoch epoch_bitmap
      → attest env block_height msg s ≡ (ok tt, attested s index bitmap epoch epoch_bitmap)
  unfolding attest get_current_epoch get_epoch_bitmap set_attestation_bitmap set_signature
  attest_ok s index bitmap epoch epoch_bitmap c = ground arith

  attest_only :
      (s s' : State)
      → attest env block_height msg s ≡ (ok tt, s')
      → (index : ℕ) × (bitmap : Bytes) × (epoch : ℕ) × (epoch_bitmap : Bytes) × CanAttest s index
          bitmap epoch epoch_bitmap
        × (s' ≡ attested s index bitmap epoch epoch_bitmap)
  unfolding attest get_current_epoch get_epoch_bitmap set_attestation_bitmap set_signature
  attest_only s s' h =
      let (_, height, h₁) = continue-eq-ok (check_height msg.height s) _ _ h in
      let (_, member, h₂) = continue-eq-ok (ensure _ _) _ _ h₁ in
      let (index, indexed, h₃) = continue-eq-ok (or_err _ _) _ _ h₂ in
      let (bitmap, at_height, h₄) = continue-eq-ok (bitmap_or_new _ _) _ _ h₃ in
      let (_, fresh, h₅) = continue-eq-ok (ensure (not (is_set bitmap (pos index))) _) _ _ h₄ in
      let (epoch, in_epoch, h₆) = continue-eq-ok (get_current_epoch block_height s) _ _ h₅ in
      let (epoch_bitmap, at_epoch, done) = continue-eq-ok (bitmap_or_new _ _) _ _ h₆ in
      (
        index,
        bitmap,
        epoch,
        epoch_bitmap,
        record {
          height = height;
          member = ensure-eq-ok _ _ member;
          indexed = or_err-eq-ok _ _ indexed;
          at_height = at_height;
          fresh = ensure-not-eq-ok _ _ fresh;
          in_epoch = in_epoch;
          at_epoch = at_epoch;
        },
        ap (λ r. r.1) (sym done),
      )

  -- The guards and the values are those of a successful call.
  pub attest_steps :
      (s s' : State)
      → (attest env block_height msg s ≡ (ok tt, s')) ↔ (
          (index : ℕ) × (bitmap : Bytes) × (epoch : ℕ) × (epoch_bitmap : Bytes) × CanAttest s index
            bitmap epoch epoch_bitmap
          × (s' ≡ attested s index bitmap epoch epoch_bitmap))
  attest_steps s s' = (
    attest_only s s',
    λ (index, bitmap, epoch, epoch_bitmap, can, e).
        attest_ok s index bitmap epoch epoch_bitmap can ∙ ap (λ t. (ok tt, t)) (sym e),
  )
