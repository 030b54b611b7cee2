-- ===== src/Network/MsgServer.antt =====
-- modules/network/keeper/msg_server.go: the handlers of the module's messages.
pub mod Attest
pub mod Admission
pub mod Votes
pub mod Members
pub mod Governance
use go_execution_abci.Prelude.{
  ℕ, ◌+◌, ◌%◌, String, Bool, true, false, ◌&&◌, not, Option, none, some, List, [], ◌∷◌, ◌==◌,
  nat_eq, string_eq, if◌then◌else◌,
}
use go_execution_abci.Prelude.Int.{ℤ, pos}
use go_execution_abci.Prelude.Exec.{
  Outcome, ok, err, panic, then_ok, or_err, ensure, Exec, ◌>>=◌, ◌>>◌, pure, reads, gets, modify,
  guard,
}
use go_execution_abci.Network.Bitmap.{Bytes, new_bitmap, set_bit, is_set}
use go_execution_abci.Network.Types.{
  Error, invalid_request, unauthorized, not_found, invalid_address, invalid_signer, SignMode,
  unspecified, checkpoint, other, Params, MsgAttest, MsgUpdateParams, Event, Validator, Env, State,
}
use go_execution_abci.Network.Types.Validate.{validate_params}
use go_execution_abci.Network.Keeper.{
  get_params, set_params, get_validator_index, set_attestation_bitmap, get_attestation_bitmap,
  set_epoch_bitmap, get_epoch_bitmap, is_in_attester_set, set_attester_set_member,
  remove_attester_set_member, set_signature, get_current_epoch, is_checkpoint_height,
}

unfoldable pub emit_event : Event → State → State
emit_event e s = record s { events = e ∷ s.events }

-- `GetParams(ctx).SignMode == CHECKPOINT && !IsCheckpointHeight(..)`, and the error that follows.
abbrev pub checkpoint_guard : SignMode → ℤ → State → Outcome Error (Unit {0})
checkpoint_guard checkpoint height s =
    then_ok (is_checkpoint_height height s) λ is_checkpoint. ensure is_checkpoint invalid_request
checkpoint_guard unspecified height s = ok tt
checkpoint_guard (other m) height s = ok tt

unfoldable pub check_height : ℤ → State → Outcome Error (Unit {0})
unfolding get_params
check_height height s = checkpoint_guard (get_params s).sign_mode height s

-- The count of bonded validators, in three places of the module.
unfoldable pub count_bonded : ℕ → List Validator → ℕ
count_bonded n [] = n
count_bonded n (v ∷ rest) = count_bonded (if v.is_bonded then n + 1 else n) rest

-- `if bitmap == nil { … NewBitmap(numValidators) }`.
unfoldable pub bitmap_or_new : Env → Option Bytes → Outcome Error Bytes
unfolding count_bonded new_bitmap
bitmap_or_new env (some bitmap) = ok bitmap
bitmap_or_new env none =
    then_ok env.get_last_validators λ validators. ok (new_bitmap (count_bonded 0 validators))

unfoldable pub attest_event : Env → MsgAttest → Event
attest_event env msg = record {
  kind = "attest";
  attributes = ("validator", msg.validator) ∷ ("height", env.int_string msg.height) ∷ [];
}

unfoldable pub attest : Env → ℤ → MsgAttest → Exec Error State (Unit {0})
attest env block_height msg = do
  reads (check_height msg.height)
  has ← gets (λ s. is_in_attester_set s msg.validator)
  guard has unauthorized
  index ← reads (λ s. or_err (get_validator_index s msg.validator) not_found)
  bitmap ← reads (λ s. bitmap_or_new env (get_attestation_bitmap s msg.height))
  guard (not (is_set bitmap (pos index))) invalid_request
  modify (set_attestation_bitmap msg.height (set_bit bitmap (pos index)))
  modify (set_signature msg.height msg.validator msg.vote)
  epoch ← reads (get_current_epoch block_height)
  epoch_bitmap ← reads (λ s. bitmap_or_new env (get_epoch_bitmap s epoch))
  modify (set_epoch_bitmap epoch (set_bit epoch_bitmap (pos index)))
  modify (emit_event (attest_event env msg))

unfoldable pub validator_event : String → String → Event
validator_event kind validator = record { kind = kind; attributes = ("validator", validator) ∷ [] }

unfoldable pub join_attester_set : Env → String → Exec Error State (Unit {0})
unfolding validator_event
join_attester_set env validator = do
  val_addr ← reads (λ _. or_err (env.val_address_from_bech32 validator) invalid_address)
  val ← reads (λ _. env.get_validator val_addr)
  guard val.is_bonded invalid_request
  has ← gets (λ s. is_in_attester_set s validator)
  guard (not has) invalid_request
  modify (set_attester_set_member validator)
  modify (emit_event (validator_event "join_attester_set" validator))

unfoldable pub leave_attester_set : String → Exec Error State (Unit {0})
unfolding validator_event
leave_attester_set validator = do
  has ← gets (λ s. is_in_attester_set s validator)
  guard has invalid_request
  modify (remove_attester_set_member validator)
  modify (emit_event (validator_event "leave_attester_set" validator))

unfoldable pub update_params : Env → MsgUpdateParams → Exec Error State (Unit {0})
update_params env msg = do
  guard (env.authority == msg.authority) invalid_signer
  reads (λ _. validate_params env msg.params)
  modify (set_params msg.params)
  modify (
      emit_event
        (record { kind = "update_params"; attributes = ("authority", msg.authority) ∷ [] }))
