-- ===== src/Tests/Attesters.antt =====
-- The messages of the network module on the sample chain.
use go_execution_abci.Prelude.{
  ℕ, ◌≡◌, ◌≢◌, ◌↔◌, refl, String, true, ◌&&◌, [], ◌∷◌, arith, ◌==◌, nat_eq, string_eq,
  if◌then◌else◌,
}
use go_execution_abci.Prelude.Int.{ℤ, pos, ℤ_eq}
use go_execution_abci.Prelude.Map
use go_execution_abci.Prelude.Exec.{ok, err}
use go_execution_abci.Network.Bitmap.{Bytes, set_bit, is_set, new_bitmap}
use go_execution_abci.Network.Types.{State, MsgAttest, invalid_request, MsgUpdateParams, key_eq}
use go_execution_abci.Network.Keeper.{
  get_params, get_attestation_bitmap, get_epoch_bitmap, get_signature, is_in_attester_set,
  get_validator_index, get_current_epoch, is_checkpoint_height, set_signature,
  set_attestation_bitmap,
}
use go_execution_abci.Network.MsgServer.{
  attest, join_attester_set, leave_attester_set, check_height, bitmap_or_new,
}
use go_execution_abci.Network.MsgServer.Attest.{CanAttest, attested}
use go_execution_abci.Network.MsgServer.Admission.{IsAdmitted, attest_iff}
use go_execution_abci.Network.MsgServer.Votes.{
  bit_in, attest_votes, attest_twice, attest_fails_clean,
}
use go_execution_abci.Tests.Samples.{chain, alice, carol, rules, state, vote}

steps : Unit {0}
unfolding check_height is_in_attester_set get_validator_index bitmap_or_new get_attestation_bitmap
    is_set get_current_epoch get_epoch_bitmap set_bit new_bitmap get_params is_checkpoint_height
    Map.has
steps = tt

alice_can : CanAttest chain (pos 11) vote state 0 (2 ∷ []) 1 (2 ∷ [])
unfolding steps
alice_can = record {
  height = refl;
  member = refl;
  indexed = refl;
  at_height = refl;
  fresh = refl;
  in_epoch = refl;
  at_epoch = refl;
}

attest_iff_example :
    (attest chain (pos 11) vote state
      ≡ (ok tt, attested chain (pos 11) vote state 0 (2 ∷ []) 1 (2 ∷ [])))
    ↔ ((index : ℕ) × (bitmap : Bytes) × (epoch : ℕ) × (epoch_bitmap : Bytes) × IsAdmitted chain
          (pos 11)
          vote
          state
          index
          bitmap
          epoch
          epoch_bitmap
        × (attested chain (pos 11) vote state 0 (2 ∷ []) 1 (2 ∷ [])
            ≡ attested chain (pos 11) vote state index bitmap epoch epoch_bitmap))
attest_iff_example =
    attest_iff chain (pos 11) vote state (attested chain (pos 11) vote state 0 (2 ∷ []) 1 (2 ∷ []))

attest_votes_example :
    (s' : State) × (attest chain (pos 11) vote state ≡ (ok tt, s'))
    × ((h : ℤ) (i : ℕ)
        → bit_in (get_attestation_bitmap s' h) i
          ≡ (if pos 10 == h && 0 == i then true else bit_in (get_attestation_bitmap state h) i))
    × ((e i : ℕ)
        → bit_in (get_epoch_bitmap s' e) i
          ≡ (if 1 == e && 0 == i then true else bit_in (get_epoch_bitmap state e) i))
    × ((h : ℤ) (v : String)
        → get_signature s' h v
          ≡ (if pos 10 == h && "alice" == v then ok (7 ∷ []) else get_signature state h v))
    × (s'.params ≡ state.params)
    × (s'.attester_set ≡ state.attester_set)
    × (s'.validator_index ≡ state.validator_index)
    × (s'.validator_power ≡ state.validator_power)
    × (s'.stored_attestation_info ≡ state.stored_attestation_info)
attest_votes_example =
    attest_votes chain (pos 11) vote state 0 (2 ∷ []) 1 (2 ∷ []) alice_can (omega arith)
      (omega arith)

alice_attests :
    attest chain (pos 11) vote state
    ≡ (ok tt, attested chain (pos 11) vote state 0 (2 ∷ []) 1 (2 ∷ []))
unfolding steps attest set_signature set_attestation_bitmap
alice_attests = refl

attest_twice_example :
    attest chain
      (pos 12)
      (record vote { vote = 8 ∷ [] })
      (attested chain (pos 11) vote state 0 (2 ∷ []) 1 (2 ∷ []))
    ≡ (err invalid_request, attested chain (pos 11) vote state 0 (2 ∷ []) 1 (2 ∷ []))
attest_twice_example =
    attest_twice chain (pos 11) vote state
      (attested chain (pos 11) vote state 0 (2 ∷ []) 1 (2 ∷ [])) 0 (2 ∷ []) 1 (2 ∷ []) (pos 12)
      (8 ∷ []) alice_can (omega arith) alice_attests

-- A genesis state that gave Alice index 9, beyond the one byte of the bitmaps.
abbrev far : State
far = record state { validator_index = ("alice", 9) ∷ [] }

far_can : CanAttest chain (pos 11) vote far 9 (2 ∷ []) 1 (2 ∷ [])
unfolding steps
far_can = record {
  height = refl;
  member = refl;
  indexed = refl;
  at_height = refl;
  fresh = refl;
  in_epoch = refl;
  at_epoch = refl;
}

abbrev early : MsgAttest
early = record vote { height = pos 11 }

early_refused : attest chain (pos 11) early state ≡ (err invalid_request, state)
unfolding steps attest
early_refused = refl

ten_blocks : (get_params state).epoch_length ≢ 0
unfolding get_params
ten_blocks e = omega (arith, e)

attest_fails_clean_example : state ≡ state
attest_fails_clean_example =
    attest_fails_clean chain (pos 11) early state state invalid_request (alice ∷ carol ∷ [])
      ten_blocks refl early_refused

abbrev joined : State
joined = (join_attester_set chain "alice" (record state { attester_set = [] })).1

alice_joins : join_attester_set chain "alice" (record state { attester_set = [] }) ≡ (ok tt, joined)
unfolding steps join_attester_set
alice_joins = refl

alice_leaves : leave_attester_set "alice" state ≡ (ok tt, (leave_attester_set "alice" state).1)
unfolding steps leave_attester_set
alice_leaves = refl

abbrev proposal : MsgUpdateParams
proposal = record { authority = "gov"; params = rules }
