-- ===== src/Network/Invariant/Messages.antt =====
-- The handlers of the messages keep what the collections of modules/network hold at any time.
use go_execution_abci.Prelude.{ℕ, refl, String, [], ◌∷◌, not, ◌==◌, string_eq, nat_eq}
use go_execution_abci.Prelude.Int.{ℤ, ℤ_eq, pos}
use go_execution_abci.Prelude.Exec.{ok, or_err, ensure, Keeps, reads-Keeps, step-Keeps, modify}
use go_execution_abci.Network.Bitmap.{Bytes, is_set, set_bit}
use go_execution_abci.Network.Types.{
  Error, Event, MsgAttest, MsgUpdateParams, Env, State, unauthorized, invalid_request, not_found,
  invalid_address, invalid_signer, Params,
}
use go_execution_abci.Network.Types.Validate.{validate_params}
use go_execution_abci.Network.Keeper.{
  set_attestation_bitmap, set_signature, set_epoch_bitmap, set_attester_set_member,
  remove_attester_set_member, set_params, get_attestation_bitmap, get_epoch_bitmap,
  get_current_epoch, get_validator_index, is_in_attester_set,
}
use go_execution_abci.Network.MsgServer.{
  attest, attest_event, validator_event, join_attester_set, leave_attester_set, update_params,
  emit_event, check_height, bitmap_or_new,
}
use go_execution_abci.Network.Invariant.{IsSound, IsSound-frame}

modify-Keeps :
    (f : State → State)
    → ((s : State) → IsSound s → IsSound (f s))
    → Keeps {E = Error} IsSound (modify f)
modify-Keeps f h = record { keeps = h }

pub set_attestation_bitmap-IsSound :
    (h : ℤ) (b : Bytes) (s : State) → IsSound s → IsSound (set_attestation_bitmap h b s)
unfolding set_attestation_bitmap
set_attestation_bitmap-IsSound h b s v = IsSound-frame s _ refl refl refl v

set_signature-IsSound :
    (h : ℤ) (a : String) (b : Bytes) (s : State) → IsSound s → IsSound (set_signature h a b s)
unfolding set_signature
set_signature-IsSound h a b s v = IsSound-frame s _ refl refl refl v

set_epoch_bitmap-IsSound :
    (e : ℕ) (b : Bytes) (s : State) → IsSound s → IsSound (set_epoch_bitmap e b s)
unfolding set_epoch_bitmap
set_epoch_bitmap-IsSound e b s v = IsSound-frame s _ refl refl refl v

pub emit_event-Keeps : (e : Event) → Keeps {E = Error} IsSound (modify (emit_event e))
unfolding emit_event
emit_event-Keeps e = modify-Keeps _ (λ s v. IsSound-frame s _ refl refl refl v)

pub attest-Keeps :
    (env : Env) (height : ℤ) (msg : MsgAttest) → Keeps IsSound (attest env height msg)
unfolding attest
attest-Keeps env height msg = reads-Keeps IsSound (check_height msg.height) λ _.
    reads-Keeps IsSound (λ s. ok (is_in_attester_set s msg.validator))
      λ has.
        reads-Keeps IsSound (λ _. ensure has unauthorized)
          λ _.
            reads-Keeps IsSound (λ s. or_err (get_validator_index s msg.validator) not_found)
              λ index.
                reads-Keeps IsSound (λ s. bitmap_or_new env (get_attestation_bitmap s msg.height))
                  λ bitmap.
                    reads-Keeps IsSound
                      (λ _. ensure (not (is_set bitmap (pos index))) invalid_request)
                      λ _.
                        step-Keeps IsSound
                          (modify (set_attestation_bitmap msg.height (set_bit bitmap (pos index))))
                          (set_attestation_bitmap-IsSound msg.height (set_bit bitmap (pos index)))
                          λ _.
                            step-Keeps IsSound
                              (modify (set_signature msg.height msg.validator msg.vote))
                              (set_signature-IsSound msg.height msg.validator msg.vote)
                              λ _. reads-Keeps IsSound (get_current_epoch height) λ epoch.
                                reads-Keeps IsSound
                                  (λ s. bitmap_or_new env (get_epoch_bitmap s epoch))
                                  λ epoch_bitmap.
                                    step-Keeps IsSound
                                      (modify
                                        (set_epoch_bitmap epoch (set_bit epoch_bitmap (pos index))))
                                      (set_epoch_bitmap-IsSound epoch
                                        (set_bit epoch_bitmap (pos index)))
                                      λ _. emit_event-Keeps (attest_event env msg)

pub set_attester_set_member-IsSound :
    (a : String) (s : State) → IsSound s → IsSound (set_attester_set_member a s)
unfolding set_attester_set_member
set_attester_set_member-IsSound a s v = IsSound-frame s _ refl refl refl v

remove_attester_set_member-IsSound :
    (a : String) (s : State) → IsSound s → IsSound (remove_attester_set_member a s)
unfolding remove_attester_set_member
remove_attester_set_member-IsSound a s v = IsSound-frame s _ refl refl refl v

pub set_params-IsSound : (p : Params) (s : State) → IsSound s → IsSound (set_params p s)
unfolding set_params
set_params-IsSound p s v = IsSound-frame s _ refl refl refl v

pub join_attester_set-Keeps :
    (env : Env) (validator : String) → Keeps IsSound (join_attester_set env validator)
unfolding join_attester_set validator_event
join_attester_set-Keeps env validator =
    reads-Keeps IsSound (λ _. or_err (env.val_address_from_bech32 validator) invalid_address)
      λ val_addr.
        reads-Keeps IsSound (λ _. env.get_validator val_addr)
          λ val.
            reads-Keeps IsSound (λ _. ensure val.is_bonded invalid_request)
              λ _.
                reads-Keeps IsSound (λ s. ok (is_in_attester_set s validator))
                  λ has.
                    reads-Keeps IsSound (λ _. ensure (not has) invalid_request)
                      λ _.
                        step-Keeps IsSound (modify (set_attester_set_member validator))
                          (set_attester_set_member-IsSound validator)
                          λ _. emit_event-Keeps (validator_event "join_attester_set" validator)

pub leave_attester_set-Keeps : (validator : String) → Keeps IsSound (leave_attester_set validator)
unfolding leave_attester_set validator_event
leave_attester_set-Keeps validator =
    reads-Keeps IsSound (λ s. ok (is_in_attester_set s validator))
      λ has.
        reads-Keeps IsSound (λ _. ensure has invalid_request)
          λ _.
            step-Keeps IsSound (modify (remove_attester_set_member validator))
              (remove_attester_set_member-IsSound validator)
              λ _. emit_event-Keeps (validator_event "leave_attester_set" validator)

pub update_params-Keeps :
    (env : Env) (msg : MsgUpdateParams) → Keeps IsSound (update_params env msg)
unfolding update_params
update_params-Keeps env msg =
    reads-Keeps IsSound (λ _. ensure (env.authority == msg.authority) invalid_signer)
      λ _.
        reads-Keeps IsSound (λ _. validate_params env msg.params)
          λ _.
            step-Keeps IsSound (modify (set_params msg.params)) (set_params-IsSound msg.params) λ _.
              emit_event-Keeps
                record { kind = "update_params"; attributes = ("authority", msg.authority) ∷ [] }
