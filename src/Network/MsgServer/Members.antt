-- ===== src/Network/MsgServer/Members.antt =====
-- Joining and leaving the attester set.
use go_execution_abci.Prelude.{
  ◌≡◌, sym, ap, ◌∙◌, String, true, false, not, some, arith, ◌==◌, string_eq, ==_refl, if◌then◌else◌,
}
use go_execution_abci.Prelude.Map
use go_execution_abci.Prelude.Exec.{
  Outcome, ok, err, or_err, ensure, continue-eq-ok, ensure-eq-ok, ensure-not-eq-ok, or_err-eq-ok,
}
use go_execution_abci.Network.Bitmap.{Bytes}
use go_execution_abci.Network.Types.{Error, invalid_request, Validator, Env, State}
use go_execution_abci.Network.Keeper.{
  is_in_attester_set, set_attester_set_member, remove_attester_set_member,
}
use go_execution_abci.Network.MsgServer.{emit_event, join_attester_set, leave_attester_set}

has-put :
    {V : Type 0} (m : Map.Map String V) (k j : String) (v : V)
    → Map.has (Map.put m k v) j ≡ (if k == j then true else Map.has m j)
has-put m k j v = rw (Map.has-get, Map.has-get, Map.get-put) (ground arith)

has-remove :
    {V : Type 0} (m : Map.Map String V) (k j : String)
    → Map.has (Map.remove m k) j ≡ (if k == j then false else Map.has m j)
has-remove m k j = rw (Map.has-get, Map.has-get, Map.get-remove) (ground arith)

-- A successful join is of a validator with a well-formed address, known to the staking keeper, bonded,
-- and not yet a member; after it exactly this validator has been added to the set.
join_attester_set_lem :
    (env : Env) (v : String) (s s' : State)
    → join_attester_set env v s ≡ (ok tt, s')
    → (addr : Bytes) × (val : Validator) × (env.val_address_from_bech32 v ≡ some addr)
      × (env.get_validator addr ≡ ok val)
      × (val.is_bonded ≡ true)
      × (is_in_attester_set s v ≡ false)
      × ((w : String) → is_in_attester_set s' w ≡ (if v == w then true else is_in_attester_set s w))
unfolding join_attester_set is_in_attester_set set_attester_set_member emit_event
join_attester_set_lem env v s s' h =
    let (addr, parsed, h₁) = continue-eq-ok (or_err (env.val_address_from_bech32 v) _) _ _ h in
    let (val, known, h₂) = continue-eq-ok (env.get_validator addr) _ _ h₁ in
    let (_, bonded, h₃) = continue-eq-ok (ensure val.is_bonded _) _ _ h₂ in
    let (_, absent, done) = continue-eq-ok (ensure (not (Map.has s.attester_set v)) _) _ _ h₃ in
    (
      addr,
      val,
      or_err-eq-ok _ _ parsed,
      known,
      ensure-eq-ok _ _ bonded,
      ensure-not-eq-ok _ _ absent,
      λ w.
          ap (λ (r : Outcome Error (Unit {0}) × State). Map.has r.1.attester_set w) (sym done)
          ∙ has-put s.attester_set v w tt,
    )

-- A successful leave is of a member, and takes exactly this validator out of the set.
leave_attester_set_lem :
    (v : String) (s s' : State)
    → leave_attester_set v s ≡ (ok tt, s')
    → (is_in_attester_set s v ≡ true)
      × ((w : String)
          → is_in_attester_set s' w ≡ (if v == w then false else is_in_attester_set s w))
unfolding leave_attester_set is_in_attester_set remove_attester_set_member emit_event
leave_attester_set_lem v s s' h =
    let (_, member, done) = continue-eq-ok (ensure (Map.has s.attester_set v) _) _ _ h in
    (
      ensure-eq-ok _ _ member,
      λ w.
          ap (λ (r : Outcome Error (Unit {0}) × State). Map.has r.1.attester_set w) (sym done)
          ∙ has-remove s.attester_set v w,
    )

leave_member :
    (v : String) (s : State)
    → is_in_attester_set s v ≡ true
    → leave_attester_set v s ≡ (ok tt, (leave_attester_set v s).1)
unfolding leave_attester_set
leave_member v s member = ground arith

-- After a successful join, a second join of the validator is refused as an invalid request with the
-- state unchanged, a leave succeeds, and after it every validator is in the set exactly if it was before
-- the join.
join-leave :
    (env : Env) (v : String) (s s' : State)
    → join_attester_set env v s ≡ (ok tt, s')
    → (join_attester_set env v s' ≡ (err invalid_request, s'))
      × ((leave_attester_set v s').0 ≡ ok tt)
      × ((w : String) → is_in_attester_set (leave_attester_set v s').1 w ≡ is_in_attester_set s w)
join-leave env v s s' h =
    let (addr, val, parsed, known, bonded, absent, joined) = join_attester_set_lem env v s s' h in
    let member : is_in_attester_set s' v ≡ true = joined v ∙ ground (arith, ==_refl v) in
    let gone : leave_attester_set v s' ≡ (ok tt, (leave_attester_set v s').1) =
      leave_member v s' member in
    (
      unfold join_attester_set in ground arith,
      ap (λ r. r.0) gone,
      λ w.
          (leave_attester_set_lem v s' (leave_attester_set v s').1 gone).1 w
          ∙ ground (
            arith,
            joined w,
            (string_eq.beq_iff v w).0,
            ap (is_in_attester_set s) {x = v} {y = w},
          ),
    )
