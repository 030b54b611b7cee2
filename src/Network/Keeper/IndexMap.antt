-- ===== src/Network/Keeper/IndexMap.antt =====
-- BuildValidatorIndexMap numbers the bonded validators by their place in the staking keeper's list.
use go_execution_abci.Prelude.{
  ℕ, zero, suc, ◌+◌, ◌%◌, ◌<◌, ◌≤◌, ◌≡◌, ◌≢◌, refl, ap, subst, ◌∙◌, String, none, some, List, [],
  ◌∷◌, arith, nat_eq, string_eq, length, get_elem?, keep, inl, inr, Bool-cases,
}
use go_execution_abci.Prelude.Int.{to_u64, u16_mod}
use go_execution_abci.Prelude.Map
use go_execution_abci.Prelude.Exec.{ok}
use go_execution_abci.Network.Types.{Validator, Env, State}
use go_execution_abci.Network.Keeper.{
  set_validator_index, get_validator_index, get_validator_power, index_validators,
  build_validator_index_map,
}

abbrev pub bonded_of : List Validator → List Validator
bonded_of = keep (λ v. v.is_bonded)

-- The loop over validators that are all bonded.
index_bonded : List Validator → ℕ → State → State
index_bonded [] index s = s
index_bonded (v ∷ rest) index s =
    index_bonded rest ((index + 1) % u16_mod)
      (set_validator_index v.operator_address index (to_u64 v.consensus_power) s)

skip_unbonded :
    (vs : List Validator) (index : ℕ) (s : State)
    → index_validators vs index s ≡ index_bonded (bonded_of vs) index s
unfolding index_validators index_bonded
skip_unbonded [] index s = refl
skip_unbonded (v ∷ vs) index s = elim (Bool-cases v.is_bonded) [
  | inl on ↦ rw on (
      skip_unbonded vs ((index + 1) % u16_mod)
        (set_validator_index v.operator_address index (to_u64 v.consensus_power) s))
  | inr off ↦ rw off (skip_unbonded vs index s)
]

-- The same with a counter that does not wrap.
index_plain : List Validator → ℕ → State → State
index_plain [] index s = s
index_plain (v ∷ rest) index s =
    index_plain rest (index + 1)
      (set_validator_index v.operator_address index (to_u64 v.consensus_power) s)

no_wrap :
    (vs : List Validator) (index : ℕ) (s : State)
    → index + length vs ≤ u16_mod
    → index_bonded vs index s ≡ index_plain vs index s
unfolding index_bonded index_plain
no_wrap [] index s room = refl
no_wrap (v ∷ []) index s room = refl
no_wrap (v ∷ w ∷ vs) index s room =
    let t : State = set_validator_index v.operator_address index (to_u64 v.consensus_power) s in
    let next : (index + 1) % u16_mod ≡ index + 1 = omega arith in
    ap (λ (i : ℕ). index_bonded (w ∷ vs) i t) next ∙ no_wrap (w ∷ vs) (index + 1) t (omega arith)

-- No validator of the list has the address.
abbrev pub Absent : String → List Validator → Type 0
Absent a [] = Unit {0}
Absent a (v ∷ vs) = (v.operator_address ≢ a) × Absent a vs

-- The addresses in the list are distinct.
abbrev pub Distinct : List Validator → Type 0
Distinct [] = Unit {0}
Distinct (v ∷ vs) = Absent v.operator_address vs × Distinct vs

index-Absent :
    (vs : List Validator) (index : ℕ) (s : State) (a : String)
    → Absent a vs
    → Map.get (index_plain vs index s).validator_index a ≡ Map.get s.validator_index a
unfolding index_plain set_validator_index
index-Absent [] index s a h = refl
index-Absent (v ∷ vs) index s a h =
    index-Absent vs (index + 1)
      (set_validator_index v.operator_address index (to_u64 v.consensus_power) s) a h.1
    ∙ Map.get-put s.validator_index v.operator_address a index
    ∙ ground (arith, h.0, string_eq.beq_iff v.operator_address a)

power-below :
    (vs : List Validator) (index : ℕ) (s : State) (j : ℕ)
    → j < index
    → Map.get (index_plain vs index s).validator_power j ≡ Map.get s.validator_power j
unfolding index_plain set_validator_index
power-below [] index s j lt = refl
power-below (v ∷ vs) index s j lt =
    power-below vs (index + 1)
      (set_validator_index v.operator_address index (to_u64 v.consensus_power) s) j (omega arith)
    ∙ Map.get-put s.validator_power index j (to_u64 v.consensus_power)
    ∙ ground arith

-- What the map says of the validator at place i.
abbrev At : State → ℕ → Validator → Type 0
At t i v =
    (Map.get t.validator_index v.operator_address ≡ some i)
    × (Map.get t.validator_power i ≡ some (to_u64 v.consensus_power))

index-first :
    (v : Validator) (vs : List Validator) (index : ℕ) (s : State)
    → Absent v.operator_address vs
    → At (index_plain (v ∷ vs) index s) index v
unfolding index_plain set_validator_index
index-first v vs index s absent =
    let t : State = set_validator_index v.operator_address index (to_u64 v.consensus_power) s in
    (
      index-Absent vs (index + 1) t v.operator_address absent
          ∙ Map.get-put_self s.validator_index v.operator_address index,
      power-below vs (index + 1) t index (omega arith)
          ∙ Map.get-put_self s.validator_power index (to_u64 v.consensus_power),
    )

index-present :
    (vs : List Validator) (index : ℕ) (s : State) (i : ℕ) (v : Validator)
    → Distinct vs
    → get_elem? vs i ≡ some v
    → At (index_plain vs index s) (index + i) v
unfolding index_plain
index-present [] index s i v d at = cc
index-present (w ∷ vs) index s zero v d at =
    let e : w ≡ v = cc in
    let place : index ≡ index + 0 = omega arith in
    subst (λ u. At (index_plain (w ∷ vs) index s) (index + 0) u) e
      (subst (λ j. At (index_plain (w ∷ vs) index s) j w) place (index-first w vs index s d.0))
index-present (w ∷ vs) index s (suc i) v d at =
    let t : State = set_validator_index w.operator_address index (to_u64 w.consensus_power) s in
    let place : index + 1 + i ≡ index + suc i = omega arith in
    subst (λ j. At (index_plain vs (index + 1) t) j v) place
      (index-present vs (index + 1) t i v d.1 at)

-- With a staking keeper that answers and at most 65536 bonded validators of distinct addresses,
-- BuildValidatorIndexMap succeeds; then the i-th bonded validator has index i and its consensus power
-- stands at i, and an address that is no bonded validator's has no index.
pub build_validator_index_map_lem :
    (env : Env) (s : State) (vs : List Validator)
    → env.get_all_validators ≡ ok vs
    → Distinct (bonded_of vs)
    → length (bonded_of vs) ≤ u16_mod
    → (s' : State) × (build_validator_index_map env s ≡ (ok tt, s'))
      × ((i : ℕ) (v : Validator)
          → get_elem? (bonded_of vs) i ≡ some v
          → (get_validator_index s' v.operator_address ≡ some i)
            × (get_validator_power s' i ≡ ok (to_u64 v.consensus_power)))
      × ((a : String) → Absent a (bonded_of vs) → get_validator_index s' a ≡ none)
unfolding build_validator_index_map get_validator_index get_validator_power
build_validator_index_map_lem env s vs answers distinct room =
    let empty : State = record s { validator_index = []; validator_power = [] } in
    let built : index_validators vs 0 empty ≡ index_plain (bonded_of vs) 0 empty =
      skip_unbonded vs 0 empty ∙ no_wrap (bonded_of vs) 0 empty (omega arith) in
    (
      index_plain (bonded_of vs) 0 empty,
      rw answers (ap (λ (t : State). (ok tt, t)) built),
      λ i v at.
          let place : 0 + i ≡ i = omega arith in
          let here : At (index_plain (bonded_of vs) 0 empty) i v =
            subst (λ j. At (index_plain (bonded_of vs) 0 empty) j v) place
              (index-present (bonded_of vs) 0 empty i v distinct at) in
          (here.0, rw here.1),
      λ a absent. index-Absent (bonded_of vs) 0 empty a absent ∙ Map.get-nil a,
    )
