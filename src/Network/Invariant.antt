-- ===== src/Network/Invariant.antt =====
-- What the collections of modules/network hold at any time, whatever calls have been made.
pub mod Messages
pub mod Calls
use go_execution_abci.Prelude.{
  ℕ, ◌+◌, ◌%◌, ◌<◌, ◌≡◌, refl, String, Bool, true, false, Option, none, some, List, [], ◌∷◌, arith,
  nat_eq, string_eq, if◌then◌else◌, sym, ap, ◌∙◌, ◌⊎◌, inl, inr, ◌==◌, Bool-cases, leb,
}
use go_execution_abci.Prelude.Int.{ℤ, ℤ_eq, to_u64, u16_mod, u64_mod}
use go_execution_abci.Prelude.Map
use go_execution_abci.Prelude.Exec.{
  Outcome-cases, Outcome, ok, err, panic, Exec, Keeps, >>=-Keeps, if-Keeps, reads-Keeps, step-Keeps,
  pure, modify,
}
use go_execution_abci.Network.Types.{
  Error, AttestationBitmap, MsgAttest, MsgUpdateParams, Validator, Env, State,
}
use go_execution_abci.Network.Keeper.{
  set_validator_index, index_validators, build_validator_index_map, prune_old_bitmaps, get_params,
}

-- Each validator's index is a uint16, and a power stands at it; the result stored under a height is
-- that of this height.
pub record IsSound (s : State) : Type 0 where
  pub indexed :
      (a : String) (i : ℕ)
      → Map.get s.validator_index a ≡ some i
      → (i < u16_mod) × ((p : ℕ) × (Map.get s.validator_power i ≡ some p))
  pub stored :
      (h : ℤ) (ab : AttestationBitmap)
      → Map.get s.stored_attestation_info h ≡ some ab
      → ab.height ≡ h

-- What leaves the three collections alone leaves this alone.
pub IsSound-frame :
    (s t : State)
    → t.validator_index ≡ s.validator_index
    → t.validator_power ≡ s.validator_power
    → t.stored_attestation_info ≡ s.stored_attestation_info
    → IsSound s
    → IsSound t
IsSound-frame s t e f g v = record {
  indexed = λ a i h. rw f (v.indexed a i (rw e at h));
  stored = λ k ab h. v.stored k ab (rw g at h);
}

abbrev HasPower : Map.Map ℕ ℕ → ℕ → Type 0
HasPower m i = (p : ℕ) × (Map.get m i ≡ some p)

put-HasPower :
    (m : Map.Map ℕ ℕ) (index power i : ℕ)
    → (index ≡ i) ⊎ HasPower m i
    → HasPower (Map.put m index power) i
put-HasPower m index power i (inl e) =
    (power, ap (Map.get (Map.put m index power)) (sym e) ∙ Map.get-put_self m index power)
put-HasPower m index power i (inr (p, found)) = elim (Bool-cases (index == i)) [
  | inl e ↦ (power, rw (Map.get-put m index i power, e) refl)
  | inr n ↦ (p, rw (Map.get-put m index i power, n) found)
]

pub set_validator_index-IsSound :
    (addr : String) (index power : ℕ) (s : State)
    → index < u16_mod
    → IsSound s
    → IsSound (set_validator_index addr index power s)
unfolding set_validator_index
set_validator_index-IsSound addr index power s hi v = record {
  indexed = λ a i h. elim (Bool-cases (addr == a)) [
    | inl e ↦
        let same : index ≡ i = cc (rw (Map.get-put s.validator_index addr a index, e) at h) in
        (omega arith, put-HasPower s.validator_power index power i (inl same))
    | inr n ↦
        let (lt, has) = v.indexed a i (rw (Map.get-put s.validator_index addr a index, n) at h) in
        (lt, put-HasPower s.validator_power index power i (inr has))
  ];
  stored = v.stored;
}

index_validators-IsSound :
    (vals : List Validator) (index : ℕ) (s : State)
    → index < u16_mod
    → IsSound s
    → IsSound (index_validators vals index s)
unfolding index_validators
index_validators-IsSound [] index s h v = v
index_validators-IsSound (val ∷ rest) index s h v = elim (Bool-cases val.is_bonded) [
  | inl b ↦ rw b (
      index_validators-IsSound rest ((index + 1) % u16_mod) _ (omega arith)
        (set_validator_index-IsSound val.operator_address index (to_u64 val.consensus_power) s h v))
  | inr n ↦ rw n (index_validators-IsSound rest index s h v)
]

pub build_validator_index_map-Keeps : (env : Env) → Keeps IsSound (build_validator_index_map env)
unfolding build_validator_index_map
build_validator_index_map-Keeps env = record {
  keeps = λ s v. elim (Outcome-cases env.get_all_validators) [
    | inl (vals, e) ↦ rw e (
        index_validators-IsSound vals 0 (record s { validator_index = []; validator_power = [] })
          (omega arith)
          record {
            indexed = λ a i h. cc (sym (Map.get-nil {K = String} {V = ℕ} a) ∙ h);
            stored = v.stored;
          })
    | inr (inl (x, e)) ↦ rw e v
    | inr (inr e) ↦ rw e v
  ];
}

get-restrict-eq_some :
    (p : ℤ → Bool) (m : Map.Map ℤ AttestationBitmap) (h : ℤ) {ab : AttestationBitmap}
    → Map.get (Map.restrict p m) h ≡ some ab
    → Map.get m h ≡ some ab
get-restrict-eq_some p m h found = ground (arith, Map.get-restrict p m h)

pub prune_old_bitmaps-IsSound :
    (epoch : ℕ) (s : State) → IsSound s → IsSound (prune_old_bitmaps epoch s)
unfolding prune_old_bitmaps
prune_old_bitmaps-IsSound epoch s v = elim (Bool-cases ((get_params s).prune_after == 0)) [
  | inl e ↦ rw e v
  | inr n ↦ elim (Bool-cases (leb epoch (get_params s).prune_after)) [
    | inl e ↦ rw (n, e) v
    | inr m ↦
        rw (n, m)
          record {
            indexed = v.indexed;
            stored = λ h ab found.
                v.stored h ab (get-restrict-eq_some _ s.stored_attestation_info h found);
          }
  ]
]
