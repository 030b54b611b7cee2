-- ===== src/Network/Genesis/Export/Indices.antt =====
-- modules/network/genesis.go: the validators' indices and powers through an export and a start.
use go_execution_abci.Prelude.{
  ℕ, ◌%◌, ◌<◌, ◌≡◌, refl, String, ◌||◌, none, some, List, [], ◌∷◌, arith, nat_eq, string_eq,
  if◌then◌else◌, sym, ◌∙◌, ◌⊎◌, inl, inr, ◌==◌, Bool-cases,
}
use go_execution_abci.Prelude.Int.{u16_mod}
use go_execution_abci.Prelude.Map
use go_execution_abci.Prelude.Exec.{ok}
use go_execution_abci.Network.Types.{ValidatorIndex, State}
use go_execution_abci.Network.Keeper.{
  set_validator_index, set_attester_set_member, is_in_attester_set,
}
use go_execution_abci.Network.Genesis.{export_indices, init_validators}

module _ (s : State) where
  abbrev pub IsIndex : String → ℕ → Type 0
  IsIndex a i = (i < u16_mod) × ((p : ℕ) × (Map.get s.validator_power i ≡ some p))

  pub power_at : ℕ → ℕ
  power_at i = elim (Map.get s.validator_power i) [ none ↦ 0 | some p ↦ p ]

  power_at_lem : (i p : ℕ) → Map.get s.validator_power i ≡ some p → power_at i ≡ p
  unfolding power_at
  power_at_lem i p e = rw (e, power_at) refl

  unfoldable pub exported : List (String × ℕ) → List ValidatorIndex
  exported [] = []
  exported ((a, i) ∷ rest) = record { address = a; index = i; power = power_at i } ∷ exported rest

  pub export_indices_ok :
      (l : List (String × ℕ)) → Map.All IsIndex l → export_indices s l ≡ ok (exported l)
  unfolding export_indices exported
  export_indices_ok [] h = refl
  export_indices_ok ((a, i) ∷ l) ((lt, (p, e)), h) =
      rw (e, export_indices_ok l h, power_at_lem i p e) refl

  -- One round of InitGenesis on an exported index.
  abbrev joined : String → ℕ → State → State
  joined a i t = set_attester_set_member a (set_validator_index a (i % u16_mod) (power_at i) t)

  index-joined :
      (a b : String) (i : ℕ) (t : State)
      → i < u16_mod
      → Map.get (joined a i t).validator_index b
        ≡ (if a == b then some i else Map.get t.validator_index b)
  unfolding set_attester_set_member set_validator_index
  index-joined a b i t h = ground (arith, Map.get-put t.validator_index a b (i % u16_mod))

  pub index-init_validators :
      (l : List (String × ℕ)) (t : State) (b : String)
      → Map.IsDistinct l
      → Map.All IsIndex l
      → Map.get (init_validators (exported l) t).validator_index b
        ≡ Map.over (Map.get l b) (Map.get t.validator_index b)
  unfolding exported init_validators Map.get
  index-init_validators [] t b d h = refl
  index-init_validators ((a, i) ∷ l) t b (fresh, d) ((lt, _), h) =
      index-init_validators l (joined a i t) b d h
      ∙ Map.over-put t.validator_index l a b i fresh (index-joined a b i t lt)

  member-joined :
      (a b : String) (i : ℕ) (t : State)
      → is_in_attester_set (joined a i t) b ≡ (a == b || is_in_attester_set t b)
  unfolding is_in_attester_set set_attester_set_member set_validator_index Map.has
  member-joined a b i t = ground (arith, Map.get-put t.attester_set a b tt)

  pub member-init_validators :
      (l : List (String × ℕ)) (t : State) (b : String)
      → is_in_attester_set (init_validators (exported l) t) b
        ≡ (Map.has l b || is_in_attester_set t b)
  unfolding exported init_validators Map.has Map.get
  member-init_validators [] t b = refl
  member-init_validators ((a, i) ∷ l) t b =
      ground (arith, member-init_validators l (joined a i t) b, member-joined a b i t)

  -- A power that stands already where the exported one would be written stays.
  power-joined :
      (a : String) (i j p : ℕ) (t : State)
      → i < u16_mod
      → Map.get s.validator_power i ≡ some p
      → (Map.get t.validator_power j ≡ Map.get s.validator_power j) ⊎ (i ≡ j)
      → Map.get (joined a i t).validator_power j ≡ Map.get s.validator_power j
  unfolding set_attester_set_member set_validator_index
  power-joined a i j p t lt e h =
      ground (arith, Map.get-put t.validator_power (i % u16_mod) j (power_at i), power_at_lem i p e)

  power_kept :
      (l : List (String × ℕ)) (t : State) (j : ℕ)
      → Map.All IsIndex l
      → Map.get t.validator_power j ≡ Map.get s.validator_power j
      → Map.get (init_validators (exported l) t).validator_power j ≡ Map.get s.validator_power j
  unfolding exported init_validators
  power_kept [] t j h k = k
  power_kept ((a, i) ∷ l) t j ((lt, (p, e)), h) k =
      power_kept l (joined a i t) j h (power-joined a i j p t lt e (inl k))

  pub power-init_validators :
      (l : List (String × ℕ)) (t : State) (b : String) (j : ℕ)
      → Map.All IsIndex l
      → Map.get l b ≡ some j
      → Map.get (init_validators (exported l) t).validator_power j ≡ Map.get s.validator_power j
  unfolding exported init_validators Map.get
  power-init_validators [] t b j h found = cc (sym (Map.get-nil {K = String} {V = ℕ} b) ∙ found)
  power-init_validators ((a, i) ∷ l) t b j ((lt, (p, e)), h) found = elim (Bool-cases (a == b)) [
    | inl same ↦
        let equal : i ≡ j = cc (rw same at found) in
        power_kept l (joined a i t) j h (power-joined a i j p t lt e (inr equal))
    | inr other ↦ power-init_validators l (joined a i t) b j h (rw other at found)
  ]
