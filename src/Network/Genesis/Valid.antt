-- ===== src/Network/Genesis/Valid.antt =====
-- modules/network/genesis.go after types/genesis.go: the state that a valid genesis state gives.
use go_execution_abci.Prelude.{
  ℕ, ◌<◌, ◌%◌, ◌≡◌, refl, ap, ◌∙◌, String, true, false, ◌==◌, string_eq, nat_eq, none, some, List,
  [], ◌∷◌, arith, Bool-cases, inl, inr, ltb, length,
}
use go_execution_abci.Prelude.Int.{u16_mod}
use go_execution_abci.Prelude.Map
use go_execution_abci.Prelude.Exec.{ok, then_ok-eq-ok}
use go_execution_abci.Network.Types.{AttestationBitmap, ValidatorIndex, GenesisState, Env, State}
use go_execution_abci.Network.Types.Validate.{
  mem_str, mem_nat, validate_indices, validate_params, validate_genesis, IsValidParams,
  validate_params_iff,
}
use go_execution_abci.Network.Keeper.{
  set_params, set_validator_index, set_attester_set_member, get_validator_index,
  get_validator_power, is_in_attester_set,
}
use go_execution_abci.Network.Genesis.{blank, init_validators, init_bitmaps, init_genesis}
use go_execution_abci.Network.Genesis.Start.{init_validators_frame}
use go_execution_abci.Network.Genesis.Export.Results.{
  Alike, Alike-refl, Alike-trans, init_bitmap-Adds,
}

-- All of the entries have the property.
abbrev pub Each : {A : Type 0} → (A → Type 0) → List A → Type 0
Each P [] = Unit {0}
Each P (x ∷ xs) = P x × Each P xs

-- The validator has another address.
abbrev pub Unlisted : String → ValidatorIndex → Type 0
Unlisted a vi = (vi.address == a) ≡ false

-- No two validators share an address or an index.
abbrev Apart : List ValidatorIndex → Type 0
Apart [] = Unit {0}
Apart (vi ∷ rest) =
    Each (λ v. ((v.address == vi.address) ≡ false) × ((v.index == vi.index) ≡ false)) rest
    × Apart rest

-- What the maps of Validate have not seen.
abbrev Unseen : List String → List ℕ → List ValidatorIndex → Type 0
Unseen addresses used =
    Each (λ v. (mem_str v.address addresses ≡ false) × (mem_nat v.index used ≡ false))

split_seen :
    (a : String) (i : ℕ) (addresses : List String) (used : List ℕ) (vis : List ValidatorIndex)
    → Unseen (a ∷ addresses) (i ∷ used) vis
    → Unseen addresses used vis
      × Each (λ v. ((v.address == a) ≡ false) × ((v.index == i) ≡ false)) vis
unfolding mem_str mem_nat
split_seen a i addresses used [] h = (tt, tt)
split_seen a i addresses used (v ∷ vis) ((h, k), rest) =
    let (unseen, apart) = split_seen a i addresses used vis rest in
    ((ground arith, unseen), (ground arith, apart))

validate_indices-Apart :
    (addresses : List String) (used : List ℕ) (vis : List ValidatorIndex)
    → validate_indices addresses used vis ≡ ok tt
    → Unseen addresses used vis × Apart vis
unfolding validate_indices
validate_indices-Apart addresses used [] h = (tt, tt)
validate_indices-Apart addresses used (vi ∷ vis) h =
    elim (Bool-cases (mem_str vi.address addresses)) [
      | inl e ↦ cc (rw e at h)
      | inr fresh ↦ elim (Bool-cases (mem_nat vi.index used)) [
        | inl e ↦ cc (rw (fresh, e) at h)
        | inr new ↦
            let (unseen, apart) =
              validate_indices-Apart (vi.address ∷ addresses) (vi.index ∷ used) vis
                (rw (fresh, new) at h) in
            let (older, others) = split_seen vi.address vi.index addresses used vis unseen in
            (((fresh, new), older), (others, apart))
      ]
    ]

has-put_self : (m : Map.Map String (Unit {0})) (a : String) → Map.has (Map.put m a tt) a ≡ true
has-put_self m a = rw (Map.has-get (Map.put m a tt) a, Map.get-put_self m a tt) refl

has-nil : (a : String) → Map.has {V = Unit {0}} [] a ≡ false
has-nil a = rw (Map.has-get {V = Unit {0}} [] a, Map.get-nil {V = Unit {0}} a) refl

-- One round of the loop over the validators.
abbrev joined : ValidatorIndex → State → State
joined vi s =
    set_attester_set_member vi.address
      (set_validator_index vi.address (vi.index % u16_mod) vi.power s)

-- An address of none of the validators keeps its index and its place in or out of the set.
addresses_frame :
    (vis : List ValidatorIndex) (s : State) (a : String)
    → Each (Unlisted a) vis
    → (Map.get (init_validators vis s).validator_index a ≡ Map.get s.validator_index a)
      × (Map.has (init_validators vis s).attester_set a ≡ Map.has s.attester_set a)
unfolding init_validators set_attester_set_member set_validator_index Map.has
addresses_frame [] s a h = (refl, refl)
addresses_frame (vi ∷ vis) s a (other, rest) =
    let (index, member) = addresses_frame vis (joined vi s) a rest in
    (
      index ∙ Map.get-put s.validator_index vi.address a (vi.index % u16_mod) ∙ rw other refl,
      member ∙ ground (arith, Map.get-put s.attester_set vi.address a tt),
    )

-- An index of none of the validators keeps its power.
powers_frame :
    (vis : List ValidatorIndex) (s : State) (i : ℕ)
    → Each (λ v. (v.index % u16_mod == i) ≡ false) vis
    → Map.get (init_validators vis s).validator_power i ≡ Map.get s.validator_power i
unfolding init_validators set_attester_set_member set_validator_index
powers_frame [] s i h = refl
powers_frame (vi ∷ vis) s i (other, rest) =
    powers_frame vis (joined vi s) i rest
    ∙ Map.get-put s.validator_power (vi.index % u16_mod) i vi.power
    ∙ rw other refl

-- What the state holds of a validator of the genesis state.
abbrev pub Stands : State → ValidatorIndex → Type 0
Stands s vi =
    (get_validator_index s vi.address ≡ some vi.index)
    × (get_validator_power s vi.index ≡ ok vi.power)
    × (is_in_attester_set s vi.address ≡ true)

abbrev pub Short : ValidatorIndex → Type 0
Short vi = vi.index < u16_mod

others-Unlisted :
    (vi : ValidatorIndex) (vis : List ValidatorIndex)
    → Each (λ v. ((v.address == vi.address) ≡ false) × ((v.index == vi.index) ≡ false)) vis
    → Each Short vis
    → Each (Unlisted vi.address) vis × Each (λ v. (v.index % u16_mod == vi.index) ≡ false) vis
others-Unlisted vi [] h b = (tt, tt)
others-Unlisted vi (v ∷ vis) ((address, index), rest) (short, b) =
    let (addresses, indices) = others-Unlisted vi vis rest b in
    let same : v.index % u16_mod ≡ v.index = omega arith in
    ((address, addresses), (rw (same) index, indices))

first-Stands :
    (vi : ValidatorIndex) (vis : List ValidatorIndex) (s : State)
    → Apart (vi ∷ vis)
    → Each Short (vi ∷ vis)
    → Stands (init_validators vis (joined vi s)) vi
unfolding get_validator_index get_validator_power is_in_attester_set set_validator_index
    set_attester_set_member
first-Stands vi vis s (apart, _) (short, b) =
    let (others, indices) = others-Unlisted vi vis apart b in
    let (index, member) = addresses_frame vis (joined vi s) vi.address others in
    let same : vi.index % u16_mod ≡ vi.index = omega arith in
    (
      index ∙ Map.get-put_self s.validator_index vi.address (vi.index % u16_mod) ∙ ap some same,
      rw
          (
            powers_frame vis (joined vi s) vi.index indices,
            same,
            Map.get-put_self s.validator_power vi.index vi.power,
          )
          refl,
      member ∙ has-put_self s.attester_set vi.address,
    )

init_validators-Stands :
    (vis : List ValidatorIndex) (s : State)
    → Apart vis
    → Each Short vis
    → Each (Stands (init_validators vis s)) vis
unfolding init_validators
init_validators-Stands [] s apart b = tt
init_validators-Stands (vi ∷ vis) s (others, apart) (short, b) = (
  first-Stands vi vis s (others, apart) (short, b),
  init_validators-Stands vis (joined vi s) apart b,
)

init_bitmaps-Alike :
    (abs : List AttestationBitmap) (s : State)
    → (t : State) × (init_bitmaps abs s ≡ (ok tt, t)) × Alike s t
unfolding init_bitmaps
init_bitmaps-Alike [] s = (s, refl, Alike-refl s)
init_bitmaps-Alike (ab ∷ abs) s =
    let (t, ran, added) = init_bitmap-Adds ab s in
    let (u, went, others) = init_bitmaps-Alike abs t in
    (u, rw (ran, went) refl, Alike-trans added.alike others)

-- The state that a valid genesis state gives.
pub record IsStarted (env : Env) (gs : GenesisState) (t : State) : Type 0 where
  pub params : t.params ≡ some gs.params
  pub valid : IsValidParams env gs.params
  pub listed : Each (Stands t) gs.validator_indices
  pub unlisted :
      (a : String)
      → Each (Unlisted a) gs.validator_indices
      → (get_validator_index t a ≡ none) × (is_in_attester_set t a ≡ false)

Stands-cong :
    (s t : State) (vis : List ValidatorIndex)
    → Alike s t
    → Each (Stands s) vis
    → Each (Stands t) vis
unfolding get_validator_index get_validator_power is_in_attester_set
Stands-cong s t [] same h = tt
Stands-cong s t (vi ∷ vis) same ((index, power, member), rest) = (
  (rw (same.indices) index, rw (same.powers) power, rw (same.attesters) member),
  Stands-cong s t vis same rest,
)

blank-Unlisted :
    (gs : GenesisState) (t : State) (a : String)
    → Alike (init_validators gs.validator_indices (set_params gs.params blank)) t
    → Each (Unlisted a) gs.validator_indices
    → (get_validator_index t a ≡ none) × (is_in_attester_set t a ≡ false)
unfolding get_validator_index is_in_attester_set set_params
blank-Unlisted gs t a same others =
    let (index, member) =
      addresses_frame gs.validator_indices (set_params gs.params blank) a others in
    (
      ap (λ m. Map.get m a) same.indices ∙ index ∙ Map.get-nil a,
      ap (λ m. Map.has m a) same.attesters ∙ member ∙ has-nil a,
    )

validate_genesis-parts :
    (env : Env) (gs : GenesisState)
    → validate_genesis env gs ≡ ok tt
    → IsValidParams env gs.params × Apart gs.validator_indices
unfolding validate_genesis
validate_genesis-parts env gs h =
    let (_, params, rest) = then_ok-eq-ok (validate_params env gs.params) _ h in
    elim (Bool-cases (ltb 65535 (length gs.validator_indices))) [
      | inl many ↦ cc (rw many at rest)
      | inr few ↦
          let (_, indices, _) =
            then_ok-eq-ok (validate_indices [] [] gs.validator_indices) _ (rw few at rest) in
          (
            (validate_params_iff env gs.params).0 params,
            (validate_indices-Apart [] [] gs.validator_indices indices).1,
          )
    ]

-- A chain starts from each genesis state that Validate accepts, if its indices are below 65536, which
-- Validate does not ask: InitGenesis succeeds on the empty state, the parameters are those given and
-- within their bounds, each validator listed has its own index, its power at this index and its place
-- in the attester set, and an address that is not listed has no index and is not in the set.
pub init_genesis-validated :
    (env : Env) (gs : GenesisState)
    → validate_genesis env gs ≡ ok tt
    → Each Short gs.validator_indices
    → (t : State) × (init_genesis gs blank ≡ (ok tt, t)) × IsStarted env gs t
unfolding init_genesis
init_genesis-validated env gs h short =
    let start : State = init_validators gs.validator_indices (set_params gs.params blank) in
    let (t, ran, same) = init_bitmaps-Alike gs.attestation_bitmaps start in
    let (valid, apart) = validate_genesis-parts env gs h in
    let (params, _, _, _, _) =
      init_validators_frame gs.validator_indices (set_params gs.params blank) in
    (
      t,
      ran,
      record {
        params = same.params ∙ params ∙ (unfold set_params in refl);
        valid = valid;
        listed =
            Stands-cong start t gs.validator_indices same (
              init_validators-Stands gs.validator_indices (set_params gs.params blank) apart short);
        unlisted = λ a. blank-Unlisted gs t a same;
      },
    )
