-- ===== src/Network/Genesis.antt =====
-- modules/network/genesis.go: how the state starts, and what of it is exported.
pub mod Start
pub mod Export
pub mod Valid
use go_execution_abci.Prelude.{
  ℕ, ◌%◌, ◌≡◌, refl, sym, ap, ◌∙◌, String, Bool, string_eq, true, false, Option, none, some, List,
  [], ◌∷◌, arith, ◌==◌, if◌then◌else◌, Bool-cases, ◌⊎◌, inl, inr,
}
use go_execution_abci.Prelude.Int.{ℤ, ℤ_eq, u16_mod}
use go_execution_abci.Prelude.Map
use go_execution_abci.Prelude.Map.{Map}
use go_execution_abci.Prelude.Exec.{
  Outcome, ok, err, panic, Exec, ◌>>=◌, ◌>>◌, pure, reads, modify, or_err, then_ok, or_panic,
}
use go_execution_abci.Network.Bitmap.{Bytes}
use go_execution_abci.Network.Types.{
  Error, not_found, AttestationBitmap, ValidatorIndex, GenesisState, State,
}
use go_execution_abci.Network.Keeper.{
  set_params, set_validator_index, set_attester_set_member, set_attestation_bitmap, get_params,
  get_validator_power,
}
use go_execution_abci.Network.EndBlock.{set_stored_attestation_info}

unfoldable pub set_soft_confirmed : ℤ → Exec Error State (Unit {0})
set_soft_confirmed height = do
  ab ← reads (λ s. or_err (Map.get s.stored_attestation_info height) not_found)
  modify (set_stored_attestation_info height (record ab { soft_confirmed = true }))

abbrev pub confirm_if : Bool → ℤ → Exec Error State (Unit {0})
confirm_if true height = set_soft_confirmed height
confirm_if false height = pure tt

-- The loop over the validator indices; an index is truncated to a uint16.
unfoldable pub init_validators : List ValidatorIndex → State → State
init_validators [] s = s
init_validators (vi ∷ rest) s = init_validators rest (
    set_attester_set_member vi.address
      (set_validator_index vi.address (vi.index % u16_mod) vi.power s))

-- One round of the loop over the attestation bitmaps.
unfoldable pub init_bitmap : AttestationBitmap → Exec Error State (Unit {0})
init_bitmap ab = do
  modify (set_attestation_bitmap ab.height ab.bitmap)
  modify (set_stored_attestation_info ab.height ab)
  confirm_if ab.soft_confirmed ab.height

unfoldable pub init_bitmaps : List AttestationBitmap → Exec Error State (Unit {0})
init_bitmaps [] = pure tt
init_bitmaps (ab ∷ rest) = init_bitmap ab >> init_bitmaps rest

unfoldable pub init_genesis : GenesisState → Exec Error State (Unit {0})
init_genesis gs = do
  modify (set_params gs.params)
  modify (init_validators gs.validator_indices)
  init_bitmaps gs.attestation_bitmaps

-- The store of a chain that starts.
abbrev pub blank : State
blank = record {
  validator_index = [];
  validator_power = [];
  attestation_bitmap = [];
  epoch_bitmap = [];
  attester_set = [];
  signatures = [];
  stored_attestation_info = [];
  params = none;
  events = [];
}

-- Walk of the two collections that are exported: the entries, in the order of the keys' bytes.
pub record Walks : Type 0 where
  pub validator_index : Map String ℕ → List (String × ℕ)
  pub stored_attestation_info : Map ℤ AttestationBitmap → List (ℤ × AttestationBitmap)

-- The walk over the validator indices, which an index without a power stops.
unfoldable pub export_indices : State → List (String × ℕ) → Outcome Error (List ValidatorIndex)
unfolding get_validator_power
export_indices s [] = ok []
export_indices s ((addr, index) ∷ rest) = then_ok (get_validator_power s index) λ power.
    then_ok (export_indices s rest)
      λ vis. ok (record { address = addr; index = index; power = power } ∷ vis)

unfoldable pub export_bitmaps : List (ℤ × AttestationBitmap) → List AttestationBitmap
export_bitmaps [] = []
export_bitmaps ((height, ab) ∷ rest) = ab ∷ export_bitmaps rest

unfoldable pub export_genesis : Walks → State → Outcome Error GenesisState
unfolding export_indices export_bitmaps get_params
export_genesis walks s =
    then_ok (or_panic (export_indices s (walks.validator_index s.validator_index))) λ vis.
      ok record {
        params = get_params s;
        validator_indices = vis;
        attestation_bitmaps =
            export_bitmaps (walks.stored_attestation_info s.stored_attestation_info);
      }
