-- ===== src/Network/Genesis/Export.antt =====
-- modules/network/genesis.go: what a chain that starts from an exported genesis holds.
mod Indices
pub mod Results
use go_execution_abci.Prelude.{
  ℕ, ◌≡◌, refl, String, Option, none, some, List, [], ◌∷◌, ◌||◌, sym, ◌∙◌, ap, Bool, true, false,
  string_eq, nat_eq,
}
use go_execution_abci.Prelude.Int.{ℤ, ℤ_eq}
use go_execution_abci.Prelude.Map
use go_execution_abci.Prelude.Exec.{ok, or_err}
use go_execution_abci.Network.Types.{not_found, AttestationBitmap, GenesisState, State}
use go_execution_abci.Network.Keeper.{
  get_params, set_params, get_validator_index, get_validator_power, get_attestation_bitmap,
  is_in_attester_set,
}
use go_execution_abci.Network.Genesis.{
  Walks, blank, init_validators, init_bitmaps, init_genesis, export_bitmaps, export_indices,
  export_genesis,
}
use go_execution_abci.Network.Genesis.Start.{bitmap_of, init_validators_frame}
use go_execution_abci.Network.Invariant.{IsSound}
use go_execution_abci.Network.Invariant.Calls.{Reached, Reached-IsSound}
use Indices.{
  exported, IsIndex, export_indices_ok, index-init_validators, member-init_validators,
  power-init_validators,
}
use Results.{OwnHeight, Restores, init_bitmaps-Restores}

-- What of a state `s` is in the state `t` of the chain that starts from its exported genesis.
pub record Survives (s t : State) : Type 0 where
  pub params : t.params ≡ some (get_params s)
  pub indices : (a : String) → get_validator_index t a ≡ get_validator_index s a
  pub powers :
      (a : String) (i : ℕ)
      → get_validator_index s a ≡ some i
      → get_validator_power t i ≡ get_validator_power s i
  pub attesters : (a : String) → is_in_attester_set t a ≡ Map.has s.validator_index a
  pub results : (h : ℤ) → Map.get t.stored_attestation_info h ≡ Map.get s.stored_attestation_info h
  pub bitmaps :
      (h : ℤ) → get_attestation_bitmap t h ≡ bitmap_of (Map.get s.stored_attestation_info h)
  pub votes : t.signatures ≡ []
  pub epochs : t.epoch_bitmap ≡ []

or_false : (b : Bool) → (b || false) ≡ b
or_false true = refl
or_false false = refl

survives :
    (s : State) (l : List (String × ℕ)) (k : List (ℤ × AttestationBitmap)) (t : State)
    → Map.All (IsIndex s) l
    → Map.IsDistinct l
    → ((a : String) → Map.get l a ≡ Map.get s.validator_index a)
    → ((h : ℤ) → Map.get k h ≡ Map.get s.stored_attestation_info h)
    → Restores k (init_validators (exported s l) (set_params (get_params s) blank)) t
    → Survives s t
unfolding get_validator_index get_validator_power is_in_attester_set get_attestation_bitmap
    set_params Map.get Map.has
survives s l k t all d indices results back =
    let start : State = set_params (get_params s) blank in
    let (params, bitmaps, infos, votes, epochs) = init_validators_frame (exported s l) start in
    record {
      params = back.alike.params ∙ params ∙ refl;
      indices = λ a.
          ap (λ m. Map.get m a) back.alike.indices
          ∙ index-init_validators s l start a d all
          ∙ ap (λ o. Map.over o (Map.get start.validator_index a)) (indices a)
          ∙ Map.over-none (Map.get s.validator_index a);
      powers = λ a i found.
          ap (λ m. or_err (Map.get m i) not_found) back.alike.powers
          ∙ ap (λ o. or_err o not_found)
              (power-init_validators s l start a i all (indices a ∙ found));
      attesters = λ a.
          ap (λ m. Map.has m a) back.alike.attesters
          ∙ member-init_validators s l start a
          ∙ or_false (Map.has l a)
          ∙ Map.has-cong l s.validator_index a (indices a);
      results = λ h.
          back.results h
          ∙ ap (λ m. Map.over (Map.get k h) (Map.get m h)) infos
          ∙ Map.over-none (Map.get k h)
          ∙ results h;
      bitmaps = λ h.
          back.bitmaps h
          ∙ ap (λ m. Map.over (bitmap_of (Map.get k h)) (Map.get m h)) bitmaps
          ∙ Map.over-none (bitmap_of (Map.get k h))
          ∙ ap bitmap_of (results h);
      votes = back.alike.votes ∙ votes ∙ refl;
      epochs = back.alike.epochs ∙ epochs ∙ refl;
    }

-- A state that calls reach exports without a panic, and a new chain starts from the genesis that is
-- exported. It has the same parameters, validator indices, powers of indices, and results; but the
-- members of its attester set are the validators with an index, whether they were members or not, the
-- bitmaps are those of the results alone, and the votes and the bitmaps of epochs are gone.
pub export_genesis-init_genesis :
    (walks : Walks) {s : State}
    → Map.IsWalk walks.validator_index
    → Map.IsWalk walks.stored_attestation_info
    → Reached s
    → (gs : GenesisState) × (t : State) × (export_genesis walks s ≡ ok gs)
      × (init_genesis gs blank ≡ (ok tt, t))
      × Survives s t
unfolding export_genesis init_genesis
export_genesis-init_genesis walks {s = s} wi wr r =
    let v : IsSound s = Reached-IsSound r in
    let l : List (String × ℕ) = walks.validator_index s.validator_index in
    let all : Map.All (IsIndex s) l =
      Map.All-get (IsIndex s) l (wi.walk-IsDistinct s.validator_index)
        (λ a i found. v.indexed a i (sym (wi.get-walk s.validator_index a) ∙ found)) in
    let k : List (ℤ × AttestationBitmap) =
      walks.stored_attestation_info s.stored_attestation_info in
    let own : Map.All OwnHeight k =
      Map.All-get OwnHeight k (wr.walk-IsDistinct s.stored_attestation_info)
        (λ h ab found. v.stored h ab (sym (wr.get-walk s.stored_attestation_info h) ∙ found)) in
    let start : State = init_validators (exported s l) (set_params (get_params s) blank) in
    let (t, ran, back) =
      init_bitmaps-Restores k start (wr.walk-IsDistinct s.stored_attestation_info) own in
    (
      record {
        params = get_params s;
        validator_indices = exported s l;
        attestation_bitmaps = export_bitmaps k;
      },
      t,
      rw (export_indices_ok s l all) refl,
      ran,
      survives s l k t all (wi.walk-IsDistinct s.validator_index) (wi.get-walk s.validator_index)
          (wr.get-walk s.stored_attestation_info) back,
    )
