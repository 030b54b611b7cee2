-- ===== src/Tests/Exports.antt =====
-- A chain that starts, attests, ends a checkpoint, loses a member, and is exported and started again.
use go_execution_abci.Prelude.{
  ◌≡◌, refl, Bool, true, false, none, List, [], ◌∷◌, arith, Eq, if◌then◌else◌, nat_eq, string_eq,
}
use go_execution_abci.Prelude.Int.{pos, ℤ_eq}
use go_execution_abci.Prelude.Map
use go_execution_abci.Prelude.Exec.{ok}
use go_execution_abci.Network.Types.{GenesisState, State}
use go_execution_abci.Network.Invariant.{IsSound}
use go_execution_abci.Network.Invariant.Calls.{
  genesis, attests, ends, leaves, run, Reached, empty, after, Reached-IsSound,
}
use go_execution_abci.Network.Genesis.{Walks, blank, init_genesis, export_genesis}
use go_execution_abci.Network.Types.Validate.{
  validate_epoch_length, validate_fraction, validate_prune_after, validate_sign_mode,
  validate_genesis,
}
use go_execution_abci.Network.Genesis.Valid.{IsStarted, init_genesis-validated}
use go_execution_abci.Network.Genesis.Export.{Survives, export_genesis-init_genesis}
use go_execution_abci.Tests.Samples.{chain, vote}
use go_execution_abci.Tests.Geneses.{genesis as first}

-- Each key once, with its first entry.
module _ {K V : Type 0} ⦃e : Eq K⦄ where
  visits : Map.Map K V → List (K × V)
  visits [] = []
  visits ((k, v) ∷ m) = (k, v) ∷ Map.remove (visits m) k

  get-visits : (m : Map.Map K V) (k : K) → Map.get (visits m) k ≡ Map.get m k
  unfolding visits Map.get
  get-visits [] k = refl
  get-visits ((j, v) ∷ m) k = ground (arith, Map.get-remove (visits m) j k, get-visits m k)

  IsDistinct-restrict :
      (p : K → Bool) (m : Map.Map K V) → Map.IsDistinct m → Map.IsDistinct (Map.restrict p m)
  unfolding Map.restrict
  IsDistinct-restrict p [] d = tt
  IsDistinct-restrict p ((k, v) ∷ m) (fresh, d) =
      kept p k v m (p k) fresh (IsDistinct-restrict p m d)
    where
      kept :
          (p : K → Bool) (k : K) (v : V) (m : Map.Map K V) (b : Bool)
          → Map.get m k ≡ none
          → Map.IsDistinct (Map.restrict p m)
          → Map.IsDistinct (if b then (k, v) ∷ Map.restrict p m else Map.restrict p m)
      kept p k v m true fresh d = (ground (arith, Map.get-restrict p m k), d)
      kept p k v m false fresh d = d

  IsDistinct-remove : (m : Map.Map K V) (k : K) → Map.IsDistinct m → Map.IsDistinct (Map.remove m k)
  unfolding Map.remove
  IsDistinct-remove m k d = IsDistinct-restrict _ m d

  visits-IsDistinct : (m : Map.Map K V) → Map.IsDistinct (visits m)
  unfolding visits
  visits-IsDistinct [] = tt
  visits-IsDistinct ((k, v) ∷ m) = (
    ground (arith, Map.get-remove (visits m) k k, e.beq_iff k k),
    IsDistinct-remove (visits m) k (visits-IsDistinct m),
  )

  visits-IsWalk : Map.IsWalk visits
  visits-IsWalk = record { get-walk = get-visits; walk-IsDistinct = visits-IsDistinct }

abbrev walks : Walks
walks = record { validator_index = visits; stored_attestation_info = visits }

abbrev lived : State
lived =
    (run (leaves "alice")
      (run (ends chain (pos 10))
        (run (attests chain (pos 10) vote) (run (genesis first) blank).1).1).1).1

lived-Reached : Reached lived
lived-Reached =
    after
      (after
        (after (after (empty blank refl refl) (genesis first) refl) (attests chain (pos 10) vote)
          refl)
        (ends chain (pos 10)) refl)
      (leaves "alice") refl

Reached-IsSound_example : IsSound lived
Reached-IsSound_example = Reached-IsSound lived-Reached

export_genesis-init_genesis_example :
    (gs : GenesisState) × (t : State) × (export_genesis walks lived ≡ ok gs)
    × (init_genesis gs blank ≡ (ok tt, t))
    × Survives lived t
export_genesis-init_genesis_example =
    export_genesis-init_genesis walks visits-IsWalk visits-IsWalk lived-Reached

init_genesis-validated_example :
    (t : State) × (init_genesis first blank ≡ (ok tt, t)) × IsStarted chain first t
unfolding validate_genesis validate_epoch_length validate_fraction validate_prune_after
    validate_sign_mode
init_genesis-validated_example = init_genesis-validated chain first refl (omega arith, tt)
