-- ===== src/Adapter/MempoolIds.antt =====
-- pkg/adapter/mempool_ids.go: the short ids of the mempool's peers. The mutex makes each method a step
-- of its own. A peer id is a text, and the set of used ids a map to the unit type.
pub mod Search
pub mod Ids
pub mod Reclaim
use go_execution_abci.Prelude.{
  ℕ, zero, suc, ◌+◌, ◌%◌, ◌^◌, String, Bool, true, false, Option, none, some, [], ◌∷◌, ◌==◌, nat_eq,
  string_eq, if◌then◌else◌, length,
}
use go_execution_abci.Prelude.Int.{u16_mod}
use go_execution_abci.Prelude.Map
use go_execution_abci.Prelude.Exec.{Outcome, ok, panic, Exec, ◌>>=◌, ◌>>◌, pure, modify}

abbrev pub max_active_ids : ℕ
max_active_ids = 65535

pub record MempoolIds : Type 0 where
  pub peer_map : Map.Map String ℕ
  pub next_id : ℕ
  pub active_ids : Map.Map ℕ (Unit {0})

unfoldable pub new_mempool_ids : MempoolIds
new_mempool_ids = record { peer_map = []; next_id = 1; active_ids = (0, tt) ∷ [] }

-- The loop of nextPeerID; `none` once the fuel is spent.
unfoldable pub search : ℕ → Map.Map ℕ (Unit {0}) → ℕ → Option ℕ
search zero active id = none
search (suc fuel) active id =
    let later = search fuel active ((id + 1) % u16_mod) in
    if Map.has active id then later else some id

-- The methods return no errors; they may panic. One round for each used id and one more are enough
-- fuel, so the last case is not met.
unfoldable pub next_peer_id : Exec (Unit {0}) MempoolIds ℕ
next_peer_id ids =
    if length ids.active_ids == max_active_ids
    then (panic, ids)
    else elim (search (suc (length ids.active_ids)) ids.active_ids ids.next_id) [
      | some id ↦ (ok id, record ids { next_id = (id + 1) % u16_mod })
      | none ↦ (panic, ids)
    ]

unfoldable pub assign : String → ℕ → MempoolIds → MempoolIds
assign peer id ids = record ids {
  peer_map = Map.put ids.peer_map peer id;
  active_ids = Map.put ids.active_ids id tt;
}

unfoldable pub reserve_for_peer : String → Exec (Unit {0}) MempoolIds (Unit {0})
reserve_for_peer peer = do id ← next_peer_id; modify (assign peer id)

unfoldable pub reclaim : String → MempoolIds → MempoolIds
reclaim peer ids = elim (Map.get ids.peer_map peer) [
  | some id ↦ record ids {
    active_ids = Map.remove ids.active_ids id;
    peer_map = Map.remove ids.peer_map peer;
  }
  | none ↦ ids
]

unfoldable pub get_for_peer : String → Exec (Unit {0}) MempoolIds ℕ
get_for_peer peer ids = elim (Map.get ids.peer_map peer) [
  | some id ↦ (ok id, ids)
  | none ↦ (next_peer_id >>= λ id. modify (assign peer id) >> pure id) ids
]
