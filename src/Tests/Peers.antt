-- ===== src/Tests/Peers.antt =====
-- Two peers of a mempool.
use go_execution_abci.Prelude.{
  ℕ, ◌<◌, ◌≡◌, ◌≢◌, refl, String, some, [], ◌∷◌, arith, length, nat_eq, string_eq,
}
use go_execution_abci.Prelude.Map
use go_execution_abci.Prelude.Exec.{ok}
use go_execution_abci.Adapter.MempoolIds.{MempoolIds, new_mempool_ids, get_for_peer}
use go_execution_abci.Adapter.MempoolIds.Ids.{IsValid, new_mempool_ids-IsValid, get_for_peer_lem}

room : length new_mempool_ids.active_ids < 65535
unfolding new_mempool_ids
room = omega arith

get_for_peer_lem_example :
    (i : ℕ) × (ids' : MempoolIds) × (get_for_peer "a" new_mempool_ids ≡ (ok i, ids'))
    × IsValid ids'
    × (Map.get ids'.peer_map "a" ≡ some i)
    × ((q : String) → "a" ≢ q → Map.get ids'.peer_map q ≡ Map.get new_mempool_ids.peer_map q)
    × (get_for_peer "a" ids' ≡ (ok i, ids'))
get_for_peer_lem_example = get_for_peer_lem "a" new_mempool_ids new_mempool_ids-IsValid room

abbrev one_peer : MempoolIds
one_peer = record { peer_map = ("a", 1) ∷ []; next_id = 2; active_ids = (1, tt) ∷ (0, tt) ∷ [] }

one_peer-IsValid : IsValid one_peer
unfolding Map.get Map.has
one_peer-IsValid = record {
  used = λ p i h. ground arith;
  distinct = λ p q i h k. ground (arith, string_eq.beq_iff "a" p, string_eq.beq_iff "a" q);
  nonzero = λ p i h. ground arith;
  reserved = refl;
  bounded = omega arith;
  next = omega arith;
}

a_has_1 : Map.get one_peer.peer_map "a" ≡ some 1
unfolding Map.get
a_has_1 = refl
