-- ===== src/Adapter/MempoolIds/Ids.antt =====
-- The peers' ids are distinct, whatever is reserved and reclaimed.
use go_execution_abci.Prelude.{
  ℕ, suc, ◌+◌, ◌%◌, ◌≤◌, ◌<◌, ◌≡◌, ◌≢◌, refl, String, true, false, some, arith, ◌==◌, nat_eq,
  string_eq, if◌then◌else◌, length, Option-cases, inl, inr,
}
use go_execution_abci.Prelude.Int.{u16_mod}
use go_execution_abci.Prelude.Map
use go_execution_abci.Prelude.Exec.{ok}
use go_execution_abci.Adapter.MempoolIds.{
  MempoolIds, new_mempool_ids, next_peer_id, assign, reserve_for_peer, get_for_peer,
}
use go_execution_abci.Adapter.MempoolIds.Search.{search_lem, restrict-le}

-- The peers' ids are used and not 0, no two peers share one, 0 is used, at most 65535 ids are used,
-- and the next id to try is an id.
pub record IsValid (ids : MempoolIds) : Type 0 where
  pub used :
      (p : String) (i : ℕ) → Map.get ids.peer_map p ≡ some i → Map.has ids.active_ids i ≡ true
  pub distinct :
      (p q : String) (i : ℕ)
      → Map.get ids.peer_map p ≡ some i
      → Map.get ids.peer_map q ≡ some i
      → p ≡ q
  pub nonzero : (p : String) (i : ℕ) → Map.get ids.peer_map p ≡ some i → i ≢ 0
  pub reserved : Map.has ids.active_ids 0 ≡ true
  pub bounded : length ids.active_ids ≤ 65535
  pub next : ids.next_id < u16_mod

pub new_mempool_ids-IsValid : IsValid new_mempool_ids
unfolding new_mempool_ids Map.get Map.has
new_mempool_ids-IsValid = record {
  used = λ p i h. cc;
  distinct = λ p q i h k. cc;
  nonzero = λ p i h. cc;
  reserved = refl;
  bounded = omega arith;
  next = omega arith;
}

length-put : (m : Map.Map ℕ (Unit {0})) (k : ℕ) → length (Map.put m k tt) ≤ suc (length m)
unfolding Map.put Map.remove
length-put m k = omega (arith, restrict-le (λ i. if i == k then false else true) m)

pub has-put :
    (m : Map.Map ℕ (Unit {0})) (k j : ℕ)
    → Map.has (Map.put m k tt) j ≡ (if k == j then true else Map.has m j)
unfolding Map.has
has-put m k j = ground (arith, Map.get-put m k j tt)

-- A free id for a peer keeps the peers' ids in order.
assign-IsValid :
    (peer : String) (i : ℕ) (ids : MempoolIds) (next : ℕ)
    → IsValid ids
    → Map.has ids.active_ids i ≡ false
    → length ids.active_ids < 65535
    → next < u16_mod
    → IsValid (assign peer i (record ids { next_id = next }))
unfolding assign
assign-IsValid peer i ids next v free room small = record {
  used = λ p j h. ground (
    arith,
    Map.get-put ids.peer_map peer p i,
    has-put ids.active_ids i j,
    v.used p j,
    nat_eq.beq_iff i j,
  );
  distinct = λ p q j h k. ground (
    arith,
    Map.get-put ids.peer_map peer p i,
    Map.get-put ids.peer_map peer q i,
    v.used p j,
    v.used q j,
    v.distinct p q j,
    string_eq.beq_iff peer p,
    string_eq.beq_iff peer q,
  );
  nonzero = λ p j h. ground (arith, Map.get-put ids.peer_map peer p i, v.nonzero p j, v.reserved);
  reserved = ground (arith, has-put ids.active_ids i 0, v.reserved);
  bounded = omega (arith, length-put ids.active_ids i);
  next = small;
}

pub next_peer_id_ok :
    (ids : MempoolIds)
    → IsValid ids
    → length ids.active_ids < 65535
    → (i : ℕ) × (next_peer_id ids ≡ (ok i, record ids { next_id = (i + 1) % u16_mod }))
      × (Map.has ids.active_ids i ≡ false)
unfolding next_peer_id
next_peer_id_ok ids v room =
    let (i, found, free, _) = search_lem ids.next_id ids.active_ids v.next (omega arith) in
    (i, ground arith, free)

-- In a valid state with fewer than 65535 used ids, GetForPeer gives the peer an id and leaves a valid
-- state, so one that is not 0 and that no other peer has; other peers keep theirs, and asking again
-- gives the same id and changes nothing.
pub get_for_peer_lem :
    (peer : String) (ids : MempoolIds)
    → IsValid ids
    → length ids.active_ids < 65535
    → (i : ℕ) × (ids' : MempoolIds) × (get_for_peer peer ids ≡ (ok i, ids'))
      × IsValid ids'
      × (Map.get ids'.peer_map peer ≡ some i)
      × ((q : String) → peer ≢ q → Map.get ids'.peer_map q ≡ Map.get ids.peer_map q)
      × (get_for_peer peer ids' ≡ (ok i, ids'))
unfolding get_for_peer
get_for_peer_lem peer ids v room = elim (Option-cases (Map.get ids.peer_map peer)) [
  | inr (i, known) ↦ (i, ids, ground arith, v, known, (λ q h. refl), ground arith)
  | inl new ↦
      let (i, given, free) = next_peer_id_ok ids v room in
      let ids' : MempoolIds = assign peer i (record ids { next_id = (i + 1) % u16_mod }) in
      let held : Map.get ids'.peer_map peer ≡ some i =
        unfold assign in Map.get-put_self ids.peer_map peer i in
      (
        i,
        ids',
        ground arith,
        assign-IsValid peer i ids ((i + 1) % u16_mod) v free room (omega arith),
        held,
        λ q h.
            unfold assign in
            ground (arith, Map.get-put ids.peer_map peer q i, string_eq.beq_iff peer q),
        ground arith,
      )
]

-- In a valid state with fewer than 65535 used ids, ReserveForPeer gives the peer an id that was not
-- used, and leaves a valid state.
reserve_for_peer_lem :
    (peer : String) (ids : MempoolIds)
    → IsValid ids
    → length ids.active_ids < 65535
    → (i : ℕ) × (ids' : MempoolIds) × (reserve_for_peer peer ids ≡ (ok tt, ids'))
      × (Map.has ids.active_ids i ≡ false)
      × (Map.get ids'.peer_map peer ≡ some i)
      × IsValid ids'
unfolding reserve_for_peer
reserve_for_peer_lem peer ids v room =
    let (i, given, free) = next_peer_id_ok ids v room in
    (
      i,
      assign peer i (record ids { next_id = (i + 1) % u16_mod }),
      ground arith,
      free,
      (unfold assign in Map.get-put_self ids.peer_map peer i),
      assign-IsValid peer i ids ((i + 1) % u16_mod) v free room (omega arith),
    )
