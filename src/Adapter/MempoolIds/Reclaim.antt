-- ===== src/Adapter/MempoolIds/Reclaim.antt =====
-- What is given back when a peer is reclaimed, and what is not.
use go_execution_abci.Prelude.{
  ℕ, ◌+◌, ◌%◌, ◌<◌, ◌≡◌, ◌≢◌, refl, sym, ap, ◌∙◌, String, true, false, none, some, arith, ◌==◌,
  nat_eq, string_eq, if◌then◌else◌, length, Option-cases, inl, inr,
}
use go_execution_abci.Prelude.Int.{u16_mod}
use go_execution_abci.Prelude.Map
use go_execution_abci.Prelude.Exec.{ok}
use go_execution_abci.Adapter.MempoolIds.{MempoolIds, assign, reserve_for_peer, reclaim}
use go_execution_abci.Adapter.MempoolIds.Search.{restrict-le}
use go_execution_abci.Adapter.MempoolIds.Ids.{IsValid, has-put, next_peer_id_ok}

abbrev without : String → ℕ → MempoolIds → MempoolIds
without peer i ids = record ids {
  active_ids = Map.remove ids.active_ids i;
  peer_map = Map.remove ids.peer_map peer;
}

reclaim_known :
    (peer : String) (i : ℕ) (ids : MempoolIds)
    → Map.get ids.peer_map peer ≡ some i
    → reclaim peer ids ≡ without peer i ids
unfolding reclaim
reclaim_known peer i ids known = ground arith

reclaim_unknown :
    (peer : String) (ids : MempoolIds) → Map.get ids.peer_map peer ≡ none → reclaim peer ids ≡ ids
unfolding reclaim
reclaim_unknown peer ids unknown = ground arith

has-remove :
    (m : Map.Map ℕ (Unit {0})) (k j : ℕ)
    → Map.has (Map.remove m k) j ≡ (if k == j then false else Map.has m j)
unfolding Map.has
has-remove m k j = ground (arith, Map.get-remove m k j)

without-IsValid :
    (peer : String) (i : ℕ) (ids : MempoolIds)
    → IsValid ids
    → Map.get ids.peer_map peer ≡ some i
    → IsValid (without peer i ids)
without-IsValid peer i ids v known = record {
  used = λ p j h. ground (
    arith,
    Map.get-remove ids.peer_map peer p,
    has-remove ids.active_ids i j,
    v.used p j,
    v.distinct peer p i known,
    string_eq.beq_iff peer p,
  );
  distinct = λ p q j h k. ground (
    arith,
    Map.get-remove ids.peer_map peer p,
    Map.get-remove ids.peer_map peer q,
    v.distinct p q j,
  );
  nonzero = λ p j h. ground (arith, Map.get-remove ids.peer_map peer p, v.nonzero p j);
  reserved = ground (arith, has-remove ids.active_ids i 0, v.reserved, v.nonzero peer i known);
  bounded =
      unfold Map.remove in
      omega (arith, restrict-le (λ j. if j == i then false else true) ids.active_ids, v.bounded);
  next = v.next;
}

-- Reclaim keeps a valid state valid: the peer has no id any more and its id is free again, and other
-- peers keep theirs.
pub reclaim_lem :
    (peer : String) (ids : MempoolIds)
    → IsValid ids
    → IsValid (reclaim peer ids)
      × (Map.get (reclaim peer ids).peer_map peer ≡ none)
      × ((i : ℕ)
          → Map.get ids.peer_map peer ≡ some i
          → Map.has (reclaim peer ids).active_ids i ≡ false)
      × ((q : String) → peer ≢ q → Map.get (reclaim peer ids).peer_map q ≡ Map.get ids.peer_map q)
reclaim_lem peer ids v = elim (Option-cases (Map.get ids.peer_map peer)) [
  | inl unknown ↦
      rw (reclaim_unknown peer ids unknown) (v, unknown, (λ i h. ground arith), λ q h. refl)
  | inr (i, known) ↦ rw (reclaim_known peer i ids known) (
    without-IsValid peer i ids v known,
    ground (arith, Map.get-remove ids.peer_map peer peer, string_eq.beq_iff peer peer),
    (λ j h. ground (arith, has-remove ids.active_ids i j)),
    λ q h. ground (arith, Map.get-remove ids.peer_map peer q, string_eq.beq_iff peer q),
  )
]

-- When a peer that has an id reserves another one, its first id leaks: after the peer is reclaimed,
-- no peer has that id, and it stays used.
pub reserve_for_peer_leaks :
    (peer : String) (i : ℕ) (ids : MempoolIds)
    → IsValid ids
    → length ids.active_ids < 65535
    → Map.get ids.peer_map peer ≡ some i
    → (ids' : MempoolIds) × (reserve_for_peer peer ids ≡ (ok tt, ids'))
      × (Map.has (reclaim peer ids').active_ids i ≡ true)
      × ((q : String) → Map.get (reclaim peer ids').peer_map q ≢ some i)
unfolding reserve_for_peer
reserve_for_peer_leaks peer i ids v room known =
    let (j, given, free) = next_peer_id_ok ids v room in
    let ids' : MempoolIds = assign peer j (record ids { next_id = (j + 1) % u16_mod }) in
    let held : Map.get ids'.peer_map peer ≡ some j =
      unfold assign in Map.get-put_self ids.peer_map peer j in
    (
      ids',
      ground arith,
      rw (reclaim_known peer j ids' held) (
          unfold assign in
          ground (
            arith,
            has-remove (Map.put ids.active_ids j tt) j i,
            has-put ids.active_ids j i,
            v.used peer i known,
          )),
      λ q h.
          let left : Map.get (Map.remove ids'.peer_map peer) q ≡ some i =
            ap (λ t. Map.get t.peer_map q) (sym (reclaim_known peer j ids' held)) ∙ h in
          unfold assign in
          ground (
            arith,
            Map.get-remove (Map.put ids.peer_map peer j) peer q,
            Map.get-put ids.peer_map peer q j,
            v.distinct peer q i known,
            string_eq.beq_iff peer q,
          ),
    )
