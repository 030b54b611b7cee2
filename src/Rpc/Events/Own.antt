-- ===== src/Rpc/Events/Own.antt =====
-- pkg/rpc/core/events.go: the calls under way of one client.
use go_execution_abci.Prelude.{
  ℕ, zero, suc, ◌+◌, ◌≤◌, ◌≡◌, ap, ◌∙◌, String, if◌then◌else◌, none, some, List, [], ◌∷◌, arith,
  length, Option-cases, inl, inr, ◌==◌, string_eq,
}
use go_execution_abci.Rpc.Events.Running.{Stage, counted, checked, pick}

-- The calls of a client that are behind all checks.
abbrev pub own_calls : {Q : Type 0} → String → List (String × Stage Q) → ℕ
own_calls a [] = 0
own_calls a ((addr, counted query) ∷ rest) = own_calls a rest
own_calls a ((addr, checked q) ∷ rest) = (if addr == a then 1 else 0) + own_calls a rest

pub own_calls-length :
    {Q : Type 0} (a : String) (xs : List (String × Stage Q)) → own_calls a xs ≤ length xs
own_calls-length a [] = omega arith
own_calls-length a ((addr, counted query) ∷ xs) = omega (arith, own_calls-length a xs)
own_calls-length a ((addr, checked q) ∷ xs) = ground (arith, own_calls-length a xs)

own_calls-head :
    {Q : Type 0} (a : String) (x : String × Stage Q) (xs : List (String × Stage Q))
    → own_calls a (x ∷ xs) ≡ own_calls a (x ∷ []) + own_calls a xs
own_calls-head a (addr, counted query) xs = omega arith
own_calls-head a (addr, checked q) xs = omega arith

pub pick_lem :
    {Q : Type 0} (i : ℕ) (xs : List (String × Stage Q)) (c : String × Stage Q)
    (rest : List (String × Stage Q))
    → pick i xs ≡ some (c, rest)
    → (length xs ≡ suc (length rest))
      × ((a : String) → own_calls a xs ≡ own_calls a (c ∷ []) + own_calls a rest)
unfolding pick
pick_lem {Q = Q} i [] c rest h = cc
pick_lem {Q = Q} zero (x ∷ xs) c rest h =
    let same : ◌≡◌ {A = (String × Stage Q) × List (String × Stage Q)} (x, xs) (c, rest) =
      ap (λ o. elim o [ none ↦ (x, xs) | some r ↦ r ]) h in
    (
      ap (λ r. suc (length r.1)) same,
      λ a. own_calls-head a x xs ∙ ap (λ r. own_calls a (r.0 ∷ []) + own_calls a r.1) same,
    )
pick_lem {Q = Q} (suc i) (x ∷ xs) c rest h = elim (Option-cases (pick i xs)) [
  | inl e ↦ cc (rw e at h)
  | inr ((d, others), e) ↦
      let (size, own) = pick_lem i xs d others e in
      let same : ◌≡◌ {A = (String × Stage Q) × List (String × Stage Q)} (d, x ∷ others) (c, rest) =
        ap (λ o. elim o [ none ↦ (d, x ∷ others) | some r ↦ r ]) (rw e at h) in
      (
        ap suc size ∙ ap (λ r. suc (length r.1)) same,
        λ a.
            omega (arith, own_calls-head a x xs, own a, own_calls-head a x others)
            ∙ ap (λ r. own_calls a (r.0 ∷ []) + own_calls a r.1) same,
      )
]
