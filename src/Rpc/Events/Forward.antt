-- ===== src/Rpc/Events/Forward.antt =====
-- pkg/rpc/core/events.go: what a subscriber is sent.
use go_execution_abci.Prelude.{
  arith, Bool-cases, ◌≡◌, ◌⊎◌, inl, inr, refl, ap, ◌∙◌, Bool, true, false, ◌||◌, not, List, [], ◌∷◌,
  ◌++◌,
}
use go_execution_abci.Rpc.Events.{
  Received, message, canceled, Response, event, slow_client, closing, forward,
}

module _ {M : Type 0} (close_if_slow : Bool) where
  -- What the goroutine goes on after.
  abbrev pub goes_on : Received M → Bool
  goes_on (message m written) = written || not close_if_slow
  goes_on (canceled reason) = false

  -- What it sends for an input before the last.
  abbrev pub sent : List (Received M) → List (Response M)
  sent [] = []
  sent (message m written ∷ rest) = event m ∷ sent rest
  sent (canceled reason ∷ rest) = sent rest

  abbrev pub last_sent : Received M → List (Response M)
  last_sent (message m written) = event m ∷ slow_client ∷ []
  last_sent (canceled reason) = closing reason

  abbrev pub AllGoOn : List (Received M) → Type 0
  AllGoOn [] = Unit {0}
  AllGoOn (r ∷ rest) = (goes_on r ≡ true) × AllGoOn rest

  -- The inputs up to the first that ends the goroutine.
  pub record Ended (inputs : List (Received M)) : Type 0 where
    pub before : List (Received M)
    pub last : Received M
    pub rest : List (Received M)
    pub split : inputs ≡ before ++ last ∷ rest
    pub went_on : AllGoOn before
    pub ends : goes_on last ≡ false

  forward_on :
      (r : Received M) (rest : List (Received M))
      → goes_on r ≡ true
      → forward close_if_slow (r ∷ rest)
        ≡ (sent (r ∷ []) ++ (forward close_if_slow rest).0, (forward close_if_slow rest).1)
  unfolding forward
  forward_on (message m true) rest h = refl
  forward_on (message m false) rest h = ground arith
  forward_on (canceled reason) rest h = cc

  forward_end :
      (r : Received M) (rest : List (Received M))
      → goes_on r ≡ false
      → forward close_if_slow (r ∷ rest) ≡ (last_sent r, false)
  unfolding forward
  forward_end (message m true) rest h = cc
  forward_end (message m false) rest h = ground arith
  forward_end (canceled reason) rest h = refl

  sent-cons :
      (r : Received M) (rest : List (Received M)) → sent (r ∷ []) ++ sent rest ≡ sent (r ∷ rest)
  sent-cons (message m written) rest = refl
  sent-cons (canceled reason) rest = refl

  sent-cons-append :
      (r : Received M) (rest : List (Received M)) (l : List (Response M))
      → sent (r ∷ []) ++ (sent rest ++ l) ≡ sent (r ∷ rest) ++ l
  sent-cons-append (message m written) rest l = refl
  sent-cons-append (canceled reason) rest l = refl

  -- What is sent for an input, before what is sent for the others.
  abbrev behind : Received M → List (Response M) × Bool → List (Response M) × Bool
  behind r (l, running) = (sent (r ∷ []) ++ l, running)

  -- The goroutine sends the event of each message that it receives, in their order and once, up to the
  -- first input that ends it: a message that cannot be written while slow clients are dropped, or the
  -- end of the subscription. After this input it sends the one error that belongs to it, none if the
  -- client unsubscribed, and nothing more; without such an input it still runs.
  pub forward_lem :
      (inputs : List (Received M))
      → (AllGoOn inputs × (forward close_if_slow inputs ≡ (sent inputs, true)))
        ⊎ ((e : Ended inputs) × (forward close_if_slow inputs
              ≡ (sent e.before ++ last_sent e.last, false)))
  forward_lem [] = inl (tt, unfold forward in refl)
  forward_lem (r ∷ rest) = elim (Bool-cases (goes_on r)) [
    | inr e ↦ inr (
      record { before = []; last = r; rest = rest; split = refl; went_on = tt; ends = e },
      forward_end r rest e,
    )
    | inl g ↦ elim (forward_lem rest) [
      | inl (all, run) ↦ inl (
        (g, all),
        forward_on r rest g ∙ ap (behind r) run ∙ ap (λ l. (l, true)) (sent-cons r rest),
      )
      | inr (e, run) ↦ inr (
        record {
          before = r ∷ e.before;
          last = e.last;
          rest = e.rest;
          split = ap (λ l. r ∷ l) e.split;
          went_on = (g, e.went_on);
          ends = e.ends;
        },
        forward_on r rest g
            ∙ ap (behind r) run
            ∙ ap (λ l. (l, false)) (sent-cons-append r e.before (last_sent e.last)),
      )
    ]
  ]
