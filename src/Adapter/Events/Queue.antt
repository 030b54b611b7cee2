-- ===== src/Adapter/Events/Queue.antt =====
-- pkg/adapter/adapter.go: the part of the queue of events that may be released.
use go_execution_abci.Prelude.{
  ℕ, suc, ◌+◌, ◌≡◌, ◌⊎◌, inl, inr, refl, ap, ◌∙◌, Bool, true, false, ◌&&◌, if◌then◌else◌, length,
  take, drop, Option, some, List, [], ◌∷◌, ◌++◌, arith, Bool-cases, nat_eq,
}
use go_execution_abci.Prelude.Int.{ℤ, leb_ℤ}
use go_execution_abci.Adapter.Types.{StackedEvent}
use go_execution_abci.Adapter.Events.{max_pos_released}

-- An event that may be published: its height is final, and not held back by the filter.
abbrev pub releasable : (ℤ → Bool) → ℤ → StackedEvent → Bool
releasable publishable persisted_height e =
    leb_ℤ e.block.header.height persisted_height && publishable e.block.header.height

abbrev pub Waiting : (ℤ → Bool) → ℤ → List StackedEvent → Type 0
Waiting publishable persisted_height [] = Unit {0}
Waiting publishable persisted_height (e ∷ es) =
    (releasable publishable persisted_height e ≡ false) × Waiting publishable persisted_height es

-- A queue up to its last event that may be published, and what waits behind it.
pub record Split (publishable : ℤ → Bool) (persisted_height : ℤ) (es : List StackedEvent)
    : Type 0 where
  pub before : List StackedEvent
  pub event : StackedEvent
  pub waiting : List StackedEvent
  pub split : es ≡ before ++ event ∷ waiting
  pub last_releasable : releasable publishable persisted_height event ≡ true
  pub rest_waits : Waiting publishable persisted_height waiting

pub max_pos_released_lem :
    (p : ℤ → Bool) (h : ℤ) (es : List StackedEvent) (i : ℕ) (found : Option ℕ)
    → ((max_pos_released p h es i found ≡ found) × Waiting p h es)
      ⊎ ((s : Split p h es) × (max_pos_released p h es i found ≡ some (i + length s.before)))
unfolding max_pos_released
max_pos_released_lem p h [] i found = inl (refl, tt)
max_pos_released_lem p h (v ∷ vs) i found =
    elim (max_pos_released_lem p h vs (suc i) (if releasable p h v then some i else found)) [
      | inr (s, last) ↦ inr (
        record {
          before = v ∷ s.before;
          event = s.event;
          waiting = s.waiting;
          split = ap (λ r. v ∷ r) s.split;
          last_releasable = s.last_releasable;
          rest_waits = s.rest_waits;
        },
        last ∙ ap some (omega arith),
      )
      | inl (last, waits) ↦ elim (Bool-cases (releasable p h v)) [
        | inr held ↦ inl (last ∙ rw held refl, (held, waits))
        | inl free ↦ inr (
          record {
            before = [];
            event = v;
            waiting = vs;
            split = refl;
            last_releasable = free;
            rest_waits = waits;
          },
          last ∙ rw free (ap some (omega arith)),
        )
      ]
    ]

pub take_split :
    (a : List StackedEvent) (e : StackedEvent) (b : List StackedEvent)
    → take (suc (length a)) (a ++ e ∷ b) ≡ a ++ e ∷ []
take_split [] e b = refl
take_split (x ∷ a) e b = ap (λ r. x ∷ r) (take_split a e b)

pub drop_split :
    (a : List StackedEvent) (e : StackedEvent) (b : List StackedEvent)
    → drop (suc (length a)) (a ++ e ∷ b) ≡ b
drop_split [] e b = refl
drop_split (x ∷ a) e b = drop_split a e b
