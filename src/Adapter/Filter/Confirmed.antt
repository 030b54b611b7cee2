-- ===== src/Adapter/Filter/Confirmed.antt =====
-- pkg/adapter with modules/network: the blocks that the filter of soft confirmations lets out.
use go_execution_abci.Prelude.{
  ℕ, ◌≡◌, ◌⊎◌, inl, inr, refl, sym, ◌∙◌, Bool, true, false, ◌==◌, nat_eq, if◌then◌else◌, some, List,
  [], ◌∷◌, ◌++◌, arith, Bool-cases, Option-cases,
}
use mathlib.Core.List.{append_assoc, append-nil}
use go_execution_abci.Prelude.Int.{ℤ, pos, leb_ℤ, ltb_ℤ}
use go_execution_abci.Prelude.Exec.{ok, Outcome-cases}
use go_execution_abci.Compat.Types.{Bytes}
use go_execution_abci.Network.Types.{Env, State}
use go_execution_abci.Network.Query.{SoftConfirmationStatus, query_soft_confirmation_status}
use go_execution_abci.Adapter.Types.{Store, Published, StackedEvent, Adapter}
use go_execution_abci.Adapter.Events.{publish_queued_block_events}
use go_execution_abci.Adapter.Events.Queue.{releasable, Waiting}
use go_execution_abci.Adapter.Events.Release.{
  IsAvailable, AllReady, queued_events, publish_queued_block_events_lem,
}
use go_execution_abci.Adapter.Filter.{Querier, is_publishable}

-- What is relied on: a request has a protobuf form, and the application hands it to the query of the
-- network module, whose answer comes back with code 0, and whose error with another code.
pub record IsRouted (app : Querier) (env : Env) (s : State) : Type 0 where
  pub request : ℤ → Bytes
  pub marshals : (h : ℤ) → app.marshal h ≡ some (request h)
  pub answers :
      (h : ℤ) (status : SoftConfirmationStatus)
      → query_soft_confirmation_status env (some h) s ≡ ok status
      → (value : Bytes) × (app.query (request h) ≡ some (0, value))
        × (app.unmarshal value ≡ some status)
  pub refuses :
      (h : ℤ) (code : ℕ) (value : Bytes)
      → ((status : SoftConfirmationStatus)
          → ¬ (query_soft_confirmation_status env (some h) s ≡ ok status))
      → app.query (request h) ≡ some (code, value)
      → (code == 0) ≡ false

-- The network module answers that the height, from 2 on, is softly confirmed.
abbrev pub IsConfirmed : Env → State → ℤ → Type 0
IsConfirmed env s h =
    (ltb_ℤ h (pos 2) ≡ false)
    × ((status : SoftConfirmationStatus) × (query_soft_confirmation_status env (some h) s
          ≡ ok status)
        × (status.is_soft_confirmed ≡ true))

module _ (env : Env) (net : State) where
  -- An event of the queue whose block is final and softly confirmed.
  abbrev pub IsReleasable : ℤ → StackedEvent → Type 0
  IsReleasable height e =
      (leb_ℤ e.block.header.height height ≡ true) × IsConfirmed env net e.block.header.height

  abbrev pub NoneReleasable : ℤ → List StackedEvent → Type 0
  NoneReleasable height [] = Unit {0}
  NoneReleasable height (e ∷ es) = (¬ IsReleasable height e) × NoneReleasable height es

module _ (app : Querier) (env : Env) (net : State) (routed : IsRouted app env net) where
  -- The filter's answer, from that of the network module.
  publishable_ok :
      (h : ℤ) (status : SoftConfirmationStatus)
      → query_soft_confirmation_status env (some h) net ≡ ok status
      → is_publishable app h ≡ (if ltb_ℤ h (pos 2) then false else status.is_soft_confirmed)
  unfolding is_publishable
  publishable_ok h status e =
      let (value, answer, decoded) = routed.answers h status e in
      rw (routed.marshals h, answer, decoded) refl

  publishable_err :
      (h : ℤ)
      → ((status : SoftConfirmationStatus)
          → ¬ (query_soft_confirmation_status env (some h) net ≡ ok status))
      → is_publishable app h ≡ false
  unfolding is_publishable
  publishable_err h none' = elim (Option-cases (app.query (routed.request h))) [
    | inl e ↦ rw (routed.marshals h, e) (ground arith)
    | inr ((code, value), e) ↦
        rw (routed.marshals h, e, routed.refuses h code value none' e) (ground arith)
  ]

  pub is_publishable-IsConfirmed : (h : ℤ) → is_publishable app h ≡ true → IsConfirmed env net h
  is_publishable-IsConfirmed h p =
      elim (Outcome-cases (query_soft_confirmation_status env (some h) net)) [
        | inl (status, e) ↦ elim (Bool-cases (ltb_ℤ h (pos 2))) [
          | inl low ↦ cc (sym p ∙ (rw low at (publishable_ok h status e)))
          | inr from_two ↦
              let same = rw from_two at (publishable_ok h status e) in
              (from_two, (status, e, sym same ∙ p))
        ]
        | inr (inl (x, e)) ↦ cc (sym p ∙ publishable_err h (λ st k. cc (sym k ∙ e)))
        | inr (inr e) ↦ cc (sym p ∙ publishable_err h (λ st k. cc (sym k ∙ e)))
      ]

  pub IsConfirmed-is_publishable : (h : ℤ) → IsConfirmed env net h → is_publishable app h ≡ true
  IsConfirmed-is_publishable h (from_two, (status, e, yes')) =
      publishable_ok h status e ∙ rw (from_two, yes') refl

  held :
      (height : ℤ) (e : StackedEvent)
      → releasable (is_publishable app) height e ≡ false
      → ¬ IsReleasable env net height e
  held height e h (final, is) =
      cc (rw (final, IsConfirmed-is_publishable e.block.header.height is) at h)

  Waiting-NoneReleasable :
      (height : ℤ) (es : List StackedEvent)
      → Waiting (is_publishable app) height es
      → NoneReleasable env net height es
  Waiting-NoneReleasable height [] w = tt
  Waiting-NoneReleasable height (e ∷ es) (h, w) =
      (held height e h, Waiting-NoneReleasable height es w)

  released :
      (height : ℤ) (e : StackedEvent)
      → releasable (is_publishable app) height e ≡ true
      → IsReleasable env net height e
  released height e h = elim (Bool-cases (leb_ℤ e.block.header.height height)) [
    | inr n ↦ cc (rw n at h)
    | inl final ↦ (final, is_publishable-IsConfirmed e.block.header.height (rw final at h))
  ]

  module _ {D A M : Type 0} (store : Store D) (available : IsAvailable store)
      (accepts : List Published → Published → Bool)
      (open_bus : (l : List Published) (e : Published) → accepts l e ≡ true) where
    -- With the filter of soft confirmations and an application that routes its query to the network
    -- module, an event bus that refuses nothing, a database whose writes succeed, and queued events
    -- whose responses are there, publishing up to a final height succeeds. It takes a part from the
    -- front of the queue, which is empty or ends with a block that is final and that the network
    -- module has softly confirmed, publishes the events of this part in its order, and leaves no block
    -- in the queue that is both.
    pub publish_queued_block_events-confirmed :
        (height : ℤ) (s : Adapter D A M)
        → AllReady store s.heap s.db s.stacked_events
        → (s' : Adapter D A M) × (front : List StackedEvent) × (publish_queued_block_events store
              accepts
              (is_publishable app)
              (λ _. false)
              height
              s
            ≡ (ok tt, s'))
          × (s.stacked_events ≡ front ++ s'.stacked_events)
          × (s'.published ≡ s.published ++ queued_events s.heap front)
          × ((front ≡ [])
              ⊎ ((before : List StackedEvent) × (last : StackedEvent) × (front
                    ≡ before ++ last ∷ [])
                  × IsReleasable env net height last))
          × NoneReleasable env net height s'.stacked_events
    publish_queued_block_events-confirmed height s ready =
        elim (publish_queued_block_events_lem store accepts open_bus available (is_publishable app)
          height s ready) [
            | inl (ran, waits) ↦ (
              s,
              [],
              ran,
              refl,
              sym (append-nil s.published),
              inl refl,
              Waiting-NoneReleasable height s.stacked_events waits,
            )
            | inr (cut, d', ran) ↦ (
              record s {
                db = d';
                published = s.published ++ queued_events s.heap (cut.before ++ cut.event ∷ []);
                stacked_events = cut.waiting;
              },
              cut.before ++ cut.event ∷ [],
              ran,
              cut.split ∙ sym (append_assoc cut.before (cut.event ∷ []) cut.waiting),
              refl,
              inr (cut.before, cut.event, refl, released height cut.event cut.last_releasable),
              Waiting-NoneReleasable height cut.waiting cut.rest_waits,
            )
          ]
