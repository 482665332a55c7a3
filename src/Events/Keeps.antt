-- ===== src/Events/Keeps.antt =====
-- The calls that checking for events makes: a relation between histories that each of them keeps
-- holds between the histories before and after a check, however it ends.
use mathlib.Core.Path.{subst}
use libocxl.Base.{
  ℕ, zero, suc, ◌*◌, ◌≡◌, refl, sym, Bool, true, false, Option, none, some, inl, inr, ◌⊎◌, List, [],
  ◌∷◌, ltb, ◌==◌, Bool-cases, if◌then◌else◌, Option-cases, get_elem?,
}
use libocxl.Base.Int.{ℤ}
use libocxl.Types.{OcxlEventAction, Cell, EpollFdSource, OcxlEvent, OcxlIrq, State, Event, History}
use libocxl.Kernel.{Kernel, Cmd, After, After-mono, Always-bind, Ends-done, pure}
use libocxl.Irq.{irq_in}
use libocxl.Events.{
  Batch, put_event, is_size, sizeof_count, sizeof_epoll_event, read_afu_event, after_read,
  drain_afu, irq_at, handle_irq, handle_source, handle_sources, grow_events, wait_events,
  event_size, ocxl_afu_event_check_versioned, ocxl_afu_event_check,
}
use libocxl.Events.Read.{IsRead, read_afu_event-IsRead}

source_cases :
    (x : EpollFdSource)
    → (x ≡ EpollFdSource.ocxl) ⊎ ((base : ℕ) × (i : ℕ) × (x ≡ EpollFdSource.irq base i))
source_cases EpollFdSource.ocxl = inl refl
source_cases (EpollFdSource.irq base i) = inr (base, i, refl)

-- The calls that a check makes.
abbrev pub IsOfCheck : Event → Type 0
IsOfCheck (Event.read_event fd size used e) = Unit
IsOfCheck (Event.read_eventfd fd used count) = Unit
IsOfCheck (Event.epoll_wait epoll_fd max timeout answer) = Unit
IsOfCheck (Event.free block) = Unit
IsOfCheck (Event.malloc size answer) = Unit
IsOfCheck e = ⊥

module _ (P : History → History → Type 0) (same : (l : History) → P l l)
    (trans : (l m n : History) → P l m → P m n → P l n)
    (step : (l : History) (e : Event) → IsOfCheck e → P l (e ∷ l)) ⦃k : Kernel⦄ where
  -- The histories of the two states are so related.
  abbrev pub R : State → State → Type 0
  R s t = P s.log t.log

  R-trans : (s t u : State) → R s t → R t u → R s u
  R-trans s t u h k = trans s.log t.log u.log h k

  abbrev pub Keeps : {A : Type 0} → Cmd A → Type 0
  Keeps m = (s : State) → After (R s) (m s)

  read-Keeps : Keeps (read_afu_event 0)
  read-Keeps s =
      let (used, e) = k.read_event s.log s.afu.fd event_size in
      let (x, t, ran, h) = Ends-done (IsRead s used e) _ (read_afu_event-IsRead s) in
      rw ran (
        subst (λ l. P s.log l) (sym h.log)
          (step s.log (Event.read_event s.afu.fd event_size used e) tt))

  module _ (rest : Batch → Cmd (Option Batch)) (h : (b : Batch) → Keeps (rest b)) (b : Batch) where
    go_on : (last : Bool) (b' : Batch) → Keeps (if last then pure (some b') else rest b')
    go_on true b' s = same s.log
    go_on false b' s = h b' s

    after_read-Keeps :
        (a : OcxlEventAction) (last : Bool) (event : Option OcxlEvent)
        → Keeps (after_read rest b (record { action = a; last = last; event = event }))
    unfolding after_read
    after_read-Keeps OcxlEventAction.fail last event s = same s.log
    after_read-Keeps OcxlEventAction.none_pending last event s = same s.log
    after_read-Keeps OcxlEventAction.ignore last event s = go_on last b s
    after_read-Keeps OcxlEventAction.success last none s = tt
    after_read-Keeps OcxlEventAction.success last (some e) s = elim (Option-cases (put_event b e)) [
      | inl n ↦ rw n tt
      | inr (b', e') ↦ rw e' (go_on last b' s)
    ]

  drain_afu-Keeps : (fuel : ℕ) (b : Batch) → Keeps (drain_afu fuel 0 b)
  unfolding drain_afu
  drain_afu-Keeps zero b s = same s.log
  drain_afu-Keeps (suc fuel) b s =
      Always-bind R R-trans (read_afu_event 0) _ read-Keeps
        (λ x. after_read-Keeps (drain_afu fuel 0) (drain_afu-Keeps fuel) b x.action x.last x.event)
        s

  irq_at-Keeps : (base i : ℕ) → Keeps (irq_at base i)
  irq_at-Keeps base i s = elim (Bool-cases (base == s.afu.irqs.base)) [
    | inr stale ↦ rw stale tt
    | inl here ↦ elim (Option-cases (irq_in (get_elem? s.afu.irqs.cells i))) [
      | inl n ↦ rw (here, n) tt
      | inr (q, e) ↦ rw (here, e) (same s.log)
    ]
  ]

  handle_irq-Keeps : (q : OcxlIrq) (b : Batch) → Keeps (handle_irq q b)
  unfolding handle_irq
  handle_irq-Keeps q b s =
      let (used, count) = k.read_eventfd s.log q.eventfd in
      let x = OcxlEvent.irq q.irq_number q.addr q.info count in
      let called = step s.log (Event.read_eventfd q.eventfd used count) tt in
      elim (Bool-cases (is_size sizeof_count used)) [
        | inr wrong ↦ rw wrong called
        | inl whole ↦ elim (Option-cases (put_event b x)) [
          | inl n ↦ rw (whole, n) tt
          | inr (b', e) ↦ rw (whole, e) called
        ]
      ]

  handle_source-Keeps :
      (fuel : ℕ) (x : EpollFdSource) (b : Batch) → Keeps (handle_source fuel 0 x b)
  unfolding handle_source
  handle_source-Keeps fuel EpollFdSource.ocxl b = drain_afu-Keeps fuel b
  handle_source-Keeps fuel (EpollFdSource.irq base i) b =
      Always-bind R R-trans (irq_at base i) _ (irq_at-Keeps base i) (λ info s.
        elim (source_cases info.fd_info) [
          | inl own ↦ rw own (drain_afu-Keeps fuel b s)
          | inr (base', i', e) ↦ rw e (
              Always-bind R R-trans (irq_at base' i') _ (irq_at-Keeps base' i')
                (λ q.
                  Always-bind R R-trans (handle_irq q b) _ (handle_irq-Keeps q b)
                    (λ b' t. same t.log))
                s)
        ])

  pub handle_sources-Keeps :
      (fuel : ℕ) (xs : List EpollFdSource) (b : Batch) → Keeps (handle_sources fuel 0 xs b)
  unfolding handle_sources
  handle_sources-Keeps fuel [] b s = same s.log
  handle_sources-Keeps fuel (x ∷ xs) b s =
      Always-bind R R-trans (handle_source fuel 0 x b) _ (handle_source-Keeps fuel x b)
        (λ o s. elim (Option-cases o) [
          | inl n ↦ rw n (same s.log)
          | inr (b', e) ↦ rw e (handle_sources-Keeps fuel xs b' s)
        ])
        s

  wait_events-Keeps :
      (fuel : ℕ) (timeout : ℤ) (events : List (Cell OcxlEvent)) (event_count : ℕ)
      → Keeps (wait_events fuel timeout events event_count 0)
  unfolding wait_events
  wait_events-Keeps fuel timeout events event_count s =
      let answer = k.epoll_wait s.log s.afu.epoll_fd event_count timeout in
      elim (Option-cases answer) [
        | inl n ↦ rw n (step s.log (Event.epoll_wait s.afu.epoll_fd event_count timeout none) tt)
        | inr (xs, e) ↦
            let called = Event.epoll_wait s.afu.epoll_fd event_count timeout (some xs) in
            let t = record s { log = called ∷ s.log } in
            rw e
              (After-mono R R-trans s t _ (step s.log called tt) (handle_sources-Keeps fuel xs _ t))
      ]

  grow_events-Keeps : (event_count : ℕ) → Keeps (grow_events event_count)
  unfolding grow_events
  grow_events-Keeps event_count s =
      let l = Event.free s.afu.epoll_events ∷ s.log in
      let block = k.malloc l (event_count * sizeof_epoll_event) in
      let called =
        trans s.log l (Event.malloc (event_count * sizeof_epoll_event) block ∷ l)
          (step s.log (Event.free s.afu.epoll_events) tt)
          (step l (Event.malloc (event_count * sizeof_epoll_event) block) tt) in
      elim (Bool-cases (ltb s.afu.epoll_event_count event_count)) [
        | inr enough ↦ rw enough (same s.log)
        | inl short ↦ elim (Bool-cases (block == 0)) [
          | inl none_left ↦ rw (short, none_left) called
          | inr got ↦ rw (short, got) called
        ]
      ]

  pub event_check-Keeps :
      (fuel : ℕ) (timeout : ℤ) (events : List (Cell OcxlEvent)) (event_count : ℕ)
      → Keeps (ocxl_afu_event_check fuel timeout events event_count)
  unfolding ocxl_afu_event_check ocxl_afu_event_check_versioned
  event_check-Keeps fuel timeout events event_count =
      Always-bind R R-trans (grow_events event_count) _ (grow_events-Keeps event_count)
        (λ _. wait_events-Keeps fuel timeout events event_count)
