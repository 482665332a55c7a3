-- ===== src/Events/Arrivals.antt =====
-- A check that gives an event follows a report of epoll.
use libocxl.Base.{
  ℕ, ◌*◌, ◌≤◌, ◌<◌, ◌≡◌, ◌≢◌, Option, some, inl, inr, List, [], ◌∷◌, Bool-cases, Option-cases,
  arith, ltb, ◌==◌,
}
use libocxl.Base.Int.{ℤ}
use libocxl.Types.{Cell, EpollFdSource, OcxlEvent, State, Event, History}
use libocxl.Kernel.{Kernel, Outcome, Returns, After-Returns}
use libocxl.Events.{
  Batch, sizeof_epoll_event, handle_sources, grow_events, wait_events,
  ocxl_afu_event_check_versioned, ocxl_afu_event_check,
}
use libocxl.Events.Keeps.{handle_sources-Keeps}

-- A measure of the reports of epoll that are still to come: no call raises it, and each wait that
-- reports a source lowers it.
pub record IsArriving ⦃k : Kernel⦄ (arrivals : History → ℕ) : Type 0 where
  pub keeps : (l : History) (e : Event) → arrivals (e ∷ l) ≤ arrivals l
  pub falls :
      (l : History) (fd : ℤ) (max : ℕ) (timeout : ℤ) (x : EpollFdSource) (xs : List EpollFdSource)
      → k.epoll_wait l fd max timeout ≡ some (x ∷ xs)
      → arrivals (Event.epoll_wait fd max timeout (some (x ∷ xs)) ∷ l) < arrivals l

module _ (arrivals : History → ℕ) ⦃k : Kernel⦄ (p : IsArriving arrivals) where
  -- If an event was given, the measure has fallen.
  abbrev pub HasFallen : History → Option Batch → State → Type 0
  HasFallen l r t = (b : Batch) → r ≡ some b → b.triggered ≢ 0 → arrivals t.log < arrivals l

  Falling : History → Outcome (Option Batch) → Type 0
  Falling l o = Returns (HasFallen l) o

  module _ (fuel : ℕ) (timeout : ℤ) (events : List (Cell OcxlEvent)) (event_count : ℕ)
      (l : History) where
    reported :
        (s : State) (xs : List EpollFdSource)
        → arrivals s.log ≤ arrivals l
        → k.epoll_wait s.log s.afu.epoll_fd event_count timeout ≡ some xs
        → let e = Event.epoll_wait s.afu.epoll_fd event_count timeout (some xs) in
          Returns (HasFallen l) (
            handle_sources fuel 0 xs
              (record { cells = events; triggered = 0 })
              (record s { log = e ∷ s.log }))
    unfolding handle_sources
    reported s [] le answer =
        λ b same real. let none_yet : b.triggered ≡ 0 = cc in absurd (real none_yet)
    reported s (x ∷ xs) le answer =
        let falls = p.falls s.log s.afu.epoll_fd event_count timeout x xs answer in
        let e = Event.epoll_wait s.afu.epoll_fd event_count timeout (some (x ∷ xs)) in
        After-Returns (λ t. arrivals t.log ≤ arrivals (e ∷ s.log)) (HasFallen l) _
          (λ r t h b same real. omega (arith, falls))
          (handle_sources-Keeps (λ m n. arrivals n ≤ arrivals m) (λ m. omega arith)
            (λ a b c h h'. omega arith) (λ m e _. p.keeps m e) fuel (x ∷ xs) _
            (record s { log = e ∷ s.log }))

    waited :
        (s : State)
        → arrivals s.log ≤ arrivals l
        → Returns (HasFallen l) (wait_events fuel timeout events event_count 0 s)
    unfolding wait_events
    waited s le = elim (Option-cases (k.epoll_wait s.log s.afu.epoll_fd event_count timeout)) [
      | inl n ↦ rw n tt
      | inr (xs, e) ↦ rw e (reported s xs le e)
    ]

  pub event_check-HasFallen :
      (fuel : ℕ) (timeout : ℤ) (events : List (Cell OcxlEvent)) (event_count : ℕ) (s : State)
      → Returns (HasFallen s.log) (ocxl_afu_event_check fuel timeout events event_count s)
  unfolding ocxl_afu_event_check ocxl_afu_event_check_versioned grow_events
  event_check-HasFallen fuel timeout events n s =
      let free = Event.free s.afu.epoll_events in
      let block = k.malloc (free ∷ s.log) (n * sizeof_epoll_event) in
      let malloc = Event.malloc (n * sizeof_epoll_event) block in
      elim (Bool-cases (ltb s.afu.epoll_event_count n)) [
        | inr enough ↦ rw enough (waited fuel timeout events n s.log s (omega arith))
        | inl short ↦ elim (Bool-cases (block == 0)) [
          | inl none_left ↦ rw (short, none_left) tt
          | inr got ↦
              rw (short, got)
                (waited fuel timeout events n s.log _
                  (omega (arith, p.keeps s.log free, p.keeps (free ∷ s.log) malloc)))
        ]
      ]
