-- ===== src/Events/Check.antt =====
-- Waiting for events, and handling what is ready.
use mathlib.Core.Path.{subst}
use libocxl.Base.{
  ℕ, ◌*◌, ◌^◌, ◌≤◌, ◌<◌, ◌≡◌, refl, sym, Option, some, inl, inr, List, [], ◌∷◌, ◌⊎◌, Option-cases,
  arith, ltb, ◌==◌, Bool-cases, length,
}
use libocxl.Base.Int.{ℤ}
use libocxl.Types.{OcxlErr, EpollFdSource, OcxlAfu, OcxlEvent, Cell, State, Event, History}
use libocxl.Kernel.{Kernel, Ends, Ends-mono}
use libocxl.Buffer.Table.{IsTable}
use libocxl.Irq.Table.{irqs_in_use}
use libocxl.Events.{
  Batch, handle_sources, grow_events, wait_events, ocxl_afu_event_check_versioned,
  ocxl_afu_event_check, sizeof_epoll_event,
}
use libocxl.Events.Written.{Written}
use libocxl.Events.Drain.{IsPending}
use libocxl.Events.Ready.{FromIrqs, AllReady, expected, from_afu_mono}
use libocxl.Events.Sources.{AllHandled, HandleFailed, handle_sources-Handled}

-- The array for epoll plays no part in that.
pub AllReady-epoll :
    (a : OcxlAfu) (array max : ℕ) (xs : List EpollFdSource)
    → AllReady a xs
    → AllReady (record a { epoll_events = array; epoll_event_count = max }) xs
AllReady-epoll a array max [] h = tt
AllReady-epoll a array max (EpollFdSource.ocxl ∷ xs) h = (tt, AllReady-epoll a array max xs h.1)
AllReady-epoll a array max (EpollFdSource.irq base i ∷ xs) h =
    (h.0, AllReady-epoll a array max xs h.1)

epoll_only :
    (a b : OcxlAfu) (array max : ℕ)
    → b ≡ record a { epoll_events = array; epoll_event_count = max }
    → b ≡ record a { epoll_events = b.epoll_events; epoll_event_count = b.epoll_event_count }
epoll_only a b array max h =
    subst
      (λ c. c ≡ record a { epoll_events = c.epoll_events; epoll_event_count = c.epoll_event_count })
      (sym h) refl

-- The application's array before a call.
abbrev pub fresh : List (Cell OcxlEvent) → Batch
fresh events = record { cells = events; triggered = 0 }

-- The AFU but for its array for epoll.
abbrev pub SameButEpoll : State → State → Type 0
SameButEpoll s t = t.afu ≡ record s.afu {
  epoll_events = t.afu.epoll_events;
  epoll_event_count = t.afu.epoll_event_count;
}

abbrev pub Checked : List (Cell OcxlEvent) → State → Option Batch → State → Type 0
Checked events s r t =
    (b : Batch) × (r ≡ some b)
    × Written (FromIrqs (irqs_in_use s.afu)) (fresh events) b
    × SameButEpoll s t

abbrev pub CheckFailed : State → OcxlErr → State → Type 0
CheckFailed s e t = ((e ≡ OcxlErr.no_mem) ⊎ (e ≡ OcxlErr.internal_error)) × SameButEpoll s t

module _ (pending : History → ℕ) ⦃k : Kernel⦄ (p : IsPending pending) where
  -- What epoll reports, now or later, is ready, and the array has room.
  abbrev pub Reports : (timeout : ℤ) (event_count room : ℕ) → State → Type 0
  Reports timeout event_count room s =
      (l : History) (xs : List EpollFdSource)
      → k.epoll_wait l s.afu.epoll_fd event_count timeout ≡ some xs
      → AllReady s.afu xs × (expected xs (pending s.log) ≤ room)

  module _ (fuel : ℕ) (timeout : ℤ) (events : List (Cell OcxlEvent)) (event_count : ℕ) (s : State)
      (v : IsTable s.afu.irqs s.afu.irq_count s.afu.irq_max_count) (lt : pending s.log < fuel)
      (small : length events < 2 ^ 16)
      (reports : Reports timeout event_count (length events) s) where
    module _ (array max : ℕ) (l : History) (le : pending l ≤ pending s.log) where
      abbrev waiting : State
      waiting = record s {
        afu = record s.afu { epoll_events = array; epoll_event_count = max };
        log = l;
      }

      handled :
          (xs : List EpollFdSource)
          → AllReady s.afu xs × (expected xs (pending s.log) ≤ length events)
          → Ends
              (Checked events s)
              (CheckFailed s)
              (handle_sources fuel 0 xs (fresh events) waiting)
      handled xs (ready, room) =
          Ends-mono (AllHandled pending xs (fresh events) waiting) (HandleFailed pending waiting)
            (Checked events s) (CheckFailed s) _
            (handle_sources-Handled pending p fuel xs (fresh events) waiting v
              (AllReady-epoll s.afu array max xs ready) (omega arith)
              (omega (arith, from_afu_mono xs (pending l) (pending s.log) le)) small)
            (λ r t (b, x, h). (b, x, h.written, epoll_only s.afu t.afu array max h.same))
            (λ x t (c, same). (inr c, epoll_only s.afu t.afu array max same))

    -- What follows `grow_events`.
    waited :
        (array max : ℕ) (l : History) (le : pending l ≤ pending s.log)
        → Ends
            (Checked events s)
            (CheckFailed s)
            (wait_events fuel timeout events event_count 0 (waiting array max l le))
    unfolding wait_events
    waited array max l le =
        let answer = k.epoll_wait l s.afu.epoll_fd event_count timeout in
        elim (Option-cases answer) [
          | inl e ↦ rw e (inr refl, refl)
          | inr (xs, e) ↦
              let event = Event.epoll_wait s.afu.epoll_fd event_count timeout (some xs) in
              rw e
                (handled array max (event ∷ l) (omega (arith, p.keeps l event)) xs (reports l xs e))
        ]

  -- Where the table of interrupts is in order and the array is shorter than 2^16, if every source
  -- that epoll reports is the AFU or an interrupt in use whose address is still that of its element,
  -- and the array has room for one event of each interrupt and, if the AFU is among the sources, for
  -- its pending events, the check for events ends, without a fault, with one round more than events
  -- are pending. It gives the array with its first elements written, each with a translation fault
  -- or the number, page and cookie of an interrupt in use, and the others as they were; or it fails
  -- for lack of memory, of epoll, or of the read of an event. Of the AFU nothing changes but its
  -- array for epoll.
  pub ocxl_afu_event_check-Checked :
      (fuel : ℕ) (timeout : ℤ) (events : List (Cell OcxlEvent)) (event_count : ℕ) (s : State)
      → IsTable s.afu.irqs s.afu.irq_count s.afu.irq_max_count
      → pending s.log < fuel
      → length events < 2 ^ 16
      → Reports timeout event_count (length events) s
      → Ends
          (Checked events s)
          (CheckFailed s)
          (ocxl_afu_event_check fuel timeout events event_count s)
  unfolding ocxl_afu_event_check ocxl_afu_event_check_versioned grow_events
  ocxl_afu_event_check-Checked fuel timeout events event_count s v lt small reports =
      let l1 = Event.free s.afu.epoll_events ∷ s.log in
      let block = k.malloc l1 (event_count * sizeof_epoll_event) in
      let l2 = Event.malloc (event_count * sizeof_epoll_event) block ∷ l1 in
      elim (Bool-cases (ltb s.afu.epoll_event_count event_count)) [
        | inr enough ↦ rw enough (
            waited fuel timeout events event_count s v lt small reports s.afu.epoll_events
              s.afu.epoll_event_count s.log (omega arith))
        | inl short ↦ rw short (elim (Bool-cases (block == 0)) [
          | inl none_left ↦ rw none_left (inl refl, refl)
          | inr got ↦ rw got (
              waited fuel timeout events event_count s v lt small reports block event_count l2 (
                omega (
                  arith,
                  p.keeps s.log (Event.free s.afu.epoll_events),
                  p.keeps l1 (Event.malloc (event_count * sizeof_epoll_event) block),
                )))
        ])
      ]
