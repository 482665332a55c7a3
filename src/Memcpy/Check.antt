-- ===== src/Memcpy/Check.antt =====
-- What a check for one event may be made under while waiting, and what it gives.
use mathlib.Core.Path.{subst}
use libocxl.Base.{
  ℕ, ◌≤◌, ◌<◌, ◌≡◌, ◌≢◌, refl, sym, ap, ◌∙◌, Option, none, some, inl, inr, ◌⊎◌, List, arith, length,
}
use libocxl.Base.Int.{ℤ}
use libocxl.Types.{OcxlErr, OcxlMmioH, Cell, OcxlEvent, State, History, OcxlAfu}
use libocxl.Kernel.{Kernel, Ends, Ends-After, Ends-Returns, Ends-bind, Ends-cleanup}
use libocxl.Buffer.Table.{IsTable}
use libocxl.Irq.Table.{irqs_in_use}
use libocxl.Irq.Release.{Never}
use libocxl.Mmio.Access.Total.{IsSafe}
use libocxl.Events.{Batch}
use libocxl.Events.Keeps.{event_check-Keeps}
use libocxl.Events.Arrivals.{IsArriving, HasFallen, event_check-HasFallen}
use libocxl.Events.Written.{Written}
use libocxl.Events.Drain.{IsPending}
use libocxl.Events.Ready.{FromIrqs, AllReady, from_afu_mono}
use libocxl.Events.Check.{
  AllReady-epoll, fresh, SameButEpoll, Checked, CheckFailed, Reports, ocxl_afu_event_check-Checked,
}
use libocxl.Memcpy.{check_event}

pub IsSafe-mmios :
    (h : OcxlMmioH) (s t : State) → t.afu.mmios ≡ s.afu.mmios → IsSafe h s → IsSafe h t
IsSafe-mmios OcxlMmioH.null s t same safe = tt
IsSafe-mmios (OcxlMmioH.area base i) s t same (a, found) = (a, rw same found)

pub SameButEpoll-same : (s t : State) → t.afu ≡ s.afu → SameButEpoll s t
SameButEpoll-same s t same =
    subst
      (λ a.
        a ≡ record s.afu { epoll_events = a.epoll_events; epoll_event_count = a.epoll_event_count })
      (sym same) refl

module _ (pending arrivals : History → ℕ) where
  -- Of the AFU only the array for epoll has changed, and the measures have not risen.
  pub record Later (s t : State) : Type 0 where
    pub same : SameButEpoll s t
    pub fewer_pending : pending t.log ≤ pending s.log
    pub fewer_arrivals : arrivals t.log ≤ arrivals s.log

  pub Later-trans : (s t u : State) → Later s t → Later t u → Later s u
  Later-trans s t u h k = record {
    same =
        k.same
        ∙ ap
            (λ (a : OcxlAfu). record a {
              epoll_events = u.afu.epoll_events;
              epoll_event_count = u.afu.epoll_event_count;
            })
            h.same;
    fewer_pending = omega (arith, h.fewer_pending, k.fewer_pending);
    fewer_arrivals = omega (arith, h.fewer_arrivals, k.fewer_arrivals);
  }

  module _ ⦃k : Kernel⦄ (p : IsPending pending) (q : IsArriving arrivals) where
    -- The table of interrupts is in order; what epoll reports is ready, and is nothing, one interrupt,
    -- or the AFU with one event to read at most, now and later; and the handle is NULL or does not dangle.
    pub record CanWait (pp_mmio : OcxlMmioH) (reads : ℕ) (s : State) : Type 0 where
      pub table : IsTable s.afu.irqs s.afu.irq_count s.afu.irq_max_count
      pub reports : (timeout : ℤ) → Reports pending p timeout 1 1 s
      pub safe : IsSafe pp_mmio s
      pub enough : pending s.log < reads

    pub CanWait-Later :
        (pp_mmio : OcxlMmioH) (reads : ℕ) (s t : State)
        → CanWait pp_mmio reads s
        → Later s t
        → CanWait pp_mmio reads t
    CanWait-Later pp_mmio reads s t c l = record {
      table = subst (λ a. IsTable a.irqs a.irq_count a.irq_max_count) (sym l.same) c.table;
      reports = λ timeout log xs e.
          let watched = ap (λ (a : OcxlAfu). a.epoll_fd) l.same in
          let (ready, room) =
            c.reports timeout log xs (ap (λ fd. k.epoll_wait log fd 1 timeout) (sym watched) ∙ e) in
          (
            subst (λ a. AllReady a xs) (sym l.same)
                (AllReady-epoll s.afu t.afu.epoll_events t.afu.epoll_event_count xs ready),
            omega (arith, from_afu_mono xs (pending t.log) (pending s.log) l.fewer_pending, room),
          );
      safe = IsSafe-mmios pp_mmio s t (ap (λ (a : OcxlAfu). a.mmios) l.same) c.safe;
      enough = omega (arith, l.fewer_pending, c.enough);
    }

    -- The check failed, or it gave events, which are the first of the array.
    abbrev pub Answer : List (Cell OcxlEvent) → State → Option (Option Batch) → State → Type 0
    Answer event s r t =
        Later s t
        × ((r ≡ none)
            ⊎ ((b : Batch) × (r ≡ some (some b))
                × Written (FromIrqs (irqs_in_use s.afu)) (fresh event) b
                × (b.triggered ≢ 0 → arrivals t.log < arrivals s.log)))

    abbrev KeptLess : History → History → Type 0
    KeptLess l m = (pending m ≤ pending l) × (arrivals m ≤ arrivals l)

    abbrev Fewer : State → State → Type 0
    Fewer s t = KeptLess s.log t.log

    abbrev CheckedLate : State → OcxlErr → State → Type 0
    CheckedLate s e t = Later s t

    pub check_event-Answer :
        (reads : ℕ) (timeout : ℤ) (event : List (Cell OcxlEvent)) (pp_mmio : OcxlMmioH) (s : State)
        → CanWait pp_mmio reads s
        → length event ≡ 1
        → Ends (Answer event s) Never (check_event reads timeout event s)
    unfolding check_event
    check_event-Answer reads timeout event pp_mmio s c one =
        let checked =
          Ends-After (Checked event s) (CheckFailed s) (Fewer s) _
            (ocxl_afu_event_check-Checked pending p reads timeout event 1 s c.table c.enough
              (omega (arith, one)) (λ l xs e. rw one (c.reports timeout l xs e)))
            (event_check-Keeps KeptLess (λ m. (omega arith, omega arith))
              (λ a b d h h'. (omega arith, omega arith)) (λ m e _. (p.keeps m e, q.keeps m e)) reads
              timeout event 1 s) in
        Ends-cleanup (Answer event s) (CheckedLate s) Never _ _
          (Ends-bind (λ r t. (Checked event s r t × Fewer s t) × HasFallen arrivals q s.log r t)
            (λ e t. CheckFailed s e t × Fewer s t) (Answer event s) (CheckedLate s) _ _
            (Ends-Returns _ _ (HasFallen arrivals q s.log) _ checked
              (event_check-HasFallen arrivals q reads timeout event 1 s))
            (λ r t (((b, e, w, same), f), fell). (
              record { same = same; fewer_pending = f.0; fewer_arrivals = f.1 },
              inr (b, ap some e, w, fell b e),
            ))
            (λ e t ((_, same), f). record {
              same = same;
              fewer_pending = f.0;
              fewer_arrivals = f.1;
            }))
          (λ e t l. (l, inl refl))
