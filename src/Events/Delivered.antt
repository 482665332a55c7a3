-- ===== src/Events/Delivered.antt =====
-- An interrupt that epoll reports is delivered.
use libocxl.Base.{ℕ, ◌≡◌, refl, true, some, ltb, length, List, [], ◌∷◌, ◌==◌, arith, get_elem?}
use libocxl.Base.Int.{ℤ, pos}
use libocxl.Types.{Cell, value, EpollFdSource, OcxlEvent, OcxlIrq, State, Event}
use libocxl.Kernel.{Kernel, done}
use libocxl.Irq.{irq_in}
use libocxl.Events.{
  handle_irq, handle_source, handle_sources, grow_events, wait_events,
  ocxl_afu_event_check_versioned, ocxl_afu_event_check,
}

module _ (i : ℕ) (q : OcxlIrq) (n : ℕ) (timeout : ℤ) (count : ℕ) (u : State) where
  -- Epoll has reported the interrupt.
  abbrev pub reported : State
  reported = record u {
    log =
        Event.epoll_wait u.afu.epoll_fd n timeout (some (EpollFdSource.irq u.afu.irqs.base i ∷ []))
        ∷ u.log;
  }

  -- Its event descriptor has been read.
  abbrev pub counted : State
  counted = record u { log = Event.read_eventfd q.eventfd (pos 8) count ∷ reported.log }

  -- The interrupt is in the table, at the address that epoll has, and epoll reports it and nothing
  -- else.
  pub record IsReported ⦃k : Kernel⦄ : Type 0 where
    pub irq : irq_in (get_elem? u.afu.irqs.cells i) ≡ some q
    pub watched : q.fd_info ≡ EpollFdSource.irq u.afu.irqs.base i
    pub ready :
        k.epoll_wait u.log u.afu.epoll_fd n timeout
        ≡ some (EpollFdSource.irq u.afu.irqs.base i ∷ [])
    pub counter : k.read_eventfd reported.log q.eventfd ≡ (pos 8, count)

  -- If the array for epoll can be grown, a check for events then gives the one event, with the
  -- number, page and cookie of the interrupt and the counter that was read.
  pub event_check-delivers :
      ⦃k : Kernel⦄ (fuel : ℕ) (s : State) (cell : Cell OcxlEvent) (cells : List (Cell OcxlEvent))
      → grow_events n s ≡ done tt u
      → IsReported
      → ocxl_afu_event_check fuel timeout (cell ∷ cells) n s
        ≡ done
            (some (record {
              cells = value (OcxlEvent.irq q.irq_number q.addr q.info count) ∷ cells;
              triggered = 1;
            }))
            counted
  unfolding ocxl_afu_event_check ocxl_afu_event_check_versioned wait_events handle_sources
      handle_source handle_irq
  event_check-delivers fuel s cell cells grown h =
      let here : (u.afu.irqs.base == u.afu.irqs.base) ≡ true = ground arith in
      let room : ltb 0 (length (cell ∷ cells)) ≡ true = ground arith in
      rw (grown, h.ready, here, h.irq, h.watched, here, h.irq, h.counter, room) refl
