-- ===== src/Events.antt =====
-- Events: `read_afu_event`, `ocxl_afu_event_check_versioned` and `ocxl_afu_get_p9_thread_id` of
-- src/irq.c. A result of -1 is a failure with the error that was reported. The application's array
-- of events is passed in and returned.
pub mod Read
pub mod Written
pub mod Drain
pub mod Ready
pub mod Sources
pub mod Check
pub mod Keeps
pub mod Quiet
pub mod Arrivals
pub mod Delivered
pub mod Thread
pub mod Overrun
use libocxl.Base.{
  ℕ, zero, suc, ◌+◌, ◌*◌, ◌%◌, ◌^◌, Bool, true, false, not, Option, none, some, List, [], ◌∷◌, ltb,
  ◌==◌, if◌then◌else◌, length, set,
}
use libocxl.Base.Int.{ℤ, pos, negsuc, is_neg, leb_ℤ}
use libocxl.Types.{
  OcxlErr, OcxlEventAction, Cell, value, EpollFdSource, KernelEvent, OcxlEvent, OcxlIrq,
}
use libocxl.Kernel.{
  Kernel, Errno, Cmd, pure, undefined, gets, or_fault, return_err, ◌>>=◌, ◌>>◌, modify_afu, when,
  malloc, free, read_event, read_eventfd, epoll_wait, ioctl_get_features, ioctl_enable_p9_wait,
}
use libocxl.Message.{errmsg, fail, fail_if}
use libocxl.Irq.{get_irq}

-- What `read_afu_event` returns, with `*last` and what it writes to `*event`.
pub record AfuRead : Type 0 where
  pub action : OcxlEventAction
  pub last : Bool
  pub event : Option OcxlEvent

-- The application's array of events, and how many have been written.
pub record Batch : Type 0 where
  pub cells : List (Cell OcxlEvent)
  pub triggered : ℕ

-- `events[triggered++] = event`: writing outside the array is undefined.
abbrev pub put_event : Batch → OcxlEvent → Option Batch
put_event b e =
    if ltb b.triggered (length b.cells)
    then some (record {
      cells = set b.cells b.triggered (value e);
      triggered = (b.triggered + 1) % 2 ^ 16;
    })
    else none

-- `n == size`
abbrev pub is_size : ℕ → ℤ → Bool
is_size size (pos n) = n == size
is_size size (negsuc n) = false

-- sizeof(struct epoll_event) and sizeof(uint64_t)
abbrev pub sizeof_epoll_event : ℕ
sizeof_epoll_event = 16

abbrev pub sizeof_count : ℕ
sizeof_count = 8

abbrev pub populate_xsl_fault_error : KernelEvent → OcxlEvent
populate_xsl_fault_error e = OcxlEvent.translation_fault e.addr e.dsisr e.count

module _ ⦃k : Kernel⦄ where
  -- `errmsg(…); return OCXL_EVENT_ACTION_FAIL;`
  abbrev pub fail_read : Cmd AfuRead
  fail_read = do
    errmsg OcxlErr.internal_error
    pure (record { action = OcxlEventAction.fail; last = false; event = none })

  abbrev pub nothing_read : Cmd AfuRead
  nothing_read = pure (record { action = OcxlEventAction.none_pending; last = true; event = none })

  -- The size of a read with version 0 of the event interface.
  abbrev pub event_size : ℕ
  event_size = k.sizeof_header + k.sizeof_xsl_fault

  -- What a failed read, and a read of so many bytes, means.
  pub read_failed : Errno → Cmd AfuRead
  read_failed Errno.eagain = nothing_read
  read_failed Errno.ewouldblock = nothing_read
  read_failed Errno.enospc = fail_read
  read_failed (Errno.other n) = fail_read

  pub interpret : ℤ → KernelEvent → Cmd AfuRead
  interpret used e =
      if not (leb_ℤ (pos k.sizeof_header) used)
      then fail_read
      else if ltb k.xsl_fault_type e.type
      then pure (record { action = OcxlEventAction.ignore; last = e.last; event = none })
      else if not (e.type == k.xsl_fault_type)
      then fail_read
      else if not (is_size event_size used)
      then fail_read
      else pure (record {
        action = OcxlEventAction.success;
        last = e.last;
        event = some (populate_xsl_fault_error e);
      })

  pub read_afu_event : (event_api_version : ℕ) → Cmd AfuRead
  read_afu_event version = if not (version == 0) then fail_read else do
    fd ← gets (λ s. s.afu.fd)
    (used, e) ← read_event fd event_size
    errno ← gets (λ s. k.errno s.log)
    if is_neg used then read_failed errno else interpret used e

  -- One round of the loop that reads the AFU's events; `rest` is the rounds that follow.
  pub after_read : (Batch → Cmd (Option Batch)) → Batch → AfuRead → Cmd (Option Batch)
  after_read rest b r = elim r.action [
    | OcxlEventAction.success ↦ do
      e ← or_fault r.event
      b' ← or_fault (put_event b e)
      if r.last then pure (some b') else rest b'
    | OcxlEventAction.ignore ↦ if r.last then pure (some b) else rest b
    | OcxlEventAction.fail ↦ return_err OcxlErr.internal_error
    | OcxlEventAction.none_pending ↦ pure (some b)
  ]

  -- The loop, for so many rounds at most; `none` if they do not suffice.
  pub drain_afu : (fuel version : ℕ) → Batch → Cmd (Option Batch)
  drain_afu zero version b = pure none
  drain_afu (suc fuel) version b = do
    r ← read_afu_event version
    after_read (drain_afu fuel version) b r

  -- The element of the table of interrupts at an address: a stale address is undefined.
  abbrev pub irq_at : (base i : ℕ) → Cmd OcxlIrq
  irq_at base i = do
    irqs ← gets (λ s. s.afu.irqs.base)
    if base == irqs then get_irq i else undefined

  pub handle_irq : OcxlIrq → Batch → Cmd Batch
  handle_irq q b = do
    (used, count) ← read_eventfd q.eventfd
    if not (is_size sizeof_count used)
        then (do errmsg OcxlErr.internal_error; pure b)
        else or_fault (put_event b (OcxlEvent.irq q.irq_number q.addr q.info count))

  -- `info->type` and `info->irq`, where `info` is the address that epoll kept.
  pub handle_source : (fuel version : ℕ) → EpollFdSource → Batch → Cmd (Option Batch)
  handle_source fuel version EpollFdSource.ocxl b = drain_afu fuel version b
  handle_source fuel version (EpollFdSource.irq base i) b = do
    info ← irq_at base i
    elim info.fd_info [
      | EpollFdSource.ocxl ↦ drain_afu fuel version b
      | EpollFdSource.irq base' i' ↦ do q ← irq_at base' i'; b' ← handle_irq q b; pure (some b')
    ]

  pub handle_sources : (fuel version : ℕ) → List EpollFdSource → Batch → Cmd (Option Batch)
  handle_sources fuel version [] b = pure (some b)
  handle_sources fuel version (source ∷ sources) b = do
    r ← handle_source fuel version source b
    elim r [ none ↦ pure none | some b' ↦ handle_sources fuel version sources b' ]

  unfoldable pub grow_events : (event_count : ℕ) → Cmd (Unit {0})
  grow_events event_count = do
    afu ← gets (λ s. s.afu)
    when (ltb afu.epoll_event_count event_count) (do
      free afu.epoll_events
      modify_afu (λ a. record a { epoll_events = 0; epoll_event_count = 0 })
      events ← malloc (event_count * sizeof_epoll_event)
      fail_if (events == 0) OcxlErr.no_mem
      modify_afu (λ a. record a { epoll_events = events; epoll_event_count = event_count }))

  -- The wait, and the loop over the sources that are ready.
  pub wait_events :
      (fuel : ℕ) (timeout : ℤ)
      → List (Cell OcxlEvent)
      → (event_count version : ℕ) → Cmd (Option Batch)
  wait_events fuel timeout events event_count version = do
    epoll_fd ← gets (λ s. s.afu.epoll_fd)
    answer ← epoll_wait epoll_fd event_count timeout
    sources ← elim answer [ none ↦ fail OcxlErr.internal_error | some sources ↦ pure sources ]
    handle_sources fuel version sources (record { cells = events; triggered = 0 })

  -- The array and how many events were triggered; `none` if the fuel does not suffice.
  pub ocxl_afu_event_check_versioned :
      (fuel : ℕ) (timeout : ℤ)
      → List (Cell OcxlEvent)
      → (event_count version : ℕ) → Cmd (Option Batch)
  ocxl_afu_event_check_versioned fuel timeout events event_count version = do
    grow_events event_count
    wait_events fuel timeout events event_count version

  pub ocxl_afu_event_check :
      (fuel : ℕ) (timeout : ℤ) → List (Cell OcxlEvent) → (event_count : ℕ) → Cmd (Option Batch)
  ocxl_afu_event_check fuel timeout events event_count =
      ocxl_afu_event_check_versioned fuel timeout events event_count 0

  pub ocxl_afu_get_p9_thread_id : Cmd ℕ
  ocxl_afu_get_p9_thread_id = do
    fd ← gets (λ s. s.afu.fd)
    answer ← ioctl_get_features fd
    p9_wait ← elim answer [ none ↦ fail OcxlErr.no_dev | some p9_wait ↦ pure p9_wait ]
    fail_if (not p9_wait) OcxlErr.no_dev
    thread ← ioctl_enable_p9_wait fd
    elim thread [ none ↦ fail OcxlErr.no_dev | some thread_id ↦ pure thread_id ]

pub ocxl_afu_get_event_fd : Cmd ℤ
ocxl_afu_get_event_fd = gets (λ s. s.afu.fd)
