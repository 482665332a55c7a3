-- ===== src/Memcpy.antt =====
-- samples/memcpy/memcpy.c but for its queue, which is Weq: the two MMIO areas of the MEMCPY3 AFU, the
-- three ways of waiting for it, and a copy. A timeout is no negative number here. `ocxl_wait` and the
-- output leave no mark on the state; a work element's status is a load of memory that the device
-- writes.
pub mod Wed
pub mod Copy
pub mod Check
pub mod Taken
pub mod Verdict
pub mod Wait
pub mod Poll
pub mod Complete
pub mod Wake
pub mod Notify
pub mod Submit
pub mod Areas
pub mod Introduce
use libocxl.Base.{
  ℕ, zero, suc, ◌+◌, ◌-◌, ◌*◌, ◌/◌, ◌%◌, ◌^◌, Bool, true, false, not, ◌&&◌, Option, none, some,
  List, [], ◌∷◌, ltb, ◌==◌, if◌then◌else◌,
}
use libocxl.Base.Int.{ℤ, pos}
use libocxl.Types.{
  OcxlEndian, OcxlMmioType, OcxlMmioH, Cell, indeterminate, zeroed, value, OcxlEvent, Timeval,
}
use libocxl.Kernel.{Kernel, Cmd, pure, or_fault, on_error, ◌>>=◌, ◌>>◌, load, gettimeofday}
use libocxl.Mmio.Map.{ocxl_mmio_map}
use libocxl.Mmio.Access.{ocxl_mmio_read64, ocxl_mmio_write64}
use libocxl.Events.{Batch, ocxl_afu_event_check}

-- Global and per-process registers.
abbrev pub memcpy_afu_global_cfg : ℤ
memcpy_afu_global_cfg = pos 0

abbrev pub memcpy_afu_global_trace : ℤ
memcpy_afu_global_trace = pos 0x20

abbrev pub memcpy_afu_pp_wed : ℤ
memcpy_afu_pp_wed = pos 0

abbrev pub memcpy_afu_pp_status : ℤ
memcpy_afu_pp_status = pos 0x10

abbrev pub memcpy_afu_pp_ctrl : ℤ
memcpy_afu_pp_ctrl = pos 0x18

abbrev pub memcpy_afu_pp_ctrl_restart : ℕ
memcpy_afu_pp_ctrl_restart = 1

abbrev pub memcpy_afu_pp_irq : ℤ
memcpy_afu_pp_irq = pos 0x28

-- `ret |= bit` for a power of two.
pub or_bit : (ret bit : ℕ) → ℕ
or_bit ret bit = if ret / bit % 2 == 1 then ret else ret + bit

-- The milliseconds of a timeout, in an int: an overflow is undefined.
pub check_timeout : (timeout : ℕ) → Option ℤ
check_timeout timeout = if ltb (timeout * 1000) (2 ^ 31) then some (pos (timeout * 1000)) else none

-- The first element of the application's array.
abbrev pub first_event : List (Cell OcxlEvent) → Option OcxlEvent
first_event [] = none
first_event (indeterminate ∷ cells) = none
first_event (zeroed ∷ cells) = none
first_event (value e ∷ cells) = some e

-- timeradd and timercmp of <sys/time.h>; the microseconds are below a million.
abbrev pub timeradd : Timeval → Timeval → Timeval
timeradd a b =
    if ltb (a.tv_usec + b.tv_usec) 1000000
    then record { tv_sec = a.tv_sec + b.tv_sec; tv_usec = a.tv_usec + b.tv_usec }
    else record { tv_sec = a.tv_sec + b.tv_sec + 1; tv_usec = a.tv_usec + b.tv_usec - 1000000 }

abbrev pub is_after : Timeval → Timeval → Bool
is_after a b = if a.tv_sec == b.tv_sec then ltb b.tv_usec a.tv_usec else ltb b.tv_sec a.tv_sec

module _ ⦃k : Kernel⦄ where
  -- Whether the set up failed.
  pub global_setup : Cmd Bool
  global_setup =
      on_error
        (do
          global ← ocxl_mmio_map OcxlMmioType.global_mmio
          _ ← ocxl_mmio_read64 global memcpy_afu_global_cfg OcxlEndian.little_endian
          ocxl_mmio_write64 global memcpy_afu_global_trace OcxlEndian.little_endian
              0x8008008000000000
          pure false)
        (λ _. pure true)

  -- Whether the write failed.
  pub restart_afu_if_stopped : (pp_mmio : OcxlMmioH) → Cmd Bool
  restart_afu_if_stopped pp_mmio =
      on_error
        (do
          ocxl_mmio_write64 pp_mmio memcpy_afu_pp_ctrl OcxlEndian.little_endian
              memcpy_afu_pp_ctrl_restart
          pure false)
        (λ _. pure true)

  -- Handling one event: `ret`, and whether it is returned at once.
  pub take_event : (pp_mmio : OcxlMmioH) → (irq_ea err_ea ret : ℕ) → OcxlEvent → Cmd (ℕ × Bool)
  take_event pp_mmio irq_ea err_ea ret (OcxlEvent.irq number handle info count) =
      if not (irq_ea == 0) && (handle == irq_ea)
      then (do _ ← restart_afu_if_stopped pp_mmio; pure (0, true))
      else pure (if handle == err_ea then or_bit ret 1 else ret, false)
  take_event pp_mmio irq_ea err_ea ret (OcxlEvent.translation_fault addr dsisr count) =
      pure (or_bit ret 2, false)

  -- A check for one event; `none` for a negative result.
  pub check_event : (reads : ℕ) (timeout : ℤ) → List (Cell OcxlEvent) → Cmd (Option (Option Batch))
  check_event reads timeout event =
      on_error (do b ← ocxl_afu_event_check reads timeout event 1; pure (some b)) (λ _. pure none)

  -- What follows the check; `rest` is the rounds that follow.
  pub after_check :
      (rest : ℕ → List (Cell OcxlEvent) → Cmd (Option ℕ)) (timeout : ℕ) (pp_mmio : OcxlMmioH)
      (irq_ea err_ea ret : ℕ)
      → Option (Option Batch)
      → Cmd (Option ℕ)
  after_check rest timeout pp_mmio irq_ea err_ea ret none = pure (some 4)
  after_check rest timeout pp_mmio irq_ea err_ea ret (some none) = pure none
  after_check rest timeout pp_mmio irq_ea err_ea ret (some (some b)) =
      if b.triggered == 0 then pure (some (if timeout == 0 then ret else or_bit ret 8)) else (do
        e ← or_fault (first_event b.cells)
        (ret', returned) ← take_event pp_mmio irq_ea err_ea ret e
        if not returned && (b.triggered == 1) then rest ret' b.cells else pure (some ret'))

  -- The loop, for so many rounds at most; `none` if they, or `reads` in a check, do not suffice.
  pub irq_loop :
      (rounds reads timeout : ℕ) (pp_mmio : OcxlMmioH) (irq_ea err_ea : ℕ) (check_timeout : ℤ)
      (ret : ℕ)
      → List (Cell OcxlEvent)
      → Cmd (Option ℕ)
  irq_loop zero reads timeout pp_mmio irq_ea err_ea check_timeout ret event = pure none
  irq_loop (suc rounds) reads timeout pp_mmio irq_ea err_ea check_timeout ret event = do
    r ← check_event reads check_timeout event
    after_check (irq_loop rounds reads timeout pp_mmio irq_ea err_ea (pos 0)) timeout pp_mmio irq_ea
        err_ea ret r

  pub wait_for_irq :
      (rounds reads timeout : ℕ) (pp_mmio : OcxlMmioH) (irq_ea err_ea : ℕ) → Cmd (Option ℕ)
  wait_for_irq rounds reads timeout pp_mmio irq_ea err_ea = do
    first ← or_fault (check_timeout timeout)
    irq_loop rounds reads timeout pp_mmio irq_ea err_ea first 0 (indeterminate ∷ [])

  -- `work_element->status`
  abbrev pub load_status : (work_element : ℕ) → Cmd ℕ
  load_status work_element = load 1 (work_element + 1)

  -- The time at which waiting from now on ends.
  abbrev pub deadline : (timeout : ℕ) → Cmd Timeval
  deadline timeout = do
    now ← gettimeofday
    pure (timeradd now (record { tv_sec = timeout; tv_usec = 0 }))

  -- What follows the wait in a round; `rest` is the rounds that follow.
  pub after_wait : (rest : Timeval → Cmd (Option ℕ)) (work_element : ℕ) → Option ℕ → Cmd (Option ℕ)
  after_wait rest work_element none = pure none
  after_wait rest work_element (some zero) = do
    status ← load_status work_element
    if status == 0 then (do now ← gettimeofday; rest now) else pure (some 0)
  after_wait rest work_element (some (suc n)) = pure (some (suc n))

  -- The loop of `wait_for_status`; `temp` is the time, and before the first round the timeout.
  pub status_loop :
      (ticks rounds reads work_element err_ea : ℕ) (test_timeout temp : Timeval) → Cmd (Option ℕ)
  status_loop zero rounds reads work_element err_ea test_timeout temp = pure none
  status_loop (suc ticks) rounds reads work_element err_ea test_timeout temp =
      if is_after temp test_timeout then pure (some 8) else (do
        r ← wait_for_irq rounds reads 0 OcxlMmioH.null 0 err_ea
        after_wait (status_loop ticks rounds reads work_element err_ea test_timeout) work_element r)

  pub wait_for_status : (ticks rounds reads timeout work_element err_ea : ℕ) → Cmd (Option ℕ)
  wait_for_status ticks rounds reads timeout work_element err_ea = do
    test_timeout ← deadline timeout
    status_loop ticks rounds reads work_element err_ea test_timeout
        (record { tv_sec = timeout; tv_usec = 0 })

  -- The loop of `wait_for_wake_host_thread`: whether the status was set in time.
  pub wake_loop : (ticks work_element : ℕ) (test_timeout : Timeval) → Cmd (Option Bool)
  wake_loop zero work_element test_timeout = pure none
  wake_loop (suc ticks) work_element test_timeout = do
    status ← load_status work_element
    if not (status == 0) then pure (some true) else (do
      now ← gettimeofday
      let rest = wake_loop ticks work_element test_timeout
      if is_after now test_timeout then pure (some false) else rest)

  -- The result after the wait for the fallback interrupt: `if (ret) return ret; return 8;`.
  pub fall_back : Option ℕ → Option ℕ
  fall_back none = none
  fall_back (some zero) = some 8
  fall_back (some (suc n)) = some (suc n)

  pub after_wake : (fallback : Cmd (Option ℕ)) → Option Bool → Cmd (Option ℕ)
  after_wake fallback none = pure none
  after_wake fallback (some true) = pure (some 0)
  after_wake fallback (some false) = do r ← fallback; pure (fall_back r)

  pub wait_for_wake_host_thread :
      (ticks rounds reads timeout : ℕ) (pp_mmio : OcxlMmioH) (work_element irq_ea err_ea : ℕ)
      → Cmd (Option ℕ)
  wait_for_wake_host_thread ticks rounds reads timeout pp_mmio work_element irq_ea err_ea = do
    test_timeout ← deadline timeout
    woken ← wake_loop ticks work_element test_timeout
    after_wake (wait_for_irq rounds reads 0 pp_mmio irq_ea err_ea) woken

  -- The status that is printed, or 0 if it cannot be read.
  pub display_afu_status : (pp_mmio : OcxlMmioH) → Cmd ℕ
  display_afu_status pp_mmio =
      on_error (ocxl_mmio_read64 pp_mmio memcpy_afu_pp_status OcxlEndian.little_endian)
        (λ _. pure 0)
