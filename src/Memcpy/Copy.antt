-- ===== src/Memcpy/Copy.antt =====
-- `afu_memcpy` of samples/memcpy/memcpy.c. Its `goto err` is an error here, which the whole command
-- turns into the result true.
use libocxl.Base.{
  ℕ, zero, suc, ◌+◌, ◌*◌, ◌/◌, ◌%◌, ◌^◌, Bool, true, false, not, Option, none, some, ◌==◌,
  if◌then◌else◌,
}
use libocxl.Types.{OcxlErr, OcxlEndian, OcxlMmioType, OcxlMmioH}
use libocxl.Kernel.{Kernel, Cmd, pure, on_error, return_err, ◌>>=◌, ◌>>◌, load, store, when}
use libocxl.Endian.{convert}
use libocxl.Mmio.Map.{ocxl_mmio_map}
use libocxl.Mmio.Access.{ocxl_mmio_write64}
use libocxl.Irq.{ocxl_irq_alloc, ocxl_irq_get_handle}
use libocxl.Afu.Open.{ocxl_afu_attach}
use libocxl.Events.{ocxl_afu_get_p9_thread_id}
use libocxl.Weq.{WorkElement, MemcpyWeq, zero_element}
use libocxl.Weq.Stores.{store_we, init_weq}
use libocxl.Memcpy.{
  memcpy_afu_pp_wed, memcpy_afu_pp_irq, wait_for_irq, wait_for_status, wait_for_wake_host_thread,
  load_status, display_afu_status,
}
use libocxl.Memcpy.Wed.{memcpy_wed, memcpy_we_cmd}

abbrev pub cacheline_size : ℕ
cacheline_size = 128

abbrev pub queue_size : ℕ
queue_size = 4095 * cacheline_size

-- MEMCPY_WE_CMD_COPY, _IRQ, _STOP and _WAKE_HOST_THREAD.
abbrev pub we_cmd_copy : ℕ
we_cmd_copy = 0

abbrev pub we_cmd_irq : ℕ
we_cmd_irq = 1

abbrev pub we_cmd_stop : ℕ
we_cmd_stop = 2

abbrev pub we_cmd_wake_host_thread : ℕ
we_cmd_wake_host_thread = 3

-- The addresses of the elements in the queue, and the page of the interrupt for the completion, or
-- 0; a `notification` is the interrupt's or the wake's element.
pub record Submitted : Type 0 where
  pub copy : ℕ
  pub notification : ℕ
  pub stop : ℕ
  pub irq_ea : ℕ

module _ ⦃k : Kernel⦄ where
  -- htole16 and htole64
  abbrev pub htole : (size v : ℕ) → ℕ
  htole size v = convert k.host_is_big_endian size OcxlEndian.little_endian v

  abbrev pub copy_element : (src dst size : ℕ) → WorkElement
  copy_element src dst size = record zero_element {
    cmd = memcpy_we_cmd 0 we_cmd_copy;
    length = htole 2 (size % 2 ^ 16);
    src = htole 8 src;
    dst = htole 8 dst;
  }

  abbrev pub irq_element : (irq_ea : ℕ) → WorkElement
  irq_element irq_ea = record zero_element {
    cmd = memcpy_we_cmd 1 we_cmd_irq;
    src = htole 8 irq_ea;
  }

  abbrev pub wake_element : (irq_ea tid : ℕ) → WorkElement
  wake_element irq_ea tid = record zero_element {
    cmd = memcpy_we_cmd 1 we_cmd_wake_host_thread;
    src = htole 8 irq_ea;
    length = htole 2 tid;
    cmd_extra = 1;
  }

  abbrev pub stop_element : WorkElement
  stop_element = record zero_element { cmd = memcpy_we_cmd 1 we_cmd_stop }

  -- Attaching, the per-PASID area, the error interrupt, and telling the AFU its page and the
  -- descriptor of the queue: the area, and the page.
  unfoldable pub introduce : (wed : ℕ) → Cmd (OcxlMmioH × ℕ)
  introduce wed = do
    ocxl_afu_attach 0
    pp_mmio ← ocxl_mmio_map OcxlMmioType.per_pasid_mmio
    err_irq ← ocxl_irq_alloc 0
    err_ea ← ocxl_irq_get_handle err_irq
    ocxl_mmio_write64 pp_mmio memcpy_afu_pp_irq OcxlEndian.little_endian err_ea
    ocxl_mmio_write64 pp_mmio memcpy_afu_pp_wed OcxlEndian.little_endian wed
    pure (pp_mmio, err_ea)

  -- The element behind the copy, for a completion that is an interrupt (1) or a wake (2): the queue,
  -- the element's address, and the interrupt's page.
  unfoldable pub queue_notification : (base completion : ℕ) → MemcpyWeq → Cmd (MemcpyWeq × (ℕ × ℕ))
  queue_notification base completion weq =
      if completion == 1
      then (do
        afu_irq ← ocxl_irq_alloc 0
        irq_ea ← ocxl_irq_get_handle afu_irq
        (weq', at) ← store_we base weq (irq_element irq_ea)
        pure (weq', (at, irq_ea)))
      else if completion == 2
      then (do
        afu_irq ← ocxl_irq_alloc 0
        irq_ea ← ocxl_irq_get_handle afu_irq
        tid ← ocxl_afu_get_p9_thread_id
        (weq', at) ← store_we base weq (wake_element irq_ea tid)
        pure (weq', (at, irq_ea)))
      else pure (weq, (0, 0))

  -- `memcpy_element->cmd |= MEMCPY_WE_CMD_VALID`
  unfoldable pub set_valid : (work_element : ℕ) → Cmd (Unit {0})
  set_valid work_element = do cmd ← load 1 work_element; store 1 work_element (cmd / 2 * 2 + 1)

  -- The elements of the queue: the copy, what reports that it is done, and the stop. The copy is made
  -- valid last.
  unfoldable pub submit : (base completion : ℕ) → MemcpyWeq → WorkElement → Cmd Submitted
  submit base completion weq we = do
    (weq1, copy) ← store_we base weq we
    (weq2, notified) ← queue_notification base completion weq1
    (weq3, stop) ← store_we base weq2 stop_element
    set_valid copy
    pure (record { copy = copy; notification = notified.0; stop = stop; irq_ea = notified.1 })

  -- Waiting, in the way that was asked for.
  unfoldable pub await :
      (ticks rounds reads completion timeout : ℕ) (pp_mmio : OcxlMmioH) (err_ea : ℕ)
      → Submitted
      → Cmd (Option ℕ)
  await ticks rounds reads completion timeout pp_mmio err_ea q =
      if completion == 1
      then wait_for_irq rounds reads timeout pp_mmio q.irq_ea err_ea
      else if completion == 2
      then wait_for_wake_host_thread ticks rounds reads timeout pp_mmio q.notification q.irq_ea
          err_ea
      else wait_for_status ticks rounds reads timeout q.copy err_ea

  -- `goto err_status` unless the element's status is 1.
  unfoldable pub check_status : (work_element : ℕ) → Cmd (Unit {0})
  check_status work_element = do
    status ← load_status work_element
    when (not (status == 1)) (return_err OcxlErr.internal_error)

  -- What follows the wait with result 0; whether the copy failed.
  unfoldable pub check_results :
      (ticks rounds reads completion timeout : ℕ) (pp_mmio : OcxlMmioH) (err_ea : ℕ)
      → Submitted
      → Cmd (Option Bool)
  check_results ticks rounds reads completion timeout pp_mmio err_ea q =
      on_error
        (do
          check_status q.copy
          when (completion == 1) (check_status q.notification)
          when (completion == 2) (check_status q.notification)
          r ← wait_for_status ticks rounds reads timeout q.stop err_ea
          elim r [ none ↦ pure none | some n ↦ do check_status q.stop; pure (some false) ])
        (λ _. do _ ← display_afu_status pp_mmio; pure (some true))

  -- What follows the wait.
  unfoldable pub finish :
      (ticks rounds reads completion timeout : ℕ) (pp_mmio : OcxlMmioH) (err_ea : ℕ)
      → Submitted
      → Option ℕ
      → Cmd (Option Bool)
  finish ticks rounds reads completion timeout pp_mmio err_ea q none = pure none
  finish ticks rounds reads completion timeout pp_mmio err_ea q (some zero) =
      check_results ticks rounds reads completion timeout pp_mmio err_ea q
  finish ticks rounds reads completion timeout pp_mmio err_ea q (some (suc rc)) = do
    _ ← display_afu_status pp_mmio
    pure (some true)

  -- Whether the copy failed; `none` if a loop did not end within its bound.
  pub afu_memcpy : (ticks rounds reads src dst size completion timeout : ℕ) → Cmd (Option Bool)
  afu_memcpy ticks rounds reads src dst size completion timeout =
      on_error
        (do
          (block, weq) ← init_weq queue_size
          (pp_mmio, err_ea) ← introduce (memcpy_wed block (queue_size / cacheline_size))
          q ← submit block completion weq (copy_element src dst size)
          rc ← await ticks rounds reads completion timeout pp_mmio err_ea q
          finish ticks rounds reads completion timeout pp_mmio err_ea q rc)
        (λ _. pure (some true))
