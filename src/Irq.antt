-- ===== src/Irq.antt =====
-- AFU interrupts: `irq_dealloc`, `irq_allocate`, `ocxl_irq_alloc` and the getters of src/irq.c. An
-- IRQ handle is an index into the buffer `irqs`; `fd_info.irq`, which epoll keeps, is the address of
-- an element of it.
pub mod Element
pub mod Table
pub mod Grow
pub mod Release
pub mod Ledger
pub mod Quiet
pub mod Keeps
pub mod Acquire
pub mod Alloc
pub mod Append
pub mod Handle
use libocxl.Base.{
  ℕ, ◌+◌, ◌%◌, ◌^◌, Bool, true, false, not, Option, none, some, ltb, ◌==◌, if◌then◌else◌, length,
  get_elem?, set,
}
use libocxl.Base.Int.{ℤ, is_neg, minus_one}
use libocxl.Types.{
  OcxlErr, Cell, indeterminate, zeroed, value, EpollFdSource, OcxlIrq, OcxlAfu, State,
}
use libocxl.Kernel.{
  Kernel, Cmd, pure, undefined, gets, or_fault, on_error, return_err, ◌>>=◌, ◌>>◌, modify_afu, when,
  mmap, munmap, close_fd, eventfd, ioctl_irq_alloc, ioctl_irq_set_fd, ioctl_irq_free, epoll_ctl_add,
  map_failed, prot_write,
}
use libocxl.Message.{errmsg, fail, fail_if}
use libocxl.Buffer.{grow_buffer}

-- sizeof(ocxl_irq), INITIAL_IRQ_COUNT and UINT16_MAX.
abbrev pub sizeof_irq : ℕ
sizeof_irq = 56

abbrev pub initial_irq_count : ℕ
initial_irq_count = 64

abbrev pub uint16_max : ℕ
uint16_max = 65535

-- The value of an element: reading one that was never written is undefined.
abbrev pub read_irq : Cell OcxlIrq → Option OcxlIrq
read_irq indeterminate = none
read_irq zeroed = some (record {
  irq_offset = 0;
  eventfd = ℤ.pos 0;
  irq_number = 0;
  addr = 0;
  info = 0;
  fd_info = EpollFdSource.ocxl;
})
read_irq (value q) = some q

abbrev pub irq_in : Option (Cell OcxlIrq) → Option OcxlIrq
irq_in none = none
irq_in (some c) = read_irq c

-- `afu->irqs[i]`
abbrev pub get_irq : ℕ → Cmd OcxlIrq
get_irq i = do found ← gets (λ s. irq_in (get_elem? s.afu.irqs.cells i)); or_fault found

-- `afu` with an element of its table of interrupts assigned.
abbrev pub with_irq : OcxlAfu → ℕ → OcxlIrq → OcxlAfu
with_irq afu i q = record afu {
  irqs = record { base = afu.irqs.base; cells = set afu.irqs.cells i (value q) };
}

-- `afu->irqs[i] = q`
pub put_irq : ℕ → OcxlIrq → Cmd (Unit {0})
put_irq i q s =
    if ltb i (length s.afu.irqs.cells) then modify_afu (λ afu. with_irq afu i q) s else undefined s

-- `afu->irqs[i].… = …`
abbrev pub update_irq : ℕ → (OcxlIrq → OcxlIrq) → Cmd (Unit {0})
update_irq i f = do q ← get_irq i; put_irq i (f q)

module _ ⦃k : Kernel⦄ where
  -- The three parts of `irq_dealloc`: the page, the interrupt, the event descriptor.
  pub dealloc_page : ℕ → OcxlIrq → Cmd (Unit {0})
  dealloc_page i q = when (not (q.addr == 0)) (do
    page_size ← gets (λ s. s.afu.page_size)
    done ← munmap q.addr page_size
    when (not done) (errmsg OcxlErr.internal_error)
    update_irq i (λ q. record q { addr = 0 }))

  pub dealloc_interrupt : ℕ → OcxlIrq → Cmd (Unit {0})
  dealloc_interrupt i q = when (not (q.irq_offset == 0)) (do
    fd ← gets (λ s. s.afu.fd)
    freed ← ioctl_irq_free fd q.irq_offset
    when (not freed) (errmsg OcxlErr.internal_error)
    update_irq i (λ q. record q { irq_offset = 0 }))

  pub dealloc_eventfd : ℕ → OcxlIrq → Cmd (Unit {0})
  dealloc_eventfd i q =
      when (not (is_neg q.eventfd))
        (do close_fd q.eventfd; update_irq i (λ q. record q { eventfd = minus_one }))

  pub irq_dealloc : ℕ → Cmd (Unit {0})
  irq_dealloc i = do
    dealloc_page i (← get_irq i)
    dealloc_interrupt i (← get_irq i)
    dealloc_eventfd i (← get_irq i)
    update_irq i (λ q. record q { info = 0 })

  -- The five calls of `irq_allocate`: the event descriptor, the interrupt, binding one to the other,
  -- the page, and watching the event descriptor.
  pub open_eventfd : ℕ → Cmd (Unit {0})
  open_eventfd i = do
    fd ← eventfd
    fail_if (is_neg fd) OcxlErr.internal_error
    update_irq i (λ q. record q { eventfd = fd })

  pub alloc_interrupt : ℕ → Cmd (Unit {0})
  alloc_interrupt i = do
    fd ← gets (λ s. s.afu.fd)
    answer ← ioctl_irq_alloc fd
    offset ← elim answer [ none ↦ fail OcxlErr.internal_error | some offset ↦ pure offset ]
    update_irq i (λ q. record q { irq_offset = offset })

  pub bind_eventfd : ℕ → Cmd (Unit {0})
  bind_eventfd i = do
    fd ← gets (λ s. s.afu.fd)
    q ← get_irq i
    bound ← ioctl_irq_set_fd fd q.irq_offset q.eventfd
    fail_if (not bound) OcxlErr.internal_error

  pub map_page : ℕ → Cmd (Unit {0})
  map_page i = do
    afu ← gets (λ s. s.afu)
    q ← get_irq i
    addr ← mmap afu.page_size prot_write afu.fd q.irq_offset
    update_irq i (λ q. record q { addr = addr })
    fail_if (addr == map_failed) OcxlErr.internal_error

  -- epoll keeps the address of the element's `fd_info`.
  pub watch_eventfd : ℕ → Cmd (Unit {0})
  watch_eventfd i = do
    afu ← gets (λ s. s.afu)
    q ← get_irq i
    added ← epoll_ctl_add afu.epoll_fd q.eventfd (EpollFdSource.irq afu.irqs.base i)
    fail_if (not added) OcxlErr.internal_error

  pub acquire_irq : ℕ → Cmd (Unit {0})
  acquire_irq i = do open_eventfd i; alloc_interrupt i; bind_eventfd i; map_page i; watch_eventfd i

  -- The struct as `irq_allocate` initialises it.
  abbrev pub initial_irq : OcxlAfu → ℕ → (info : ℕ) → OcxlIrq
  initial_irq afu i info = record {
    irq_offset = 0;
    eventfd = minus_one;
    irq_number = uint16_max;
    addr = 0;
    info = info;
    fd_info = EpollFdSource.irq afu.irqs.base i;
  }

  pub irq_allocate : ℕ → (info : ℕ) → Cmd (Unit {0})
  irq_allocate i info = do
    afu ← gets (λ s. s.afu)
    put_irq i (initial_irq afu i info)
    on_error (acquire_irq i) (λ rc. do irq_dealloc i; return_err rc)

  pub grow_irqs : Cmd (Unit {0})
  grow_irqs = do
    afu ← gets (λ s. s.afu)
    (irqs, max) ←
        on_error (grow_buffer afu.irqs afu.irq_max_count sizeof_irq initial_irq_count)
          (λ rc. fail rc)
    modify_afu (λ a. record a { irqs = irqs; irq_max_count = max })

  pub ocxl_irq_alloc : (info : ℕ) → Cmd ℕ
  ocxl_irq_alloc info = do
    full ← gets (λ s. s.afu.irq_count == s.afu.irq_max_count)
    when full grow_irqs
    i ← gets (λ s. s.afu.irq_count)
    on_error (irq_allocate i info) (λ rc. fail rc)
    update_irq i (λ q. record q { irq_number = i })
    modify_afu (λ a. record a { irq_count = (a.irq_count + 1) % 2 ^ 16 })
    pure i

pub ocxl_irq_get_handle : ℕ → Cmd ℕ
ocxl_irq_get_handle irq s =
    if ltb s.afu.irq_count irq then pure 0 s else (do q ← get_irq irq; pure q.addr) s

pub ocxl_irq_get_fd : ℕ → Cmd ℤ
ocxl_irq_get_fd irq s =
    if ltb s.afu.irq_count irq then pure minus_one s else (do q ← get_irq irq; pure q.eventfd) s
