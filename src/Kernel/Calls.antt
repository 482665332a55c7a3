-- ===== src/Kernel/Calls.antt =====
-- One command for each call outside the library: it asks the parameter and records the event.
use Prim.Native.String.{String}
use libocxl.Base.{ℕ, ◌-◌, ◌%◌, ◌^◌, Bool, Option, List, ◌∷◌}
use libocxl.Base.Int.{ℤ}
use libocxl.Types.{Event, EpollFdSource, KernelEvent, Metadata, Pattern, GlobAnswer, Timeval}
use libocxl.Kernel.Defs.{Kernel}
use libocxl.Kernel.Monad.{Cmd, done}

-- MAP_FAILED, which is (void *) -1.
abbrev pub map_failed : ℕ
map_failed = 2 ^ 64 - 1

-- PROT_READ | PROT_WRITE, and PROT_WRITE.
abbrev pub prot_read_write : ℕ
prot_read_write = 3

abbrev pub prot_write : ℕ
prot_write = 2

abbrev logged : {A : Type 0} → Event → A → Cmd A
logged e a s = done a (record s { log = e ∷ s.log })

module _ ⦃k : Kernel⦄ where
  abbrev pub mmap : (size prot : ℕ) → ℤ → (offset : ℕ) → Cmd ℕ
  mmap size prot fd offset s =
      let a = k.mmap s.log size prot fd offset in logged (Event.mmap size prot fd offset a) a s

  -- Whether it succeeded.
  abbrev pub munmap : (addr size : ℕ) → Cmd Bool
  munmap addr size s = logged (Event.munmap addr size) (k.munmap s.log addr size) s

  abbrev pub open_file : String → Cmd ℤ
  open_file path s = let fd = k.open_file s.log path in logged (Event.open_file path fd) fd s

  abbrev pub close_fd : ℤ → Cmd (Unit {0})
  close_fd fd = logged (Event.close fd) tt

  abbrev pub malloc : ℕ → Cmd ℕ
  malloc size s = let a = k.malloc s.log size in logged (Event.malloc size a) a s

  abbrev pub realloc : (block size : ℕ) → Cmd ℕ
  realloc block size s =
      let a = k.realloc s.log block size in logged (Event.realloc block size a) a s

  abbrev pub free : ℕ → Cmd (Unit {0})
  free block = logged (Event.free block) tt

  abbrev pub eventfd : Cmd ℤ
  eventfd s = let fd = k.eventfd s.log in logged (Event.eventfd fd) fd s

  abbrev pub ioctl_irq_alloc : ℤ → Cmd (Option ℕ)
  ioctl_irq_alloc fd s = let a = k.irq_alloc s.log fd in logged (Event.irq_alloc fd a) a s

  abbrev pub ioctl_irq_set_fd : ℤ → ℕ → ℤ → Cmd Bool
  ioctl_irq_set_fd fd offset efd s =
      let a = k.irq_set_fd s.log fd offset efd in logged (Event.irq_set_fd fd offset efd a) a s

  abbrev pub ioctl_irq_free : ℤ → ℕ → Cmd Bool
  ioctl_irq_free fd offset s =
      let a = k.irq_free s.log fd offset in logged (Event.irq_free fd offset a) a s

  abbrev pub ioctl_attach : ℤ → ℕ → Cmd Bool
  ioctl_attach fd amr s = let a = k.attach s.log fd amr in logged (Event.attach fd amr a) a s

  abbrev pub ioctl_get_metadata : ℤ → Cmd (Option Metadata)
  ioctl_get_metadata fd s = let a = k.get_metadata s.log fd in logged (Event.get_metadata fd a) a s

  abbrev pub epoll_create : Cmd ℤ
  epoll_create s = let fd = k.epoll_create s.log in logged (Event.epoll_create fd) fd s

  abbrev pub epoll_ctl_add : ℤ → ℤ → EpollFdSource → Cmd Bool
  epoll_ctl_add epoll_fd fd source s =
      let a = k.epoll_add s.log epoll_fd fd source in
      logged (Event.epoll_add epoll_fd fd source a) a s

  abbrev pub load : (bytes addr : ℕ) → Cmd ℕ
  load bytes addr s =
      let a = k.load s.log bytes addr % 256 ^ bytes in logged (Event.load bytes addr a) a s

  abbrev pub store : (bytes addr val : ℕ) → Cmd (Unit {0})
  store bytes addr v = logged (Event.store bytes addr v) tt

  abbrev pub read_event : ℤ → (size : ℕ) → Cmd (ℤ × KernelEvent)
  read_event fd size s =
      let a = k.read_event s.log fd size in logged (Event.read_event fd size a.0 a.1) a s

  abbrev pub read_eventfd : ℤ → Cmd (ℤ × ℕ)
  read_eventfd fd s = let a = k.read_eventfd s.log fd in logged (Event.read_eventfd fd a.0 a.1) a s

  abbrev pub epoll_wait : ℤ → (max : ℕ) (timeout : ℤ) → Cmd (Option (List EpollFdSource))
  epoll_wait epoll_fd max timeout s =
      let a = k.epoll_wait s.log epoll_fd max timeout in
      logged (Event.epoll_wait epoll_fd max timeout a) a s

  abbrev pub ioctl_get_features : ℤ → Cmd (Option Bool)
  ioctl_get_features fd s = let a = k.get_features s.log fd in logged (Event.get_features fd a) a s

  abbrev pub ioctl_enable_p9_wait : ℤ → Cmd (Option ℕ)
  ioctl_enable_p9_wait fd s =
      let a = k.enable_p9_wait s.log fd in logged (Event.enable_p9_wait fd a) a s

  abbrev pub opendir : String → Cmd (Option (ℤ × List String))
  opendir path s = let a = k.opendir s.log path in logged (Event.opendir path a) a s

  abbrev pub closedir : (dirfd : ℤ) → Cmd (Unit {0})
  closedir dirfd = logged (Event.closedir dirfd) tt

  abbrev pub fstatat : (dirfd : ℤ) (name : String) → Cmd (Option (Bool × ℕ))
  fstatat dirfd name s =
      let a = k.fstatat s.log dirfd name in logged (Event.fstatat dirfd name a) a s

  abbrev pub stat : String → Cmd (Option ℕ)
  stat path s = let a = k.stat s.log path in logged (Event.stat path a) a s

  abbrev pub glob : Pattern → Cmd GlobAnswer
  glob pattern s = let a = k.glob s.log pattern in logged (Event.glob pattern a) a s

  abbrev pub globfree : Cmd (Unit {0})
  globfree = logged Event.globfree tt

  abbrev pub aligned_alloc : (alignment size : ℕ) → Cmd ℕ
  aligned_alloc alignment size s =
      let a = k.aligned_alloc s.log alignment size in
      logged (Event.aligned_alloc alignment size a) a s

  abbrev pub gettimeofday : Cmd Timeval
  gettimeofday s = let now = k.gettimeofday s.log in logged (Event.gettimeofday now) now s
