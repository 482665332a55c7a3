-- ===== src/Tests/Setup.antt =====
-- A concrete kernel, and the states that the examples start from.
use libocxl.Base.{ℕ, zero, suc, true, false, none, some, List, [], ◌∷◌, ◌==◌, if◌then◌else◌}
use libocxl.Base.Int.{pos, minus_one}
use libocxl.Types.{
  OcxlMmioType, Cell, indeterminate, value, OcxlMmioArea, EpollFdSource, OcxlIrq, Handler, OcxlAfu,
  Globals, State, History, Event, GlobAnswer,
}
use libocxl.Kernel.{Kernel, Errno}
use libocxl.Irq.Table.{Closable, irqs_in_use}

-- A device register that gives back what has just been stored.
abbrev pub latest : History → ℕ → ℕ
latest [] addr = 0
latest (Event.store bytes a v ∷ l) addr = if a == addr then v else 0
latest (e ∷ l) addr = 0

-- Every call succeeds; the host is little-endian.
instance abbrev pub friendly : Kernel
friendly = record {
  errno = λ _. Errno.other 0;
  page_size = 65536;
  sizeof_afu = 416;
  host_is_big_endian = false;
  mmap = λ _ size prot fd offset. 0x7000_0000;
  open_file = λ _ path. pos 5;
  eventfd = λ _. pos 9;
  epoll_create = λ _. pos 6;
  malloc = λ _ size. 0x1000;
  realloc = λ _ block size. 0x2000;
  irq_alloc = λ _ fd. some 0x10000;
  get_metadata = λ _ fd. some (record {
    afu_version_major = 1;
    afu_version_minor = 2;
    pasid = 42;
    pp_mmio_size = 0x4000;
    global_mmio_size = 0x10000;
  });
  irq_set_fd = λ _ fd offset efd. true;
  irq_free = λ _ fd offset. true;
  munmap = λ _ addr size. true;
  attach = λ _ fd amr. true;
  epoll_add = λ _ epoll_fd fd source. true;
  load = λ l bytes addr. latest l addr;
  sizeof_header = 8;
  sizeof_xsl_fault = 32;
  xsl_fault_type = 0;
  read_event =
      λ l fd size. (minus_one, record { type = 0; last = true; addr = 0; dsisr = 0; count = 0 });
  read_eventfd = λ l fd. (pos 8, 1);
  epoll_wait = λ l fd max timeout. some (EpollFdSource.irq 0x900 0 ∷ []);
  get_features = λ l fd. some true;
  enable_p9_wait = λ l fd. some 17;
  getenv = λ _. none;
  strcasecmp = λ a b. false;
  strcmp = λ a b. false;
  sscanf_index = λ _. some 0;
  opendir = λ _ path. some (pos 11, "IBM,MEMCPY3.0004:00:00.1.0" ∷ []);
  closed_entry = λ _ name. some name;
  fstatat = λ _ dirfd name. some (true, 9);
  stat = λ _ path. some 9;
  glob = λ _ pattern. GlobAnswer.paths ("/dev/ocxl/IBM,MEMCPY3.0004:00:00.1.0" ∷ []);
  aligned_alloc = λ _ alignment size. 0x20_0000;
  gettimeofday = λ _. record { tv_sec = 100; tv_usec = 0 };
}

abbrev pub area_a : OcxlMmioArea
area_a = record { start = 0x5000; length = 16; type = OcxlMmioType.per_pasid_mmio }

abbrev pub area_b : OcxlMmioArea
area_b = record { start = 0; length = 32; type = OcxlMmioType.global_mmio }

abbrev pub mmio_cells : List (Cell OcxlMmioArea)
mmio_cells = value area_a ∷ value area_b ∷ indeterminate ∷ indeterminate ∷ []

abbrev pub irq_a : OcxlIrq
irq_a = record {
  irq_offset = 0x20000;
  eventfd = pos 11;
  irq_number = 0;
  addr = 0x6000;
  info = 77;
  fd_info = EpollFdSource.irq 0x900 0;
}

-- An attached AFU with one region mapped, one unmapped, and one interrupt.
abbrev pub afu : OcxlAfu
afu = record {
  identifier = record { afu_index = 0; afu_name = "IBM,MEMCPY3" };
  device_path = some (0x100, "/dev/ocxl/IBM,MEMCPY3.0004:00:00.1.0");
  sysfs_path = some (0x200, "/sys/class/ocxl/IBM,MEMCPY3.0004:00:00.1.0");
  version_major = 1;
  version_minor = 2;
  fd = pos 5;
  epoll_fd = pos 6;
  epoll_events = 0;
  epoll_event_count = 0;
  global_mmio_fd = pos 7;
  global_mmio_length = 0x10000;
  per_pasid_mmio_length = 0x4000;
  page_size = 65536;
  irqs = record { base = 0x900; cells = value irq_a ∷ [] };
  irq_count = 1;
  irq_max_count = 1;
  mmios = record { base = 0x800; cells = mmio_cells };
  mmio_count = 2;
  mmio_max_count = 4;
  pasid = 42;
  verbose_errors = true;
  error_handler = Handler.default;
  tracing = false;
  attached = true;
  ppc64_amr = 0;
}

abbrev pub globals : Globals
globals = record {
  sys_path = none;
  dev_path = none;
  libocxl_inited = true;
  verbose_errors = false;
  verbose_errors_all = false;
  tracing = false;
  tracing_all = false;
  error_handler = Handler.default;
}

abbrev pub start : State
start = record { log = []; messages = []; globals = globals; afu_h = 0x10; afu = afu }

pub afu-Closable : Closable (irqs_in_use afu)
afu-Closable zero q e h = cc
afu-Closable (suc j) q e h = cc
