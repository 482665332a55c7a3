-- ===== src/Types/World.antt =====
-- `struct ocxl_afu` of src/libocxl_internal.h, the globals of src/internal.c, and the history of
-- the calls that the library makes outside itself.
use Prim.Native.String.{String}
use libocxl.Base.{ℕ, Bool, Option, List}
use libocxl.Base.Int.{ℤ}
use libocxl.Types.Errors.{OcxlErr}
use libocxl.Types.Structs.{
  Buffer, OcxlMmioArea, OcxlIrq, EpollFdSource, KernelEvent, Metadata, Pattern, GlobAnswer, Timeval,
}

-- An error handler: the default one, or one that the application installed.
pub data Handler : Type 0 where
  default : Handler
  custom : ℕ → Handler

-- `ocxl_identifier`
pub record OcxlIdentifier : Type 0 where
  pub afu_index : ℕ
  pub afu_name : String

-- `struct ocxl_afu`; of the two areas `global_mmio` and `per_pasid_mmio` only the lengths are used.
pub record OcxlAfu : Type 0 where
  pub identifier : OcxlIdentifier
  pub device_path : Option (ℕ × String)
  pub sysfs_path : Option (ℕ × String)
  pub version_major : ℕ
  pub version_minor : ℕ
  pub fd : ℤ
  pub epoll_fd : ℤ
  pub epoll_events : ℕ
  pub epoll_event_count : ℕ
  pub global_mmio_fd : ℤ
  pub global_mmio_length : ℕ
  pub per_pasid_mmio_length : ℕ
  pub page_size : ℕ
  pub irqs : Buffer OcxlIrq
  pub irq_count : ℕ
  pub irq_max_count : ℕ
  pub mmios : Buffer OcxlMmioArea
  pub mmio_count : ℕ
  pub mmio_max_count : ℕ
  pub pasid : ℕ
  pub verbose_errors : Bool
  pub error_handler : Handler
  pub tracing : Bool
  pub attached : Bool
  pub ppc64_amr : ℕ

-- A call outside the library, with its arguments and, last, its answer.
pub data Event : Type 0 where
  mmap : (size prot : ℕ) (fd : ℤ) (offset answer : ℕ) → Event
  munmap : (addr size : ℕ) → Event
  open_file : String → (fd : ℤ) → Event
  close : (fd : ℤ) → Event
  malloc : (size answer : ℕ) → Event
  realloc : (block size answer : ℕ) → Event
  free : (block : ℕ) → Event
  eventfd : (fd : ℤ) → Event
  irq_alloc : (fd : ℤ) → Option ℕ → Event
  irq_set_fd : (fd : ℤ) (irq_offset : ℕ) (eventfd : ℤ) → Bool → Event
  irq_free : (fd : ℤ) (irq_offset : ℕ) → Bool → Event
  attach : (fd : ℤ) (amr : ℕ) → Bool → Event
  get_metadata : (fd : ℤ) → Option Metadata → Event
  epoll_create : (fd : ℤ) → Event
  epoll_add : (epoll_fd fd : ℤ) → EpollFdSource → Bool → Event
  load : (bytes addr answer : ℕ) → Event
  store : (bytes addr val : ℕ) → Event
  read_event : (fd : ℤ) (size : ℕ) (used : ℤ) → KernelEvent → Event
  read_eventfd : (fd used : ℤ) (count : ℕ) → Event
  epoll_wait : (epoll_fd : ℤ) (max : ℕ) (timeout : ℤ) → Option (List EpollFdSource) → Event
  opendir : String → Option (ℤ × List String) → Event
  closedir : (dirfd : ℤ) → Event
  fstatat : (dirfd : ℤ) (name : String) → Option (Bool × ℕ) → Event
  stat : String → Option ℕ → Event
  glob : Pattern → GlobAnswer → Event
  globfree : Event
  get_features : (fd : ℤ) → Option Bool → Event
  enable_p9_wait : (fd : ℤ) → Option ℕ → Event
  aligned_alloc : (alignment size answer : ℕ) → Event
  gettimeofday : Timeval → Event

abbrev pub History : Type 0
History = List Event

-- What an error handler was called with; the text of the message is left out.
pub record Message : Type 0 where
  pub handler : Handler
  pub from_afu : Bool
  pub error : OcxlErr

-- The globals of src/internal.c.
pub record Globals : Type 0 where
  pub sys_path : Option String
  pub dev_path : Option String
  pub libocxl_inited : Bool
  pub verbose_errors : Bool
  pub verbose_errors_all : Bool
  pub tracing : Bool
  pub tracing_all : Bool
  pub error_handler : Handler

-- The whole state: the newest event and the newest message come first; `afu_h` is the address of
-- the AFU's struct.
pub record State : Type 0 where
  pub log : History
  pub messages : List Message
  pub globals : Globals
  pub afu_h : ℕ
  pub afu : OcxlAfu
