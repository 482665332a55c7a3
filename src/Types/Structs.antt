-- ===== src/Types/Structs.antt =====
-- The structs of src/libocxl_internal.h that an AFU owns. An address is a number, 0 for NULL;
-- a descriptor is a C int.
use Prim.Native.String.{String}
use libocxl.Base.{ℕ, Bool, Option, List}
use libocxl.Base.Int.{ℤ}
use libocxl.Types.Errors.{OcxlMmioType}

-- An element of a heap buffer: never written, cleared by `memset`, or assigned.
pub data Cell (A : Type 0) : Type 0 where
  indeterminate zeroed : Cell A
  value : A → Cell A

-- A heap buffer: its address and its elements.
pub record Buffer (A : Type 0) : Type 0 where
  pub base : ℕ
  pub cells : List (Cell A)

-- `ocxl_mmio_area`, but for the pointer back to its AFU: there is one AFU in the state.
pub record OcxlMmioArea : Type 0 where
  pub start : ℕ
  pub length : ℕ
  pub type : OcxlMmioType

-- `ocxl_mmio_h`: NULL, or the address of an element of a buffer.
pub data OcxlMmioH : Type 0 where
  null : OcxlMmioH
  area : ℕ → ℕ → OcxlMmioH

-- `epoll_fd_source`: the AFU, or an IRQ by the address of its element in a buffer.
pub data EpollFdSource : Type 0 where
  ocxl : EpollFdSource
  irq : ℕ → ℕ → EpollFdSource

-- `struct ocxl_irq` with the fields of its `event` inline.
pub record OcxlIrq : Type 0 where
  pub irq_offset : ℕ
  pub eventfd : ℤ
  pub irq_number : ℕ
  pub addr : ℕ
  pub info : ℕ
  pub fd_info : EpollFdSource

-- An event as the kernel writes it to the buffer of a read of the AFU's descriptor: the type of its
-- header, whether the header's flags have OCXL_KERNEL_EVENT_FLAG_LAST, and its body.
pub record KernelEvent : Type 0 where
  pub type : ℕ
  pub last : Bool
  pub addr : ℕ
  pub dsisr : ℕ
  pub count : ℕ

-- `ocxl_event`: an interrupt, or a translation fault.
pub data OcxlEvent : Type 0 where
  irq : (number handle info count : ℕ) → OcxlEvent
  translation_fault : (addr dsisr count : ℕ) → OcxlEvent

-- What the AFU descriptor's metadata request returns (misc/ocxl.h, version 0 fields).
pub record Metadata : Type 0 where
  pub afu_version_major : ℕ
  pub afu_version_minor : ℕ
  pub pasid : ℕ
  pub pp_mmio_size : ℕ
  pub global_mmio_size : ℕ

-- The pattern that `ocxl_afu_open_specific` looks for: the device directory, the name, and the
-- physical function and the index, where one is asked for.
pub record Pattern : Type 0 where
  pub dir : String
  pub name : String
  pub physical_function : Option String
  pub afu_index : Option ℤ

-- What `glob` returns: the matching paths, GLOB_NOSPACE, GLOB_NOMATCH, or another error.
pub data GlobAnswer : Type 0 where
  paths : List String → GlobAnswer
  no_space no_match aborted : GlobAnswer

-- `struct timeval`
pub record Timeval : Type 0 where
  pub tv_sec : ℕ
  pub tv_usec : ℕ
