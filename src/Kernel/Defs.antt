-- ===== src/Kernel/Defs.antt =====
-- The parameter of the model: the answers of what is not code of the repository, and the
-- constants of misc/ocxl.h that the sources use.
use Prim.Native.String.{String}
use libocxl.Base.{ℕ, Bool, Option, List}
use libocxl.Base.Int.{ℤ}
use libocxl.Types.{History, EpollFdSource, KernelEvent, Metadata, Pattern, GlobAnswer, Timeval}

-- `errno`, as far as the sources look at it.
pub data Errno : Type 0 where
  enospc eagain ewouldblock : Errno
  other : ℕ → Errno

pub record Kernel : Type 0 where
  pub errno : History → Errno
  pub page_size : ℕ
  -- sizeof(ocxl_afu)
  pub sizeof_afu : ℕ
  pub host_is_big_endian : Bool
  -- The address, or `map_failed`.
  pub mmap : History → (size prot : ℕ) → ℤ → (offset : ℕ) → ℕ
  -- A descriptor, or a negative number.
  pub open_file : History → String → ℤ
  pub eventfd : History → ℤ
  pub epoll_create : History → ℤ
  -- An address, or 0.
  pub malloc : History → (size : ℕ) → ℕ
  pub realloc : History → (block size : ℕ) → ℕ
  -- `none` if the call fails, and nothing is written then.
  pub irq_alloc : History → ℤ → Option ℕ
  pub get_metadata : History → ℤ → Option Metadata
  -- Whether the call succeeds.
  pub irq_set_fd : History → ℤ → ℕ → ℤ → Bool
  pub irq_free : History → ℤ → ℕ → Bool
  pub munmap : History → (addr size : ℕ) → Bool
  pub attach : History → ℤ → (amr : ℕ) → Bool
  pub epoll_add : History → (epoll_fd fd : ℤ) → EpollFdSource → Bool
  -- A load of so many bytes, as a number in the host's byte order (its low bytes).
  pub load : History → (bytes addr : ℕ) → ℕ
  -- sizeof(ocxl_kernel_event_header), sizeof(ocxl_kernel_event_xsl_fault_error) and
  -- OCXL_AFU_EVENT_XSL_FAULT_ERROR.
  pub sizeof_header : ℕ
  pub sizeof_xsl_fault : ℕ
  pub xsl_fault_type : ℕ
  -- A read of the AFU's descriptor: its result, and what the buffer holds.
  pub read_event : History → ℤ → (size : ℕ) → ℤ × KernelEvent
  -- A read of an event descriptor: its result, and the counter.
  pub read_eventfd : History → ℤ → ℤ × ℕ
  -- The sources that are ready, or `none` for -1.
  pub epoll_wait : History → ℤ → (max : ℕ) (timeout : ℤ) → Option (List EpollFdSource)
  -- Whether OCXL_IOCTL_FEATURES_FLAGS0_P9_WAIT is among the features.
  pub get_features : History → ℤ → Option Bool
  -- The thread's identity.
  pub enable_p9_wait : History → ℤ → Option ℕ
  pub getenv : String → Option String
  -- Whether two texts are equal, with the case of letters ignored or not.
  pub strcasecmp : String → String → Bool
  pub strcmp : String → String → Bool
  -- The last of the five numbers of a physical function, if `sscanf` finds all five.
  pub sscanf_index : String → Option ℕ
  -- The descriptor of a directory's stream and the names in it, or `none` for NULL.
  pub opendir : History → String → Option (ℤ × List String)
  -- What is at the address of a directory's entry after `closedir`, if it can be read at all.
  pub closed_entry : History → (name : String) → Option String
  -- Whether a file of that directory is a character device, and its device number.
  pub fstatat : History → (dirfd : ℤ) (name : String) → Option (Bool × ℕ)
  -- The device number.
  pub stat : History → (path : String) → Option ℕ
  pub glob : History → Pattern → GlobAnswer
  -- An address, or 0.
  pub aligned_alloc : History → (alignment size : ℕ) → ℕ
  pub gettimeofday : History → Timeval
