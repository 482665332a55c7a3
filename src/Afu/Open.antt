-- ===== src/Afu/Open.antt =====
-- `afu_init`, `afu_alloc`, `afu_open`, `ocxl_afu_attach`, `ocxl_afu_set_ppc64_amr` and the getters
-- of src/afu.c.
pub mod Steps
pub mod Opened
pub mod Attach
use Prim.Native.String.{String}
use libocxl.Base.{ℕ, ◌-◌, ◌^◌, Bool, true, false, not, Option, none, some, [], ◌==◌}
use libocxl.Base.Int.{is_neg, is_minus_one, minus_one}
use libocxl.Types.{OcxlErr, OcxlIdentifier, EpollFdSource, Metadata, Globals, Handler, OcxlAfu}
use libocxl.Kernel.{
  Kernel, Errno, Cmd, pure, gets, or_fault, on_error, return_err, ◌>>=◌, ◌>>◌, modify_afu, done,
  when, malloc, open_file, epoll_create, epoll_ctl_add, ioctl_get_metadata, ioctl_attach,
}
use libocxl.Message.{fail, fail_if, fail_null, fail_null_if}
use libocxl.Mmio.Map.{path_text, global_mmio_open}

-- UINT32_MAX
abbrev pub uint32_max : ℕ
uint32_max = 2 ^ 32 - 1

-- What `afu_open` returns if the device cannot be opened.
abbrev pub open_error : Errno → OcxlErr
open_error Errno.enospc = OcxlErr.no_more_contexts
open_error Errno.eagain = OcxlErr.no_dev
open_error Errno.ewouldblock = OcxlErr.no_dev
open_error (Errno.other n) = OcxlErr.no_dev

module _ ⦃k : Kernel⦄ where
  -- The index of the AFU is the only field that is left as it was.
  unfoldable pub afu_init : Globals → OcxlAfu → OcxlAfu
  afu_init g a = record {
    identifier = record { afu_index = a.identifier.afu_index; afu_name = "" };
    device_path = none;
    sysfs_path = none;
    version_major = 0;
    version_minor = 0;
    fd = minus_one;
    epoll_fd = minus_one;
    epoll_events = 0;
    epoll_event_count = 0;
    global_mmio_fd = minus_one;
    global_mmio_length = 0;
    per_pasid_mmio_length = 0;
    page_size = k.page_size;
    irqs = record { base = 0; cells = [] };
    irq_count = 0;
    irq_max_count = 0;
    mmios = record { base = 0; cells = [] };
    mmio_count = 0;
    mmio_max_count = 0;
    pasid = uint32_max;
    verbose_errors = g.verbose_errors_all;
    error_handler = Handler.default;
    tracing = g.tracing_all;
    attached = false;
    ppc64_amr = 0;
  }

  -- The fresh struct is the AFU of the state from here on.
  unfoldable pub afu_alloc : Cmd ℕ
  afu_alloc = do
    afu ← malloc k.sizeof_afu
    fail_null_if (afu == 0) OcxlErr.no_mem
    (λ s. done tt (record s { afu_h = afu; afu = afu_init s.globals s.afu }))
    pure afu

  -- The device descriptor.
  unfoldable pub open_device : Cmd (Unit {0})
  open_device = do
    device_path ← gets (λ s. path_text s.afu.device_path)
    path ← or_fault device_path
    fd ← open_file path
    errno ← gets (λ s. k.errno s.log)
    fail_null_if (is_neg fd) (open_error errno)
    modify_afu (λ a. record a { fd = fd })

  -- The epoll descriptor, which watches the device from the start.
  pub open_epoll : Cmd (Unit {0})
  open_epoll = do
    fd ← epoll_create
    fail_null_if (is_neg fd) OcxlErr.no_dev
    modify_afu (λ a. record a { epoll_fd = fd })
    afu ← gets (λ s. s.afu)
    added ← epoll_ctl_add afu.epoll_fd afu.fd EpollFdSource.ocxl
    fail_null_if (not added) OcxlErr.no_dev

  abbrev pub with_metadata : OcxlAfu → Metadata → OcxlAfu
  with_metadata a m = record a {
    version_major = m.afu_version_major;
    version_minor = m.afu_version_minor;
    per_pasid_mmio_length = m.pp_mmio_size;
    global_mmio_length = m.global_mmio_size;
    pasid = m.pasid;
  }

  pub read_metadata : Cmd (Unit {0})
  read_metadata = do
    fd ← gets (λ s. s.afu.fd)
    answer ← ioctl_get_metadata fd
    m ← elim answer [ none ↦ fail_null OcxlErr.no_dev | some m ↦ pure m ]
    modify_afu (λ a. with_metadata a m)

  unfoldable pub afu_open : Cmd (Unit {0})
  afu_open = do
    closed ← gets (λ s. is_minus_one s.afu.fd)
    when (not closed) (return_err OcxlErr.already_done)
    open_device
    on_error global_mmio_open (λ rc. fail_null rc)
    open_epoll
    read_metadata

  -- The flags are not used.
  unfoldable pub ocxl_afu_attach : (flags : ℕ) → Cmd (Unit {0})
  ocxl_afu_attach flags = do
    afu ← gets (λ s. s.afu)
    fail_if (is_minus_one afu.fd) OcxlErr.no_context
    attached ← ioctl_attach afu.fd afu.ppc64_amr
    fail_if (not attached) OcxlErr.internal_error
    modify_afu (λ a. record a { attached = true })

unfoldable pub ocxl_afu_set_ppc64_amr : (amr : ℕ) → Cmd (Unit {0})
ocxl_afu_set_ppc64_amr amr = modify_afu (λ a. record a { ppc64_amr = amr })

pub ocxl_afu_get_pasid : OcxlAfu → ℕ
ocxl_afu_get_pasid a = a.pasid

pub ocxl_afu_get_identifier : OcxlAfu → OcxlIdentifier
ocxl_afu_get_identifier a = a.identifier

pub ocxl_afu_get_device_path : OcxlAfu → Option (ℕ × String)
ocxl_afu_get_device_path a = a.device_path

pub ocxl_afu_get_sysfs_path : OcxlAfu → Option (ℕ × String)
ocxl_afu_get_sysfs_path a = a.sysfs_path

-- The major and the minor version.
pub ocxl_afu_get_version : OcxlAfu → ℕ × ℕ
ocxl_afu_get_version a = (a.version_major, a.version_minor)
