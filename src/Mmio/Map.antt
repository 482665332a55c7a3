-- ===== src/Mmio/Map.antt =====
-- Mapping of MMIO areas: `global_mmio_open`, `global_mmio_map`, `mmio_map` and
-- `ocxl_mmio_map_advanced` of src/mmio.c. An `off_t` is an integer, a `size_t` a number below 2^64.
pub mod Bounds
pub mod Quiet
use Prim.Native.String.{String, len, ◌++◌ as str_append}
use libocxl.Base.{ℕ, ◌+◌, ◌-◌, ◌%◌, ◌^◌, not, Option, none, some, ltb, leb, ◌==◌, if◌then◌else◌}
use libocxl.Base.Int.{ℤ, pos, is_neg, to_size_t}
use libocxl.Types.{OcxlErr, OcxlMmioType, OcxlMmioH, OcxlAfu}
use libocxl.Kernel.{
  Kernel, Cmd, gets, or_fault, on_error, return_err, ◌>>=◌, ◌>>◌, modify_afu, mmap, munmap,
  open_file, map_failed, prot_read_write,
}
use libocxl.Message.{errmsg, fail, fail_if}
use libocxl.Mmio.Register.{register_mmio}

-- The text of `afu->sysfs_path`: printing NULL is undefined.
abbrev pub path_text : Option (ℕ × String) → Option String
path_text none = none
path_text (some (block, text)) = some text

-- sizeof(path) in `global_mmio_open`, PATH_MAX + 1.
abbrev pub sizeof_path : ℕ
sizeof_path = 4097

abbrev pub mmio_path : String → String
mmio_path sysfs_path = str_append sysfs_path "/global_mmio_area"

-- The length of the area of a type, 0 for a type without a name.
abbrev pub area_length : OcxlMmioType → OcxlAfu → ℕ
area_length OcxlMmioType.global_mmio a = a.global_mmio_length
area_length OcxlMmioType.per_pasid_mmio a = a.per_pasid_mmio_length
area_length (OcxlMmioType.other n) a = 0

-- `if (size == 0) size = length - offset`, and `offset + size`, both in 64 bits.
abbrev pub mapped_size : (size length : ℕ) → ℤ → ℕ
mapped_size size length offset =
    if size == 0 then (length + 2 ^ 64 - to_size_t offset) % 2 ^ 64 else size

abbrev pub mapped_end : (size : ℕ) → ℤ → ℕ
mapped_end size offset = (to_size_t offset + size) % 2 ^ 64

module _ ⦃k : Kernel⦄ where
  unfoldable pub global_mmio_open : Cmd (Unit {0})
  global_mmio_open = do
    sysfs_path ← gets (λ s. path_text s.afu.sysfs_path)
    text ← or_fault sysfs_path
    let path = mmio_path text
    fail_if (leb sizeof_path (len path)) OcxlErr.no_dev
    fd ← open_file path
    fail_if (is_neg fd) OcxlErr.no_dev
    modify_afu (λ a. record a { global_mmio_fd = fd })

  -- The mapped block is given back if it cannot be registered.
  unfoldable pub map_and_register :
      (size prot : ℕ) → ℤ → (offset : ℕ) → OcxlMmioType → Cmd OcxlMmioH
  map_and_register size prot fd offset type = do
    addr ← mmap size prot fd offset
    fail_if (addr == map_failed) OcxlErr.no_mem
    on_error (register_mmio addr size type)
        (λ rc. do errmsg rc; _ ← munmap addr size; return_err rc)

  pub global_mmio_map : (size prot flags offset : ℕ) → Cmd OcxlMmioH
  global_mmio_map size prot flags offset = do
    afu ← gets (λ s. s.afu)
    fail_if (afu.global_mmio_length == 0) OcxlErr.no_mem
    fail_if (ltb 0 flags) OcxlErr.invalid_args
    map_and_register size prot afu.global_mmio_fd offset OcxlMmioType.global_mmio

  unfoldable pub mmio_map : (size prot flags offset : ℕ) → Cmd OcxlMmioH
  mmio_map size prot flags offset = do
    afu ← gets (λ s. s.afu)
    fail_if (ltb 0 flags) OcxlErr.invalid_args
    fail_if (is_neg afu.fd) OcxlErr.no_context
    fail_if (not afu.attached) OcxlErr.no_context
    map_and_register size prot afu.fd offset OcxlMmioType.per_pasid_mmio

  unfoldable pub ocxl_mmio_map_advanced :
      OcxlMmioType → (size prot flags : ℕ) → (offset : ℤ) → Cmd OcxlMmioH
  ocxl_mmio_map_advanced type size prot flags offset = do
    length ← gets (λ s. area_length type s.afu)
    let size' = mapped_size size length offset
    elim type [
      | OcxlMmioType.global_mmio ↦
          fail_if (ltb length (mapped_end size' offset)) OcxlErr.no_mem
          >> global_mmio_map size' prot flags (to_size_t offset)
      | OcxlMmioType.per_pasid_mmio ↦
          fail_if (ltb length (mapped_end size' offset)) OcxlErr.no_mem
          >> mmio_map size' prot flags (to_size_t offset)
      | OcxlMmioType.other n ↦ fail OcxlErr.invalid_args
    ]

  unfoldable pub ocxl_mmio_map : OcxlMmioType → Cmd OcxlMmioH
  ocxl_mmio_map type = ocxl_mmio_map_advanced type 0 prot_read_write 0 (pos 0)
