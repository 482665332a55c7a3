-- ===== src/Mmio/Region.antt =====
-- Mapped regions: `ocxl_mmio_unmap`, the getters and `mmio_check` of src/mmio.c.
pub mod Unmap
pub mod Dangles
use libocxl.Base.{ℕ, ◌+◌, ◌-◌, ◌%◌, ◌^◌, ◌==◌, if◌then◌else◌}
use libocxl.Base.Int.{ℤ, leb_ℤ, minus_one, to_off_t}
use libocxl.Types.{OcxlErr, OcxlMmioType, OcxlMmioArea, OcxlMmioH}
use libocxl.Kernel.{Kernel, Cmd, pure, undefined, gets, or_fault, ◌>>=◌, ◌>>◌, munmap}
use libocxl.Message.{errmsg, fail_if, fail_null}
use libocxl.Mmio.Register.{area_at, put_area}
use libocxl.Mmio.Map.{area_length}

-- `region->…`: following NULL or a dangling pointer is undefined.
abbrev pub deref : OcxlMmioH → Cmd OcxlMmioArea
deref region = do found ← gets (area_at region); or_fault found

-- `region->… = …`
abbrev pub put_region : OcxlMmioH → OcxlMmioArea → Cmd (Unit {0})
put_region OcxlMmioH.null a = undefined
put_region (OcxlMmioH.area base i) a = put_area i a

module _ ⦃k : Kernel⦄ where
  pub ocxl_mmio_unmap : OcxlMmioH → Cmd (Unit {0})
  ocxl_mmio_unmap region = do
    a ← deref region
    if a.start == 0
        then pure tt
        else do _ ← munmap a.start a.length; put_region region (record a { start = 0 })

  pub ocxl_mmio_get_fd : OcxlMmioType → Cmd ℤ
  ocxl_mmio_get_fd OcxlMmioType.global_mmio = gets (λ s. s.afu.global_mmio_fd)
  ocxl_mmio_get_fd OcxlMmioType.per_pasid_mmio = gets (λ s. s.afu.fd)
  ocxl_mmio_get_fd (OcxlMmioType.other n) = do errmsg OcxlErr.invalid_args; pure minus_one

  pub ocxl_mmio_size : OcxlMmioType → Cmd ℕ
  ocxl_mmio_size (OcxlMmioType.other n) = do errmsg OcxlErr.invalid_args; pure 0
  ocxl_mmio_size OcxlMmioType.global_mmio = gets (λ s. s.afu.global_mmio_length)
  ocxl_mmio_size OcxlMmioType.per_pasid_mmio = gets (λ s. s.afu.per_pasid_mmio_length)

-- The address and the size of a region.
pub ocxl_mmio_get_info : OcxlMmioH → Cmd (ℕ × ℕ)
ocxl_mmio_get_info region = do
  a ← deref region
  fail_if (a.start == 0) OcxlErr.invalid_args
  pure (a.start, a.length)

-- `(off_t)(region->length - (size - 1))`
abbrev pub access_limit : (length size : ℕ) → ℤ
access_limit length size = to_off_t ((length + 2 ^ 64 - (size - 1)) % 2 ^ 64)

-- An access of `size` bytes at `offset`.
unfoldable pub mmio_check : OcxlMmioH → ℤ → (size : ℕ) → Cmd (Unit {0})
mmio_check OcxlMmioH.null offset size = fail_null OcxlErr.invalid_args
mmio_check (OcxlMmioH.area base i) offset size = do
  a ← deref (OcxlMmioH.area base i)
  fail_if (a.start == 0) OcxlErr.invalid_args
  fail_if (leb_ℤ (access_limit a.length size) offset) OcxlErr.out_of_bounds
