-- ===== src/Mmio/Access.antt =====
-- Reads and writes of a mapped region: `mmio_read32_native` to `ocxl_mmio_write64` of src/mmio.c.
-- Memory barriers and tracing leave no mark on the state.
pub mod Bounds
pub mod Transfer
pub mod RoundTrip
pub mod Total
use libocxl.Base.{ℕ, ◌+◌, ◌%◌, ◌^◌}
use libocxl.Base.Int.{ℤ, to_size_t}
use libocxl.Types.{OcxlEndian, OcxlMmioArea, OcxlMmioH}
use libocxl.Kernel.{Kernel, Cmd, pure, ◌>>=◌, ◌>>◌, load, store}
use libocxl.Endian.{convert}
use libocxl.Mmio.Region.{deref, mmio_check}

-- `region->start + offset`
abbrev pub address : OcxlMmioArea → ℤ → ℕ
address a offset = (a.start + to_size_t offset) % 2 ^ 64

module _ ⦃k : Kernel⦄ where
  -- The common text of the two native reads, for an access of `size` bytes.
  pub read_native : (size : ℕ) → OcxlMmioH → ℤ → Cmd ℕ
  read_native size region offset = do
    mmio_check region offset size
    a ← deref region
    load size (address a offset)

  pub write_native : (size : ℕ) → OcxlMmioH → ℤ → ℕ → Cmd (Unit {0})
  write_native size region offset v = do
    mmio_check region offset size
    a ← deref region
    store size (address a offset) v

  -- Read and convert; convert and write.
  pub read_converted : (size : ℕ) → OcxlMmioH → ℤ → OcxlEndian → Cmd ℕ
  unfolding read_native
  read_converted size mmio offset endian = do
    val ← read_native size mmio offset
    pure (convert k.host_is_big_endian size endian val)

  pub write_converted : (size : ℕ) → OcxlMmioH → ℤ → OcxlEndian → ℕ → Cmd (Unit {0})
  unfolding write_native
  write_converted size mmio offset endian v =
      write_native size mmio offset (convert k.host_is_big_endian size endian v)

  pub ocxl_mmio_read32 : OcxlMmioH → ℤ → OcxlEndian → Cmd ℕ
  unfolding read_converted
  ocxl_mmio_read32 = read_converted 4

  pub ocxl_mmio_read64 : OcxlMmioH → ℤ → OcxlEndian → Cmd ℕ
  unfolding read_converted
  ocxl_mmio_read64 = read_converted 8

  pub ocxl_mmio_write32 : OcxlMmioH → ℤ → OcxlEndian → ℕ → Cmd (Unit {0})
  unfolding write_converted
  ocxl_mmio_write32 = write_converted 4

  pub ocxl_mmio_write64 : OcxlMmioH → ℤ → OcxlEndian → ℕ → Cmd (Unit {0})
  unfolding write_converted
  ocxl_mmio_write64 = write_converted 8
