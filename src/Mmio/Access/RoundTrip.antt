-- ===== src/Mmio/Access/RoundTrip.antt =====
-- What is written can be read back, and how it lies in memory.
use native.Mathlib.Nat.{mod-eq_of_lt}
use libocxl.Base.{ℕ, ◌+◌, ◌^◌, ◌≤◌, ◌<◌, ◌≡◌, false, some, arith, ltb, ◌∷◌}
use libocxl.Base.Int.{pos}
use libocxl.Types.{OcxlEndian, OcxlMmioArea, OcxlMmioH, State, Event, History}
use libocxl.Kernel.{Kernel, done, Ends, ◌>>◌}
use libocxl.Endian.{convert, memory_bytes}
use libocxl.Endian.Laws.{convert-convert, convert-lt, layout, memory_bytes-convert}
use libocxl.Mmio.Register.{area_at}
use libocxl.Mmio.Access.{
  read_converted, write_converted, ocxl_mmio_read32, ocxl_mmio_read64, ocxl_mmio_write32,
  ocxl_mmio_write64,
}
use libocxl.Mmio.Access.Transfer.{IsMapped, stored, write_converted_lem, read_converted_lem}

-- The device keeps what is stored at an address: a load that follows gives it back.
abbrev pub Keeps : Kernel → (size addr : ℕ) → Type 0
Keeps k size addr =
    (l : History) (w : ℕ) → w < 256 ^ size → k.load (Event.store size addr w ∷ l) size addr ≡ w

within_test :
    (a : OcxlMmioArea) (o size : ℕ) → o + size ≤ a.length → ltb a.length (o + size) ≡ false
within_test a o size h = ground arith

module _ ⦃k : Kernel⦄ (base i size o : ℕ) (e : OcxlEndian) (a : OcxlMmioArea) (s : State)
    (found : area_at (OcxlMmioH.area base i) s ≡ some a) (m : IsMapped a) (hs : 0 < size)
    (h8 : size ≤ 8) (ho : o < 2 ^ 63) (within : o + size ≤ a.length) where
  write-read :
      (v : ℕ)
      → v < 256 ^ size
      → Keeps k size (a.start + o)
      → Ends
          (λ x _. x ≡ v)
          (λ _ _. ⊥)
          ((write_converted size (OcxlMmioH.area base i) (pos o) e v
              >> read_converted size (OcxlMmioH.area base i) (pos o) e)
            s)
  write-read v hv keeps =
      let s' = stored size o e a s v in
      let w = convert k.host_is_big_endian size e v in
      let hw : w < 256 ^ size = convert-lt k.host_is_big_endian size e v hv in
      let ok : ltb a.length (o + size) ≡ false = within_test a o size within in
      rw
        (
          write_converted_lem base i size o e a s found m hs h8 ho v,
          ok,
          read_converted_lem base i size o e a s' found m hs h8 ho,
          ok,
          keeps s.log w hw,
          mod-eq_of_lt hw,
        )
        (convert-convert k.host_is_big_endian size e v hv)

module _ ⦃k : Kernel⦄ (base i o : ℕ) (e : OcxlEndian) (a : OcxlMmioArea) (s : State)
    (found : area_at (OcxlMmioH.area base i) s ≡ some a) (m : IsMapped a) (ho : o < 2 ^ 63) where
  -- A 32-bit value that is written within a mapped region and then read at the same offset and with
  -- the same endianness comes back unchanged, on hosts of either byte order, if the device keeps
  -- what is stored at that address.
  pub write32-read32 :
      (v : ℕ)
      → o + 4 ≤ a.length
      → v < 2 ^ 32
      → Keeps k 4 (a.start + o)
      → Ends
          (λ x _. x ≡ v)
          (λ _ _. ⊥)
          ((ocxl_mmio_write32 (OcxlMmioH.area base i) (pos o) e v
              >> ocxl_mmio_read32 (OcxlMmioH.area base i) (pos o) e)
            s)
  unfolding ocxl_mmio_read32 ocxl_mmio_write32
  write32-read32 v within hv keeps =
      write-read base i 4 o e a s found m (omega arith) (omega arith) ho within v hv keeps

  -- A 64-bit value that is written within a mapped region and then read at the same offset and with
  -- the same endianness comes back unchanged, on hosts of either byte order, if the device keeps
  -- what is stored at that address.
  write64-read64 :
      (v : ℕ)
      → o + 8 ≤ a.length
      → v < 2 ^ 64
      → Keeps k 8 (a.start + o)
      → Ends
          (λ x _. x ≡ v)
          (λ _ _. ⊥)
          ((ocxl_mmio_write64 (OcxlMmioH.area base i) (pos o) e v
              >> ocxl_mmio_read64 (OcxlMmioH.area base i) (pos o) e)
            s)
  unfolding ocxl_mmio_read64 ocxl_mmio_write64
  write64-read64 v within hv keeps =
      write-read base i 8 o e a s found m (omega arith) (omega arith) ho within v hv keeps

  -- A 32-bit write within a mapped region makes one store, at the region's start plus the offset,
  -- of a word whose bytes in memory are those of the value in the order that the endianness names,
  -- on hosts of either byte order.
  pub write32-layout :
      (v : ℕ)
      → o + 4 ≤ a.length
      → (w : ℕ) × (ocxl_mmio_write32 (OcxlMmioH.area base i) (pos o) e v s
          ≡ done tt (record s { log = Event.store 4 (a.start + o) w ∷ s.log }))
        × (memory_bytes k.host_is_big_endian 4 w ≡ layout k.host_is_big_endian 4 e v)
  unfolding ocxl_mmio_write32
  write32-layout v within = (
    convert k.host_is_big_endian 4 e v,
    rw (
      write_converted_lem base i 4 o e a s found m (omega arith) (omega arith) ho v,
      within_test a o 4 within,
    ),
    memory_bytes-convert k.host_is_big_endian 4 e v,
  )
