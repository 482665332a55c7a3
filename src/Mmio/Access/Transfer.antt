-- ===== src/Mmio/Access/Transfer.antt =====
-- The reads and writes of a mapped region, as equations.
use libocxl.Base.{
  ℕ, ◌+◌, ◌%◌, ◌^◌, ◌≤◌, ◌<◌, ◌≡◌, ◌≢◌, inl, inr, false, some, ◌∷◌, arith, ltb, if◌then◌else◌,
  Bool-cases,
}
use libocxl.Base.Int.{pos}
use libocxl.Types.{OcxlErr, OcxlEndian, OcxlMmioArea, OcxlMmioH, State, Event}
use libocxl.Kernel.{Kernel, Outcome, done, failed}
use libocxl.Message.{afu_reported}
use libocxl.Endian.{convert}
use libocxl.Mmio.Register.{area_at}
use libocxl.Mmio.Access.{
  address, read_converted, write_converted, ocxl_mmio_read32, ocxl_mmio_read64, ocxl_mmio_write32,
  ocxl_mmio_write64,
}
use libocxl.Mmio.Access.Bounds.{mmio_check-mapped}

-- A region that lies in the address space: mapped, and ending at 2^64 or before.
pub record IsMapped (a : OcxlMmioArea) : Type 0 where
  pub start : a.start ≢ 0
  pub short : a.length < 2 ^ 63
  pub fits : a.start + a.length ≤ 2 ^ 64

address_within :
    (a : OcxlMmioArea) (o size : ℕ)
    → IsMapped a
    → 0 < size
    → o < 2 ^ 63
    → ltb a.length (o + size) ≡ false
    → address a (pos o) ≡ a.start + o
address_within a o size m hs ho h = ground arith

-- The outcome of an access that is out of bounds.
abbrev pub refused : {A : Type 0} → State → Outcome A
refused s =
    failed OcxlErr.out_of_bounds (record s { messages = afu_reported s OcxlErr.out_of_bounds })

module _ ⦃k : Kernel⦄ (size o : ℕ) (e : OcxlEndian) (a : OcxlMmioArea) (s : State) where
  -- The state after one store of the converted number.
  abbrev pub stored : ℕ → State
  stored v = record s {
    log = Event.store size (a.start + o) (convert k.host_is_big_endian size e v) ∷ s.log;
  }

  -- What a load gives, and the state after it.
  abbrev pub loaded : ℕ
  loaded = k.load s.log size (a.start + o) % 256 ^ size

  abbrev pub after_load : State
  after_load = record s {
    log = Event.load size (a.start + o) (k.load s.log size (a.start + o) % 256 ^ size) ∷ s.log;
  }

module _ ⦃k : Kernel⦄ (base i size o : ℕ) (e : OcxlEndian) (a : OcxlMmioArea) (s : State)
    (found : area_at (OcxlMmioH.area base i) s ≡ some a) (m : IsMapped a) (hs : 0 < size)
    (h8 : size ≤ 8) (ho : o < 2 ^ 63) where
  pub write_converted_lem :
      (v : ℕ)
      → write_converted size (OcxlMmioH.area base i) (pos o) e v s
        ≡ (if ltb a.length (o + size) then refused s else done tt (stored size o e a s v))
  unfolding write_converted
  write_converted_lem v = elim (Bool-cases (ltb a.length (o + size))) [
    | inl out ↦ rw (mmio_check-mapped base i size a s found o m.start m.short hs h8 ho, out)
    | inr within ↦ rw (
      mmio_check-mapped base i size a s found o m.start m.short hs h8 ho,
      within,
      found,
      address_within a o size m hs ho within,
    )
  ]

  pub read_converted_lem : read_converted size (OcxlMmioH.area base i) (pos o) e s ≡ (
      if ltb a.length (o + size)
      then refused s
      else done
          (convert k.host_is_big_endian size e (loaded size o e a s))
          (after_load size o e a s))
  unfolding read_converted
  read_converted_lem = elim (Bool-cases (ltb a.length (o + size))) [
    | inl out ↦ rw (mmio_check-mapped base i size a s found o m.start m.short hs h8 ho, out)
    | inr within ↦ rw (
      mmio_check-mapped base i size a s found o m.start m.short hs h8 ho,
      within,
      found,
      address_within a o size m hs ho within,
    )
  ]

module _ ⦃k : Kernel⦄ (base i o : ℕ) (e : OcxlEndian) (a : OcxlMmioArea) (s : State)
    (found : area_at (OcxlMmioH.area base i) s ≡ some a) (m : IsMapped a) (ho : o < 2 ^ 63) where
  -- A write at an offset of zero or more, to a mapped region that lies in the address space: where
  -- the access ends within the region, one store of the value, converted to the endianness that was
  -- asked for, goes to the region's start plus the offset, and nothing else changes; otherwise
  -- nothing is stored and OCXL_OUT_OF_BOUNDS is reported and returned. For 32 and for 64 bits.
  pub write-bounds :
      (v : ℕ)
      → (ocxl_mmio_write32 (OcxlMmioH.area base i) (pos o) e v s
          ≡ (if ltb a.length (o + 4) then refused s else done tt (stored 4 o e a s v)))
        × (ocxl_mmio_write64 (OcxlMmioH.area base i) (pos o) e v s
            ≡ (if ltb a.length (o + 8) then refused s else done tt (stored 8 o e a s v)))
  unfolding ocxl_mmio_write32 ocxl_mmio_write64
  write-bounds v = (
    write_converted_lem base i 4 o e a s found m (omega arith) (omega arith) ho v,
    write_converted_lem base i 8 o e a s found m (omega arith) (omega arith) ho v,
  )

  -- A read at an offset of zero or more, of a mapped region that lies in the address space: where
  -- the access ends within the region, one load from the region's start plus the offset is made,
  -- and its result converted from the endianness that was asked for is returned; otherwise nothing
  -- is loaded and OCXL_OUT_OF_BOUNDS is reported and returned. For 32 and for 64 bits.
  pub read-bounds :
      (ocxl_mmio_read32 (OcxlMmioH.area base i) (pos o) e s ≡ (
        if ltb a.length (o + 4)
        then refused s
        else done (convert k.host_is_big_endian 4 e (loaded 4 o e a s)) (after_load 4 o e a s)))
      × (ocxl_mmio_read64 (OcxlMmioH.area base i) (pos o) e s ≡ (
          if ltb a.length (o + 8)
          then refused s
          else done (convert k.host_is_big_endian 8 e (loaded 8 o e a s)) (after_load 8 o e a s)))
  unfolding ocxl_mmio_read32 ocxl_mmio_read64
  read-bounds = (
    read_converted_lem base i 4 o e a s found m (omega arith) (omega arith) ho,
    read_converted_lem base i 8 o e a s found m (omega arith) (omega arith) ho,
  )
