-- ===== src/Tests/Mmio.antt =====
-- Mapping, unmapping and accesses at concrete inputs.
use mathlib.Core.Option
use libocxl.Base.{
  false, ℕ, ◌+◌, ◌-◌, ◌^◌, ◌≡◌, ◌≢◌, refl, some, [], ◌∷◌, arith, ltb, if◌then◌else◌, set,
}
use libocxl.Base.Int.{pos, negsuc}
use libocxl.Types.{OcxlErr, OcxlEndian, OcxlMmioType, OcxlMmioH, Event, State, value}
use libocxl.Kernel.{done, failed, Ends, ◌>>◌}
use libocxl.Message.{afu_reported}
use libocxl.Endian.{bytes_le, swap_bytes, memory_bytes}
use libocxl.Endian.Laws.{layout}
use libocxl.Mmio.Register.{area_at, find_free, put_area, register_mmio}
use libocxl.Mmio.Register.Refines.{
  IsMmios, areas, IsRegistered, OutOfMemory, register_mmio-IsRegistered,
}
use libocxl.Mmio.Map.{map_and_register, mmio_map, ocxl_mmio_map_advanced}
use libocxl.Mmio.Map.Bounds.{
  NothingMapped, Unchanged, Mapped, map_and_register_lem, map_advanced-Mapped,
  map_advanced-wraps_offset,
}
use libocxl.Mmio.Region.{ocxl_mmio_unmap, ocxl_mmio_get_info, mmio_check}
use libocxl.Mmio.Region.Unmap.{cleared, unmapped, unmap_once}
use libocxl.Mmio.Access.{ocxl_mmio_read32, ocxl_mmio_read64, ocxl_mmio_write32, ocxl_mmio_write64}
use libocxl.Mmio.Access.Bounds.{mmio_check-negative}
use libocxl.Mmio.Access.Transfer.{IsMapped, refused, stored, after_load, write-bounds, read-bounds}
use libocxl.Mmio.Access.RoundTrip.{Keeps, write32-read32, write32-layout}
use libocxl.Mmio.Region.Dangles.{Dangling, register_mmio-dangles}
use libocxl.Mmio.Register.Refines.{IsMmios, OutOfMemory}
use libocxl.Mmio.Register.{register_mmio}
use libocxl.Mmio.Register.Slots.{vacant}
use libocxl.Tests.Setup.{friendly, area_a, afu, start}

afu-IsMmios : IsMmios afu
afu-IsMmios = record { size = refl; used = tt; room = omega arith; bound = omega arith }

abbrev handle_a : OcxlMmioH
handle_a = OcxlMmioH.area 0x800 0

found_a : area_at handle_a start ≡ some area_a
unfolding Option.bind
found_a = refl

area_a-IsMapped : IsMapped area_a
area_a-IsMapped = record { start = omega arith; short = omega arith; fits = omega arith }

register_mmio-IsRegistered_example :
    Ends
      (λ h s'.
        IsRegistered
          (record { start = 0x9000; length = 64; type = OcxlMmioType.global_mmio })
          afu
          s'.afu
          h)
      (OutOfMemory afu)
      (register_mmio 0x9000 64 OcxlMmioType.global_mmio start)
register_mmio-IsRegistered_example =
    register_mmio-IsRegistered 0x9000 64 OcxlMmioType.global_mmio start afu-IsMmios (omega arith)

map_and_register_lem_example :
    Ends
      (λ h s'.
        (0x7000_0000 ≢ 2 ^ 64 - 1)
        × IsRegistered
            (record { start = 0x7000_0000; length = 64; type = OcxlMmioType.global_mmio })
            afu
            s'.afu
            h)
      (λ e s'.
        OutOfMemory afu e s'
        × NothingMapped 64 0x7000_0000 (Event.mmap 64 3 (pos 7) 0 0x7000_0000) [] s'.log)
      (map_and_register 64 3 (pos 7) 0 OcxlMmioType.global_mmio start)
map_and_register_lem_example =
    map_and_register_lem 64 3 (pos 7) 0 OcxlMmioType.global_mmio start afu-IsMmios (omega arith)

map_advanced-Mapped_example :
    Ends
      (Mapped OcxlMmioType.per_pasid_mmio 3 0 0x1000 start 0x3000)
      (Unchanged start)
      (ocxl_mmio_map_advanced OcxlMmioType.per_pasid_mmio 0 3 0 (pos 0x1000) start)
map_advanced-Mapped_example =
    map_advanced-Mapped 0 3 0 0x1000 start OcxlMmioType.per_pasid_mmio afu-IsMmios (omega arith)
      (omega arith) (omega arith) (omega arith) (omega arith)

map_advanced-wraps_offset_example :
    ocxl_mmio_map_advanced OcxlMmioType.per_pasid_mmio (0xfff + 1 + 8) 3 0 (negsuc 0xfff) start
    ≡ map_and_register
        (0xfff + 1 + 8)
        3
        start.afu.fd
        (2 ^ 64 - 1 - 0xfff)
        OcxlMmioType.per_pasid_mmio
        start
map_advanced-wraps_offset_example =
    map_advanced-wraps_offset 3 0 start (omega arith) 0xfff 8 (omega arith) (omega arith) refl refl
      refl

unmap_once_example :
    let s' = unmapped start 0 area_a in
    (ocxl_mmio_unmap handle_a start ≡ done tt s')
    × IsMmios s'.afu
    × (areas s'.afu ≡ set (areas afu) 0 (cleared area_a))
    × (ocxl_mmio_unmap handle_a s' ≡ done tt s')
    × (ocxl_mmio_get_info handle_a s'
        ≡ failed OcxlErr.invalid_args
            (record s' { messages = afu_reported s' OcxlErr.invalid_args }))
unmap_once_example = unmap_once start 0 area_a afu-IsMmios refl (omega arith)

mmio_check-negative_example : mmio_check handle_a (negsuc 7) 4 start ≡ done tt start
mmio_check-negative_example =
    mmio_check-negative 0x800 0 4 area_a start found_a 7 (omega arith) (omega arith) (omega arith)
      (omega arith)

write-bounds_example :
    (ocxl_mmio_write32 handle_a (pos 12) OcxlEndian.big_endian 258 start ≡ (
      if ltb 16 (12 + 4)
      then refused start
      else done tt (stored 4 12 OcxlEndian.big_endian area_a start 258)))
    × (ocxl_mmio_write64 handle_a (pos 12) OcxlEndian.big_endian 258 start ≡ (
        if ltb 16 (12 + 8)
        then refused start
        else done tt (stored 8 12 OcxlEndian.big_endian area_a start 258)))
write-bounds_example =
    write-bounds 0x800 0 12 OcxlEndian.big_endian area_a start found_a area_a-IsMapped (omega arith)
      258

read-bounds_example :
    (ocxl_mmio_read32 handle_a (pos 12) OcxlEndian.big_endian start ≡ (
      if ltb 16 (12 + 4)
      then refused start
      else done 0 (after_load 4 12 OcxlEndian.big_endian area_a start)))
    × (ocxl_mmio_read64 handle_a (pos 12) OcxlEndian.big_endian start ≡ (
        if ltb 16 (12 + 8)
        then refused start
        else done 0 (after_load 8 12 OcxlEndian.big_endian area_a start)))
unfolding swap_bytes
read-bounds_example =
    read-bounds 0x800 0 12 OcxlEndian.big_endian area_a start found_a area_a-IsMapped (omega arith)

friendly-Keeps : (size addr : ℕ) → Keeps friendly size addr
friendly-Keeps size addr l w h = ground arith

write32-read32_example :
    Ends
      (λ x _. x ≡ 258)
      (λ _ _. ⊥)
      ((ocxl_mmio_write32 handle_a (pos 12) OcxlEndian.big_endian 258
          >> ocxl_mmio_read32 handle_a (pos 12) OcxlEndian.big_endian)
        start)
write32-read32_example =
    write32-read32 0x800 0 12 OcxlEndian.big_endian area_a start found_a area_a-IsMapped
      (omega arith) 258 (omega arith) (omega arith) (friendly-Keeps 4 0x500c)

write32-layout_example :
    (w : ℕ) × (ocxl_mmio_write32 handle_a (pos 12) OcxlEndian.big_endian 258 start
      ≡ done tt (record start { log = Event.store 4 0x500c w ∷ [] }))
    × (memory_bytes false 4 w ≡ layout false 4 OcxlEndian.big_endian 258)
write32-layout_example =
    write32-layout 0x800 0 12 OcxlEndian.big_endian area_a start found_a area_a-IsMapped
      (omega arith) 258 (omega arith)

-- 258 is stored with its highest byte first.
big_endian_258 : layout false 4 OcxlEndian.big_endian 258 ≡ 0 ∷ 0 ∷ 1 ∷ 2 ∷ []
unfolding bytes_le
big_endian_258 = refl

-- Mapping the rest of an area reuses the slot of the region that was unmapped.
map_reuses_slot :
    Ends
      (λ h _. h ≡ OcxlMmioH.area 0x800 1)
      (λ _ _. ⊥)
      (ocxl_mmio_map_advanced OcxlMmioType.per_pasid_mmio 0 3 0 (pos 0x1000) start)
unfolding ocxl_mmio_map_advanced mmio_map map_and_register register_mmio find_free put_area
map_reuses_slot = refl

-- A full table of two areas, both mapped.
abbrev full_start : State
full_start = record start {
  afu = record afu {
    mmios = record { base = 0x800; cells = value area_a ∷ value area_a ∷ [] };
    mmio_max_count = 2;
  };
}

register_mmio-dangles_example :
    Ends
      (λ _ t. Dangling 0x800 t)
      (OutOfMemory full_start.afu)
      (register_mmio 0x9000 64 OcxlMmioType.per_pasid_mmio full_start)
unfolding vacant
register_mmio-dangles_example =
    register_mmio-dangles 0x9000 64 OcxlMmioType.per_pasid_mmio full_start
      (record { size = refl; used = tt; room = omega arith; bound = omega arith }) (omega arith)
      refl refl (λ e. omega arith)
