-- ===== src/Mmio/Region/Unmap.antt =====
-- Regions: what a handle leads to after registering, and what unmapping does.
use mathlib.Core.Option
use libocxl.Base.{
  ℕ, ◌<◌, ◌≡◌, ◌≢◌, refl, ap, ◌∙◌, true, false, some, ◌∷◌, arith, ltb, ◌==◌, length, get_elem?, set,
  length-set, get_elem?-set_self, lt_of_get_elem?,
}
use libocxl.Types.{OcxlErr, value, OcxlMmioArea, OcxlMmioH, OcxlAfu, State, Event}
use libocxl.Kernel.{Kernel, done, failed}
use libocxl.Message.{afu_reported}
use libocxl.Buffer.Table.{length-values, get_elem?-values, Assigned-set}
use libocxl.Mmio.Register.{put_area, area_at}
use libocxl.Mmio.Register.Slots.{slot_for, get_elem?-place}
use libocxl.Mmio.Register.Refines.{IsMmios, areas, IsRegistered, with_area}
use libocxl.Mmio.Region.{ocxl_mmio_unmap, ocxl_mmio_get_info}

same_base : (n : ℕ) → (n == n) ≡ true
same_base n = ground arith

-- A handle to a registered area leads to it.
pub area_at-areas :
    (s : State) (i : ℕ) (a : OcxlMmioArea)
    → IsMmios s.afu
    → get_elem? (areas s.afu) i ≡ some a
    → area_at (OcxlMmioH.area s.afu.mmios.base i) s ≡ some a
unfolding Option.bind
area_at-areas s i a v e =
    rw (same_base s.afu.mmios.base, get_elem?-values s.afu.mmio_count s.afu.mmios.cells i v.used e)

-- The handle that registering returns leads to the area.
pub area_at-IsRegistered :
    (a : OcxlMmioArea) (before : OcxlAfu) (s : State) (h : OcxlMmioH)
    → IsRegistered a before s.afu h
    → area_at h s ≡ some a
area_at-IsRegistered a before s h r = rw r.handle (
    area_at-areas s (slot_for (areas before)) a r.table (
      ap (λ xs. get_elem? xs (slot_for (areas before))) r.placed
      ∙ get_elem?-place (areas before) a))

-- `a` as `ocxl_mmio_unmap` leaves it.
abbrev pub cleared : OcxlMmioArea → OcxlMmioArea
cleared a = record a { start = 0 }

-- The state after the region in slot `i` has been unmapped.
abbrev pub unmapped : State → ℕ → OcxlMmioArea → State
unmapped s i a = record s {
  log = Event.munmap a.start a.length ∷ s.log;
  afu = with_area s.afu i (cleared a);
}

module _ (s : State) (i : ℕ) (a : OcxlMmioArea) (v : IsMmios s.afu)
    (found : get_elem? (areas s.afu) i ≡ some a) where
  slot-lt : i < s.afu.mmio_count
  slot-lt = omega (
    arith,
    lt_of_get_elem? (areas s.afu) i found,
    length-values s.afu.mmio_count s.afu.mmios.cells v.used,
  )

  pub unmapped-IsMmios : IsMmios (unmapped s i a).afu
  unmapped-IsMmios = record {
    size = length-set s.afu.mmios.cells i (value (cleared a)) ∙ v.size;
    used = (Assigned-set s.afu.mmio_count s.afu.mmios.cells i (cleared a) v.used slot-lt).0;
    room = v.room;
    bound = v.bound;
  }

  pub unmapped-areas : areas (unmapped s i a).afu ≡ set (areas s.afu) i (cleared a)
  unmapped-areas = (Assigned-set s.afu.mmio_count s.afu.mmios.cells i (cleared a) v.used slot-lt).1

module _ ⦃k : Kernel⦄ (s : State) (i : ℕ) (a : OcxlMmioArea) (v : IsMmios s.afu)
    (found : get_elem? (areas s.afu) i ≡ some a) where
  pub unmap_mapped :
      a.start ≢ 0 → ocxl_mmio_unmap (OcxlMmioH.area s.afu.mmios.base i) s ≡ done tt (unmapped s i a)
  unfolding ocxl_mmio_unmap put_area
  unmap_mapped h0 =
      let live : (a.start == 0) ≡ false = ground arith in
      let inside : ltb i (length s.afu.mmios.cells) ≡ true =
        ground (arith, slot-lt s i a v found, v.size, v.room) in
      rw (area_at-areas s i a v found, live, inside)

  pub unmap_unmapped :
      a.start ≡ 0 → ocxl_mmio_unmap (OcxlMmioH.area s.afu.mmios.base i) s ≡ done tt s
  unfolding ocxl_mmio_unmap
  unmap_unmapped h0 =
      let gone : (a.start == 0) ≡ true = ground arith in rw (area_at-areas s i a v found, gone)

module _ ⦃k : Kernel⦄ (s : State) (i : ℕ) (a : OcxlMmioArea) (v : IsMmios s.afu)
    (found : get_elem? (areas s.afu) i ≡ some a) where
  still_there : get_elem? (areas (unmapped s i a).afu) i ≡ some (cleared a)
  still_there =
      ap (λ xs. get_elem? xs i) (unmapped-areas s i a v found)
      ∙ get_elem?-set_self (areas s.afu) i (cleared a) (lt_of_get_elem? (areas s.afu) i found)

  -- Unmapping a mapped region, in a table that is in order, gives exactly its block back to the
  -- kernel, marks its slot as free, leaves every other area alone and the table in order.
  -- Unmapping it once more does nothing, and asking for its address and size is refused with
  -- OCXL_INVALID_ARGS.
  pub unmap_once :
      a.start ≢ 0
      → let h = OcxlMmioH.area s.afu.mmios.base i in
        let s' = unmapped s i a in
        (ocxl_mmio_unmap h s ≡ done tt s')
        × IsMmios s'.afu
        × (areas s'.afu ≡ set (areas s.afu) i (cleared a))
        × (ocxl_mmio_unmap h s' ≡ done tt s')
        × (ocxl_mmio_get_info h s'
            ≡ failed OcxlErr.invalid_args
                (record s' { messages = afu_reported s' OcxlErr.invalid_args }))
  unfolding ocxl_mmio_get_info
  unmap_once h0 =
      let s' = unmapped s i a in
      let v' = unmapped-IsMmios s i a v found in
      (
        unmap_mapped s i a v found h0,
        v',
        unmapped-areas s i a v found,
        unmap_unmapped s' i (cleared a) v' still_there refl,
        rw (area_at-areas s' i (cleared a) v' still_there),
      )
