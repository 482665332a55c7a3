-- ===== src/Mmio/Region/Dangles.antt =====
-- Growing the table of areas moves it, and the handles that are out keep pointing into the old one.
use libocxl.Base.{
  ℕ, ◌*◌, ◌%◌, ◌^◌, ◌<◌, ◌≡◌, ◌≢◌, refl, true, false, none, inl, inr, arith, ◌==◌, Bool-cases,
}
use libocxl.Types.{OcxlMmioType, OcxlMmioH, State}
use libocxl.Kernel.{Kernel, fault, Ends, Ends-bind, Ends-both}
use libocxl.Buffer.{next_count, grow_buffer}
use libocxl.Mmio.Register.{
  sizeof_mmio_area, initial_mmio_count, grow_mmios, claim_slot, register_mmio,
}
use libocxl.Mmio.Register.Slots.{vacant, find_free-vacant}
use libocxl.Mmio.Register.Refines.{
  IsMmios, areas, IsClaimed, OutOfMemory, claim_slot-IsClaimed, put_area-done,
}
use libocxl.Mmio.Region.{ocxl_mmio_get_info, ocxl_mmio_unmap}

module _ ⦃k : Kernel⦄ (s : State) where
  -- The address that the full table of areas is moved to.
  abbrev pub moved_to : ℕ
  moved_to =
      k.realloc s.log s.afu.mmios.base
        (next_count s.afu.mmio_max_count initial_mmio_count * sizeof_mmio_area % 2 ^ 64)

  claim_slot-base :
      s.afu.mmio_count ≡ s.afu.mmio_max_count
      → Ends (λ _ t. t.afu.mmios.base ≡ moved_to) (λ _ _. Unit {0}) (claim_slot s)
  unfolding claim_slot grow_mmios grow_buffer
  claim_slot-base full =
      let test : (s.afu.mmio_count == s.afu.mmio_max_count) ≡ true = ground arith in
      elim (Bool-cases (moved_to == 0)) [
        | inl null ↦ rw (test, null) tt
        | inr moved ↦ rw (test, moved) refl
      ]

-- Every access through a handle into the buffer at this address is undefined.
abbrev pub Dangling : ⦃k : Kernel⦄ → ℕ → State → Type 0
Dangling base t =
    (i : ℕ)
    → (ocxl_mmio_get_info (OcxlMmioH.area base i) t ≡ fault)
      × (ocxl_mmio_unmap (OcxlMmioH.area base i) t ≡ fault)

module _ ⦃k : Kernel⦄ (addr size : ℕ) (type : OcxlMmioType) (s : State) where
  -- Registering an area in a table that is in order and full, in which no area has been unmapped
  -- and which has fewer than 2^15 areas: if the allocator moves the table, then every handle that
  -- was given out before dangles, and asking for its address and size or unmapping it is undefined;
  -- or memory runs out and the AFU is as it was.
  pub register_mmio-dangles :
      IsMmios s.afu
      → s.afu.mmio_count < 2 ^ 15
      → s.afu.mmio_count ≡ s.afu.mmio_max_count
      → vacant (areas s.afu) ≡ none
      → moved_to s ≢ s.afu.mmios.base
      → Ends
          (λ _ t. Dangling s.afu.mmios.base t)
          (OutOfMemory s.afu)
          (register_mmio addr size type s)
  unfolding register_mmio ocxl_mmio_get_info ocxl_mmio_unmap
  register_mmio-dangles v small full used ne =
      rw (find_free-vacant s.afu.mmio_count s.afu.mmios.cells v.used, used)
        (Ends-bind (λ i t. IsClaimed s.afu t.afu i × (t.afu.mmios.base ≡ moved_to s))
          (λ e t. OutOfMemory s.afu e t × Unit) (λ _ t. Dangling s.afu.mmios.base t)
          (OutOfMemory s.afu) _ _
          (Ends-both (λ i t. IsClaimed s.afu t.afu i) (OutOfMemory s.afu)
            (λ _ t. t.afu.mmios.base ≡ moved_to s) (λ _ _. Unit {0}) _
            (claim_slot-IsClaimed s v small) (claim_slot-base s full))
          (λ i t (c, b).
            let away : (s.afu.mmios.base == t.afu.mmios.base) ≡ false = ground arith in
            rw (put_area-done addr size type s i t (omega (arith, c.index, c.size, c.room)))
              (λ j. (rw away, rw away)))
          (λ e t q. q.0))
