-- ===== src/Mmio/Access/Total.antt =====
-- An access through a handle that does not dangle has no fault, whatever the offset.
use libocxl.Base.{
  ℕ, ◌+◌, ◌^◌, ◌≤◌, ◌<◌, ◌≢◌, ltb, arith, ◌≡◌, refl, some, inl, inr, ◌⊎◌, ◌∷◌, Bool-cases, ◌==◌,
}
use libocxl.Base.Int.{ℤ, pos, leb_ℤ}
use libocxl.Types.{OcxlEndian, OcxlMmioArea, OcxlMmioH, State, Event}
use libocxl.Kernel.{Kernel, Ends}
use libocxl.Mmio.Register.{area_at}
use libocxl.Mmio.Region.{access_limit, mmio_check}
use libocxl.Endian.{convert}
use libocxl.Mmio.Access.Bounds.{mmio_check-mapped, mmio_check-unmapped}
use libocxl.Mmio.Access.{
  address, read_native, write_native, ocxl_mmio_read64, ocxl_mmio_write64, read_converted,
  write_converted,
}

-- NULL, or the address of an element of the table that has been written.
abbrev pub IsSafe : OcxlMmioH → State → Type 0
IsSafe OcxlMmioH.null s = Unit
IsSafe (OcxlMmioH.area base i) s = (a : OcxlMmioArea) × (area_at (OcxlMmioH.area base i) s ≡ some a)

-- The AFU is as it was, and at most one call was made.
abbrev pub AtMostOneCall : State → State → Type 0
AtMostOneCall s t = (t.afu ≡ s.afu) × ((t.log ≡ s.log) ⊎ ((e : Event) × (t.log ≡ e ∷ s.log)))

module _ ⦃k : Kernel⦄ (offset : ℤ) (e : OcxlEndian) (s : State) where
  -- A 64-bit write through such a handle leaves the AFU as it was and makes at most one call,
  -- whether it succeeds or is refused.
  pub write64-IsSafe :
      (region : OcxlMmioH) (v : ℕ)
      → IsSafe region s
      → Ends
          (λ _ t. AtMostOneCall s t)
          (λ _ t. AtMostOneCall s t)
          (ocxl_mmio_write64 region offset e v s)
  unfolding ocxl_mmio_write64 write_converted write_native mmio_check
  write64-IsSafe OcxlMmioH.null v safe = (refl, inl refl)
  write64-IsSafe (OcxlMmioH.area base i) v (a, found) = elim (Bool-cases (a.start == 0)) [
    | inl unmapped ↦ rw (found, unmapped) (refl, inl refl)
    | inr mapped ↦ elim (Bool-cases (leb_ℤ (access_limit a.length 8) offset)) [
      | inl out ↦ rw (found, mapped, out) (refl, inl refl)
      | inr within ↦ rw (found, mapped, within, found) (refl, inr (_, refl))
    ]
  ]

  pub read64-IsSafe :
      (region : OcxlMmioH)
      → IsSafe region s
      → Ends
          (λ _ t. AtMostOneCall s t)
          (λ _ t. AtMostOneCall s t)
          (ocxl_mmio_read64 region offset e s)
  unfolding ocxl_mmio_read64 read_converted read_native mmio_check
  read64-IsSafe OcxlMmioH.null safe = (refl, inl refl)
  read64-IsSafe (OcxlMmioH.area base i) (a, found) = elim (Bool-cases (a.start == 0)) [
    | inl unmapped ↦ rw (found, unmapped) (refl, inl refl)
    | inr mapped ↦ elim (Bool-cases (leb_ℤ (access_limit a.length 8) offset)) [
      | inl out ↦ rw (found, mapped, out) (refl, inl refl)
      | inr within ↦ rw (found, mapped, within, found) (refl, inr (_, refl))
    ]
  ]

-- One store was made: of the value, converted from little endian, at the area's start plus the
-- offset, where the area is mapped and the access ends within it.
abbrev pub Stored64 : ⦃k : Kernel⦄ → (o : ℕ) → OcxlMmioArea → (v : ℕ) → State → State → Type 0
Stored64 ⦃k⦄ o a v s t =
    (a.start ≢ 0)
    × (o + 8 ≤ a.length)
    × (t.afu ≡ s.afu)
    × (t.log
        ≡ Event.store 8 (address a (pos o))
            (convert k.host_is_big_endian 8 OcxlEndian.little_endian v)
          ∷ s.log)

-- A 64-bit write at an offset of zero or more to an area of the table that is shorter than 2^63:
-- the store is made, or the write is refused and nothing has changed.
pub write64-Stored64 :
    ⦃k : Kernel⦄ (o : ℕ) (a : OcxlMmioArea) (region : OcxlMmioH) (v : ℕ) (s : State)
    → area_at region s ≡ some a
    → a.length < 2 ^ 63
    → o < 2 ^ 63
    → Ends
        (λ _ t. Stored64 o a v s t)
        (λ _ t. (t.afu ≡ s.afu) × (t.log ≡ s.log))
        (ocxl_mmio_write64 region (pos o) OcxlEndian.little_endian v s)
unfolding ocxl_mmio_write64 write_converted write_native
write64-Stored64 o a OcxlMmioH.null v s found hl ho = cc
write64-Stored64 o a (OcxlMmioH.area base i) v s found hl ho = elim (Bool-cases (a.start == 0)) [
  | inl unmapped ↦ rw (mmio_check-unmapped base i 8 a s found (pos o) (ground arith)) (refl, refl)
  | inr mapped ↦
      let real : a.start ≢ 0 = ground arith in
      let check = mmio_check-mapped base i 8 a s found o real hl (omega arith) (omega arith) ho in
      elim (Bool-cases (ltb a.length (o + 8))) [
        | inl out ↦ rw (check, out) (refl, refl)
        | inr within ↦ rw (check, within, found) (real, ground arith, refl, refl)
      ]
]
