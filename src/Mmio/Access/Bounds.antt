-- ===== src/Mmio/Access/Bounds.antt =====
-- `mmio_check` against the bounds of the region.
use libocxl.Base.{
  ℕ, ◌+◌, ◌^◌, ◌≤◌, ◌<◌, ◌≡◌, ◌≢◌, true, false, some, arith, ltb, ◌==◌, if◌then◌else◌,
}
use libocxl.Base.Int.{ℤ, pos, negsuc, leb_ℤ}
use libocxl.Types.{OcxlErr, OcxlMmioArea, OcxlMmioH, State}
use libocxl.Kernel.{done, failed}
use libocxl.Message.{afu_reported}
use libocxl.Mmio.Register.{area_at}
use libocxl.Mmio.Region.{access_limit, mmio_check}

limit_test :
    (length size o : ℕ)
    → length < 2 ^ 63
    → 0 < size
    → size ≤ 8
    → o < 2 ^ 63
    → leb_ℤ (access_limit length size) (pos o) ≡ ltb length (o + size)
limit_test length size o hl h0 h8 ho = ground arith

limit_negative :
    (length size n : ℕ)
    → length < 2 ^ 63
    → 0 < size
    → size ≤ length + 1
    → leb_ℤ (access_limit length size) (negsuc n) ≡ false
limit_negative length size n hl h0 h1 = ground arith

pub start_test : (a : OcxlMmioArea) → a.start ≢ 0 → (a.start == 0) ≡ false
start_test a h = ground arith

unmapped_test : (a : OcxlMmioArea) → a.start ≡ 0 → (a.start == 0) ≡ true
unmapped_test a h = ground arith

module _ (base i size : ℕ) (a : OcxlMmioArea) (s : State)
    (found : area_at (OcxlMmioH.area base i) s ≡ some a) where
  pub mmio_check-mapped :
      (o : ℕ)
      → a.start ≢ 0
      → a.length < 2 ^ 63
      → 0 < size
      → size ≤ 8
      → o < 2 ^ 63
      → mmio_check (OcxlMmioH.area base i) (pos o) size s ≡ (
          if ltb a.length (o + size)
          then failed OcxlErr.out_of_bounds
              (record s { messages = afu_reported s OcxlErr.out_of_bounds })
          else done tt s)
  unfolding mmio_check
  mmio_check-mapped o h0 hl hs h8 ho =
      rw (found, start_test a h0, limit_test a.length size o hl hs h8 ho)

  -- A negative offset passes the check of every region that is not shorter than the access.
  pub mmio_check-negative :
      (n : ℕ)
      → a.start ≢ 0
      → a.length < 2 ^ 63
      → 0 < size
      → size ≤ a.length + 1
      → mmio_check (OcxlMmioH.area base i) (negsuc n) size s ≡ done tt s
  unfolding mmio_check
  mmio_check-negative n h0 hl hs h1 =
      rw (found, start_test a h0, limit_negative a.length size n hl hs h1)

  -- A region that has been unmapped is refused at every offset.
  pub mmio_check-unmapped :
      (offset : ℤ)
      → a.start ≡ 0
      → mmio_check (OcxlMmioH.area base i) offset size s
        ≡ failed OcxlErr.invalid_args (record s { messages = afu_reported s OcxlErr.invalid_args })
  unfolding mmio_check
  mmio_check-unmapped offset h0 = rw (found, unmapped_test a h0)
