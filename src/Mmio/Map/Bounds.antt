-- ===== src/Mmio/Map/Bounds.antt =====
-- What mapping an area gives, and that a failure leaves nothing mapped.
use libocxl.Base.{
  ℕ, ◌+◌, ◌-◌, ◌%◌, ◌^◌, ◌≤◌, ◌<◌, ◌≡◌, ◌≢◌, refl, ◌⊎◌, inl, inr, true, false, ◌∷◌, arith, ltb,
  ◌==◌, if◌then◌else◌, Bool-cases,
}
use libocxl.Base.Int.{ℤ, pos, negsuc, is_neg, minus_one}
use libocxl.Types.{OcxlErr, OcxlMmioType, OcxlMmioH, OcxlAfu, State, Event, History}
use libocxl.Kernel.{
  Kernel, Ends, Ends-mono, Ends-cleanup, map_failed, munmap, return_err, ◌>>=◌, ◌>>◌,
}
use libocxl.Message.{errmsg}
use libocxl.Mmio.Register.Refines.{IsMmios, IsRegistered, OutOfMemory, register_mmio-IsRegistered}
use libocxl.Mmio.Map.{
  area_length, mapped_size, map_and_register, global_mmio_map, mmio_map, ocxl_mmio_map_advanced,
}

-- How a mapping that was asked of the kernel can fail: the kernel refused it, or it could not be
-- registered and was given back.
abbrev pub NothingMapped : (size addr : ℕ) → Event → History → History → Type 0
NothingMapped size addr request before after =
    ((addr ≡ map_failed) × (after ≡ request ∷ before))
    ⊎ ((addr ≢ map_failed) × ((l : History) × (after ≡ Event.munmap addr size ∷ l)))

module _ ⦃k : Kernel⦄ (size prot : ℕ) (fd : ℤ) (offset : ℕ) (type : OcxlMmioType) (s : State) where
  -- Mapping a block of an area, where the table of areas is in order and has fewer than 2^15 areas:
  -- it is registered at the address that the kernel chose, or the call
  -- returns OCXL_NO_MEM, the AFU is as it was, and nothing stays mapped.
  pub map_and_register_lem :
      IsMmios s.afu
      → s.afu.mmio_count < 2 ^ 15
      → let addr = k.mmap s.log size prot fd offset in
        Ends
          (λ h s'.
            (addr ≢ map_failed)
            × IsRegistered (record { start = addr; length = size; type = type }) s.afu s'.afu h)
          (λ e s'.
            OutOfMemory s.afu e s'
            × NothingMapped size addr (Event.mmap size prot fd offset addr) s.log s'.log)
          (map_and_register size prot fd offset type s)
  unfolding map_and_register
  map_and_register_lem v small =
      let addr = k.mmap s.log size prot fd offset in
      let s' = record s { log = Event.mmap size prot fd offset addr ∷ s.log } in
      elim (Bool-cases (addr == map_failed)) [
        | inl bad ↦ rw bad ((refl, refl), inl (ground arith, refl))
        | inr good ↦
            let ne : addr ≢ map_failed = ground arith in
            let Q = λ (h : OcxlMmioH) (s'' : State).
              (addr ≢ map_failed)
              × IsRegistered (record { start = addr; length = size; type = type }) s.afu s''.afu
                  h in
            let R = λ (e : OcxlErr) (s'' : State).
              OutOfMemory s.afu e s''
              × NothingMapped size addr (Event.mmap size prot fd offset addr) s.log s''.log in
            rw good (
              Ends-cleanup Q (OutOfMemory s.afu) R _
                (λ rc. do errmsg rc; _ ← munmap addr size; return_err rc)
                (Ends-mono _ (OutOfMemory s.afu) Q (OutOfMemory s.afu) _
                  (register_mmio-IsRegistered addr size type s' v small) (λ h s'' r. (ne, r))
                  (λ e s'' q. q))
                (λ e s'' q. (q, inr (ne, (_, refl)))))
      ]

-- What a successful request says of its arguments: it lies within the area; no flags are set; and
-- for a per-PASID area the AFU is open and attached.
pub record IsPermitted (type : OcxlMmioType) (size flags o : ℕ) (a : OcxlAfu) : Type 0 where
  pub within : o + size ≤ area_length type a
  pub no_flags : flags ≡ 0
  pub in_context : type ≡ OcxlMmioType.per_pasid_mmio → (is_neg a.fd ≡ false) × (a.attached ≡ true)

abbrev pub descriptor : OcxlMmioType → OcxlAfu → ℤ
descriptor OcxlMmioType.global_mmio a = a.global_mmio_fd
descriptor OcxlMmioType.per_pasid_mmio a = a.fd
descriptor (OcxlMmioType.other n) a = minus_one

-- The AFU is as it was.
abbrev pub Unchanged : State → OcxlErr → State → Type 0
Unchanged s e s' = s'.afu ≡ s.afu

module _ ⦃k : Kernel⦄ (type : OcxlMmioType) (prot flags o : ℕ) (s : State) where
  -- A successful mapping.
  abbrev pub Mapped : ℕ → OcxlMmioH → State → Type 0
  Mapped size' h s' =
      let addr = k.mmap s.log size' prot (descriptor type s.afu) o in
      IsPermitted type size' flags o s.afu
      × (addr ≢ map_failed)
      × IsRegistered (record { start = addr; length = size'; type = type }) s.afu s'.afu h

module _ ⦃k : Kernel⦄ (size prot flags o : ℕ) (s : State) (v : IsMmios s.afu)
    (small : s.afu.mmio_count < 2 ^ 15) where
  global_mmio_map-Mapped :
      o + size ≤ s.afu.global_mmio_length
      → Ends
          (Mapped OcxlMmioType.global_mmio prot flags o s size)
          (Unchanged s)
          (global_mmio_map size prot flags o s)
  unfolding global_mmio_map
  global_mmio_map-Mapped within = elim (Bool-cases (s.afu.global_mmio_length == 0)) [
    | inl none_there ↦ rw none_there refl
    | inr there ↦ elim (Bool-cases (ltb 0 flags)) [
      | inl bad ↦ rw (there, bad) refl
      | inr plain ↦
          rw (there, plain)
            (Ends-mono _ _ (Mapped OcxlMmioType.global_mmio prot flags o s size) (Unchanged s) _
              (map_and_register_lem size prot s.afu.global_mmio_fd o OcxlMmioType.global_mmio s v
                small)
              (λ h s' r. (
                record { within = within; no_flags = ground arith; in_context = λ e. cc },
                r.0,
                r.1,
              ))
              (λ e s' q. q.0.1))
    ]
  ]

  mmio_map-Mapped :
      o + size ≤ s.afu.per_pasid_mmio_length
      → Ends
          (Mapped OcxlMmioType.per_pasid_mmio prot flags o s size)
          (Unchanged s)
          (mmio_map size prot flags o s)
  unfolding mmio_map
  mmio_map-Mapped within = elim (Bool-cases (ltb 0 flags)) [
    | inl bad ↦ rw bad refl
    | inr plain ↦ elim (Bool-cases (is_neg s.afu.fd)) [
      | inl shut ↦ rw (plain, shut) refl
      | inr opened ↦ elim (Bool-cases s.afu.attached) [
        | inr loose ↦ simp (plain, opened, loose) refl
        | inl attached ↦
            simp (plain, opened, attached)
              (Ends-mono _ _ (Mapped OcxlMmioType.per_pasid_mmio prot flags o s size) (Unchanged s)
                _ (map_and_register_lem size prot s.afu.fd o OcxlMmioType.per_pasid_mmio s v small)
                (λ h s' r. (
                  record {
                    within = within;
                    no_flags = ground arith;
                    in_context = λ e. (opened, attached);
                  },
                  r.0,
                  r.1,
                ))
                (λ e s' q. q.0.1))
      ]
    ]
  ]

-- The block that a request asks for.
abbrev pub block_size : (size length o : ℕ) → ℕ
block_size size length o = if size == 0 then length - o else size

module _ (size length o : ℕ) (hl : length < 2 ^ 63) (ho : o < 2 ^ 63) (hs : size < 2 ^ 63)
    (h0 : size ≡ 0 → o ≤ length) where
  mapped_size_lem : mapped_size size length (pos o) ≡ block_size size length o
  mapped_size_lem = ground arith

  mapped_end_lem : (o + block_size size length o) % 2 ^ 64 ≡ o + block_size size length o
  mapped_end_lem = ground arith

module _ ⦃k : Kernel⦄ (size prot flags o : ℕ) (s : State) where
  -- Mapping at an offset of zero or more, where neither the request nor its end exceeds 63 bits, or
  -- the whole rest of the area from an offset within it, on a table of areas that is in order and
  -- has fewer than 2^15 areas, of an area shorter than 2^63: it has no fault. If it succeeds, then the mapped block lies within
  -- the area, no flags were given, a per-PASID area was mapped on an open and attached AFU, and the
  -- block is registered at the address that the kernel chose. If it fails, the AFU is as it was.
  pub map_advanced-Mapped :
      (type : OcxlMmioType)
      → IsMmios s.afu
      → s.afu.mmio_count < 2 ^ 15
      → area_length type s.afu < 2 ^ 63
      → o < 2 ^ 63
      → size < 2 ^ 63
      → (size ≡ 0 → o ≤ area_length type s.afu)
      → Ends
          (Mapped type prot flags o s (block_size size (area_length type s.afu) o))
          (Unchanged s)
          (ocxl_mmio_map_advanced type size prot flags (pos o) s)
  unfolding ocxl_mmio_map_advanced
  map_advanced-Mapped OcxlMmioType.global_mmio v small hl ho hs h0 =
      let length = s.afu.global_mmio_length in
      let n = block_size size length o in
      let same : o % 2 ^ 64 ≡ o = omega arith in
      let end = mapped_end_lem size length o hl ho hs h0 in
      rw (mapped_size_lem size length o hl ho hs h0, same)
        (elim (Bool-cases (ltb length (o + n))) [
          | inl beyond ↦ rw (end, beyond) refl
          | inr within ↦
              rw (end, within) (global_mmio_map-Mapped n prot flags o s v small (ground arith))
        ])
  map_advanced-Mapped OcxlMmioType.per_pasid_mmio v small hl ho hs h0 =
      let length = s.afu.per_pasid_mmio_length in
      let n = block_size size length o in
      let same : o % 2 ^ 64 ≡ o = omega arith in
      let end = mapped_end_lem size length o hl ho hs h0 in
      rw (mapped_size_lem size length o hl ho hs h0, same)
        (elim (Bool-cases (ltb length (o + n))) [
          | inl beyond ↦ rw (end, beyond) refl
          | inr within ↦ rw (end, within) (mmio_map-Mapped n prot flags o s v small (ground arith))
        ])
  map_advanced-Mapped (OcxlMmioType.other n) v small hl ho hs h0 = refl

module _ ⦃k : Kernel⦄ (prot flags : ℕ) (s : State) (hl : s.afu.per_pasid_mmio_length < 2 ^ 63) where
  -- On an open and attached AFU whose area is shorter than 2^63, a request without flags at the
  -- negative offset -(n + 1), where n is less than 2^63, for a size that exceeds n + 1 by r, at most
  -- the length of the area, passes every check: what is left of the call maps and registers a block
  -- of the whole size at that offset, as a 64-bit number, of the AFU's descriptor.
  pub map_advanced-wraps_offset :
      (n r : ℕ)
      → n < 2 ^ 63
      → r ≤ s.afu.per_pasid_mmio_length
      → is_neg s.afu.fd ≡ false
      → s.afu.attached ≡ true
      → flags ≡ 0
      → ocxl_mmio_map_advanced OcxlMmioType.per_pasid_mmio (n + 1 + r) prot flags (negsuc n) s
        ≡ map_and_register (n + 1 + r) prot s.afu.fd (2 ^ 64 - 1 - n) OcxlMmioType.per_pasid_mmio s
  unfolding ocxl_mmio_map_advanced mmio_map
  map_advanced-wraps_offset n r hn hr opened attached plain =
      let length = s.afu.per_pasid_mmio_length in
      let bits : n % 2 ^ 64 ≡ n = omega arith in
      let size : ((n + 1 + r) == 0) ≡ false = ground arith in
      let fits : ltb length ((2 ^ 64 - 1 - n + (n + 1 + r)) % 2 ^ 64) ≡ false = ground arith in
      let no_flags : ltb 0 flags ≡ false = ground arith in
      simp (bits, size, fits, no_flags, opened, attached) refl

  -- A request for the rest of the area from an offset behind its end passes the bounds check: the
  -- kernel is asked for a size that has wrapped round.
  map_advanced-wraps_rest :
      (o : ℕ)
      → s.afu.per_pasid_mmio_length < o
      → o < 2 ^ 63
      → ocxl_mmio_map_advanced OcxlMmioType.per_pasid_mmio 0 prot flags (pos o) s
        ≡ mmio_map (2 ^ 64 + s.afu.per_pasid_mmio_length - o) prot flags o s
  unfolding ocxl_mmio_map_advanced
  map_advanced-wraps_rest o lo ho =
      let length = s.afu.per_pasid_mmio_length in
      let bits : o % 2 ^ 64 ≡ o = omega arith in
      let size : (length + 2 ^ 64 - o) % 2 ^ 64 ≡ 2 ^ 64 + length - o = omega arith in
      let fits : ltb length ((o + (2 ^ 64 + length - o)) % 2 ^ 64) ≡ false = ground arith in
      rw (bits, size, fits)
