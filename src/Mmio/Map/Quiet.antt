-- ===== src/Mmio/Map/Quiet.antt =====
-- Mapping takes and gives back neither an event descriptor nor an interrupt.
use libocxl.Base.{
  ℕ, ◌*◌, ◌%◌, ◌^◌, refl, arith, true, false, inl, inr, ◌==◌, Bool, Bool-cases, Option-cases, ltb,
  length, not,
}
use libocxl.Base.Int.{ℤ, is_neg}
use libocxl.Types.{OcxlErr, OcxlMmioType, OcxlMmioArea, OcxlMmioH, State}
use libocxl.Kernel.{
  Kernel, Cmd, After, Always-bind, Always-on_error, gets, map_failed, munmap, return_err, ◌>>=◌,
  ◌>>◌, mmap,
}
use libocxl.Message.{errmsg, fail_if}
use libocxl.Buffer.{next_count, grow_buffer}
use libocxl.Mmio.Register.{
  find_free, put_area, grow_mmios, claim_slot, register_mmio, sizeof_mmio_area, initial_mmio_count,
}
use libocxl.Mmio.Map.{map_and_register, global_mmio_map, mmio_map, ocxl_mmio_map_advanced}
use libocxl.Irq.Ledger.{Resource, taken, given_back}
use libocxl.Irq.Quiet.{IsNoPage, Quiet, Quiet-trans}

module _ (r : Resource) (no_page : IsNoPage r) ⦃k : Kernel⦄ where
  abbrev IsQuiet : {A : Type 0} → Cmd A → Type 0
  IsQuiet m = (s : State) → After (Quiet r s) (m s)

  fail_if-IsQuiet : (c : Bool) (e : OcxlErr) → IsQuiet (fail_if c e)
  fail_if-IsQuiet true e s = record { taken = refl; kept = refl }
  fail_if-IsQuiet false e s = record { taken = refl; kept = refl }

  grow_mmios-IsQuiet : IsQuiet grow_mmios
  unfolding grow_mmios grow_buffer taken given_back
  grow_mmios-IsQuiet s =
      let n = next_count s.afu.mmio_max_count initial_mmio_count in
      elim (Bool-cases (k.realloc s.log s.afu.mmios.base (n * sizeof_mmio_area % 2 ^ 64) == 0)) [
        | inl e ↦ rw e (record { taken = refl; kept = refl })
        | inr e ↦ rw e (record { taken = refl; kept = refl })
      ]

  claim_slot-IsQuiet : IsQuiet claim_slot
  unfolding claim_slot
  claim_slot-IsQuiet s = elim (Bool-cases (s.afu.mmio_count == s.afu.mmio_max_count)) [
    | inl full ↦ rw full (
        Always-bind (Quiet r) (Quiet-trans r) grow_mmios _ grow_mmios-IsQuiet
          (λ _ t. record { taken = refl; kept = refl }) s)
    | inr spare ↦ rw spare (record { taken = refl; kept = refl })
  ]

  put_area-IsQuiet : (i : ℕ) (a : OcxlMmioArea) → IsQuiet (put_area i a)
  unfolding put_area
  put_area-IsQuiet i a s = elim (Bool-cases (ltb i (length s.afu.mmios.cells))) [
    | inl inside ↦ rw inside (record { taken = refl; kept = refl })
    | inr outside ↦ rw outside tt
  ]

  put-IsQuiet :
      (i : ℕ) (a : OcxlMmioArea)
      → IsQuiet (put_area i a >> gets (λ s. OcxlMmioH.area s.afu.mmios.base i))
  put-IsQuiet i a =
      Always-bind (Quiet r) (Quiet-trans r) (put_area i a) _ (put_area-IsQuiet i a)
        (λ _ t. record { taken = refl; kept = refl })

  register_mmio-IsQuiet :
      (addr size : ℕ) (type : OcxlMmioType) → IsQuiet (register_mmio addr size type)
  unfolding register_mmio
  register_mmio-IsQuiet addr size type s =
      let a : OcxlMmioArea = record { start = addr; length = size; type = type } in
      elim (Option-cases (find_free s.afu.mmio_count s.afu.mmios.cells)) [
        | inl bad ↦ rw bad tt
        | inr (found, e) ↦ elim (Option-cases found) [
          | inl n ↦
              rw (e, n)
                (Always-bind (Quiet r) (Quiet-trans r) claim_slot _ claim_slot-IsQuiet
                  (λ i. put-IsQuiet i a) s)
          | inr (i, at) ↦ rw (e, at) (put-IsQuiet i a s)
        ]
      ]

  map_and_register-IsQuiet :
      (size prot : ℕ) (fd : ℤ) (offset : ℕ) (type : OcxlMmioType)
      → IsQuiet (map_and_register size prot fd offset type)
  unfolding map_and_register taken given_back
  map_and_register-IsQuiet size prot fd offset type =
      Always-bind (Quiet r) (Quiet-trans r) (mmap size prot fd offset) _
        (λ s. record {
          taken = omega (arith, no_page (k.mmap s.log size prot fd offset));
          kept = refl;
        })
        (λ addr.
          Always-bind (Quiet r) (Quiet-trans r) (fail_if (addr == map_failed) OcxlErr.no_mem) _
            (fail_if-IsQuiet (addr == map_failed) OcxlErr.no_mem)
            (λ _.
              Always-on_error (Quiet r) (Quiet-trans r) (register_mmio addr size type)
                (λ rc. do errmsg rc; _ ← munmap addr size; return_err rc)
                (register_mmio-IsQuiet addr size type)
                (λ e t. record { taken = refl; kept = omega (arith, no_page addr) })))

  global_mmio_map-IsQuiet :
      (size prot flags offset : ℕ) → IsQuiet (global_mmio_map size prot flags offset)
  unfolding global_mmio_map
  global_mmio_map-IsQuiet size prot flags offset s =
      Always-bind (Quiet r) (Quiet-trans r) (fail_if (s.afu.global_mmio_length == 0) OcxlErr.no_mem)
        _ (fail_if-IsQuiet _ _)
        (λ _.
          Always-bind (Quiet r) (Quiet-trans r) (fail_if (ltb 0 flags) OcxlErr.invalid_args) _
            (fail_if-IsQuiet _ _)
            (λ _. map_and_register-IsQuiet size prot s.afu.global_mmio_fd offset _))
        s

  mmio_map-IsQuiet : (size prot flags offset : ℕ) → IsQuiet (mmio_map size prot flags offset)
  unfolding mmio_map
  mmio_map-IsQuiet size prot flags offset s =
      Always-bind (Quiet r) (Quiet-trans r) (fail_if (ltb 0 flags) OcxlErr.invalid_args) _
        (fail_if-IsQuiet _ _)
        (λ _.
          Always-bind (Quiet r) (Quiet-trans r) (fail_if (is_neg s.afu.fd) OcxlErr.no_context) _
            (fail_if-IsQuiet _ _)
            (λ _.
              Always-bind (Quiet r) (Quiet-trans r)
                (fail_if (not s.afu.attached) OcxlErr.no_context) _ (fail_if-IsQuiet _ _)
                (λ _. map_and_register-IsQuiet size prot s.afu.fd offset _)))
        s

  pub map_advanced-IsQuiet :
      (type : OcxlMmioType) (size prot flags : ℕ) (offset : ℤ)
      → IsQuiet (ocxl_mmio_map_advanced type size prot flags offset)
  unfolding ocxl_mmio_map_advanced
  map_advanced-IsQuiet OcxlMmioType.global_mmio size prot flags offset s =
      Always-bind (Quiet r) (Quiet-trans r) (fail_if _ OcxlErr.no_mem) _ (fail_if-IsQuiet _ _)
        (λ _. global_mmio_map-IsQuiet _ prot flags _) s
  map_advanced-IsQuiet OcxlMmioType.per_pasid_mmio size prot flags offset s =
      Always-bind (Quiet r) (Quiet-trans r) (fail_if _ OcxlErr.no_mem) _ (fail_if-IsQuiet _ _)
        (λ _. mmio_map-IsQuiet _ prot flags _) s
  map_advanced-IsQuiet (OcxlMmioType.other n) size prot flags offset s = record {
    taken = refl;
    kept = refl;
  }
