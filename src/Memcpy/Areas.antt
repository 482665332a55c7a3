-- ===== src/Memcpy/Areas.antt =====
-- Attaching and the two areas, at the start of a copy.
use mathlib.Core.Path.{subst}
use libocxl.Base.{◌^◌, ◌<◌, ◌≡◌, refl, sym, ap, true, some, inl, inr, arith, Bool-cases}
use libocxl.Base.Int.{pos, is_minus_one}
use libocxl.Types.{OcxlErr, OcxlEndian, OcxlMmioType, OcxlMmioArea, OcxlMmioH, OcxlAfu, State}
use libocxl.Kernel.{Kernel, Ends, Ends-bind, Ends-mono, Ends-cleanup, prot_read_write, done}
use libocxl.Mmio.Register.{area_at}
use libocxl.Mmio.Register.Refines.{IsMmios}
use libocxl.Mmio.Region.Unmap.{area_at-IsRegistered}
use libocxl.Mmio.Map.{area_length, ocxl_mmio_map}
use libocxl.Mmio.Map.Bounds.{Mapped, Unchanged, block_size, map_advanced-Mapped}
use libocxl.Mmio.Access.Total.{AtMostOneCall, IsSafe, write64-IsSafe, read64-IsSafe}
use libocxl.Irq.Table.{IsIrqs}
use libocxl.Afu.Close.Stages.{IsSound}
use libocxl.Irq.Release.{Never}
use libocxl.Afu.Open.{ocxl_afu_attach}
use libocxl.Memcpy.{global_setup}
use libocxl.Memcpy.Check.{IsSafe-mmios}

-- An AFU that can be used for a copy: its two tables are in order and not full, and its areas are no
-- longer than an off_t allows.
pub record IsUsable (a : OcxlAfu) : Type 0 where
  pub mmios : IsMmios a
  pub irqs : IsIrqs a
  pub few_mmios : a.mmio_count < 2 ^ 15
  pub few_irqs : a.irq_count < 2 ^ 15
  pub global : a.global_mmio_length < 2 ^ 63
  pub per_pasid : a.per_pasid_mmio_length < 2 ^ 63

-- Any end, but no fault.
abbrev AnyError : OcxlErr → State → Type 0
AnyError e t = Unit

IsSafe-registered :
    (h : OcxlMmioH) (t : State) (a : OcxlMmioArea) → area_at h t ≡ some a → IsSafe h t
IsSafe-registered OcxlMmioH.null t a found = tt
IsSafe-registered (OcxlMmioH.area base i) t a found = (a, found)

module _ ⦃k : Kernel⦄ (s : State) (v : IsUsable s.afu) where
  -- Attaching changes nothing else.
  pub attach-Attached :
      Ends
        (λ _ t. t.afu ≡ record s.afu { attached = true })
        (λ _ t. t.afu ≡ s.afu)
        (ocxl_afu_attach 0 s)
  unfolding ocxl_afu_attach
  attach-Attached = elim (Bool-cases (is_minus_one s.afu.fd)) [
    | inl closed ↦ rw closed refl
    | inr opened ↦ rw opened (elim (Bool-cases (k.attach s.log s.afu.fd s.afu.ppc64_amr)) [
      | inl taken ↦ rw taken refl
      | inr refused ↦ rw refused refl
    ])
  ]

-- Mapping a whole area: the handle leads to it, and the interrupts are as they were.
abbrev pub HasArea : OcxlMmioType → State → OcxlMmioH → State → Type 0
HasArea type s h t =
    ((a : OcxlMmioArea) × (area_at h t ≡ some a)
      × (a.type ≡ type)
      × (a.length ≡ area_length type s.afu))
    × IsSound t.afu
    × (t.afu.irq_count ≡ s.afu.irq_count)
    × (t.afu.attached ≡ s.afu.attached)

module _ ⦃k : Kernel⦄ (s : State) (v : IsUsable s.afu) where
  pub map-HasArea :
      (type : OcxlMmioType)
      → area_length type s.afu < 2 ^ 63
      → Ends (HasArea type s) (λ e t. t.afu ≡ s.afu) (ocxl_mmio_map type s)
  unfolding ocxl_mmio_map
  map-HasArea type short =
      Ends-mono (Mapped type prot_read_write 0 0 s (block_size 0 (area_length type s.afu) 0))
        (Unchanged s) (HasArea type s) (λ e t. t.afu ≡ s.afu) _
        (map_advanced-Mapped 0 prot_read_write 0 0 s type v.mmios v.few_mmios short (omega arith)
          (omega arith) (λ e. omega arith))
        (λ h t (_, _, m). (
          (_, area_at-IsRegistered _ s.afu t h m, refl, omega arith),
          record {
            mmios = m.table;
            irqs =
                subst (λ a. IsIrqs a) (sym m.others)
                  (record {
                    table = v.irqs.table;
                    allocated = v.irqs.allocated;
                    closable = v.irqs.closable;
                  });
          },
          ap (λ (a : OcxlAfu). a.irq_count) m.others,
          ap (λ (a : OcxlAfu). a.attached) m.others,
        ))
        (λ e t same. same)

module _ ⦃k : Kernel⦄ (s : State) (v : IsUsable s.afu) where
  -- Setting up the global area of an AFU whose tables are in order and not full has no fault, and
  -- tells whether it has failed, whatever the kernel answers.
  global_setup-Ends : Ends (λ failed t. Unit) Never (global_setup s)
  unfolding global_setup
  global_setup-Ends =
      Ends-cleanup (λ _ t. Unit) AnyError Never _ (λ _. done true)
        (Ends-bind (HasArea OcxlMmioType.global_mmio s) (λ e t. t.afu ≡ s.afu) (λ _ t. Unit)
          AnyError _ _ (map-HasArea s v OcxlMmioType.global_mmio v.global)
          (λ h t ((a, found, _, _), _, _, _).
            let safe = IsSafe-registered h t a found in
            Ends-bind (λ _ u. AtMostOneCall t u) (λ _ u. AtMostOneCall t u) (λ _ t. Unit) AnyError _
              _ (read64-IsSafe (pos 0) OcxlEndian.little_endian t h safe)
              (λ _ u (same, _).
                Ends-bind (λ _ w. AtMostOneCall u w) (λ _ w. AtMostOneCall u w) (λ _ t. Unit)
                  AnyError _ _
                  (write64-IsSafe (pos 0x20) OcxlEndian.little_endian u h 0x8008008000000000
                    (IsSafe-mmios h t u (ap (λ (a : OcxlAfu). a.mmios) same) safe))
                  (λ _ w _. tt) (λ _ w _. tt))
              (λ _ u _. tt))
          (λ e t _. tt))
        (λ e t _. tt)

  pub attached-IsUsable : IsUsable (record s.afu { attached = true })
  attached-IsUsable = record {
    mmios = record {
      size = v.mmios.size;
      used = v.mmios.used;
      room = v.mmios.room;
      bound = v.mmios.bound;
    };
    irqs = record {
      table = v.irqs.table;
      allocated = v.irqs.allocated;
      closable = v.irqs.closable;
    };
    few_mmios = v.few_mmios;
    few_irqs = v.few_irqs;
    global = v.global;
    per_pasid = v.per_pasid;
  }

  pub usable-IsSound : IsSound s.afu
  usable-IsSound = record { mmios = v.mmios; irqs = v.irqs }
