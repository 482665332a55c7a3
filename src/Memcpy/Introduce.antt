-- ===== src/Memcpy/Introduce.antt =====
-- The first steps of a copy: attaching, the per-PASID area, the error interrupt, and telling the AFU
-- about them.
use mathlib.Core.Path.{subst}
use libocxl.Base.{
  ℕ, ◌+◌, ◌^◌, ◌<◌, ◌≤◌, ◌≡◌, ◌≢◌, ◌∷◌, get_elem?, refl, sym, ap, ◌∙◌, true, some, arith,
}
use libocxl.Base.Int.{pos}
use libocxl.Types.{
  OcxlErr, OcxlIrq, Event, History, OcxlEndian, OcxlMmioType, OcxlMmioArea, OcxlMmioH, OcxlAfu,
  State,
}
use libocxl.Kernel.{Kernel, Ends, Ends-bind, pure, ◌>>◌}
use libocxl.Mmio.Register.{area_at}
use libocxl.Mmio.Register.Refines.{IsMmios}
use libocxl.Mmio.Access.Total.{Stored64, write64-Stored64}
use libocxl.Irq.Table.{IsIrqs, irqs_in_use}
use libocxl.Irq.Grow.{SameButIrqs}
use libocxl.Afu.Close.Stages.{IsSound}
use libocxl.Mmio.Access.{address, ocxl_mmio_write64}
use libocxl.Memcpy.{memcpy_afu_pp_irq, memcpy_afu_pp_wed}
use libocxl.Memcpy.Copy.{introduce, htole}
use libocxl.Memcpy.Notify.{HasHandle, NoHandle, irq_alloc-HasHandle}
use libocxl.Memcpy.Areas.{
  IsUsable, attach-Attached, HasArea, map-HasArea, attached-IsUsable, usable-IsSound,
}

-- The descriptor `wed` of the queue and the page of the error interrupt have been stored in the two
-- registers, in this order from the latest call on.
abbrev pub IsTold : ⦃k : Kernel⦄ → (wed err_ea : ℕ) → OcxlMmioArea → History → Type 0
IsTold ⦃k⦄ wed err_ea a l =
    (before : History) × (l
      ≡ Event.store 8 (address a (pos 0)) (htole 8 wed)
        ∷ Event.store 8 (address a (pos 0x28)) (htole 8 err_ea)
        ∷ before)

module _ ⦃k : Kernel⦄ where
  -- What a copy has when the AFU knows the queue.
  pub record Introduced (wed : ℕ) (s : State) (r : OcxlMmioH × ℕ) (t : State) : Type 0 where
    pub attached : t.afu.attached ≡ true
    pub sound : IsSound t.afu
    pub count : t.afu.irq_count ≡ s.afu.irq_count + 1
    -- The error interrupt is the one behind those that were in use.
    pub err_irq : OcxlIrq
    pub new : get_elem? (irqs_in_use t.afu) s.afu.irq_count ≡ some err_irq
    pub page : r.1 ≡ err_irq.addr
    -- The handle leads to the whole per-PASID area, which has both registers.
    pub area : OcxlMmioArea
    pub found : area_at r.0 t ≡ some area
    pub per_pasid : area.type ≡ OcxlMmioType.per_pasid_mmio
    pub length : area.length ≡ s.afu.per_pasid_mmio_length
    pub mapped : area.start ≢ 0
    pub room : 0x28 + 8 ≤ area.length
    pub told : IsTold wed r.1 area t.log

  -- The tables are in order, so that the AFU can be closed.
  abbrev pub NotIntroduced : OcxlErr → State → Type 0
  NotIntroduced e t = IsSound t.afu

  area_at-same :
      (h : OcxlMmioH) (s t : State) (a : OcxlMmioArea)
      → t.afu.mmios ≡ s.afu.mmios
      → area_at h s ≡ some a
      → area_at h t ≡ some a
  area_at-same OcxlMmioH.null s t a same found = found
  area_at-same (OcxlMmioH.area base i) s t a same found = rw same found

  -- The interrupt's table is as the allocation leaves it, and the other as it was.
  IsSound-after : (a b : OcxlAfu) → IsSound a → SameButIrqs a b → IsIrqs b → IsSound b
  IsSound-after a b h same irqs = record {
    mmios =
        subst (λ x. IsMmios x) (sym same)
          (record {
            size = h.mmios.size;
            used = h.mmios.used;
            room = h.mmios.room;
            bound = h.mmios.bound;
          });
    irqs = irqs;
  }

  -- The two writes that tell the AFU about the interrupt and the queue.
  told_both :
      (wed : ℕ) (s : State) (h : OcxlMmioH) (a : OcxlMmioArea) (q : OcxlIrq) (t : State)
      → area_at h t ≡ some a
      → a.type ≡ OcxlMmioType.per_pasid_mmio
      → a.length ≡ s.afu.per_pasid_mmio_length
      → a.length < 2 ^ 63
      → IsSound t.afu
      → t.afu.attached ≡ true
      → t.afu.irq_count ≡ s.afu.irq_count + 1
      → get_elem? (irqs_in_use t.afu) s.afu.irq_count ≡ some q
      → Ends (Introduced wed s) NotIntroduced (
          (do
            ocxl_mmio_write64 h memcpy_afu_pp_irq OcxlEndian.little_endian q.addr
            ocxl_mmio_write64 h memcpy_afu_pp_wed OcxlEndian.little_endian wed
            pure (h, q.addr))
            t)
  told_both wed s h a q t found type length short sound attached count new =
      Ends-bind (λ _ u. Stored64 0x28 a q.addr t u) (λ _ u. (u.afu ≡ t.afu) × (u.log ≡ t.log))
        (Introduced wed s) NotIntroduced _ _
        (write64-Stored64 0x28 a h q.addr t found short (omega arith))
        (λ _ u (real, room, same, irq_log).
          let found' = area_at-same h t u a (ap (λ (a : OcxlAfu). a.mmios) same) found in
          Ends-bind (λ _ w. Stored64 0 a wed u w) (λ _ w. (w.afu ≡ u.afu) × (w.log ≡ u.log))
            (Introduced wed s) NotIntroduced _ _
            (write64-Stored64 0 a h wed u found' short (omega arith))
            (λ _ w (_, _, same', wed_log).
              let all = same' ∙ same in
              record {
                attached = ap (λ (a : OcxlAfu). a.attached) all ∙ attached;
                sound = subst (λ a. IsSound a) (sym all) sound;
                count = ap (λ (a : OcxlAfu). a.irq_count) all ∙ count;
                err_irq = q;
                new = ap (λ a. get_elem? (irqs_in_use a) s.afu.irq_count) all ∙ new;
                page = refl;
                area = a;
                found = area_at-same h u w a (ap (λ (a : OcxlAfu). a.mmios) same') found';
                per_pasid = type;
                length = length;
                mapped = real;
                room = room;
                told = (
                  t.log,
                  wed_log ∙ ap (λ l. Event.store 8 (address a (pos 0)) (htole 8 wed) ∷ l) irq_log,
                );
              })
            (λ _ w (same', _). subst (λ a. IsSound a) (sym (same' ∙ same)) sound))
        (λ _ u (same, _). subst (λ a. IsSound a) (sym same) sound)

module _ ⦃k : Kernel⦄ (wed : ℕ) (s : State) (v : IsUsable s.afu) where
  -- Introducing the AFU to the queue, where its tables are in order and not full and its areas are
  -- shorter than 2^63, has no fault, whatever the kernel answers. If it succeeds, the AFU is
  -- attached, its tables are in order, and one more interrupt is in use, behind those that were,
  -- whose page is returned; the handle that is returned leads to the mapped per-PASID area, of its
  -- whole length, and the last two calls are the stores of that page at 0x28 and then of the
  -- descriptor of the queue at 0, both in little endian, within that area. If it fails, the tables
  -- are in order.
  pub introduce-Introduced : Ends (Introduced wed s) NotIntroduced (introduce wed s)
  unfolding introduce
  introduce-Introduced =
      Ends-bind (λ _ t. t.afu ≡ record s.afu { attached = true }) (λ e t. t.afu ≡ s.afu)
        (Introduced wed s) NotIntroduced _ _ (attach-Attached s v)
        (λ _ t1 same.
          let usable : IsUsable t1.afu =
            subst (λ a. IsUsable a) (sym same) (attached-IsUsable s v) in
          let type = OcxlMmioType.per_pasid_mmio in
          Ends-bind (HasArea type t1) (λ e t. t.afu ≡ t1.afu) (Introduced wed s) NotIntroduced _ _
            (map-HasArea t1 usable type usable.per_pasid)
            (λ h t2 ((a, found, is_type, length), sound, count, attached).
              let small : t2.afu.irq_count < 2 ^ 15 = omega (arith, count, usable.few_irqs) in
              let whole = length ∙ ap (λ (a : OcxlAfu). a.per_pasid_mmio_length) same in
              let before = count ∙ ap (λ (a : OcxlAfu). a.irq_count) same in
              Ends-bind (HasHandle t2) (NoHandle t2) (Introduced wed s) NotIntroduced _ _
                (irq_alloc-HasHandle t2 sound.irqs small)
                (λ i t3 (irqs', _, same', count', index, (q, new, handle)). rw handle (
                  told_both wed s h a q t3
                    (area_at-same h t2 t3 a (ap (λ (a : OcxlAfu). a.mmios) same') found) is_type
                    whole (omega (arith, length, usable.per_pasid))
                    (IsSound-after t2.afu t3.afu sound same' irqs')
                    (ap (λ (a : OcxlAfu). a.attached) same'
                      ∙ attached
                      ∙ ap (λ (a : OcxlAfu). a.attached) same)
                    (count' ∙ ap (λ n. n + 1) before)
                    (subst (λ n. get_elem? (irqs_in_use t3.afu) n ≡ some q) (index ∙ before) new)))
                (λ e t (_, irqs', same'). IsSound-after t2.afu t.afu sound same' irqs'))
            (λ e t same'. subst (λ a. IsSound a) (sym same') (usable-IsSound t1 usable)))
        (λ e t same. subst (λ a. IsSound a) (sym same) (usable-IsSound s v))
