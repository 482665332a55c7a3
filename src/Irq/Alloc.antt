-- ===== src/Irq/Alloc.antt =====
-- `irq_allocate`: an interrupt with its descriptor, its page and its watch, or nothing held.
use libocxl.Base.{ℕ, ◌+◌, ◌≡◌, ◌≢◌, ◌<◌, refl, ap, ◌∙◌, true, false, arith, length}
use libocxl.Base.Int.{is_neg, minus_one}
use libocxl.Types.{OcxlErr, OcxlIrq, OcxlAfu, State}
use libocxl.Kernel.{
  Kernel, Ends, Ends-bind, Ends-mono, Ends-cleanup, map_failed, prot_write, return_err, ◌>>◌,
}
use libocxl.Irq.{initial_irq, with_irq, acquire_irq, irq_allocate, irq_dealloc}
use libocxl.Irq.Element.{Holds, OnlyIrq, OnlyIrq-with_irq, OnlyIrq-trans, put_irq-done}
use libocxl.Irq.Release.{Freed, Never, release_log, released, irq_dealloc-Freed}
use libocxl.Irq.Ledger.{
  Resource, IsReal, as_descriptor-neg, as_interrupt-zero, as_page-zero, taken, given_back, holds,
  release_log-counts,
}
use libocxl.Irq.Acquire.{
  Takes, Takes-trans, Failed, Failed-after, Unmoved, open_eventfd-Takes, alloc_interrupt-Takes,
  bind_eventfd-Takes, map_page-Takes, watch_eventfd-Takes,
}

-- A struct that holds nothing yet.
pub record IsBlank (q : OcxlIrq) : Type 0 where
  pub eventfd : q.eventfd ≡ minus_one
  pub irq_offset : q.irq_offset ≡ 0
  pub addr : q.addr ≡ 0

-- `q'` is `q` with an event descriptor, an interrupt and a page.
pub record IsComplete (q q' : OcxlIrq) : Type 0 where
  pub watched : is_neg q'.eventfd ≡ false
  pub mapped : q'.addr ≢ map_failed
  pub same : q' ≡ record q { eventfd = q'.eventfd; irq_offset = q'.irq_offset; addr = q'.addr }

module _ (r : Resource) (real : IsReal r) (i : ℕ) ⦃k : Kernel⦄ where
  abbrev Acquired : OcxlIrq → State → Unit {0} → State → Type 0
  Acquired q s _ t = (q' : OcxlIrq) × Takes r i q q' s t × IsComplete q q'

  acquire_irq-Takes :
      (s : State) (q : OcxlIrq)
      → Holds s.afu i q
      → IsBlank q
      → Ends (Acquired q s) (Failed r i q s) (acquire_irq i s)
  unfolding acquire_irq
  acquire_irq-Takes s q h b =
      let P = Acquired q s in
      let F = Failed r i q s in
      let q1 = record q { eventfd = k.eventfd s.log } in
      Ends-bind (λ _ t. Takes r i q q1 s t × (is_neg q1.eventfd ≡ false)) F P F _ _
        (open_eventfd-Takes r i s q h b.eventfd)
        (λ _ s1 (t1, good).
          let c = λ (x : is_neg q1.eventfd ≡ true). let no : q1.eventfd ≡ minus_one = cc in no in
          Ends-bind (λ _ t. (o : ℕ) × Takes r i q1 (record q1 { irq_offset = o }) s1 t)
            (Failed r i q1 s1) P F _ _
            (alloc_interrupt-Takes r i s1 q1 t1.only.holds c real b.irq_offset)
            (λ _ s2 (o, t2).
              let q2 = record q1 { irq_offset = o } in
              let t12 = Takes-trans r i q q1 q2 s s1 s2 t1 t2 in
              Ends-bind (Unmoved r i s2 q2 t2.only.holds) (Failed r i q2 s2) P F _ _
                (bind_eventfd-Takes r i s2 q2 t2.only.holds c real)
                (λ _ s3 t3.
                  let t13 = Takes-trans r i q q2 q2 s s2 s3 t12 t3 in
                  let a = k.mmap s3.log s3.afu.page_size prot_write s3.afu.fd o in
                  let q3 = record q2 { addr = a } in
                  Ends-bind (λ _ t. Takes r i q2 q3 s3 t × (a ≢ map_failed)) (Failed r i q2 s3) P F
                    _ _ (map_page-Takes r i s3 q2 t3.only.holds c real b.addr)
                    (λ _ s4 (t4, mapped).
                      let t14 = Takes-trans r i q q2 q3 s s3 s4 t13 t4 in
                      Ends-mono (Unmoved r i s4 q3 t4.only.holds) (Failed r i q3 s4) P F _
                        (watch_eventfd-Takes r i s4 q3 t4.only.holds c real)
                        (λ _ s5 t5. (
                          q3,
                          Takes-trans r i q q3 q3 s s4 s5 t14 t5,
                          record { watched = good; mapped = mapped; same = refl },
                        ))
                        (Failed-after r i q q3 s s4 t14))
                    (Failed-after r i q q2 s s3 t13))
                (Failed-after r i q q2 s s2 t12))
            (Failed-after r i q q1 s s1 t1))
        (λ e t f. f)

  -- The call of the element's allocation succeeded, with the application's `info`.
  pub record Allocated (info : ℕ) (s : State) (x : Unit {0}) (t : State) : Type 0 where
    pub irq : OcxlIrq
    pub only : OnlyIrq i s.afu t.afu irq
    pub complete : IsComplete (initial_irq s.afu i info) irq
    pub counted : taken r t.log ≡ holds r irq + taken r s.log
    pub kept : given_back r t.log ≡ given_back r s.log
    pub handle : t.afu_h ≡ s.afu_h

  -- It failed, and the resource was given back as often as it was taken.
  pub record Undone (s : State) (e : OcxlErr) (t : State) : Type 0 where
    pub error : e ≡ OcxlErr.internal_error
    pub left : OcxlIrq
    pub only : OnlyIrq i s.afu t.afu left
    pub balanced : taken r t.log + given_back r s.log ≡ taken r s.log + given_back r t.log
    pub handle : t.afu_h ≡ s.afu_h

  initial-holds : (afu : OcxlAfu) (info : ℕ) → holds r (initial_irq afu i info) ≡ 0
  initial-holds afu info =
      omega
        (arith, as_descriptor-neg r minus_one refl, as_interrupt-zero r real, as_page-zero r real)

  undo :
      (info : ℕ) (s : State) (lt : i < length s.afu.irqs.cells) (e : OcxlErr) (t : State)
      → let q = initial_irq s.afu i info in
        Failed r i q (record s { afu = with_irq s.afu i q }) e t
        → Ends (Allocated info s) (Undone s) ((do irq_dealloc i; return_err e) t)
  undo info s lt e t f =
      let q = initial_irq s.afu i info in
      let s0 = record s { afu = with_irq s.afu i q } in
      let counts = release_log-counts r real t f.left in
      Ends-bind (Freed i t (release_log t f.left) (released f.left)) Never (Allocated info s)
        (Undone s) _ _ (irq_dealloc-Freed i t f.left f.takes.only.holds f.closable)
        (λ _ u (only, l, m). record {
          error = f.error;
          left = released f.left;
          only =
              OnlyIrq-trans i s.afu s0.afu u.afu q (released f.left) (OnlyIrq-with_irq i s.afu q lt)
                (OnlyIrq-trans i s0.afu t.afu u.afu f.left (released f.left) f.takes.only only);
          balanced = omega (
            arith,
            ap (λ x. taken r x) l,
            ap (λ x. given_back r x) l,
            counts,
            f.takes.counted,
            f.takes.kept,
            initial-holds s.afu info,
          );
          handle = m ∙ f.takes.handle;
        })
        (λ e u n. absurd n)

  -- Allocating an interrupt in an element of the table has no fault. If it succeeds, the element
  -- holds an event descriptor, an interrupt and a page, and each resource was taken as often as the
  -- element holds it; if it fails, each resource was given back as often as it was taken. Nothing
  -- but that element changes.
  pub irq_allocate-Allocated :
      (info : ℕ) (s : State)
      → i < length s.afu.irqs.cells
      → Ends (Allocated info s) (Undone s) (irq_allocate i info s)
  unfolding irq_allocate
  irq_allocate-Allocated info s lt =
      let q = initial_irq s.afu i info in
      let s0 = record s { afu = with_irq s.afu i q } in
      let only0 = OnlyIrq-with_irq i s.afu q lt in
      rw (put_irq-done i s q lt) (
        Ends-cleanup (Allocated info s) (Failed r i q s0) (Undone s) _ _
          (Ends-mono (Acquired q s0) (Failed r i q s0) (Allocated info s) (Failed r i q s0) _
            (acquire_irq-Takes s0 q only0.holds
              (record { eventfd = refl; irq_offset = refl; addr = refl }))
            (λ _ t (q', t1, c). record {
              irq = q';
              only = OnlyIrq-trans i s.afu s0.afu t.afu q q' only0 t1.only;
              complete = c;
              counted = omega (arith, t1.counted, initial-holds s.afu info);
              kept = t1.kept;
              handle = t1.handle;
            })
            (λ e t f. f))
          (undo info s lt))
