-- ===== src/Afu/Close/Stages.antt =====
-- The stages of closing an AFU: what each gives back, in the order of `ocxl_afu_close`.
use Prim.Native.String.{String}
use mathlib.Core.Path.{subst}
use libocxl.Base.{
  ℕ, ◌≡◌, refl, sym, ap, ◌∙◌, false, Option, none, some, inl, inr, [], ◌∷◌, arith, ◌==◌,
  if◌then◌else◌, Bool-cases, Option-cases, get_elem?, ◌+◌,
}
use libocxl.Base.Int.{is_minus_one, minus_one}
use libocxl.Types.{OcxlAfu, State, Event, History}
use libocxl.Kernel.{Kernel, Ends, Ends-bind, Ends-mono, ◌>>◌}
use libocxl.Buffer.Table.{length-values, get_elem?-values}
use libocxl.Mmio.Register.Refines.{IsMmios, areas}
use libocxl.Irq.Release.{Never}
use libocxl.Irq.Table.{IsIrqs, irqs_in_use}
use libocxl.Afu.Close.{dealloc_irqs, close_global_mmio, release_irqs, close_descriptors, free_afu}
use libocxl.Afu.Close.Loops.{unmap_log, dealloc_log, Deallocated, dealloc_irqs-Deallocated}

-- Both tables of the AFU are in order.
pub record IsSound (a : OcxlAfu) : Type 0 where
  pub mmios : IsMmios a
  pub irqs : IsIrqs a

-- The parts of the history that closing leaves, each after the one before.
abbrev pub global_log : OcxlAfu → History → History
global_log a l = if is_minus_one a.global_mmio_fd then l else Event.close a.global_mmio_fd ∷ l

abbrev pub irqs_log : ⦃k : Kernel⦄ → OcxlAfu → History → History
irqs_log a l =
    if a.irqs.base == 0 then l else Event.free a.irqs.base ∷ dealloc_log a (irqs_in_use a) l

abbrev pub descriptors_log : OcxlAfu → History → History
descriptors_log a l =
    Event.close a.fd
    ∷ Event.close a.epoll_fd
    ∷ (if a.epoll_events == 0 then l else Event.free a.epoll_events ∷ l)

abbrev pub path_log : Option (ℕ × String) → History → History
path_log none l = l
path_log (some (block, text)) l = Event.free block ∷ l

abbrev pub blocks_log : ℕ → OcxlAfu → History → History
blocks_log afu_h a l = Event.free afu_h ∷ path_log a.sysfs_path (path_log a.device_path l)

-- The history after the last stages of closing, from the interrupts on and from the global area on.
abbrev pub after_irqs : ℕ → OcxlAfu → History → History
after_irqs afu_h a l = blocks_log afu_h a (descriptors_log a l)

abbrev pub after_global : ⦃k : Kernel⦄ → ℕ → OcxlAfu → History → History
after_global afu_h a l = after_irqs afu_h a (irqs_log a l)

abbrev pub after_areas : ⦃k : Kernel⦄ → ℕ → OcxlAfu → History → History
after_areas afu_h a l = after_global afu_h a (global_log a l)

-- The history after closing: every area that is mapped is unmapped, the descriptor of the global
-- area closed, every interrupt deallocated and the table of interrupts freed, the list of events
-- freed, the epoll and the device descriptor closed, and the two paths and the struct freed.
abbrev pub close_log : ⦃k : Kernel⦄ → State → History
close_log s = after_areas s.afu_h s.afu (unmap_log (areas s.afu) s.log)

-- The AFU has been closed, and the history became `l`.
abbrev pub Closed : History → Unit {0} → State → Type 0
Closed l _ s' = (s'.log ≡ l) × (s'.afu.fd ≡ minus_one) × (s'.afu.attached ≡ false)

module _ ⦃k : Kernel⦄ (s : State) where
  free_afu-Closed :
      s.afu.fd ≡ minus_one
      → s.afu.attached ≡ false
      → Ends (Closed (blocks_log s.afu_h s.afu s.log)) Never (free_afu s)
  unfolding free_afu
  free_afu-Closed f g = elim (Option-cases s.afu.device_path) [
    | inl d ↦ elim (Option-cases s.afu.sysfs_path) [
      | inl p ↦ simp (d, p) (refl, f, g)
      | inr (p, e) ↦ simp (d, e) (refl, f, g)
    ]
    | inr (d, e) ↦ elim (Option-cases s.afu.sysfs_path) [
      | inl p ↦ simp (e, p) (refl, f, g)
      | inr (p, e') ↦ simp (e, e') (refl, f, g)
    ]
  ]

module _ ⦃k : Kernel⦄ (s : State) where
  close_descriptors-Closed :
      Ends (Closed (after_irqs s.afu_h s.afu s.log)) Never ((close_descriptors >> free_afu) s)
  unfolding close_descriptors
  close_descriptors-Closed =
      let closing = λ (l : History). Event.close s.afu.fd ∷ Event.close s.afu.epoll_fd ∷ l in
      let shut =
        λ (a : OcxlAfu). record a { epoll_fd = minus_one; fd = minus_one; attached = false } in
      elim (Bool-cases (s.afu.epoll_events == 0)) [
        | inl e ↦
            rw e (free_afu-Closed (record s { log = closing s.log; afu = shut s.afu }) refl refl)
        | inr e ↦
            let l = closing (Event.free s.afu.epoll_events ∷ s.log) in
            let a = shut (record s.afu { epoll_event_count = 0 }) in
            rw e (free_afu-Closed (record s { log = l; afu = a }) refl refl)
      ]

-- The interrupts have been released, and nothing else has changed.
abbrev IrqsReleased : ⦃k : Kernel⦄ → State → Unit {0} → State → Type 0
IrqsReleased s _ t =
    (t.log ≡ irqs_log s.afu s.log)
    × (t.afu ≡ record s.afu {
      irqs = t.afu.irqs;
      irq_count = t.afu.irq_count;
      irq_max_count = t.afu.irq_max_count;
    })
    × (t.afu_h ≡ s.afu_h)

pub zero_add : (n : ℕ) → 0 + n ≡ n
zero_add n = omega arith

module _ ⦃k : Kernel⦄ (s : State) (v : IsIrqs s.afu) where
  dealloc_used :
      Ends
        (Deallocated s (dealloc_log s.afu (irqs_in_use s.afu) s.log))
        Never
        (dealloc_irqs s.afu.irq_count 0 s)
  dealloc_used =
      let count = length-values s.afu.irq_count s.afu.irqs.cells v.table.used in
      let P = Deallocated s (dealloc_log s.afu (irqs_in_use s.afu) s.log) in
      subst (λ n. Ends P Never (dealloc_irqs n 0 s)) count
        (dealloc_irqs-Deallocated (irqs_in_use s.afu) 0 s
          (λ j q f.
            ap (λ n. get_elem? s.afu.irqs.cells n) (zero_add j)
            ∙ get_elem?-values s.afu.irq_count s.afu.irqs.cells j v.table.used f)
          v.closable)

  release_irqs-Released : Ends (IrqsReleased s) Never (release_irqs s)
  unfolding release_irqs
  release_irqs-Released = elim (Bool-cases (s.afu.irqs.base == 0)) [
    | inl e ↦ rw e (rw e refl, refl, refl)
    | inr e ↦
        let P = Deallocated s (dealloc_log s.afu (irqs_in_use s.afu) s.log) in
        rw e (
          Ends-bind P Never _ Never _ _ dealloc_used
            (λ _ t (l, a, b, m). (
              rw e (ap (λ x. Event.free s.afu.irqs.base ∷ x) l),
              ap
                  (λ (x : OcxlAfu). record x {
                    irqs = record { base = 0; cells = [] };
                    irq_count = 0;
                    irq_max_count = 0;
                  })
                  a,
              m,
            ))
            (λ e t n. n))
  ]

  release_irqs-Closed :
      Ends
        (Closed (after_global s.afu_h s.afu s.log))
        Never
        ((release_irqs >> (close_descriptors >> free_afu)) s)
  release_irqs-Closed =
      let L = after_global s.afu_h s.afu s.log in
      Ends-bind (IrqsReleased s) Never (Closed L) Never _ _ release_irqs-Released
        (λ _ t (l, a, m).
          Ends-mono (Closed (after_irqs t.afu_h t.afu t.log)) Never (Closed L) Never _
            (close_descriptors-Closed t)
            (λ _ u (l', f, g). (
              l'
                  ∙ ap (λ x. after_irqs t.afu_h t.afu x) l
                  ∙ ap (λ x. after_irqs t.afu_h x (irqs_log s.afu s.log)) a
                  ∙ ap (λ x. after_irqs x s.afu (irqs_log s.afu s.log)) m,
              f,
              g,
            ))
            (λ e u n. n))
        (λ e t n. n)

-- The descriptor of the global area has been closed, and nothing else has changed.
abbrev GlobalClosed : State → Unit {0} → State → Type 0
GlobalClosed s _ t =
    (t.log ≡ global_log s.afu s.log)
    × (t.afu ≡ record s.afu { global_mmio_fd = t.afu.global_mmio_fd })
    × (t.afu_h ≡ s.afu_h)

close_global-GlobalClosed :
    ⦃k : Kernel⦄ (s : State) → Ends (GlobalClosed s) Never (close_global_mmio s)
unfolding close_global_mmio
close_global-GlobalClosed s = elim (Bool-cases (is_minus_one s.afu.global_mmio_fd)) [
  | inl e ↦ rw e (rw e refl, refl, refl)
  | inr e ↦ rw e (rw e refl, refl, refl)
]

pub close_rest :
    ⦃k : Kernel⦄ (s : State)
    → IsIrqs s.afu
    → Ends
        (Closed (after_areas s.afu_h s.afu s.log))
        Never
        ((close_global_mmio >> (release_irqs >> (close_descriptors >> free_afu))) s)
close_rest s v =
    let L = after_areas s.afu_h s.afu s.log in
    Ends-bind (GlobalClosed s) Never (Closed L) Never _ _ (close_global-GlobalClosed s)
      (λ _ t (l, a, m).
        Ends-mono (Closed (after_global t.afu_h t.afu t.log)) Never (Closed L) Never _
          (release_irqs-Closed t (
            subst (λ x. IsIrqs x) (sym a)
              (record { table = v.table; allocated = v.allocated; closable = v.closable })))
          (λ _ u (l', f, g). (
            l'
                ∙ ap (λ x. after_global t.afu_h t.afu x) l
                ∙ ap (λ x. after_global t.afu_h x (global_log s.afu s.log)) a
                ∙ ap (λ x. after_global x s.afu (global_log s.afu s.log)) m,
            f,
            g,
          ))
          (λ e u n. n))
      (λ e t n. n)
