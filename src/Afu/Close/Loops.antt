-- ===== src/Afu/Close/Loops.antt =====
-- The two loops of `ocxl_afu_close`.
use libocxl.Base.{
  ℕ, suc, ◌+◌, ◌≡◌, ◌≢◌, refl, ap, ◌∙◌, inl, inr, some, List, [], ◌∷◌, arith, ◌==◌, if◌then◌else◌,
  Bool-cases, length, get_elem?, get_elem?-set_ne,
}
use libocxl.Types.{OcxlMmioArea, OcxlIrq, OcxlAfu, State, Event, History}
use libocxl.Kernel.{Kernel, Ends, Ends-bind, Ends-mono}
use libocxl.Mmio.Register.Refines.{IsMmios, areas}
use libocxl.Mmio.Region.Unmap.{
  unmapped, cleared, unmap_mapped, unmap_unmapped, unmapped-IsMmios, unmapped-areas,
}
use libocxl.Irq.Element.{Holds}
use libocxl.Irq.Table.{Closable}
use libocxl.Irq.Release.{
  Freed, Never, page_log, interrupt_log, eventfd_log, release_log, released, irq_dealloc-Freed,
}
use libocxl.Afu.Close.{unmap_areas, dealloc_irqs}

-- The history after each of the areas that is mapped has been unmapped.
abbrev pub unmap_log : List OcxlMmioArea → History → History
unmap_log [] l = l
unmap_log (a ∷ rest) l =
    unmap_log rest (if a.start == 0 then l else Event.munmap a.start a.length ∷ l)

-- The history after each interrupt has been deallocated.
abbrev pub dealloc_log : ⦃k : Kernel⦄ → OcxlAfu → List OcxlIrq → History → History
dealloc_log afu [] l = l
dealloc_log afu (q ∷ qs) l =
    dealloc_log afu qs (eventfd_log (interrupt_log (page_log l afu q) afu q) afu q)

-- The list `xs` is what follows in `ys` from index `i` on.
abbrev pub Follows : {A : Type 0} → List A → List A → ℕ → Type 0
Follows {A} xs ys i = (j : ℕ) (x : A) → get_elem? xs j ≡ some x → get_elem? ys (i + j) ≡ some x

-- Nothing but the areas has changed.
abbrev pub Unmapped : State → History → Unit {0} → State → Type 0
Unmapped s l _ s' =
    (s'.log ≡ l) × (s'.afu ≡ record s.afu { mmios = s'.afu.mmios }) × (s'.afu_h ≡ s.afu_h)

module _ {A : Type 0} (x : A) (xs ys : List A) (i : ℕ) where
  Follows-head : Follows (x ∷ xs) ys i → get_elem? ys i ≡ some x
  Follows-head h = let same : i ≡ i + 0 = omega arith in ap (λ n. get_elem? ys n) same ∙ h 0 x refl

  Follows-tail : Follows (x ∷ xs) ys i → Follows xs ys (i + 1)
  Follows-tail h = λ j y e.
      let same : i + 1 + j ≡ i + suc j = omega arith in
      ap (λ n. get_elem? ys n) same ∙ h (suc j) y e

pub unmap_areas-Unmapped :
    ⦃k : Kernel⦄ (rest : List OcxlMmioArea) (i : ℕ) (s : State)
    → IsMmios s.afu
    → Follows rest (areas s.afu) i
    → Ends (Unmapped s (unmap_log rest s.log)) Never (unmap_areas (length rest) i s)
unfolding unmap_areas
unmap_areas-Unmapped [] i s v h = (refl, refl, refl)
unmap_areas-Unmapped (a ∷ rest) i s v h =
    let found = Follows-head a rest (areas s.afu) i h in
    let after = Follows-tail a rest (areas s.afu) i h in
    elim (Bool-cases (a.start == 0)) [
      | inl gone ↦
          rw (gone, unmap_unmapped s i a v found (ground arith))
            (unmap_areas-Unmapped rest (i + 1) s v after)
      | inr live ↦
          let s' = unmapped s i a in
          rw (live, unmap_mapped s i a v found (ground arith))
            (Ends-mono (Unmapped s' (unmap_log rest s'.log)) Never
              (Unmapped s (unmap_log rest s'.log)) Never _
              (unmap_areas-Unmapped rest (i + 1) s' (unmapped-IsMmios s i a v found) (λ j b e.
                ap (λ xs. get_elem? xs (i + 1 + j)) (unmapped-areas s i a v found)
                ∙ get_elem?-set_ne (areas s.afu) i (i + 1 + j) (cleared a) (λ e. omega arith)
                ∙ after j b e))
              (λ _ t p. p) (λ e t n. n))
    ]

-- Nothing but the interrupts has changed, and their buffer has not moved.
abbrev pub Deallocated : State → History → Unit {0} → State → Type 0
Deallocated s l _ s' =
    (s'.log ≡ l)
    × (s'.afu ≡ record s.afu { irqs = s'.afu.irqs })
    × (s'.afu.irqs.base ≡ s.afu.irqs.base)
    × (s'.afu_h ≡ s.afu_h)

-- The element `i + j` holds the interrupt `j` of the list.
abbrev pub HoldAll : OcxlAfu → ℕ → List OcxlIrq → Type 0
HoldAll afu i qs = (j : ℕ) (q : OcxlIrq) → get_elem? qs j ≡ some q → Holds afu (i + j) q

next :
    (s s1 : State) (q : OcxlIrq) (qs : List OcxlIrq) (i j : ℕ) (r : OcxlIrq)
    → ((n : ℕ) → n ≢ i → get_elem? s1.afu.irqs.cells n ≡ get_elem? s.afu.irqs.cells n)
    → HoldAll s.afu i (q ∷ qs)
    → get_elem? qs j ≡ some r
    → Holds s1.afu (i + 1 + j) r
next s s1 q qs i j r same h e =
    let at : i + 1 + j ≡ i + suc j = omega arith in
    same (i + 1 + j) (λ e. omega arith) ∙ ap (λ n. get_elem? s.afu.irqs.cells n) at ∙ h (suc j) r e

pub dealloc_irqs-Deallocated :
    ⦃k : Kernel⦄ (qs : List OcxlIrq) (i : ℕ) (s : State)
    → HoldAll s.afu i qs
    → Closable qs
    → Ends (Deallocated s (dealloc_log s.afu qs s.log)) Never (dealloc_irqs (length qs) i s)
unfolding dealloc_irqs
dealloc_irqs-Deallocated [] i s h c = (refl, refl, refl, refl)
dealloc_irqs-Deallocated (q ∷ qs) i s h c =
    let here : i ≡ i + 0 = omega arith in
    let found : Holds s.afu i q = ap (λ n. get_elem? s.afu.irqs.cells n) here ∙ h 0 q refl in
    Ends-bind (Freed i s (release_log s q) (released q)) Never
      (Deallocated s (dealloc_log s.afu (q ∷ qs) s.log)) Never _ _
      (irq_dealloc-Freed i s q found (c 0 q refl))
      (λ _ s1 (p, e, m).
        Ends-mono (Deallocated s1 (dealloc_log s1.afu qs s1.log)) Never
          (Deallocated s (dealloc_log s.afu (q ∷ qs) s.log)) Never _
          (dealloc_irqs-Deallocated qs (i + 1) s1
            (λ j r e. next s s1 q qs i j r (λ n. p.rest n) h e) (λ j r e. c (suc j) r e))
          (λ _ t (l, a, b, m'). (
            l
                ∙ ap (λ x. dealloc_log s1.afu qs x) e
                ∙ ap (λ x. dealloc_log x qs (release_log s q)) p.others,
            a ∙ ap (λ (x : OcxlAfu). record x { irqs = t.afu.irqs }) p.others,
            b ∙ p.base,
            m' ∙ m,
          ))
          (λ e t n. n))
      (λ e t n. n)
