-- ===== src/Irq/Element.antt =====
-- Writing one element of the table of interrupts.
use libocxl.Base.{
  ℕ, ◌<◌, ◌≡◌, ◌≢◌, refl, sym, ap, ◌∙◌, true, some, arith, ltb, length, get_elem?, length-set,
  get_elem?-set_self, get_elem?-set_ne, lt_of_get_elem?,
}
use libocxl.Types.{value, OcxlIrq, OcxlAfu, State}
use libocxl.Kernel.{done}
use libocxl.Irq.{get_irq, with_irq, put_irq, update_irq}

-- The element `i` of the table of interrupts holds `q`.
abbrev pub Holds : OcxlAfu → ℕ → OcxlIrq → Type 0
Holds afu i q = get_elem? afu.irqs.cells i ≡ some (value q)

-- From `before` to `after` nothing but the element `i` of the table of interrupts has changed, and
-- it holds `q` now.
pub record OnlyIrq (i : ℕ) (before after : OcxlAfu) (q : OcxlIrq) : Type 0 where
  pub holds : Holds after i q
  pub rest : (j : ℕ) → j ≢ i → get_elem? after.irqs.cells j ≡ get_elem? before.irqs.cells j
  pub size : length after.irqs.cells ≡ length before.irqs.cells
  pub base : after.irqs.base ≡ before.irqs.base
  pub others : after ≡ record before { irqs = after.irqs }

pub OnlyIrq-with_irq :
    (i : ℕ) (afu : OcxlAfu) (q : OcxlIrq)
    → i < length afu.irqs.cells
    → OnlyIrq i afu (with_irq afu i q) q
OnlyIrq-with_irq i afu q lt = record {
  holds = get_elem?-set_self afu.irqs.cells i (value q) lt;
  rest = λ j ne. get_elem?-set_ne afu.irqs.cells i j (value q) (λ e. ne (sym e));
  size = length-set afu.irqs.cells i (value q);
  base = refl;
  others = refl;
}

pub OnlyIrq-refl : (i : ℕ) (afu : OcxlAfu) (q : OcxlIrq) → Holds afu i q → OnlyIrq i afu afu q
OnlyIrq-refl i afu q h = record {
  holds = h;
  rest = λ j ne. refl;
  size = refl;
  base = refl;
  others = refl;
}

pub OnlyIrq-trans :
    (i : ℕ) (a b c : OcxlAfu) (p q : OcxlIrq) → OnlyIrq i a b p → OnlyIrq i b c q → OnlyIrq i a c q
OnlyIrq-trans i a b c p q h k = record {
  holds = k.holds;
  rest = λ j ne. k.rest j ne ∙ h.rest j ne;
  size = k.size ∙ h.size;
  base = k.base ∙ h.base;
  others = k.others ∙ ap (λ (x : OcxlAfu). record x { irqs = c.irqs }) h.others;
}

module _ (i : ℕ) (s : State) (q : OcxlIrq) where
  pub get_irq-Holds : Holds s.afu i q → get_irq i s ≡ done q s
  get_irq-Holds h = rw h

  pub put_irq-done :
      i < length s.afu.irqs.cells → put_irq i q s ≡ done tt (record s { afu = with_irq s.afu i q })
  unfolding put_irq
  put_irq-done lt = let test : ltb i (length s.afu.irqs.cells) ≡ true = ground arith in rw test

  pub update_irq-Holds :
      (f : OcxlIrq → OcxlIrq)
      → Holds s.afu i q
      → update_irq i f s ≡ done tt (record s { afu = with_irq s.afu i (f q) })
  unfolding put_irq
  update_irq-Holds f h =
      let test : ltb i (length s.afu.irqs.cells) ≡ true =
        ground (arith, lt_of_get_elem? s.afu.irqs.cells i h) in
      rw (h, test)
