-- ===== src/Irq/Table.antt =====
-- The table of interrupts.
use libocxl.Base.{ℕ, ◌≡◌, true, some, List, get_elem?}
use libocxl.Base.Int.{is_neg, minus_one}
use libocxl.Types.{OcxlIrq, OcxlAfu}
use libocxl.Buffer.Table.{IsTable, values}

-- The interrupts in use.
abbrev pub irqs_in_use : OcxlAfu → List OcxlIrq
irqs_in_use a = values a.irq_count a.irqs.cells

-- The descriptors of the interrupts that are negative are -1.
abbrev pub Closable : List OcxlIrq → Type 0
Closable qs =
    (j : ℕ) (q : OcxlIrq)
    → get_elem? qs j ≡ some q
    → is_neg q.eventfd ≡ true
    → q.eventfd ≡ minus_one

-- The table of interrupts is in order and has a buffer unless it has no room, and the descriptor of
-- an interrupt is -1 if it is negative.
pub record IsIrqs (a : OcxlAfu) : Type 0 where
  pub table : IsTable a.irqs a.irq_count a.irq_max_count
  pub allocated : a.irqs.base ≡ 0 → a.irq_max_count ≡ 0
  pub closable : Closable (irqs_in_use a)
