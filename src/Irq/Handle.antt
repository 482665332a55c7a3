-- ===== src/Irq/Handle.antt =====
-- The getters of an interrupt: what they give for the interrupts in use, and at the bound.
use libocxl.Base.{ℕ, ◌≡◌, false, some, arith, ltb, get_elem?, lt_of_get_elem?, get_elem?-beyond}
use libocxl.Types.{OcxlIrq, State}
use libocxl.Kernel.{done, fault}
use libocxl.Buffer.Table.{IsTable, values, length-values, get_elem?-values}
use libocxl.Irq.{ocxl_irq_get_handle, ocxl_irq_get_fd}

module _ (s : State) (v : IsTable s.afu.irqs s.afu.irq_count s.afu.irq_max_count) where
  -- For an interrupt in use the getters give the address of its page and its event descriptor, and
  -- change nothing.
  pub get_handle-values :
      (i : ℕ) (q : OcxlIrq)
      → get_elem? (values s.afu.irq_count s.afu.irqs.cells) i ≡ some q
      → (ocxl_irq_get_handle i s ≡ done q.addr s) × (ocxl_irq_get_fd i s ≡ done q.eventfd s)
  unfolding ocxl_irq_get_handle ocxl_irq_get_fd
  get_handle-values i q found =
      let used : ltb s.afu.irq_count i ≡ false = ground (
        arith,
        lt_of_get_elem? (values s.afu.irq_count s.afu.irqs.cells) i found,
        length-values s.afu.irq_count s.afu.irqs.cells v.used,
      ) in
      let there = get_elem?-values s.afu.irq_count s.afu.irqs.cells i v.used found in
      (rw (used, there), rw (used, there))

  -- When the table is full, the number one past the last interrupt in use passes the test of both
  -- getters, and they read outside the buffer.
  pub get_handle-bound :
      s.afu.irq_count ≡ s.afu.irq_max_count
      → (ocxl_irq_get_handle s.afu.irq_count s ≡ fault)
        × (ocxl_irq_get_fd s.afu.irq_count s ≡ fault)
  unfolding ocxl_irq_get_handle ocxl_irq_get_fd
  get_handle-bound full =
      let passes : ltb s.afu.irq_count s.afu.irq_count ≡ false = ground arith in
      let outside = get_elem?-beyond s.afu.irqs.cells s.afu.irq_count (omega (arith, v.size)) in
      (rw (passes, outside), rw (passes, outside))
