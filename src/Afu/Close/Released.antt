-- ===== src/Afu/Close/Released.antt =====
-- Closing an AFU gives back everything that it holds but the buffer of its areas.
use mathlib.Core.Path.{subst}
use libocxl.Base.{◌≡◌, sym, ap, ◌∙◌, false, get_elem?}
use libocxl.Base.Int.{is_neg}
use libocxl.Types.{State}
use libocxl.Kernel.{Kernel, Ends, Ends-bind, Ends-mono}
use libocxl.Buffer.Table.{length-values}
use libocxl.Mmio.Register.Refines.{areas}
use libocxl.Irq.Release.{Never}
use libocxl.Afu.Close.{unmap_areas, ocxl_afu_close}
use libocxl.Afu.Close.Loops.{unmap_log, Unmapped, unmap_areas-Unmapped}
use libocxl.Irq.Table.{IsIrqs}
use libocxl.Afu.Close.Stages.{IsSound, Closed, zero_add, after_areas, close_log, close_rest}

module _ ⦃k : Kernel⦄ (s : State) (v : IsSound s.afu) where
  unmap_used :
      Ends (Unmapped s (unmap_log (areas s.afu) s.log)) Never (unmap_areas s.afu.mmio_count 0 s)
  unmap_used =
      let count = length-values s.afu.mmio_count s.afu.mmios.cells v.mmios.used in
      let P = Unmapped s (unmap_log (areas s.afu) s.log) in
      subst (λ n. Ends P Never (unmap_areas n 0 s)) count
        (unmap_areas-Unmapped (areas s.afu) 0 s v.mmios
          (λ j a f. ap (λ n. get_elem? (areas s.afu) n) (zero_add j) ∙ f))

  still-IsIrqs : (t : State) → t.afu ≡ record s.afu { mmios = t.afu.mmios } → IsIrqs t.afu
  still-IsIrqs t a =
      subst (λ x. IsIrqs x) (sym a)
        (record { table = v.irqs.table; allocated = v.irqs.allocated; closable = v.irqs.closable })

  -- Closing an open AFU, whose two tables are in order and whose interrupts have -1 for every
  -- negative event descriptor, has no fault and does not fail. It unmaps every area that is mapped,
  -- closes the descriptor of the global area if there is one, deallocates every interrupt and frees
  -- the table of interrupts if there is one, frees the list of events if there is one, closes the
  -- epoll and the device descriptor, and frees the two paths and the struct, each once and in this
  -- order, and makes no other call; the AFU is then closed and not attached.
  pub afu_close-Closed :
      is_neg s.afu.fd ≡ false → Ends (Closed (close_log s)) Never (ocxl_afu_close s)
  unfolding ocxl_afu_close
  afu_close-Closed opened =
      let Q = Closed (close_log s) in
      rw opened (
        Ends-bind (Unmapped s (unmap_log (areas s.afu) s.log)) Never Q Never _ _ unmap_used
          (λ _ t (l, a, m).
            Ends-mono (Closed (after_areas t.afu_h t.afu t.log)) Never Q Never _
              (close_rest t (still-IsIrqs t a))
              (λ _ u (l', f, g). (
                l'
                    ∙ ap (λ x. after_areas t.afu_h t.afu x) l
                    ∙ ap (λ x. after_areas t.afu_h x (unmap_log (areas s.afu) s.log)) a
                    ∙ ap (λ x. after_areas x s.afu (unmap_log (areas s.afu) s.log)) m,
                f,
                g,
              ))
              (λ e u n. n))
          (λ e t n. n))
