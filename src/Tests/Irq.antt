-- ===== src/Tests/Irq.antt =====
-- Interrupts at concrete inputs.
use libocxl.Base.{◌≡◌, refl, arith}
use libocxl.Kernel.{fault, Ends}
use libocxl.Buffer.Table.{IsTable}
use libocxl.Irq.{irq_dealloc, ocxl_irq_get_handle, ocxl_irq_get_fd, ocxl_irq_alloc}
use libocxl.Irq.Release.{Freed, Never, release_log, released, irq_dealloc-Freed}
use libocxl.Irq.Handle.{get_handle-bound}
use libocxl.Irq.Ledger.{Resource, IsReal}
use libocxl.Irq.Append.{Appended, Refused, irq_alloc-Appended}
use libocxl.Tests.Setup.{friendly, irq_a, afu, start, afu-Closable}

afu-IsIrqs : IsTable afu.irqs 1 1
afu-IsIrqs = record { size = refl; used = tt; room = omega arith; bound = omega arith }

irq_dealloc-Freed_example :
    Ends (Freed 0 start (release_log start irq_a) (released irq_a)) Never (irq_dealloc 0 start)
irq_dealloc-Freed_example = irq_dealloc-Freed 0 start irq_a refl (λ h. cc)

get_handle-bound_example : (ocxl_irq_get_handle 1 start ≡ fault) × (ocxl_irq_get_fd 1 start ≡ fault)
get_handle-bound_example = get_handle-bound start afu-IsIrqs refl

interrupt-IsReal : IsReal (Resource.interrupt 0x10000)
interrupt-IsReal e = omega arith

irq_alloc-Appended_example :
    Ends
      (Appended (Resource.interrupt 0x10000) interrupt-IsReal 5 start)
      (Refused (Resource.interrupt 0x10000) interrupt-IsReal 5 start)
      (ocxl_irq_alloc 5 start)
irq_alloc-Appended_example =
    irq_alloc-Appended (Resource.interrupt 0x10000) interrupt-IsReal 5 start
      (record { table = afu-IsIrqs; allocated = λ e. omega arith; closable = afu-Closable })
      (omega arith)
