-- ===== src/Tests/Submit.antt =====
-- The elements of a copy, and the wait for a wake, at concrete inputs.
use libocxl.Base.{refl, arith, [], ◌∷◌}
use libocxl.Types.{State, Event}
use libocxl.Kernel.{Ends}
use libocxl.Irq.Table.{IsIrqs}
use libocxl.Weq.{memcpy3_queue_length}
use libocxl.Weq.Laps.{empty_weq, init_weq-HasAdded}
use libocxl.Weq.Cleared.{cleared-IsInMemory}
use libocxl.Memcpy.Copy.{introduce, submit, copy_element}
use libocxl.Memcpy.Introduce.{NotIntroduced, Introduced, introduce-Introduced}
use libocxl.Memcpy.Areas.{IsUsable}
use libocxl.Memcpy.Submit.{IsSubmitted, IsHeldBack, submit-IsSubmitted}
use libocxl.Tests.Setup.{friendly, afu, afu-Closable, start}

abbrev cleared : State
cleared = record start { log = Event.store 128 0x1000 0 ∷ [] }

start-IsIrqs : IsIrqs afu
start-IsIrqs = record {
  table = record { size = refl; used = tt; room = omega arith; bound = omega arith };
  allocated = λ e. omega arith;
  closable = afu-Closable;
}

submit-IsSubmitted_example :
    Ends
      (IsSubmitted
        (memcpy3_queue_length 128)
        0x1000
        1
        (empty_weq 128)
        (copy_element 0x4000 0x8000 2048))
      (IsHeldBack
        (memcpy3_queue_length 128)
        0x1000
        (empty_weq 128)
        (copy_element 0x4000 0x8000 2048))
      (submit 0x1000 1 (empty_weq 128) (copy_element 0x4000 0x8000 2048) cleared)
submit-IsSubmitted_example =
    submit-IsSubmitted (memcpy3_queue_length 128) 0x1000 0 1 (empty_weq 128)
      (copy_element 0x4000 0x8000 2048) cleared start-IsIrqs (omega arith)
      (
        (init_weq-HasAdded 0x1000 128 (λ e. omega arith) (omega arith)).1,
        cleared-IsInMemory 0x1000 128 [],
      )

start-IsUsable : IsUsable afu
start-IsUsable = record {
  mmios = record { size = refl; used = tt; room = omega arith; bound = omega arith };
  irqs = start-IsIrqs;
  few_mmios = omega arith;
  few_irqs = omega arith;
  global = omega arith;
  per_pasid = omega arith;
}

introduce-Introduced_example :
    Ends (Introduced 0x200fff start) NotIntroduced (introduce 0x200fff start)
introduce-Introduced_example = introduce-Introduced 0x200fff start start-IsUsable
