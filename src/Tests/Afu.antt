-- ===== src/Tests/Afu.antt =====
-- Opening and closing an AFU at concrete inputs.
use Prim.Native.String.{String}
use libocxl.Base.{ℕ, ◌≡◌, refl, ap, Option, true, false, none, some, [], ◌∷◌, ◌⊎◌, arith}
use libocxl.Base.Int.{pos, minus_one, is_minus_one}
use libocxl.Types.{OcxlErr, OcxlAfu, State, Event}
use libocxl.Kernel.{Kernel, Errno, Ends, ◌>>◌}
use libocxl.Irq.Release.{Never}
use libocxl.Afu.Open.{ocxl_afu_set_ppc64_amr, ocxl_afu_attach}
use libocxl.Afu.Open.Opened.{IsFresh, Opened}
use libocxl.Afu.Open.Attach.{set_amr-attach}
use libocxl.Afu.Close.{ocxl_afu_close, open_found}
use libocxl.Afu.Close.Stages.{IsSound, Closed, close_log}
use libocxl.Afu.Close.Released.{afu_close-Closed}
use libocxl.Afu.Close.Failed.{Balanced, open_found-Balanced}
use libocxl.Afu.Close.Leaks.{IsOther, open_found-leaks}
use libocxl.Afu.Open.{afu_open}
use libocxl.Afu.Open.Opened.{NotOpened, afu_open-Opened}
use libocxl.Afu.Search.{ocxl_afu_open_specific, libocxl_init}
use libocxl.Afu.Search.Opened.{IsUsable, open_specific-IsUsable}
use libocxl.Afu.Search.Init.{init-once}
use libocxl.Tests.Setup.{globals, friendly, afu, start, afu-Closable}

pub afu-IsSound : IsSound afu
afu-IsSound = record {
  mmios = record { size = refl; used = tt; room = omega arith; bound = omega arith };
  irqs = record {
    table = record { size = refl; used = tt; room = omega arith; bound = omega arith };
    allocated = λ e. omega arith;
    closable = afu-Closable;
  };
}

afu_close-Closed_example : Ends (Closed (close_log start)) Never (ocxl_afu_close start)
afu_close-Closed_example = afu_close-Closed start afu-IsSound refl

abbrev block_of : Option (ℕ × String) → ℕ
block_of none = 0
block_of (some p) = p.0

start-IsOther : IsOther 0x800 start
start-IsOther = record {
  struct_block = λ e. omega arith;
  irqs_block = λ e. omega arith;
  events_block = λ e. omega arith;
  device_block =
      λ p e h. let at : block_of (some p) ≡ p.0 = refl in omega (arith, ap block_of e, at, h);
  sysfs_block =
      λ p e h. let at : block_of (some p) ≡ p.0 = refl in omega (arith, ap block_of e, at, h);
}

-- An AFU that has been found and is not open.
abbrev found : OcxlAfu
found = record afu {
  fd = minus_one;
  epoll_fd = minus_one;
  global_mmio_fd = minus_one;
  irqs = record { base = 0; cells = [] };
  irq_count = 0;
  irq_max_count = 0;
  mmios = record { base = 0; cells = [] };
  mmio_count = 0;
  mmio_max_count = 0;
  attached = false;
}

abbrev before_open : State
before_open = record start { afu = found }

found-IsFresh : IsFresh found
found-IsFresh = record {
  fd = refl;
  global_mmio_fd = refl;
  epoll_fd = refl;
  device_path = λ e. cc;
  sysfs_path = λ e. cc;
}

found-IsSound : IsSound found
found-IsSound = record {
  mmios = record { size = refl; used = tt; room = omega arith; bound = omega arith };
  irqs = record {
    table = record { size = refl; used = tt; room = omega arith; bound = omega arith };
    allocated = λ e. refl;
    closable = λ j q e h. cc;
  };
}

open_found-Balanced_example :
    Ends (Opened 5 before_open) (Balanced 5 before_open) (open_found before_open)
open_found-Balanced_example =
    open_found-Balanced 5 before_open found-IsFresh found-IsSound
      (record { no_areas = refl; no_irqs = refl })

-- A kernel that has no more contexts.
abbrev exhausted : Kernel
exhausted = record friendly { open_file = λ _ path. minus_one; errno = λ _. Errno.enospc }

open_found-leaks_example :
    Ends
      (λ _ _. ⊥)
      (λ e t.
        (e ≡ OcxlErr.no_more_contexts)
        × (t.log ≡ Event.open_file "/dev/ocxl/IBM,MEMCPY3.0004:00:00.1.0" minus_one ∷ [])
        × (t.afu ≡ found))
      (open_found ⦃k = exhausted⦄ before_open)
open_found-leaks_example =
    open_found-leaks ⦃k = exhausted⦄ before_open "/dev/ocxl/IBM,MEMCPY3.0004:00:00.1.0"
      found-IsFresh refl refl

set_amr-attach_example :
    Ends
      (λ _ t.
        (is_minus_one start.afu.fd ≡ false)
        × (t.afu ≡ record afu { attached = true; ppc64_amr = 7 })
        × (t.log ≡ Event.attach (pos 5) 7 true ∷ []))
      (λ e t.
        (t.afu ≡ record afu { ppc64_amr = 7 })
        × (((e ≡ OcxlErr.no_context) × (is_minus_one start.afu.fd ≡ true) × (t.log ≡ []))
            ⊎ ((e ≡ OcxlErr.internal_error)
                × (is_minus_one start.afu.fd ≡ false)
                × (t.log ≡ Event.attach (pos 5) 7 false ∷ []))))
      ((ocxl_afu_set_ppc64_amr 7 >> ocxl_afu_attach 0) start)
set_amr-attach_example = set_amr-attach 7 0 start

afu_open-Opened_example :
    Ends (Opened 5 before_open) (NotOpened 5 before_open) (afu_open before_open)
afu_open-Opened_example = afu_open-Opened 5 before_open found-IsFresh

open_specific-IsUsable_example :
    Ends
      (IsUsable 5 start)
      (Balanced 5 start)
      (ocxl_afu_open_specific "IBM,MEMCPY3" none none start)
open_specific-IsUsable_example =
    open_specific-IsUsable 5 (λ l name. (name, refl)) "IBM,MEMCPY3" none none start

init-once_example :
    libocxl_init ⦃k = exhausted⦄ (libocxl_init ⦃k = friendly⦄ globals)
    ≡ libocxl_init ⦃k = friendly⦄ globals
init-once_example = init-once friendly exhausted globals
