-- ===== src/Tests/Session.antt =====
-- A session at concrete inputs: the AMR is set, the AFU is attached, and an interrupt is allocated.
use libocxl.Base.{refl, true, arith, ◌∷◌, []}
use libocxl.Base.Int.{pos}
use libocxl.Types.{State, Event}
use libocxl.Kernel.{Ends}
use libocxl.Irq.Release.{Never}
use libocxl.Irq.Ledger.{Resource, IsReal, as_page}
use libocxl.Irq.Quiet.{IsNoPage}
use libocxl.Afu.Open.{ocxl_afu_attach, ocxl_afu_set_ppc64_amr}
use libocxl.Afu.Close.{ocxl_afu_close}
use libocxl.Session.{attach, set_ppc64_amr, irq_alloc, run, Reaches, here, call}
use libocxl.Session.Balance.{Kept}
use libocxl.Session.Released.{AllReturned, session-Kept, session-AllReturned}
use libocxl.Tests.Setup.{afu, start}
use libocxl.Tests.Events.{pending, faulting, faulting-IsPending}
use libocxl.Tests.Afu.{afu-IsSound}

abbrev reached : State
reached = record start {
  afu = record afu { ppc64_amr = 7; attached = true };
  log = Event.attach (pos 5) 7 true ∷ [];
}

start-Reaches : Reaches pending ⦃k = faulting⦄ faulting-IsPending start reached
unfolding run ocxl_afu_attach ocxl_afu_set_ppc64_amr
start-Reaches =
    call {t = record start { afu = record afu { ppc64_amr = 7 } }} (attach 0)
      (call {t = start} (set_ppc64_amr 7) here tt refl) tt refl

-- The interrupt of the AFU at the start.
abbrev first : Resource
first = Resource.interrupt 0x20000

first-IsReal : IsReal first
first-IsReal e = omega arith

first-IsNoPage : IsNoPage first
unfolding as_page
first-IsNoPage a = refl

session-Kept_example :
    Ends
      (λ _ u. Kept first start u)
      (λ _ u. Kept first start u)
      (run ⦃k = faulting⦄ (irq_alloc 5) reached)
session-Kept_example =
    session-Kept first first-IsReal first-IsNoPage pending ⦃k = faulting⦄ faulting-IsPending start
      afu-IsSound start-Reaches (irq_alloc 5) (omega arith)

session-AllReturned_example :
    Ends (AllReturned first start) Never (ocxl_afu_close ⦃k = faulting⦄ reached)
session-AllReturned_example =
    session-AllReturned first first-IsReal first-IsNoPage pending ⦃k = faulting⦄ faulting-IsPending
      start afu-IsSound refl start-Reaches
