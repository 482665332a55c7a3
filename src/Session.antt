-- ===== src/Session.antt =====
-- A session of an application with an AFU that is open: any sequence of calls of the library, each
-- made as its documentation and the bounds of the tables allow, and then `ocxl_afu_close`.
pub mod Balance
pub mod Kept
pub mod Counts
pub mod Released
use libocxl.Base.{ℕ, ◌+◌, ◌^◌, ◌≤◌, ◌<◌, ◌≡◌, Option, none, some, List, length, get_elem?}
use libocxl.Base.Int.{ℤ, pos}
use libocxl.Types.{OcxlMmioType, OcxlMmioArea, OcxlMmioH, Cell, OcxlEvent, State, History}
use libocxl.Kernel.{Kernel, Outcome, done, failed, fault, Cmd, pure, gets, ◌>>=◌, ◌>>◌}
use libocxl.Mmio.Map.{area_length, ocxl_mmio_map_advanced}
use libocxl.Mmio.Register.Refines.{areas}
use libocxl.Mmio.Region.{ocxl_mmio_unmap}
use libocxl.Irq.{ocxl_irq_alloc}
use libocxl.Afu.Open.{ocxl_afu_attach, ocxl_afu_set_ppc64_amr}
use libocxl.Events.{ocxl_afu_event_check}
use libocxl.Events.Drain.{IsPending}
use libocxl.Events.Check.{Reports}

-- A call: an unmapping names its area by its index, and has a handle that does not dangle.
pub data Call : Type 0 where
  attach : (flags : ℕ) → Call
  set_ppc64_amr : (amr : ℕ) → Call
  mmio_map : OcxlMmioType → (size prot flags offset : ℕ) → Call
  mmio_unmap : (i : ℕ) → Call
  irq_alloc : (info : ℕ) → Call
  event_check : (fuel : ℕ) (timeout : ℤ) → List (Cell OcxlEvent) → (event_count : ℕ) → Call

-- What a call does; the application keeps the result.
unfoldable pub run : ⦃k : Kernel⦄ → Call → Cmd (Unit {0})
run (attach flags) = ocxl_afu_attach flags
run (set_ppc64_amr amr) = ocxl_afu_set_ppc64_amr amr
run (mmio_map type size prot flags offset) = do
  _ ← ocxl_mmio_map_advanced type size prot flags (pos offset)
  pure tt
run (mmio_unmap i) = do base ← gets (λ s. s.afu.mmios.base); ocxl_mmio_unmap (OcxlMmioH.area base i)
run (irq_alloc info) = do _ ← ocxl_irq_alloc info; pure tt
run (event_check fuel timeout events event_count) = do
  _ ← ocxl_afu_event_check fuel timeout events event_count
  pure tt

-- The state in which a run ends, if it has no fault.
abbrev pub ended : {A : Type 0} → Outcome A → Option State
ended (done a t) = some t
ended (failed e t) = some t
ended fault = none

module _ (pending : History → ℕ) ⦃k : Kernel⦄ (p : IsPending pending) where
  -- The bounds of the tables, of the areas and of the application's array are respected, and a check
  -- for events follows only addresses of interrupts that are still valid: a table of interrupts that
  -- has moved since epoll was given its addresses is not allowed for.
  abbrev pub Allowed : State → Call → Type 0
  Allowed s (attach flags) = Unit
  Allowed s (set_ppc64_amr amr) = Unit
  Allowed s (mmio_map type size prot flags offset) =
      (s.afu.mmio_count < 2 ^ 15)
      × (area_length type s.afu < 2 ^ 63)
      × (offset < 2 ^ 63)
      × (size < 2 ^ 63)
      × (size ≡ 0 → offset ≤ area_length type s.afu)
  Allowed s (mmio_unmap i) = (a : OcxlMmioArea) × (get_elem? (areas s.afu) i ≡ some a)
  Allowed s (irq_alloc info) = s.afu.irq_count < 2 ^ 15
  Allowed s (event_check fuel timeout events event_count) =
      (pending s.log < fuel)
      × (length events < 2 ^ 16)
      × Reports pending p timeout event_count (length events) s

  -- Allowed calls lead from one state to another.
  pub data Reaches (s : State) : State → Type 0 where
    here : Reaches s s
    call :
        {t u : State} (c : Call)
        → Reaches s t
        → Allowed t c
        → ended (run c t) ≡ some u
        → Reaches s u
