-- ===== src/Events/Quiet.antt =====
-- Checking for events takes and gives back neither an event descriptor nor an interrupt.
use libocxl.Base.{ℕ, ◌≡◌, refl, ◌∙◌, List, ◌∷◌}
use libocxl.Base.Int.{ℤ}
use libocxl.Types.{Cell, OcxlEvent, State, Event, History}
use libocxl.Kernel.{Kernel, After, After-imp}
use libocxl.Irq.Ledger.{Resource, taken, given_back}
use libocxl.Irq.Quiet.{Quiet}
use libocxl.Events.{ocxl_afu_event_check}
use libocxl.Events.Keeps.{IsOfCheck, event_check-Keeps}

module _ (r : Resource) where
  -- Both counts are the same.
  abbrev Same : History → History → Type 0
  Same l m = (taken r m ≡ taken r l) × (given_back r m ≡ given_back r l)

  call-Same : (l : History) (e : Event) → IsOfCheck e → Same l (e ∷ l)
  unfolding taken given_back
  call-Same l (Event.read_event fd size used e) h = (refl, refl)
  call-Same l (Event.read_eventfd fd used count) h = (refl, refl)
  call-Same l (Event.epoll_wait epoll_fd max timeout answer) h = (refl, refl)
  call-Same l (Event.free block) h = (refl, refl)
  call-Same l (Event.malloc size answer) h = (refl, refl)
  call-Same l e h = absurd h

  pub event_check-IsQuiet :
      ⦃k : Kernel⦄ (fuel : ℕ) (timeout : ℤ) (events : List (Cell OcxlEvent)) (event_count : ℕ)
      (s : State)
      → After (Quiet r s) (ocxl_afu_event_check fuel timeout events event_count s)
  event_check-IsQuiet ⦃k⦄ fuel timeout events event_count s =
      After-imp (λ t. Same s.log t.log) (Quiet r s) _ (λ t h. record { taken = h.0; kept = h.1 })
        (event_check-Keeps Same (λ l. (refl, refl)) (λ l m n h k. (k.0 ∙ h.0, k.1 ∙ h.1)) call-Same
          ⦃k = k⦄ fuel timeout events event_count s)
