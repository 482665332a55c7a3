-- ===== src/Irq/Quiet.antt =====
-- Calls that take and give back no resource of an interrupt.
use libocxl.Base.{ℕ, ◌≡◌, ◌∙◌}
use libocxl.Types.{State}
use libocxl.Irq.Ledger.{Resource, taken, given_back, as_page}

-- The resource is no page: pages are mapped for areas too.
abbrev pub IsNoPage : Resource → Type 0
IsNoPage r = (a : ℕ) → as_page r a ≡ 0

module _ (r : Resource) where
  -- The resource was neither taken nor given back.
  pub record Quiet (s t : State) : Type 0 where
    pub taken : taken r t.log ≡ taken r s.log
    pub kept : given_back r t.log ≡ given_back r s.log

  pub Quiet-trans : (s t u : State) → Quiet s t → Quiet t u → Quiet s u
  Quiet-trans s t u h k = record { taken = k.taken ∙ h.taken; kept = k.kept ∙ h.kept }
