-- ===== src/Irq/Ledger.antt =====
-- Counting in the history how often a resource of an interrupt was taken and given back.
use libocxl.Base.{
  ℕ, ◌+◌, ◌≡◌, ◌≢◌, refl, true, some, inl, inr, [], ◌∷◌, arith, ◌==◌, if◌then◌else◌, Bool-cases,
}
use libocxl.Base.Int.{ℤ, pos, negsuc, is_neg}
use libocxl.Types.{OcxlIrq, OcxlAfu, State, Event, History}
use libocxl.Kernel.{Kernel}
use libocxl.Irq.Release.{page_log, interrupt_log, eventfd_log, release_log}

-- An event descriptor, an interrupt by its offset, or a page by its address.
pub data Resource : Type 0 where
  descriptor interrupt page : ℕ → Resource

-- Offset 0 and address 0 stand for no interrupt and no page.
abbrev pub IsReal : Resource → Type 0
IsReal (descriptor n) = Unit
IsReal (interrupt o) = o ≢ 0
IsReal (page a) = a ≢ 0

-- 1 if the resource is this descriptor, interrupt or page.
unfoldable pub as_descriptor : Resource → ℤ → ℕ
as_descriptor (descriptor n) (pos m) = if m == n then 1 else 0
as_descriptor (descriptor n) (negsuc m) = 0
as_descriptor (interrupt o) fd = 0
as_descriptor (page a) fd = 0

pub as_interrupt : Resource → ℕ → ℕ
as_interrupt (interrupt o) offset = if offset == o then 1 else 0
as_interrupt (descriptor n) offset = 0
as_interrupt (page a) offset = 0

unfoldable pub as_page : Resource → ℕ → ℕ
as_page (page a) addr = if addr == a then 1 else 0
as_page (descriptor n) addr = 0
as_page (interrupt o) addr = 0

module _ (r : Resource) where
  -- How often the resource was taken.
  unfoldable pub taken : History → ℕ
  taken [] = 0
  taken (Event.eventfd fd ∷ l) = as_descriptor r fd + taken l
  taken (Event.irq_alloc fd (some offset) ∷ l) = as_interrupt r offset + taken l
  taken (Event.mmap size prot fd offset addr ∷ l) = as_page r addr + taken l
  taken (e ∷ l) = taken l

  -- How often it was given back.
  unfoldable pub given_back : History → ℕ
  given_back [] = 0
  given_back (Event.close fd ∷ l) = as_descriptor r fd + given_back l
  given_back (Event.irq_free fd offset ok ∷ l) = as_interrupt r offset + given_back l
  given_back (Event.munmap addr size ∷ l) = as_page r addr + given_back l
  given_back (e ∷ l) = given_back l

  -- Whether the struct holds it.
  abbrev pub holds : OcxlIrq → ℕ
  holds q = as_descriptor r q.eventfd + as_interrupt r q.irq_offset + as_page r q.addr

pub as_descriptor-neg : (r : Resource) (fd : ℤ) → is_neg fd ≡ true → as_descriptor r fd ≡ 0
unfolding as_descriptor
as_descriptor-neg (descriptor n) (pos m) h = cc
as_descriptor-neg (descriptor n) (negsuc m) h = refl
as_descriptor-neg (interrupt o) fd h = refl
as_descriptor-neg (page a) fd h = refl

pub as_interrupt-zero : (r : Resource) → IsReal r → as_interrupt r 0 ≡ 0
unfolding as_interrupt
as_interrupt-zero (descriptor n) h = refl
as_interrupt-zero (interrupt o) h = ground arith
as_interrupt-zero (page a) h = refl

pub as_page-zero : (r : Resource) → IsReal r → as_page r 0 ≡ 0
unfolding as_page
as_page-zero (descriptor n) h = refl
as_page-zero (interrupt o) h = refl
as_page-zero (page a) h = ground arith

module _ (r : Resource) (real : IsReal r) ⦃k : Kernel⦄ (afu : OcxlAfu) (q : OcxlIrq)
    (l : History) where
  page_log-counts :
      (taken r (page_log l afu q) ≡ taken r l)
      × (given_back r (page_log l afu q) ≡ as_page r q.addr + given_back r l)
  unfolding taken given_back
  page_log-counts = elim (Bool-cases (q.addr == 0)) [
    | inl e ↦
        let null : q.addr ≡ 0 = ground arith in
        rw e (refl, rw null (omega (arith, as_page-zero r real)))
    | inr e ↦ rw e (refl, refl)
  ]

  interrupt_log-counts :
      (taken r (interrupt_log l afu q) ≡ taken r l)
      × (given_back r (interrupt_log l afu q) ≡ as_interrupt r q.irq_offset + given_back r l)
  unfolding taken given_back
  interrupt_log-counts = elim (Bool-cases (q.irq_offset == 0)) [
    | inl e ↦
        let null : q.irq_offset ≡ 0 = ground arith in
        rw e (refl, rw null (omega (arith, as_interrupt-zero r real)))
    | inr e ↦ rw e (refl, refl)
  ]

  eventfd_log-counts :
      (taken r (eventfd_log l afu q) ≡ taken r l)
      × (given_back r (eventfd_log l afu q) ≡ as_descriptor r q.eventfd + given_back r l)
  unfolding taken given_back
  eventfd_log-counts = elim (Bool-cases (is_neg q.eventfd)) [
    | inl e ↦ rw e (refl, omega (arith, as_descriptor-neg r q.eventfd e))
    | inr e ↦ rw e (refl, refl)
  ]

-- Releasing an interrupt takes nothing, and gives back what its struct holds.
pub release_log-counts :
    (r : Resource)
    → IsReal r
    → ⦃k : Kernel⦄ (s : State) (q : OcxlIrq)
    → (taken r (release_log s q) ≡ taken r s.log)
      × (given_back r (release_log s q) ≡ holds r q + given_back r s.log)
release_log-counts r real s q =
    let l1 = page_log s.log s.afu q in
    let l2 = interrupt_log l1 s.afu q in
    let a = page_log-counts r real s.afu q s.log in
    let b = interrupt_log-counts r real s.afu q l1 in
    let c = eventfd_log-counts r real s.afu q l2 in omega (arith, a, b, c)
