-- ===== src/Session/Counts.antt =====
-- What closing gives back of the descriptors and interrupts.
use Prim.Native.String.{String}
use libocxl.Base.{
  ℕ, ◌+◌, ◌≡◌, refl, ◌∙◌, Option, none, some, inl, inr, List, [], ◌∷◌, arith, ◌==◌, Bool-cases,
  if◌then◌else◌,
}
use libocxl.Base.Int.{is_minus_one}
use libocxl.Types.{OcxlMmioArea, OcxlIrq, OcxlAfu, State, Event, History}
use libocxl.Kernel.{Kernel}
use libocxl.Mmio.Register.Refines.{areas}
use libocxl.Irq.Release.{release_log}
use libocxl.Irq.Table.{irqs_in_use}
use libocxl.Irq.Ledger.{Resource, IsReal, taken, given_back, as_descriptor, release_log-counts}
use libocxl.Irq.Quiet.{IsNoPage}
use libocxl.Afu.Close.Loops.{unmap_log, dealloc_log}
use libocxl.Afu.Close.Stages.{IsSound, global_log, irqs_log, descriptors_log, path_log, close_log}
use libocxl.Session.Balance.{held_by, held}

module _ (r : Resource) (no_page : IsNoPage r) where
  unmap_log-counts :
      (xs : List OcxlMmioArea) (l : History)
      → (taken r (unmap_log xs l) ≡ taken r l) × (given_back r (unmap_log xs l) ≡ given_back r l)
  unfolding taken given_back
  unmap_log-counts [] l = (refl, refl)
  unmap_log-counts (a ∷ xs) l = elim (Bool-cases (a.start == 0)) [
    | inl e ↦ rw e (unmap_log-counts xs l)
    | inr e ↦
        let (t, g) = unmap_log-counts xs (Event.munmap a.start a.length ∷ l) in
        rw e (t, omega (arith, g, no_page a.start))
  ]

module _ (r : Resource) (real : IsReal r) ⦃k : Kernel⦄ where
  dealloc_log-counts :
      (s : State) (qs : List OcxlIrq)
      → (taken r (dealloc_log s.afu qs s.log) ≡ taken r s.log)
        × (given_back r (dealloc_log s.afu qs s.log) ≡ given_back r s.log + held_by r qs)
  dealloc_log-counts s [] = (refl, omega arith)
  dealloc_log-counts s (q ∷ qs) =
      let (t, g) = release_log-counts r real s q in
      let (t', g') = dealloc_log-counts (record s { log = release_log s q }) qs in
      (t' ∙ t, omega (arith, g, g'))

  irqs_log-counts :
      (s : State)
      → IsSound s.afu
      → (taken r (irqs_log s.afu s.log) ≡ taken r s.log)
        × (given_back r (irqs_log s.afu s.log) ≡ given_back r s.log + held r s.afu)
  unfolding taken given_back
  irqs_log-counts s v = elim (Bool-cases (s.afu.irqs.base == 0)) [
    | inl e ↦
        let null : s.afu.irqs.base ≡ 0 = ground arith in
        let empty : s.afu.irq_count ≡ 0 = omega (arith, v.irqs.allocated null, v.irqs.table.room) in
        rw (e, empty) (refl, omega arith)
    | inr e ↦ rw e (dealloc_log-counts s (irqs_in_use s.afu))
  ]

module _ (r : Resource) where
  -- The AFU's own descriptors.
  abbrev pub own : OcxlAfu → ℕ
  own a =
      as_descriptor r a.fd
      + as_descriptor r a.epoll_fd
      + (if is_minus_one a.global_mmio_fd then 0 else as_descriptor r a.global_mmio_fd)

  path_log-counts :
      (p : Option (ℕ × String)) (l : History)
      → (taken r (path_log p l) ≡ taken r l) × (given_back r (path_log p l) ≡ given_back r l)
  unfolding taken given_back
  path_log-counts none l = (refl, refl)
  path_log-counts (some p) l = (refl, refl)

  global_log-counts :
      (a : OcxlAfu) (l : History)
      → (taken r (global_log a l) ≡ taken r l)
        × (given_back r (global_log a l)
            ≡ given_back r l
              + (if is_minus_one a.global_mmio_fd then 0 else as_descriptor r a.global_mmio_fd))
  unfolding taken given_back
  global_log-counts a l = elim (Bool-cases (is_minus_one a.global_mmio_fd)) [
    | inl e ↦ rw e (refl, omega arith)
    | inr e ↦ rw e (refl, omega arith)
  ]

  descriptors_log-counts :
      (a : OcxlAfu) (l : History)
      → (taken r (descriptors_log a l) ≡ taken r l)
        × (given_back r (descriptors_log a l)
            ≡ given_back r l + as_descriptor r a.fd + as_descriptor r a.epoll_fd)
  unfolding taken given_back
  descriptors_log-counts a l = elim (Bool-cases (a.epoll_events == 0)) [
    | inl e ↦ rw e (refl, omega arith)
    | inr e ↦ rw e (refl, omega arith)
  ]

module _ (r : Resource) (real : IsReal r) (no_page : IsNoPage r) ⦃k : Kernel⦄ where
  pub close_log-counts :
      (s : State)
      → IsSound s.afu
      → (taken r (close_log s) ≡ taken r s.log)
        × (given_back r (close_log s) ≡ given_back r s.log + held r s.afu + own r s.afu)
  unfolding taken given_back
  close_log-counts s v =
      let a = s.afu in
      let l1 = unmap_log (areas a) s.log in
      let l2 = global_log a l1 in
      let l3 = irqs_log a l2 in
      let l4 = descriptors_log a l3 in
      let (t1, g1) = unmap_log-counts r no_page (areas a) s.log in
      let (t2, g2) = global_log-counts r a l1 in
      let (t3, g3) = irqs_log-counts r real (record s { log = l2 }) v in
      let (t4, g4) = descriptors_log-counts r a l3 in
      let (t5, g5) = path_log-counts r a.device_path l4 in
      let (t6, g6) = path_log-counts r a.sysfs_path (path_log a.device_path l4) in
      (t6 ∙ t5 ∙ t4 ∙ t3 ∙ t2 ∙ t1, omega (arith, g1, g2, g3, g4, g5, g6))
