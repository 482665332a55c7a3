-- ===== src/Afu/Close/Failed.antt =====
-- What `ocxl_afu_open_from_dev` leaves of an AFU that could not be opened.
use Prim.Native.String.{String}
use mathlib.Core.Path.{subst}
use libocxl.Base.{
  ℕ, ◌+◌, ◌≡◌, refl, sym, ap, ◌∙◌, true, Option, none, some, inl, inr, arith, ◌==◌, Bool-cases,
}
use libocxl.Base.Int.{ℤ, pos, negsuc, is_neg, is_minus_one}
use libocxl.Types.{OcxlErr, OcxlAfu, State, History}
use libocxl.Kernel.{Kernel, Ends, Ends-cleanup, done, failed, fault, Outcome}
use libocxl.Irq.Release.{Never}
use libocxl.Afu.Ledger.{is_fd, opens, closes}
use libocxl.Afu.Open.Steps.{held, IsStep, is_fd-minus_one}
use libocxl.Afu.Open.Opened.{IsFresh, Opened, NotOpened, afu_open-Opened}
use libocxl.Afu.Close.{ocxl_afu_close, open_found, close_ignored}
use libocxl.Afu.Close.Stages.{IsSound, Closed, global_log, descriptors_log, path_log, close_log}
use libocxl.Afu.Close.Released.{afu_close-Closed}

-- An AFU with no areas and no interrupts yet.
pub record IsEmpty (a : OcxlAfu) : Type 0 where
  pub no_areas : a.mmio_count ≡ 0
  pub no_irqs : a.irqs.base ≡ 0

module _ (n : ℕ) where
  is_fd-gone : (fd : ℤ) → is_minus_one fd ≡ true → is_fd n fd ≡ 0
  unfolding is_fd
  is_fd-gone (pos m) h = cc
  is_fd-gone (negsuc m) h = refl

  path_log-counts :
      (p : Option (ℕ × String)) (l : History)
      → (opens n (path_log p l) ≡ opens n l) × (closes n (path_log p l) ≡ closes n l)
  unfolding opens closes
  path_log-counts none l = (refl, refl)
  path_log-counts (some p) l = (refl, refl)

  global_log-counts :
      (a : OcxlAfu) (l : History)
      → (opens n (global_log a l) ≡ opens n l)
        × (closes n (global_log a l) ≡ is_fd n a.global_mmio_fd + closes n l)
  unfolding opens closes
  global_log-counts a l = elim (Bool-cases (is_minus_one a.global_mmio_fd)) [
    | inl e ↦ let gone = is_fd-gone a.global_mmio_fd e in rw e (refl, omega (arith, gone))
    | inr e ↦ rw e (refl, refl)
  ]

  descriptors_log-counts :
      (a : OcxlAfu) (l : History)
      → (opens n (descriptors_log a l) ≡ opens n l)
        × (closes n (descriptors_log a l) ≡ is_fd n a.fd + (is_fd n a.epoll_fd + closes n l))
  unfolding opens closes
  descriptors_log-counts a l = elim (Bool-cases (a.epoll_events == 0)) [
    | inl e ↦ rw e (refl, refl)
    | inr e ↦ rw e (refl, refl)
  ]

  -- Closing an AFU that has neither areas nor interrupts closes the three descriptors.
  close_log-counts :
      ⦃k : Kernel⦄ (s : State)
      → IsEmpty s.afu
      → (opens n (close_log s) ≡ opens n s.log)
        × (closes n (close_log s) ≡ held n s.afu + closes n s.log)
  unfolding opens closes
  close_log-counts s h =
      let a = s.afu in
      let l1 = global_log a s.log in
      let l2 = descriptors_log a l1 in
      let no_table : (a.irqs.base == 0) ≡ true = ground (arith, h.no_irqs) in
      let g = global_log-counts a s.log in
      let d = descriptors_log-counts a l1 in
      let p = path_log-counts a.device_path l2 in
      let q = path_log-counts a.sysfs_path (path_log a.device_path l2) in
      rw (h.no_areas, no_table) (q.0 ∙ p.0 ∙ d.0 ∙ g.0, omega (arith, q.1, p.1, d.1, g.1))

-- Descriptor `n` was closed as often as it was opened, from `s` to `t`.
abbrev pub Balanced : ℕ → State → OcxlErr → State → Type 0
Balanced n s _ t = opens n t.log + closes n s.log ≡ opens n s.log + closes n t.log

-- What is returned by `ocxl_afu_close` is ignored.
Ends-close_ignored :
    (P Q : Unit {0} → State → Type 0) (R : OcxlErr → State → Type 0) (o : Outcome (Unit {0}))
    (rc : OcxlErr)
    → Ends P Never o
    → ((x : Unit {0}) (t : State) → P x t → R rc t)
    → Ends Q R (close_ignored o rc)
Ends-close_ignored P Q R (done x t) rc h f = f x t h
Ends-close_ignored P Q R (failed e t) rc h f = absurd h
Ends-close_ignored P Q R fault rc h f = h

module _ (n : ℕ) ⦃k : Kernel⦄ (s : State) (f : IsFresh s.afu) (v : IsSound s.afu)
    (e : IsEmpty s.afu) where
  pub nothing_held : held n s.afu ≡ 0
  nothing_held =
      let z = is_fd-minus_one n in
      let a = ap (λ x. is_fd n x) f.fd ∙ z in
      let b = ap (λ x. is_fd n x) f.global_mmio_fd ∙ z in
      let c = ap (λ x. is_fd n x) f.epoll_fd ∙ z in omega (arith, a, b, c)

  pub still-IsSound : (t : State) → IsStep n s t → IsSound t.afu
  still-IsSound t p =
      subst (λ x. IsSound x) (sym p.others)
        (record {
          mmios = v.mmios;
          irqs = record {
            table = v.irqs.table;
            allocated = v.irqs.allocated;
            closable = v.irqs.closable;
          };
        })

  still-IsEmpty : (t : State) → IsStep n s t → IsEmpty t.afu
  still-IsEmpty t p =
      subst (λ x. IsEmpty x) (sym p.others) (record { no_areas = e.no_areas; no_irqs = e.no_irqs })

  closed_after :
      (rc : OcxlErr) (t : State)
      → NotOpened n s rc t
      → Ends (Opened n s) (Balanced n s) (close_ignored (ocxl_afu_close t) rc)
  unfolding ocxl_afu_close
  closed_after rc t (p, gone) = elim (Bool-cases (is_neg t.afu.fd)) [
    | inl bad ↦
        rw bad (omega (arith, nothing_held, ap (λ x. held n x) (gone bad), p.opened, p.closed))
    | inr good ↦
        let c = close_log-counts n t (still-IsEmpty t p) in
        Ends-close_ignored (Closed (close_log t)) (Opened n s) (Balanced n s) _ rc
          (afu_close-Closed t (still-IsSound t p) good)
          (λ _ u (l, _, _).
            let o = ap (λ x. opens n x) l ∙ c.0 in
            let d = ap (λ x. closes n x) l ∙ c.1 in
            omega (arith, o, d, nothing_held, p.opened, p.closed))
  ]

  -- Opening an AFU that has been found, with both tables in order and neither areas nor interrupts,
  -- has no fault. If it succeeds, every descriptor that was opened is one of the AFU's three; if it
  -- fails, every descriptor was closed as often as it was opened.
  pub open_found-Balanced : Ends (Opened n s) (Balanced n s) (open_found s)
  unfolding open_found
  open_found-Balanced =
      Ends-cleanup (Opened n s) (NotOpened n s) (Balanced n s) _ _ (afu_open-Opened n s f)
        closed_after
