-- ===== src/Session/Released.antt =====
-- In a session no call has a fault, and closing gives back what it took.
use mathlib.Core.Path.{subst}
use libocxl.Base.{ℕ, ◌+◌, ◌≡◌, ap, ◌∙◌, false, some, arith}
use libocxl.Base.Int.{is_neg}
use libocxl.Types.{State, History}
use libocxl.Kernel.{Kernel, Outcome, done, failed, fault, Ends, Ends-mono}
use libocxl.Irq.Release.{Never}
use libocxl.Irq.Ledger.{Resource, IsReal, taken, given_back}
use libocxl.Irq.Quiet.{IsNoPage}
use libocxl.Events.Drain.{IsPending}
use libocxl.Afu.Close.{ocxl_afu_close}
use libocxl.Afu.Close.Stages.{IsSound, Closed, close_log}
use libocxl.Afu.Close.Released.{afu_close-Closed}
use libocxl.Session.{Call, run, ended, Allowed, Reaches, here, call}
use libocxl.Session.Balance.{held, Kept, Kept-refl, Kept-trans}
use libocxl.Session.Kept.{run-Kept}
use libocxl.Session.Counts.{own, close_log-counts}

-- What holds however a run ends holds in the state in which it ends.
ended-Ends :
    {A : Type 0} (P : State → Type 0) (o : Outcome A) (t : State)
    → Ends (λ _ u. P u) (λ _ u. P u) o
    → ended o ≡ some t
    → P t
ended-Ends P (done a u) t h e = let same : u ≡ t = cc in subst P same h
ended-Ends P (failed x u) t h e = let same : u ≡ t = cc in subst P same h
ended-Ends P fault t h e = absurd h

-- From `s` on, what was given back is what was taken, and what the AFU held at the start.
abbrev pub AllReturned : Resource → State → Unit {0} → State → Type 0
AllReturned r s _ u =
    given_back r u.log + taken r s.log
    ≡ given_back r s.log + (taken r u.log + held r s.afu + own r s.afu)

module _ (r : Resource) (real : IsReal r) (no_page : IsNoPage r) (pending : History → ℕ)
    ⦃k : Kernel⦄ (p : IsPending pending) (s : State) (v : IsSound s.afu) where
  Reaches-Kept : {t : State} → Reaches pending p s t → Kept r s t
  Reaches-Kept here = Kept-refl r s v
  Reaches-Kept (call {t = t} {u = u} c before allowed e) =
      let h = Reaches-Kept before in
      Kept-trans r s t u h (
        ended-Ends (λ x. Kept r t x) (run c t) u
          (run-Kept r real no_page pending p t h.sound c allowed) e)

  -- In every state that a session reaches from an AFU whose tables are in order, an allowed call has
  -- no fault. However it ends, the tables are in order, the AFU's descriptors are those of the
  -- start, and an event descriptor or an interrupt was, since then, taken as often as it was given
  -- back or has come to be held by an interrupt in use.
  pub session-Kept :
      {t : State}
      → Reaches pending p s t
      → (c : Call) → Allowed pending p t c
      → Ends (λ _ u. Kept r s u) (λ _ u. Kept r s u) (run c t)
  session-Kept {t = t} before c allowed =
      let h = Reaches-Kept before in
      Ends-mono (λ _ u. Kept r t u) (λ _ u. Kept r t u) (λ _ u. Kept r s u) (λ _ u. Kept r s u) _
        (run-Kept r real no_page pending p t h.sound c allowed) (λ _ u k. Kept-trans r s t u h k)
        (λ _ u k. Kept-trans r s t u h k)

  -- Closing an AFU after any session that began with its tables in order and its device open has no
  -- fault and does not fail. Since the start, each event descriptor and each interrupt was given back
  -- as often as it was taken by the session, or held at the start by an interrupt in use or as one
  -- of the AFU's own descriptors.
  pub session-AllReturned :
      is_neg s.afu.fd ≡ false
      → {t : State} → Reaches pending p s t
      → Ends (AllReturned r s) Never (ocxl_afu_close t)
  session-AllReturned opened {t = t} before =
      let h = Reaches-Kept before in
      let counts = close_log-counts r real no_page t h.sound in
      Ends-mono (Closed (close_log t)) Never (AllReturned r s) Never _
        (afu_close-Closed t h.sound (ap is_neg h.fd ∙ opened))
        (λ _ u (l, _, _).
          let tk = ap (λ x. taken r x) l ∙ counts.0 in
          let g = ap (λ x. given_back r x) l ∙ counts.1 in
          let kept : own r t.afu ≡ own r s.afu = rw (h.fd, h.epoll_fd, h.global_mmio_fd) in
          omega (arith, tk, g, h.balance, kept))
        (λ e u n. n)
