-- ===== src/Session/Balance.antt =====
-- What a session has taken, given back and holds.
use mathlib.Core.Path.{subst}
use libocxl.Base.{ℕ, ◌+◌, ◌≡◌, refl, sym, ap, ◌∙◌, List, [], ◌∷◌, ◌++◌, arith}
use libocxl.Types.{OcxlIrq, OcxlAfu, State}
use libocxl.Irq.Table.{irqs_in_use}
use libocxl.Irq.Ledger.{Resource, taken, given_back, holds}
use libocxl.Irq.Quiet.{Quiet}
use libocxl.Afu.Close.Stages.{IsSound}

module _ (r : Resource) where
  -- How often the interrupts hold the resource.
  abbrev pub held_by : List OcxlIrq → ℕ
  held_by [] = 0
  held_by (q ∷ qs) = holds r q + held_by qs

  pub held_by-snoc :
      (qs : List OcxlIrq) (q : OcxlIrq) → held_by (qs ++ q ∷ []) ≡ held_by qs + holds r q
  held_by-snoc [] q = omega arith
  held_by-snoc (x ∷ qs) q = let e = held_by-snoc qs q in omega (arith, e)

  abbrev pub held : OcxlAfu → ℕ
  held a = held_by (irqs_in_use a)

  -- The tables of the AFU are in order, its descriptors are the same, and what was taken is what was
  -- given back or has come to be held by an interrupt in use.
  pub record Kept (s t : State) : Type 0 where
    pub sound : IsSound t.afu
    pub fd : t.afu.fd ≡ s.afu.fd
    pub epoll_fd : t.afu.epoll_fd ≡ s.afu.epoll_fd
    pub global_mmio_fd : t.afu.global_mmio_fd ≡ s.afu.global_mmio_fd
    pub balance :
        taken r t.log + given_back r s.log + held s.afu
        ≡ taken r s.log + given_back r t.log + held t.afu

  pub Kept-refl : (s : State) → IsSound s.afu → Kept s s
  Kept-refl s v = record {
    sound = v;
    fd = refl;
    epoll_fd = refl;
    global_mmio_fd = refl;
    balance = refl;
  }

  pub Kept-trans : (s t u : State) → Kept s t → Kept t u → Kept s u
  Kept-trans s t u h k = record {
    sound = k.sound;
    fd = k.fd ∙ h.fd;
    epoll_fd = k.epoll_fd ∙ h.epoll_fd;
    global_mmio_fd = k.global_mmio_fd ∙ h.global_mmio_fd;
    balance = omega (arith, h.balance, k.balance);
  }

  -- Nothing was taken or given back, and the tables are the same.
  pub Kept-Quiet :
      (s t : State) (a : OcxlAfu)
      → IsSound a
      → Quiet r s t
      → t.afu ≡ a
      → a.fd ≡ s.afu.fd
      → a.epoll_fd ≡ s.afu.epoll_fd
      → a.global_mmio_fd ≡ s.afu.global_mmio_fd
      → irqs_in_use a ≡ irqs_in_use s.afu
      → Kept s t
  Kept-Quiet s t a v q e f g h i = record {
    sound = subst (λ x. IsSound x) (sym e) v;
    fd = ap (λ (x : OcxlAfu). x.fd) e ∙ f;
    epoll_fd = ap (λ (x : OcxlAfu). x.epoll_fd) e ∙ g;
    global_mmio_fd = ap (λ (x : OcxlAfu). x.global_mmio_fd) e ∙ h;
    balance = let same = ap held_by (ap irqs_in_use e ∙ i) in omega (arith, q.taken, q.kept, same);
  }
