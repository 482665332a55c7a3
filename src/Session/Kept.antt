-- ===== src/Session/Kept.antt =====
-- What every call of a session keeps.
use mathlib.Core.Path.{subst}
use libocxl.Base.{ℕ, ◌≡◌, refl, sym, ap, Bool, true, inl, inr, List, arith, ◌==◌, Bool-cases}
use libocxl.Base.Int.{is_minus_one}
use libocxl.Base.Int.{ℤ}
use libocxl.Types.{Cell, OcxlEvent, OcxlMmioType, OcxlAfu, State, History}
use libocxl.Kernel.{Kernel, done, Ends, Ends-bind, Ends-After}
use libocxl.Mmio.Register.Refines.{IsMmios, SameButMmios}
use libocxl.Mmio.Map.Bounds.{Mapped, Unchanged, block_size, map_advanced-Mapped}
use libocxl.Mmio.Map.{area_length}
use libocxl.Mmio.Map.Quiet.{map_advanced-IsQuiet}
use libocxl.Mmio.Region.Unmap.{unmap_mapped, unmap_unmapped, unmapped-IsMmios}
use libocxl.Irq.Table.{IsIrqs, irqs_in_use}
use libocxl.Irq.Ledger.{Resource, IsReal, taken, given_back}
use libocxl.Irq.Grow.{SameButIrqs}
use libocxl.Irq.Quiet.{IsNoPage, Quiet}
use libocxl.Irq.Append.{Appended, Refused, irq_alloc-Appended}
use libocxl.Events.Drain.{IsPending}
use libocxl.Events.Check.{Checked, CheckFailed, ocxl_afu_event_check-Checked}
use libocxl.Events.Quiet.{event_check-IsQuiet}
use libocxl.Afu.Open.{ocxl_afu_attach, ocxl_afu_set_ppc64_amr}
use libocxl.Afu.Close.Stages.{IsSound}
use libocxl.Session.{
  Call, attach, set_ppc64_amr, mmio_map, mmio_unmap, irq_alloc, event_check, run, Allowed,
}
use libocxl.Session.Balance.{held_by, held_by-snoc, held, Kept, Kept-refl, Kept-Quiet}

module _ (a : OcxlAfu) (v : IsSound a) where
  -- What else the AFU records plays no part in whether its tables are in order.
  still-IsSound :
      (attached : Bool) (amr events count : ℕ)
      → IsSound (record a {
        attached = attached;
        ppc64_amr = amr;
        epoll_events = events;
        epoll_event_count = count;
      })
  still-IsSound attached amr events count = record {
    mmios = v.mmios;
    irqs = record {
      table = v.irqs.table;
      allocated = v.irqs.allocated;
      closable = v.irqs.closable;
    };
  }

  mapped-IsSound : (b : OcxlAfu) → IsMmios b → SameButMmios a b → IsSound b
  mapped-IsSound b w e = record {
    mmios = w;
    irqs =
        subst (λ x. IsIrqs x) (sym e)
          (record {
            table = v.irqs.table;
            allocated = v.irqs.allocated;
            closable = v.irqs.closable;
          });
  }

  irqs-IsSound : (b : OcxlAfu) → IsIrqs b → SameButIrqs a b → IsSound b
  irqs-IsSound b w e = record { mmios = subst (λ x. IsMmios x) (sym e) v.mmios; irqs = w }

module _ (r : Resource) (real : IsReal r) (no_page : IsNoPage r) (pending : History → ℕ)
    ⦃k : Kernel⦄ (p : IsPending pending) (s : State) (v : IsSound s.afu) where
  abbrev KeptAfter : {A : Type 0} → A → State → Type 0
  KeptAfter a t = Kept r s t

  idle :
      (b : Bool) (amr events count : ℕ) (t : State)
      → Quiet r s t
      → t.afu ≡ record s.afu {
        attached = b;
        ppc64_amr = amr;
        epoll_events = events;
        epoll_event_count = count;
      }
      → Kept r s t
  idle b amr events count t q e =
      Kept-Quiet r s t _ (still-IsSound s.afu v b amr events count) q e refl refl refl refl

  attach-Kept : (flags : ℕ) → Ends KeptAfter KeptAfter (ocxl_afu_attach flags s)
  unfolding ocxl_afu_attach taken given_back
  attach-Kept flags =
      let a = s.afu in
      let unchanged = idle a.attached a.ppc64_amr a.epoll_events a.epoll_event_count in
      elim (Bool-cases (is_minus_one a.fd)) [
        | inl closed ↦ rw closed (unchanged _ (record { taken = refl; kept = refl }) refl)
        | inr opened ↦ elim (Bool-cases (k.attach s.log a.fd a.ppc64_amr)) [
          | inr refused ↦
              rw (opened, refused) (unchanged _ (record { taken = refl; kept = refl }) refl)
          | inl attached ↦
              rw (opened, attached)
                (idle true a.ppc64_amr a.epoll_events a.epoll_event_count _
                  (record { taken = refl; kept = refl }) refl)
        ]
      ]

  set_amr-Kept : (amr : ℕ) → Ends KeptAfter KeptAfter (ocxl_afu_set_ppc64_amr amr s)
  unfolding ocxl_afu_set_ppc64_amr
  set_amr-Kept amr =
      idle s.afu.attached amr s.afu.epoll_events s.afu.epoll_event_count _
        (record { taken = refl; kept = refl }) refl

  map-Kept :
      (type : OcxlMmioType) (size prot flags o : ℕ)
      → Allowed pending p s (mmio_map type size prot flags o)
      → Ends KeptAfter KeptAfter (run (mmio_map type size prot flags o) s)
  unfolding run
  map-Kept type size prot flags o (c, l, ho, hs, h0) =
      let P = Mapped type prot flags o s (block_size size (area_length type s.afu) o) in
      Ends-bind (λ h t. P h t × Quiet r s t) (λ e t. Unchanged s e t × Quiet r s t) KeptAfter
        KeptAfter _ (λ _ t. done tt t)
        (Ends-After P (Unchanged s) (Quiet r s) _
          (map_advanced-Mapped size prot flags o s type v.mmios c l ho hs h0)
          (map_advanced-IsQuiet r no_page type size prot flags _ s))
        (λ h t ((_, _, m), q). record {
          sound = mapped-IsSound s.afu v t.afu m.table m.others;
          fd = ap (λ (x : OcxlAfu). x.fd) m.others;
          epoll_fd = ap (λ (x : OcxlAfu). x.epoll_fd) m.others;
          global_mmio_fd = ap (λ (x : OcxlAfu). x.global_mmio_fd) m.others;
          balance = let same = ap (λ x. held r x) m.others in omega (arith, q.taken, q.kept, same);
        })
        (λ e t (u, q). Kept-Quiet r s t s.afu v q u refl refl refl refl)

  unmap-Kept :
      (i : ℕ) → Allowed pending p s (mmio_unmap i) → Ends KeptAfter KeptAfter (run (mmio_unmap i) s)
  unfolding run taken given_back
  unmap-Kept i (a, found) = elim (Bool-cases (a.start == 0)) [
    | inl gone ↦ rw (unmap_unmapped s i a v.mmios found (ground arith)) (Kept-refl r s v)
    | inr mapped ↦ rw (unmap_mapped s i a v.mmios found (ground arith)) (record {
      sound = record {
        mmios = unmapped-IsMmios s i a v.mmios found;
        irqs = record {
          table = v.irqs.table;
          allocated = v.irqs.allocated;
          closable = v.irqs.closable;
        };
      };
      fd = refl;
      epoll_fd = refl;
      global_mmio_fd = refl;
      balance = omega (arith, no_page a.start);
    })
  ]

  irq_alloc-Kept :
      (info : ℕ)
      → Allowed pending p s (irq_alloc info)
      → Ends KeptAfter KeptAfter (run (irq_alloc info) s)
  unfolding run
  irq_alloc-Kept info small =
      Ends-bind (Appended r real info s) (Refused r real info s) KeptAfter KeptAfter _
        (λ _ t. done tt t) (irq_alloc-Appended r real info s v.irqs small)
        (λ i t h. record {
          sound = irqs-IsSound s.afu v t.afu h.table.irqs h.table.others;
          fd = ap (λ (x : OcxlAfu). x.fd) h.table.others;
          epoll_fd = ap (λ (x : OcxlAfu). x.epoll_fd) h.table.others;
          global_mmio_fd = ap (λ (x : OcxlAfu). x.global_mmio_fd) h.table.others;
          balance =
              let more = ap (λ qs. held_by r qs) h.table.new in
              let sum = held_by-snoc r (irqs_in_use s.afu) h.irq in
              omega (arith, h.counted, h.kept, more, sum);
        })
        (λ e t h. record {
          sound = irqs-IsSound s.afu v t.afu h.table.irqs h.table.others;
          fd = ap (λ (x : OcxlAfu). x.fd) h.table.others;
          epoll_fd = ap (λ (x : OcxlAfu). x.epoll_fd) h.table.others;
          global_mmio_fd = ap (λ (x : OcxlAfu). x.global_mmio_fd) h.table.others;
          balance =
              let same = ap (λ qs. held_by r qs) h.table.same in omega (arith, h.balanced, same);
        })

  check-Kept :
      (fuel : ℕ) (timeout : ℤ) (events : List (Cell OcxlEvent)) (n : ℕ)
      → Allowed pending p s (event_check fuel timeout events n)
      → Ends KeptAfter KeptAfter (run (event_check fuel timeout events n) s)
  unfolding run
  check-Kept fuel timeout events n (enough, small, reports) =
      Ends-bind (λ x t. Checked events s x t × Quiet r s t) (λ e t. CheckFailed s e t × Quiet r s t)
        KeptAfter KeptAfter _ (λ _ t. done tt t)
        (Ends-After (Checked events s) (CheckFailed s) (Quiet r s) _
          (ocxl_afu_event_check-Checked pending p fuel timeout events n s v.irqs.table enough small
            reports)
          (event_check-IsQuiet r fuel timeout events n s))
        (λ x t ((b, _, _, same), q). idle _ _ _ _ t q same)
        (λ e t ((_, same), q). idle _ _ _ _ t q same)

  -- An allowed call on an AFU with tables in order has no fault. However it ends, the tables are in
  -- order, the descriptors of the AFU are the same, and what was taken is what was given back or
  -- has come to be held by an interrupt in use.
  pub run-Kept : (c : Call) → Allowed pending p s c → Ends KeptAfter KeptAfter (run c s)
  unfolding run
  run-Kept (attach flags) h = attach-Kept flags
  run-Kept (set_ppc64_amr amr) h = set_amr-Kept amr
  run-Kept (mmio_map type size prot flags o) h = map-Kept type size prot flags o h
  run-Kept (mmio_unmap i) h = unmap-Kept i h
  run-Kept (irq_alloc info) h = irq_alloc-Kept info h
  run-Kept (event_check fuel timeout events n) h = check-Kept fuel timeout events n h
