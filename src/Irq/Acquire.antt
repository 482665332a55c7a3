-- ===== src/Irq/Acquire.antt =====
-- The five calls of `irq_allocate`: whatever a call takes is in the struct afterwards.
use libocxl.Base.{
  ℕ, ◌+◌, ◌≡◌, ◌≢◌, refl, ap, ◌∙◌, true, false, some, inl, inr, ◌∷◌, arith, ◌==◌, Bool-cases,
  Option-cases, lt_of_get_elem?,
}
use libocxl.Base.Int.{is_neg, minus_one}
use libocxl.Types.{OcxlErr, OcxlIrq, State, Event, EpollFdSource}
use libocxl.Kernel.{Kernel, Ends, map_failed, prot_write}
use libocxl.Irq.{open_eventfd, alloc_interrupt, bind_eventfd, map_page, watch_eventfd}
use libocxl.Irq.Element.{
  Holds, OnlyIrq, OnlyIrq-with_irq, OnlyIrq-refl, OnlyIrq-trans, update_irq-Holds,
}
use libocxl.Irq.Ledger.{
  Resource, IsReal, as_descriptor, as_interrupt, as_page, as_descriptor-neg, as_interrupt-zero,
  as_page-zero, taken, given_back, holds,
}

module _ (r : Resource) (i : ℕ) where
  -- From `s` to `t` the element `i` came from `q` to `q'`, and the resource was taken as often as
  -- the element came to hold it.
  pub record Takes (q q' : OcxlIrq) (s t : State) : Type 0 where
    pub only : OnlyIrq i s.afu t.afu q'
    pub counted : taken r t.log + holds r q ≡ holds r q' + taken r s.log
    pub kept : given_back r t.log ≡ given_back r s.log
    pub handle : t.afu_h ≡ s.afu_h

  pub Takes-trans :
      (q q' q'' : OcxlIrq) (s t u : State) → Takes q q' s t → Takes q' q'' t u → Takes q q'' s u
  Takes-trans q q' q'' s t u h k = record {
    only = OnlyIrq-trans i s.afu t.afu u.afu q' q'' h.only k.only;
    counted = omega (arith, h.counted, k.counted);
    kept = k.kept ∙ h.kept;
    handle = k.handle ∙ h.handle;
  }

  -- The call failed, and the struct holds what was taken.
  pub record Failed (q : OcxlIrq) (s : State) (e : OcxlErr) (t : State) : Type 0 where
    pub error : e ≡ OcxlErr.internal_error
    pub left : OcxlIrq
    pub takes : Takes q left s t
    pub closable : is_neg left.eventfd ≡ true → left.eventfd ≡ minus_one

  pub Failed-after :
      (q q' : OcxlIrq) (s t : State)
      → Takes q q' s t
      → (e : OcxlErr) (u : State) → Failed q' t e u
      → Failed q s e u
  Failed-after q q' s t h e u f = record {
    error = f.error;
    left = f.left;
    takes = Takes-trans q q' f.left s t u h f.takes;
    closable = f.closable;
  }

  module _ ⦃k : Kernel⦄ (s : State) (q : OcxlIrq) (h : Holds s.afu i q) where
    -- A call that leaves the struct alone.
    abbrev pub Unmoved : Unit {0} → State → Type 0
    Unmoved _ t = Takes q q s t

    pub open_eventfd-Takes :
        q.eventfd ≡ minus_one
        → let fd = k.eventfd s.log in
          Ends
            (λ _ t. Takes q (record q { eventfd = fd }) s t × (is_neg fd ≡ false))
            (Failed q s)
            (open_eventfd i s)
    unfolding open_eventfd taken given_back
    open_eventfd-Takes closed =
        let fd = k.eventfd s.log in
        let s' = record s { log = Event.eventfd fd ∷ s.log } in
        let zero = ap (λ x. as_descriptor r x) closed ∙ as_descriptor-neg r minus_one refl in
        elim (Bool-cases (is_neg fd)) [
          | inl bad ↦
              let gone = as_descriptor-neg r fd bad in
              rw bad (record {
                error = refl;
                left = q;
                takes = record {
                  only = OnlyIrq-refl i s.afu q h;
                  counted = omega (arith, gone);
                  kept = refl;
                  handle = refl;
                };
                closable = λ _. closed;
              })
          | inr good ↦
              rw (good, update_irq-Holds i s' q (λ q. record q { eventfd = fd }) h)
                (
                  record {
                    only = OnlyIrq-with_irq i s.afu _ (lt_of_get_elem? s.afu.irqs.cells i h);
                    counted = omega (arith, zero);
                    kept = refl;
                    handle = refl;
                  },
                  refl,
                )
        ]

    module _ (c : is_neg q.eventfd ≡ true → q.eventfd ≡ minus_one) (real : IsReal r) where
      -- A failure that leaves the struct alone.
      as_before :
          (t : State)
          → OnlyIrq i s.afu t.afu q
          → taken r t.log ≡ taken r s.log
          → given_back r t.log ≡ given_back r s.log
          → t.afu_h ≡ s.afu_h
          → Failed q s OcxlErr.internal_error t
      as_before t only a b m = record {
        error = refl;
        left = q;
        takes = record { only = only; counted = omega (arith, a); kept = b; handle = m };
        closable = c;
      }

      pub alloc_interrupt-Takes :
          q.irq_offset ≡ 0
          → Ends
              (λ _ t. (offset : ℕ) × Takes q (record q { irq_offset = offset }) s t)
              (Failed q s)
              (alloc_interrupt i s)
      unfolding alloc_interrupt taken given_back
      alloc_interrupt-Takes free = elim (Option-cases (k.irq_alloc s.log s.afu.fd)) [
        | inl e ↦ simp e (as_before _ (OnlyIrq-refl i s.afu q h) refl refl refl)
        | inr (offset, e) ↦
            let zero = ap (λ x. as_interrupt r x) free ∙ as_interrupt-zero r real in
            let s' = record s { log = Event.irq_alloc s.afu.fd (some offset) ∷ s.log } in
            simp (e, update_irq-Holds i s' q (λ q. record q { irq_offset = offset }) h)
              (
                offset,
                record {
                  only = OnlyIrq-with_irq i s.afu _ (lt_of_get_elem? s.afu.irqs.cells i h);
                  counted = omega (arith, zero);
                  kept = refl;
                  handle = refl;
                },
              )
      ]

      pub bind_eventfd-Takes : Ends Unmoved (Failed q s) (bind_eventfd i s)
      unfolding bind_eventfd taken given_back
      bind_eventfd-Takes = elim (Bool-cases (k.irq_set_fd s.log s.afu.fd q.irq_offset q.eventfd)) [
        | inl e ↦
            simp (h, e)
              (record {
                only = OnlyIrq-refl i s.afu q h;
                counted = omega arith;
                kept = refl;
                handle = refl;
              })
        | inr e ↦ simp (h, e) (as_before _ (OnlyIrq-refl i s.afu q h) refl refl refl)
      ]

      pub map_page-Takes :
          q.addr ≡ 0
          → let addr = k.mmap s.log s.afu.page_size prot_write s.afu.fd q.irq_offset in
            Ends
              (λ _ t. Takes q (record q { addr = addr }) s t × (addr ≢ map_failed))
              (Failed q s)
              (map_page i s)
      unfolding map_page taken given_back
      map_page-Takes free =
          let addr = k.mmap s.log s.afu.page_size prot_write s.afu.fd q.irq_offset in
          let call = Event.mmap s.afu.page_size prot_write s.afu.fd q.irq_offset addr in
          let s' = record s { log = call ∷ s.log } in
          let zero = ap (λ x. as_page r x) free ∙ as_page-zero r real in
          let update = update_irq-Holds i s' q (λ q. record q { addr = addr }) h in
          let lt = lt_of_get_elem? s.afu.irqs.cells i h in
          elim (Bool-cases (addr == map_failed)) [
            | inl bad ↦
                rw (h, update, bad)
                  (record {
                    error = refl;
                    left = record q { addr = addr };
                    takes = record {
                      only = OnlyIrq-with_irq i s.afu _ lt;
                      counted = omega (arith, zero);
                      kept = refl;
                      handle = refl;
                    };
                    closable = c;
                  })
            | inr good ↦
                rw (h, update, good)
                  (
                    record {
                      only = OnlyIrq-with_irq i s.afu _ lt;
                      counted = omega (arith, zero);
                      kept = refl;
                      handle = refl;
                    },
                    λ e. ground arith,
                  )
          ]

      pub watch_eventfd-Takes : Ends Unmoved (Failed q s) (watch_eventfd i s)
      unfolding watch_eventfd taken given_back
      watch_eventfd-Takes =
          let source = EpollFdSource.irq s.afu.irqs.base i in
          elim (Bool-cases (k.epoll_add s.log s.afu.epoll_fd q.eventfd source)) [
            | inl e ↦
                simp (h, e)
                  (record {
                    only = OnlyIrq-refl i s.afu q h;
                    counted = omega arith;
                    kept = refl;
                    handle = refl;
                  })
            | inr e ↦ simp (h, e) (as_before _ (OnlyIrq-refl i s.afu q h) refl refl refl)
          ]
