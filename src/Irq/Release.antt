-- ===== src/Irq/Release.antt =====
-- `irq_dealloc` gives back exactly what the interrupt holds, once.
use mathlib.Core.Path.{subst}
use libocxl.Base.{
  ℕ, ◌≡◌, refl, ap, ◌∙◌, Bool, true, false, inl, inr, not, ◌∷◌, arith, ◌==◌, if◌then◌else◌,
  Bool-cases, lt_of_get_elem?,
}
use libocxl.Base.Int.{is_neg, minus_one}
use libocxl.Types.{OcxlErr, OcxlIrq, OcxlAfu, State, Event, History}
use libocxl.Kernel.{Kernel, Ends, Ends-bind, Ends-mono, ◌>>◌, when}
use libocxl.Message.{errmsg, afu_reported}
use libocxl.Irq.{update_irq, dealloc_page, dealloc_interrupt, dealloc_eventfd, irq_dealloc}
use libocxl.Irq.Element.{
  Holds, OnlyIrq, OnlyIrq-with_irq, OnlyIrq-refl, OnlyIrq-trans, update_irq-Holds,
}

-- An error cannot be returned.
abbrev pub Never : OcxlErr → State → Type 0
Never e s = ⊥

-- The element `i` changed from one interrupt to another, and the history became `l`.
abbrev pub Freed : ℕ → State → History → OcxlIrq → Unit {0} → State → Type 0
Freed i s l q _ s' = OnlyIrq i s.afu s'.afu q × (s'.log ≡ l) × (s'.afu_h ≡ s.afu_h)

module _ ⦃k : Kernel⦄ (l : History) (afu : OcxlAfu) (q : OcxlIrq) where
  -- The history after each part.
  abbrev pub page_log : History
  page_log = if q.addr == 0 then l else Event.munmap q.addr afu.page_size ∷ l

  abbrev pub interrupt_log : History
  interrupt_log =
      if q.irq_offset == 0
      then l
      else Event.irq_free afu.fd q.irq_offset (k.irq_free l afu.fd q.irq_offset) ∷ l

  abbrev pub eventfd_log : History
  eventfd_log = if is_neg q.eventfd then l else Event.close q.eventfd ∷ l

-- An error report and a write of the element.
report_then_update :
    (b : Bool) (i : ℕ) (s : State) (q : OcxlIrq) (f : OcxlIrq → OcxlIrq)
    → Holds s.afu i q
    → Ends
        (Freed i s s.log (f q))
        Never
        ((when (not b) (errmsg OcxlErr.internal_error) >> update_irq i f) s)
report_then_update true i s q f h =
    rw (update_irq-Holds i s q f h)
      (OnlyIrq-with_irq i s.afu (f q) (lt_of_get_elem? s.afu.irqs.cells i h), refl, refl)
report_then_update false i s q f h =
    let s' = record s { messages = afu_reported s OcxlErr.internal_error } in
    rw (update_irq-Holds i s' q f h)
      (OnlyIrq-with_irq i s.afu (f q) (lt_of_get_elem? s.afu.irqs.cells i h), refl, refl)

module _ ⦃k : Kernel⦄ (i : ℕ) (s : State) (q : OcxlIrq) (h : Holds s.afu i q) where
  dealloc_page-Freed :
      Ends (Freed i s (page_log s.log s.afu q) (record q { addr = 0 })) Never (dealloc_page i q s)
  unfolding dealloc_page
  dealloc_page-Freed = elim (Bool-cases (q.addr == 0)) [
    | inl gone ↦
        let null : q.addr ≡ 0 = ground arith in
        rw gone (
          subst (λ n. OnlyIrq i s.afu s.afu (record q { addr = n })) null
              (OnlyIrq-refl i s.afu q h),
          refl,
          refl,
        )
    | inr held ↦
        let s' = record s { log = Event.munmap q.addr s.afu.page_size ∷ s.log } in
        rw held (report_then_update (k.munmap s.log q.addr s.afu.page_size) i s' q _ h)
  ]

  dealloc_interrupt-Freed :
      Ends
        (Freed i s (interrupt_log s.log s.afu q) (record q { irq_offset = 0 }))
        Never
        (dealloc_interrupt i q s)
  unfolding dealloc_interrupt
  dealloc_interrupt-Freed = elim (Bool-cases (q.irq_offset == 0)) [
    | inl gone ↦
        let null : q.irq_offset ≡ 0 = ground arith in
        rw gone (
          subst (λ n. OnlyIrq i s.afu s.afu (record q { irq_offset = n })) null
              (OnlyIrq-refl i s.afu q h),
          refl,
          refl,
        )
    | inr held ↦
        let freed = k.irq_free s.log s.afu.fd q.irq_offset in
        let s' = record s { log = Event.irq_free s.afu.fd q.irq_offset freed ∷ s.log } in
        rw held (report_then_update freed i s' q _ h)
  ]

  -- A descriptor that is negative is -1: eventfd() reports an error so.
  dealloc_eventfd-Freed :
      (is_neg q.eventfd ≡ true → q.eventfd ≡ minus_one)
      → Ends
          (Freed i s (eventfd_log s.log s.afu q) (record q { eventfd = minus_one }))
          Never
          (dealloc_eventfd i q s)
  unfolding dealloc_eventfd
  dealloc_eventfd-Freed only = elim (Bool-cases (is_neg q.eventfd)) [
    | inl gone ↦ rw gone (
      subst (λ n. OnlyIrq i s.afu s.afu (record q { eventfd = n })) (only gone)
          (OnlyIrq-refl i s.afu q h),
      refl,
      refl,
    )
    | inr held ↦
        let s' = record s { log = Event.close q.eventfd ∷ s.log } in
        rw (held, update_irq-Holds i s' q (λ q. record q { eventfd = minus_one }) h)
          (
            OnlyIrq-with_irq i s.afu (record q { eventfd = minus_one })
                (lt_of_get_elem? s.afu.irqs.cells i h),
            refl,
            refl,
          )
  ]

module _ ⦃k : Kernel⦄ (s : State) (q : OcxlIrq) where
  -- The history after `irq_dealloc`: the page is unmapped if there is one, the interrupt freed if
  -- there is one, and the event descriptor closed if there is one, in this order.
  abbrev pub release_log : History
  release_log = eventfd_log (interrupt_log (page_log s.log s.afu q) s.afu q) s.afu q

-- The struct that `irq_dealloc` leaves.
abbrev pub released : OcxlIrq → OcxlIrq
released q = record q { irq_offset = 0; eventfd = minus_one; addr = 0; info = 0 }

module _ ⦃k : Kernel⦄ (i : ℕ) (s : State) (q : OcxlIrq) (h : Holds s.afu i q)
    (only : is_neg q.eventfd ≡ true → q.eventfd ≡ minus_one) where
  abbrev q1 : OcxlIrq
  q1 = record q { addr = 0 }

  abbrev q2 : OcxlIrq
  q2 = record q1 { irq_offset = 0 }

  abbrev q3 : OcxlIrq
  q3 = record q2 { eventfd = minus_one }

  then_interrupt :
      (s1 : State)
      → Freed i s (page_log s.log s.afu q) q1 tt s1
      → Ends
          (Freed i s (interrupt_log (page_log s.log s.afu q) s.afu q) q2)
          Never
          (dealloc_interrupt i q1 s1)
  then_interrupt s1 (p, e, m) =
      Ends-mono _ Never (Freed i s (interrupt_log (page_log s.log s.afu q) s.afu q) q2) Never _
        (dealloc_interrupt-Freed i s1 q1 p.holds)
        (λ _ s2 (p', e', m'). (
          OnlyIrq-trans i s.afu s1.afu s2.afu q1 q2 p p',
          e'
              ∙ ap (λ l. interrupt_log l s1.afu q1) e
              ∙ ap (λ a. interrupt_log (page_log s.log s.afu q) a q1) p.others,
          m' ∙ m,
        ))
        (λ e s2 n. n)

  then_eventfd :
      (s2 : State)
      → Freed i s (interrupt_log (page_log s.log s.afu q) s.afu q) q2 tt s2
      → Ends (Freed i s (release_log s q) q3) Never (dealloc_eventfd i q2 s2)
  then_eventfd s2 (p, e, m) =
      Ends-mono _ Never (Freed i s (release_log s q) q3) Never _
        (dealloc_eventfd-Freed i s2 q2 p.holds only)
        (λ _ s3 (p', e', m'). (
          OnlyIrq-trans i s.afu s2.afu s3.afu q2 q3 p p',
          e' ∙ ap (λ l. eventfd_log l s2.afu q2) e,
          m' ∙ m,
        ))
        (λ e s3 n. n)

  -- Deallocating an interrupt whose struct has been written unmaps its page if there is one, frees
  -- the kernel's interrupt if there is one, and closes its event descriptor if there is one, in
  -- this order; nothing but that struct changes, and it shows that nothing is held any more.
  pub irq_dealloc-Freed : Ends (Freed i s (release_log s q) (released q)) Never (irq_dealloc i s)
  unfolding irq_dealloc
  irq_dealloc-Freed = rw h (
      Ends-bind (Freed i s (page_log s.log s.afu q) q1) Never _ _ _ _ (dealloc_page-Freed i s q h)
        (λ _ s1 p. rw p.0.holds (
          Ends-bind (Freed i s (interrupt_log (page_log s.log s.afu q) s.afu q) q2) Never _ _ _ _
            (then_interrupt s1 p)
            (λ _ s2 p. rw p.0.holds (
              Ends-bind (Freed i s (release_log s q) q3) Never _ _ _ _ (then_eventfd s2 p)
                (λ _ s3 (p, e, m).
                  rw (update_irq-Holds i s3 q3 (λ q. record q { info = 0 }) p.holds) (
                    OnlyIrq-trans i s.afu s3.afu _ q3 (released q) p (
                        OnlyIrq-with_irq i s3.afu (released q)
                          (lt_of_get_elem? s3.afu.irqs.cells i p.holds)),
                    e,
                    m,
                  ))
                (λ e s n. n)))
            (λ e s n. n)))
        (λ e s n. n))

-- Deallocating an interrupt twice makes the calls of the first deallocation and no other, and
-- leaves the same struct.
irq_dealloc-twice :
    ⦃k : Kernel⦄ (i : ℕ) (s : State) (q : OcxlIrq)
    → Holds s.afu i q
    → (is_neg q.eventfd ≡ true → q.eventfd ≡ minus_one)
    → Ends (Freed i s (release_log s q) (released q)) Never ((irq_dealloc i >> irq_dealloc i) s)
irq_dealloc-twice i s q h only =
    Ends-bind (Freed i s (release_log s q) (released q)) Never _ _ _ _
      (irq_dealloc-Freed i s q h only)
      (λ _ s1 (p, e, m).
        Ends-mono _ Never (Freed i s (release_log s q) (released q)) Never _
          (irq_dealloc-Freed i s1 (released q) p.holds (λ _. refl))
          (λ _ s2 (p', e', m').
            (OnlyIrq-trans i s.afu s1.afu s2.afu (released q) (released q) p p', e' ∙ e, m' ∙ m))
          (λ e s n. n))
      (λ e s n. n)
