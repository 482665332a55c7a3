-- ===== src/Memcpy/Wait.antt =====
-- `wait_for_irq`: it ends, and what its result says.
use libocxl.Base.{
  ℕ, zero, suc, ◌^◌, ◌*◌, ◌<◌, ◌≡◌, refl, ap, ◌∙◌, Bool, true, false, ◌||◌, Option, some, inl, inr,
  List, [], ◌∷◌, arith, length, ltb, ◌==◌, Bool-cases,
}
use libocxl.Base.Int.{ℤ, pos}
use libocxl.Types.{OcxlMmioH, Cell, indeterminate, OcxlEvent, State, History}
use libocxl.Kernel.{Kernel, Cmd, Outcome, done, failed, fault, Ends, Ends-mono}
use libocxl.Irq.Table.{irqs_in_use}
use libocxl.Irq.Release.{Never}
use libocxl.Events.{Batch}
use libocxl.Events.Arrivals.{IsArriving}
use libocxl.Events.Written.{Written-bound}
use libocxl.Events.Drain.{IsPending}
use libocxl.Events.Ready.{FromIrqs}
use libocxl.Events.Check.{fresh}
use libocxl.Memcpy.{check_timeout, check_event, after_check, irq_loop, wait_for_irq}
use libocxl.Memcpy.Verdict.{
  is_completion, is_error, is_fault, any, bits, Gives, Ending, Story, Verdict, Story-bits, or_shift,
  or_false,
}
use libocxl.Memcpy.Taken.{
  or_bit-timeout, first_event-value, take_event-other, take_event-completion, restart-Later,
}
use libocxl.Memcpy.Check.{Later, Later-trans, CanWait, CanWait-Later, Answer, check_event-Answer}

-- A run that neither fails nor has a fault is done.
Ends-done :
    {A : Type 0} (P : A → State → Type 0) (o : Outcome A)
    → Ends P Never o
    → (a : A) × (t : State) × (o ≡ done a t) × P a t
Ends-done P (done a t) h = (a, t, refl, h)
Ends-done P (failed e t) h = absurd h
Ends-done P fault h = absurd h

module _ (pending arrivals : History → ℕ) ⦃k : Kernel⦄ (reads timeout : ℕ) (pp_mmio : OcxlMmioH)
    (irq_ea err_ea : ℕ) where
  -- The wait ended by itself.
  abbrev pub Waited : State → Option ℕ → State → Type 0
  Waited s r t =
      Later pending arrivals s t
      × ((n : ℕ) × (r ≡ some n) × Verdict reads timeout pp_mmio irq_ea err_ea s n t)

  -- The rest of a wait ended, before which these bits were set.
  abbrev Ended : (error xsl : Bool) → ℤ → List (Cell OcxlEvent) → State → Option ℕ → State → Type 0
  Ended error xsl first event s r t =
      Later pending arrivals s t
      × ((n : ℕ) × (r ≡ some n)
          × (seen : List OcxlEvent) × Story reads timeout pp_mmio irq_ea err_ea seen
              (Ending reads timeout pp_mmio irq_ea err_ea (any (is_error err_ea) seen || error)
                (any is_fault seen || xsl) n t)
              first event s)

  module _ (p : IsPending pending) (q : IsArriving arrivals) where
    -- What the rounds that follow do.
    abbrev Continues : ℕ → ℤ → (ℕ → List (Cell OcxlEvent) → Cmd (Option ℕ)) → Type 0
    Continues rounds first rest =
        (error xsl : Bool) (event : List (Cell OcxlEvent)) (s : State)
        → CanWait pending arrivals p q pp_mmio reads s
        → arrivals s.log < rounds
        → length event ≡ 1
        → Ends (Ended error xsl first event s) Never (rest (bits error xsl) event s)

    module _ (rounds : ℕ) (rest : ℕ → List (Cell OcxlEvent) → Cmd (Option ℕ))
        (later : Continues rounds (pos 0) rest) (error xsl : Bool) (first : ℤ)
        (event : List (Cell OcxlEvent)) (s : State)
        (c : CanWait pending arrivals p q pp_mmio reads s) (enough : arrivals s.log < suc rounds)
        (one : length event ≡ 1) where
      -- After an event.
      took :
          (x : OcxlEvent) (b : Batch) (t : State)
          → Gives reads first event s x b t
          → length b.cells ≡ 1
          → Later pending arrivals s t
          → arrivals t.log < arrivals s.log
          → Ends
              (Ended error xsl first event s)
              Never
              (after_check rest timeout pp_mmio irq_ea err_ea (bits error xsl) (some (some b)) t)
      unfolding after_check
      took x b t (e, single, head, from) size l fell =
          let some_left : (b.triggered == 0) ≡ false = ground arith in
          let again : (b.triggered == 1) ≡ true = ground arith in
          elim (Bool-cases (is_completion irq_ea x)) [
            | inl ours ↦
                let (stopped, u, e', l') =
                  Ends-done (λ _ u. Later pending arrivals t u) _
                    (restart-Later pending arrivals p q pp_mmio t
                      (CanWait-Later pending arrivals p q pp_mmio reads s t c l).safe) in
                rw
                  (
                    some_left,
                    head,
                    take_event-completion pp_mmio irq_ea err_ea (bits error xsl) x t stopped u ours
                        e',
                  )
                  (
                    Later-trans pending arrivals s t u l l',
                    (
                      0,
                      refl,
                      [],
                      inr (inl (refl, x, b, t, (e, single, head, from), ours, stopped, e')),
                    ),
                  )
            | inr other ↦
                let error' = is_error err_ea x || error in
                let xsl' = is_fault x || xsl in
                rw
                  (
                    some_left,
                    head,
                    take_event-other pp_mmio irq_ea err_ea error xsl x t other,
                    again,
                  )
                  (Ends-mono (Ended error' xsl' (pos 0) b.cells t) Never
                    (Ended error xsl first event s) Never _
                    (later error' xsl' b.cells t
                      (CanWait-Later pending arrivals p q pp_mmio reads s t c l)
                      (omega (arith, fell, enough)) size)
                    (λ r u (l', (n, same, seen, story)). (
                      Later-trans pending arrivals s t u l l',
                      (
                        n,
                        same,
                        x ∷ seen,
                        (
                          b,
                          t,
                          (e, single, head, from),
                          other,
                          Story-bits reads timeout pp_mmio irq_ea err_ea seen _ _ _ _ n u (pos 0)
                              b.cells t
                              (or_shift (is_error err_ea x) (any (is_error err_ea) seen) error)
                              (or_shift (is_fault x) (any is_fault seen) xsl) story,
                        ),
                      ),
                    ))
                    (λ e v n. n))
          ]

      answered :
          (r : Option (Option Batch)) (t : State)
          → check_event reads first event s ≡ done r t
          → Answer pending arrivals p q event s r t
          → Ends
              (Ended error xsl first event s)
              Never
              (after_check rest timeout pp_mmio irq_ea err_ea (bits error xsl) r t)
      unfolding after_check
      answered r t e (l, inl bad) =
          rw bad (l, (4, refl, [], inl (refl, e ∙ ap (λ x. done x t) bad)))
      answered r t e (l, inr (b, same, w, fell)) =
          let given = e ∙ ap (λ x. done x t) same in
          elim (Bool-cases (b.triggered == 0)) [
            | inl none_left ↦
                let bit = or_bit-timeout error xsl in
                rw (same, none_left, bit)
                  (l, (_, refl, [], inr (inr (refl, b, given, ground arith))))
            | inr some_left ↦
                let (x, found, from) = w.events 0 (omega arith) (ground arith) in
                let head = first_event-value b.cells x found in
                let single : b.triggered ≡ 1 = ground (
                  arith,
                  Written-bound (FromIrqs (irqs_in_use s.afu)) (fresh event) b w (omega arith),
                  one,
                ) in
                rw same (
                  took x b t (given, single, head, from) (w.size ∙ one) l
                    (fell (λ z. ground arith)))
          ]

    irq_loop-Continues :
        (rounds : ℕ) (first : ℤ)
        → Continues rounds first (irq_loop rounds reads timeout pp_mmio irq_ea err_ea first)
    unfolding irq_loop
    irq_loop-Continues zero first error xsl event s c enough one = absurd (omega arith)
    irq_loop-Continues (suc rounds) first error xsl event s c enough one =
        let (r, t, e, a) =
          Ends-done (Answer pending arrivals p q event s) _
            (check_event-Answer pending arrivals p q reads first event pp_mmio s c one) in
        rw e (
          answered rounds (irq_loop rounds reads timeout pp_mmio irq_ea err_ea (pos 0))
            (irq_loop-Continues rounds (pos 0)) error xsl first event s c enough one r t e a)

    pub wait_for_irq-Waited :
        (rounds : ℕ) (s : State)
        → CanWait pending arrivals p q pp_mmio reads s
        → arrivals s.log < rounds
        → timeout * 1000 < 2 ^ 31
        → Ends (Waited s) Never (wait_for_irq rounds reads timeout pp_mmio irq_ea err_ea s)
    unfolding wait_for_irq check_timeout
    wait_for_irq-Waited rounds s c enough fits =
        let test : ltb (timeout * 1000) (2 ^ 31) ≡ true = ground arith in
        rw test (
          Ends-mono (Ended false false (pos (timeout * 1000)) (indeterminate ∷ []) s) Never
            (Waited s) Never _
            (irq_loop-Continues rounds (pos (timeout * 1000)) false false (indeterminate ∷ []) s c
              enough refl)
            (λ r t (l, (n, same, seen, story)). (
              l,
              (
                n,
                same,
                (
                  seen,
                  Story-bits reads timeout pp_mmio irq_ea err_ea seen _ _ _ _ n t
                      (pos (timeout * 1000)) (indeterminate ∷ []) s
                      (or_false (any (is_error err_ea) seen)) (or_false (any is_fault seen)) story,
                ),
              ),
            ))
            (λ e t n. n))
