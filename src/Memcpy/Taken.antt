-- ===== src/Memcpy/Taken.antt =====
-- One event in `wait_for_irq`, and what its bits say.
use libocxl.Base.{
  ℕ, ◌+◌, ◌≡◌, refl, ap, Bool, true, false, ◌||◌, some, inl, inr, List, [], ◌∷◌, arith, ◌==◌,
  Bool-cases, get_elem?,
}
use libocxl.Base.Int.{pos}
use libocxl.Types.{
  OcxlEndian, OcxlMmioH, Cell, indeterminate, zeroed, value, OcxlEvent, State, History, Event,
}
use libocxl.Kernel.{Kernel, done, Ends, Ends-bind, Ends-cleanup}
use libocxl.Irq.Release.{Never}
use libocxl.Mmio.Access.Total.{AtMostOneCall, IsSafe, write64-IsSafe}
use libocxl.Events.Arrivals.{IsArriving}
use libocxl.Events.Drain.{IsPending}
use libocxl.Memcpy.Verdict.{is_completion, is_error, is_fault, bits}
use libocxl.Memcpy.{or_bit, first_event, restart_afu_if_stopped, take_event}
use libocxl.Memcpy.Check.{SameButEpoll-same, Later, Later-trans}

-- `ret |= bit` for the three bits, where `ret` has only the lowest two.
or_bit-error : (error fault : Bool) → or_bit (bits error fault) 1 ≡ bits true fault
unfolding or_bit
or_bit-error false false = refl
or_bit-error false true = refl
or_bit-error true false = refl
or_bit-error true true = refl

or_bit-fault : (error fault : Bool) → or_bit (bits error fault) 2 ≡ bits error true
unfolding or_bit
or_bit-fault false false = refl
or_bit-fault false true = refl
or_bit-fault true false = refl
or_bit-fault true true = refl

pub or_bit-timeout : (error fault : Bool) → or_bit (bits error fault) 8 ≡ bits error fault + 8
unfolding or_bit
or_bit-timeout false false = refl
or_bit-timeout false true = refl
or_bit-timeout true false = refl
or_bit-timeout true true = refl

pub first_event-value :
    (cells : List (Cell OcxlEvent)) (x : OcxlEvent)
    → get_elem? cells 0 ≡ some (value x)
    → first_event cells ≡ some x
first_event-value [] x h = cc
first_event-value (indeterminate ∷ cells) x h = cc
first_event-value (zeroed ∷ cells) x h = cc
first_event-value (value y ∷ cells) x h = cc

module _ ⦃k : Kernel⦄ (pp_mmio : OcxlMmioH) (irq_ea err_ea : ℕ) where
  -- Any event but the completion interrupt sets its bit, and the wait goes on.
  pub take_event-other :
      (error fault : Bool) (x : OcxlEvent) (s : State)
      → is_completion irq_ea x ≡ false
      → take_event pp_mmio irq_ea err_ea (bits error fault) x s
        ≡ done (bits (is_error err_ea x || error) (is_fault x || fault), false) s
  unfolding take_event
  take_event-other error fault (OcxlEvent.translation_fault addr dsisr count) s other =
      ap (λ n. done (n, false) s) (or_bit-fault error fault)
  take_event-other error fault (OcxlEvent.irq number handle info count) s other =
      elim (Bool-cases (handle == err_ea)) [
        | inl ours ↦ rw (other, ours) (ap (λ n. done (n, false) s) (or_bit-error error fault))
        | inr theirs ↦ rw (other, theirs) refl
      ]

  -- The completion interrupt ends it, when the AFU has been told to go on.
  pub take_event-completion :
      (ret : ℕ) (x : OcxlEvent) (s : State) (stopped : Bool) (t : State)
      → is_completion irq_ea x ≡ true
      → restart_afu_if_stopped pp_mmio s ≡ done stopped t
      → take_event pp_mmio irq_ea err_ea ret x s ≡ done (0, true) t
  unfolding take_event
  take_event-completion ret (OcxlEvent.translation_fault addr dsisr count) s stopped t ours e = cc
  take_event-completion ret (OcxlEvent.irq number handle info count) s stopped t ours e =
      rw (ours, e) refl

module _ (pending arrivals : History → ℕ) where
  module _ ⦃k : Kernel⦄ (p : IsPending pending) (q : IsArriving arrivals) where
    pub one_call : (s t : State) → AtMostOneCall s t → Later pending arrivals s t
    one_call s t (same, inl none_made) = record {
      same = SameButEpoll-same s t same;
      fewer_pending = omega (arith, ap pending none_made);
      fewer_arrivals = omega (arith, ap arrivals none_made);
    }
    one_call s t (same, inr (e, made)) = record {
      same = SameButEpoll-same s t same;
      fewer_pending = omega (arith, ap pending made, p.keeps s.log e);
      fewer_arrivals = omega (arith, ap arrivals made, q.keeps s.log e);
    }

    -- After a call that does not concern the AFU.
    pub called :
        (e : Event) (s t : State)
        → Later pending arrivals s t
        → Later pending arrivals s (record t { log = e ∷ t.log })
    called e s t l =
        Later-trans pending arrivals s t _ l
          (one_call t (record t { log = e ∷ t.log }) (refl, inr (e, refl)))

    pub restart-Later :
        (pp_mmio : OcxlMmioH) (s : State)
        → IsSafe pp_mmio s
        → Ends (λ _ t. Later pending arrivals s t) Never (restart_afu_if_stopped pp_mmio s)
    unfolding restart_afu_if_stopped
    restart-Later pp_mmio s safe =
        Ends-cleanup (λ _ t. Later pending arrivals s t) (λ _ t. Later pending arrivals s t) Never _
          _
          (Ends-bind (λ _ t. AtMostOneCall s t) (λ _ t. AtMostOneCall s t)
            (λ _ t. Later pending arrivals s t) (λ _ t. Later pending arrivals s t) _ _
            (write64-IsSafe (pos 0x18) OcxlEndian.little_endian s pp_mmio 1 safe)
            (λ _ t h. one_call s t h) (λ _ t h. one_call s t h))
          (λ _ t h. h)
