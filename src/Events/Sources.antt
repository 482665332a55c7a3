-- ===== src/Events/Sources.antt =====
-- Handling the sources that epoll reports: the AFU and its interrupts.
use mathlib.Core.Path.{subst}
use libocxl.Base.{
  ℕ, ◌+◌, ◌^◌, ◌≤◌, ◌<◌, ◌≡◌, refl, sym, ◌∙◌, true, Option, some, inl, inr, List, [], ◌∷◌, arith,
  ◌==◌, Bool-cases, length, get_elem?,
}
use libocxl.Types.{OcxlErr, EpollFdSource, OcxlIrq, OcxlAfu, OcxlEvent, State, Event, History}
use libocxl.Kernel.{Kernel, done, Ends, Ends-bind, Ends-mono}
use libocxl.Buffer.Table.{IsTable, get_elem?-values}
use libocxl.Irq.Table.{irqs_in_use}
use libocxl.Irq.Release.{Never}
use libocxl.Events.{
  Batch, is_size, sizeof_count, handle_irq, handle_source, handle_sources, drain_afu,
}
use libocxl.Events.Written.{
  put_event-added, Written, Written-refl, Written-trans, Written-added, Written-mono,
}
use libocxl.Events.Drain.{IsPending, IsFault, Finished, ReadFailed, drain_afu-Finished}
use libocxl.Events.Ready.{
  FromIrqs, IsReady, AllReady, from_irqs, expected, expected-cons, expected_left, from_irqs-cons,
  fault_from,
}

module _ (pending : History → ℕ) where
  -- The events that these sources can give were written at most, and no more than one for each
  -- interrupt besides those that are no longer pending.
  pub record Handled (xs : List EpollFdSource) (b b' : Batch) (s t : State) : Type 0 where
    pub written : Written (FromIrqs (irqs_in_use s.afu)) b b'
    pub bound : b'.triggered + pending t.log ≤ b.triggered + from_irqs xs + pending s.log
    pub fits : b'.triggered ≤ b.triggered + expected xs (pending s.log)
    pub waiting : pending t.log ≤ pending s.log
    pub same : t.afu ≡ s.afu

  abbrev pub AllHandled : List EpollFdSource → Batch → State → Option Batch → State → Type 0
  AllHandled xs b s r t = (b' : Batch) × (r ≡ some b') × Handled xs b b' s t

  abbrev pub HandleFailed : State → OcxlErr → State → Type 0
  HandleFailed s e t = (e ≡ OcxlErr.internal_error) × (t.afu ≡ s.afu)

  Handled-cons :
      (x : EpollFdSource) (xs : List EpollFdSource) (b b' b'' : Batch) (s t u : State)
      → Handled (x ∷ []) b b' s t
      → Handled xs b' b'' t u
      → Handled (x ∷ xs) b b'' s u
  Handled-cons x xs b b' b'' s t u h k = record {
    written = Written-trans (FromIrqs (irqs_in_use s.afu)) b b' b'' h.written (
        Written-mono (FromIrqs (irqs_in_use t.afu)) (FromIrqs (irqs_in_use s.afu)) b' b''
          (λ x p. subst (λ a. FromIrqs (irqs_in_use a) x) h.same p) k.written);
    bound = omega (arith, h.bound, k.bound, from_irqs-cons x xs);
    fits = omega (
      arith,
      k.fits,
      expected_left x xs b.triggered b'.triggered (pending s.log) (pending t.log) h.bound h.fits
          h.waiting,
    );
    waiting = omega (arith, h.waiting, k.waiting);
    same = k.same ∙ h.same;
  }

  module _ ⦃k : Kernel⦄ (p : IsPending pending) where
    handle_irq-Handled :
        (q : OcxlIrq) (base i : ℕ) (b : Batch) (s : State)
        → get_elem? (irqs_in_use s.afu) i ≡ some q
        → b.triggered < length b.cells
        → length b.cells < 2 ^ 16
        → Ends (λ b' t. Handled (EpollFdSource.irq base i ∷ []) b b' s t) Never (handle_irq q b s)
    unfolding handle_irq
    handle_irq-Handled q base i b s found room small =
        let (used, count) = k.read_eventfd s.log q.eventfd in
        let keeps = p.keeps s.log (Event.read_eventfd q.eventfd used count) in
        let x = OcxlEvent.irq q.irq_number q.addr q.info count in
        elim (Bool-cases (is_size sizeof_count used)) [
          | inl whole ↦
              rw (whole, put_event-added b x room small)
                (record {
                  written =
                      Written-added (FromIrqs (irqs_in_use s.afu)) b x room
                        (i, q, found, refl, refl, refl);
                  bound = omega (arith, keeps);
                  fits = omega arith;
                  waiting = omega (arith, keeps);
                  same = refl;
                })
          | inr wrong ↦ rw wrong (record {
            written = Written-refl (FromIrqs (irqs_in_use s.afu)) b;
            bound = omega (arith, keeps);
            fits = omega arith;
            waiting = omega (arith, keeps);
            same = refl;
          })
        ]

    drain-Handled :
        (fuel : ℕ) (b : Batch) (s : State)
        → pending s.log < fuel
        → b.triggered + pending s.log ≤ length b.cells
        → length b.cells < 2 ^ 16
        → Ends (AllHandled (EpollFdSource.ocxl ∷ []) b s) (HandleFailed s) (drain_afu fuel 0 b s)
    drain-Handled fuel b s lt room small =
        Ends-mono (Finished pending b s) (ReadFailed pending s)
          (AllHandled (EpollFdSource.ocxl ∷ []) b s) (HandleFailed s) _
          (drain_afu-Finished pending p fuel b s lt (room, small))
          (λ r t (b', e, d). (
            b',
            e,
            record {
              written =
                  Written-mono IsFault (FromIrqs (irqs_in_use s.afu)) b b'
                    (fault_from (irqs_in_use s.afu)) d.written;
              bound = omega (arith, d.bound);
              fits = omega (arith, d.bound);
              waiting = omega (arith, d.bound, d.written.more);
              same = d.same;
            },
          ))
          (λ e t h. h)

    -- One source that is ready.
    handle_source-Handled :
        (fuel : ℕ) (x : EpollFdSource) (b : Batch) (s : State)
        → IsTable s.afu.irqs s.afu.irq_count s.afu.irq_max_count
        → IsReady s.afu x
        → pending s.log < fuel
        → b.triggered + expected (x ∷ []) (pending s.log) ≤ length b.cells
        → length b.cells < 2 ^ 16
        → Ends (AllHandled (x ∷ []) b s) (HandleFailed s) (handle_source fuel 0 x b s)
    unfolding handle_source
    handle_source-Handled fuel EpollFdSource.ocxl b s v ready lt room small =
        drain-Handled fuel b s lt (omega arith) small
    handle_source-Handled fuel (EpollFdSource.irq base i) b s v (at, q, found, own) lt room small =
        let here : (base == s.afu.irqs.base) ≡ true = ground arith in
        let again : (s.afu.irqs.base == s.afu.irqs.base) ≡ true = ground arith in
        let held = get_elem?-values s.afu.irq_count s.afu.irqs.cells i v.used found in
        rw (here, held, own, again, held)
          (Ends-bind (λ b' t. Handled (EpollFdSource.irq base i ∷ []) b b' s t) Never
            (AllHandled (EpollFdSource.irq base i ∷ []) b s) (HandleFailed s) (handle_irq q b s)
            (λ b' t. done (some b') t) (handle_irq-Handled q base i b s found (omega arith) small)
            (λ b' t h. (b', refl, h)) (λ e t n. absurd n))

    -- Where the table of interrupts is in order, every source is the AFU or an interrupt in use
    -- whose address is still that of its element, more rounds are left than events are pending, and
    -- the array is shorter than 2^16 and has room for the events that are already in it, one for
    -- each interrupt among the sources, and the pending events if the AFU is one of them, handling
    -- the sources ends, without a fault. Then the new events stand behind those that were there; they
    -- are no more than those, and no more than the interrupts and the events that are no longer
    -- pending. They are translation faults or carry the number, page and cookie of an interrupt in
    -- use, and the rest of the array and the AFU are as they were. Or the read of an event failed,
    -- with that error, and the AFU is as it was.
    pub handle_sources-Handled :
        (fuel : ℕ) (xs : List EpollFdSource) (b : Batch) (s : State)
        → IsTable s.afu.irqs s.afu.irq_count s.afu.irq_max_count
        → AllReady s.afu xs
        → pending s.log < fuel
        → b.triggered + expected xs (pending s.log) ≤ length b.cells
        → length b.cells < 2 ^ 16
        → Ends (AllHandled xs b s) (HandleFailed s) (handle_sources fuel 0 xs b s)
    unfolding handle_sources
    handle_sources-Handled fuel [] b s v ready lt room small = (
      b,
      refl,
      record {
        written = Written-refl (FromIrqs (irqs_in_use s.afu)) b;
        bound = omega arith;
        fits = omega arith;
        waiting = omega arith;
        same = refl;
      },
    )
    handle_sources-Handled fuel (x ∷ xs) b s v (first, later) lt room small =
        let cons = expected-cons x xs (pending s.log) in
        Ends-bind (AllHandled (x ∷ []) b s) (HandleFailed s) (AllHandled (x ∷ xs) b s)
          (HandleFailed s) _ _
          (handle_source-Handled fuel x b s v first lt (omega (arith, cons)) small)
          (λ r t (b', e, h).
            let left =
              expected_left x xs b.triggered b'.triggered (pending s.log) (pending t.log) h.bound
                h.fits h.waiting in
            rw e (
              Ends-mono (AllHandled xs b' t) (HandleFailed t) (AllHandled (x ∷ xs) b s)
                (HandleFailed s) _
                (handle_sources-Handled fuel xs b' t
                  (subst (λ (a : OcxlAfu). IsTable a.irqs a.irq_count a.irq_max_count) (sym h.same)
                    v)
                  (subst (λ a. AllReady a xs) (sym h.same) later) (omega (arith, h.waiting))
                  (omega (arith, left, h.written.size, room)) (omega (arith, h.written.size)))
                (λ r' u (b'', e', h'). (b'', e', Handled-cons x xs b b' b'' s t u h h'))
                (λ e' u (c, same). (c, same ∙ h.same))))
          (λ e t h. h)
