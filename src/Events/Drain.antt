-- ===== src/Events/Drain.antt =====
-- The loop that reads the AFU's events ends, and stays in the array if it has room for them.
use libocxl.Base.{
  ℕ, zero, suc, ◌+◌, ◌^◌, ◌≤◌, ◌<◌, ◌≡◌, refl, ap, ◌∙◌, Bool, false, Option, some, inl, inr, ◌∷◌,
  arith, Bool-cases, length,
}
use libocxl.Base.Int.{ℤ, is_neg}
use libocxl.Types.{OcxlErr, OcxlEventAction, KernelEvent, OcxlEvent, State, Event, History}
use libocxl.Kernel.{Kernel, Cmd, Ends, Ends-bind, Ends-mono}
use libocxl.Irq.Release.{Never}
use libocxl.Events.{Batch, populate_xsl_fault_error, event_size, after_read, drain_afu}
use libocxl.Events.Written.{
  added, put_event-added, Written, Written-refl, Written-trans, Written-added,
}
use libocxl.Events.Read.{IsRead, read_afu_event-IsRead}

-- A measure of the events that the kernel still has: no call raises it, and each event read lowers
-- it.
pub record IsPending ⦃k : Kernel⦄ (pending : History → ℕ) : Type 0 where
  pub keeps : (l : History) (e : Event) → pending (e ∷ l) ≤ pending l
  pub falls :
      (l : History) (fd : ℤ)
      → let (used, e) = k.read_event l fd event_size in
        is_neg used ≡ false → pending (Event.read_event fd event_size used e ∷ l) < pending l

abbrev pub IsFault : OcxlEvent → Type 0
IsFault (OcxlEvent.irq number handle info count) = ⊥
IsFault (OcxlEvent.translation_fault addr dsisr count) = Unit

module _ (pending : History → ℕ) where
  -- From `b` and `s` to `b'` and `t` at most as many events were written as were pending, all of
  -- them translation faults.
  pub record Drained (b b' : Batch) (s t : State) : Type 0 where
    pub written : Written IsFault b b'
    pub bound : b'.triggered + pending t.log ≤ b.triggered + pending s.log
    pub same : t.afu ≡ s.afu

  -- The array has room for all events that are pending.
  abbrev pub HasSpace : Batch → State → Type 0
  HasSpace b s = (b.triggered + pending s.log ≤ length b.cells) × (length b.cells < 2 ^ 16)

  -- Nothing was written.
  Drained-none :
      (b : Batch) (s t : State) → t.afu ≡ s.afu → pending t.log ≤ pending s.log → Drained b b s t
  Drained-none b s t same le = record {
    written = Written-refl IsFault b;
    bound = omega arith;
    same = same;
  }

  Drained-trans :
      (b b' b'' : Batch) (s t u : State) → Drained b b' s t → Drained b' b'' t u → Drained b b'' s u
  Drained-trans b b' b'' s t u h k = record {
    written = Written-trans IsFault b b' b'' h.written k.written;
    bound = omega (arith, h.bound, k.bound);
    same = k.same ∙ h.same;
  }

  Drained-added :
      (b : Batch) (e : KernelEvent) (s t : State)
      → b.triggered < length b.cells
      → t.afu ≡ s.afu
      → pending t.log < pending s.log
      → Drained b (added b (populate_xsl_fault_error e)) s t
  Drained-added b e s t room same lt = record {
    written = Written-added IsFault b (populate_xsl_fault_error e) room tt;
    bound = omega arith;
    same = same;
  }

  -- The loop ended by its own test.
  abbrev pub Finished : Batch → State → Option Batch → State → Type 0
  Finished b s r t = (b' : Batch) × (r ≡ some b') × Drained b b' s t

  abbrev pub ReadFailed : State → OcxlErr → State → Type 0
  ReadFailed s e t = (e ≡ OcxlErr.internal_error) × (t.afu ≡ s.afu)

  -- What the rounds that follow do.
  abbrev Continues : ℕ → (Batch → Cmd (Option Batch)) → Type 0
  Continues fuel rest =
      (b : Batch) (s : State)
      → pending s.log < fuel
      → HasSpace b s
      → Ends (Finished b s) (ReadFailed s) (rest b s)

  go_on :
      (fuel : ℕ) (rest : Batch → Cmd (Option Batch)) (b b' : Batch) (s t : State)
      → Continues fuel rest
      → Drained b b' s t
      → HasSpace b s
      → pending t.log < fuel
      → Ends (Finished b s) (ReadFailed s) (rest b' t)
  go_on fuel rest b b' s t later d space lt =
      Ends-mono (Finished b' t) (ReadFailed t) (Finished b s) (ReadFailed s) _
        (later b' t lt (omega (arith, d.bound, d.written.size, space)))
        (λ r u (b'', e, d'). (b'', e, Drained-trans b b' b'' s t u d d'))
        (λ e u (x, same). (x, same ∙ d.same))

  module _ ⦃k : Kernel⦄ (p : IsPending pending) where
    round :
        (fuel : ℕ) (rest : Batch → Cmd (Option Batch)) (b : Batch) (s : State)
        → Continues fuel rest
        → pending s.log < suc fuel
        → HasSpace b s
        → (a : OcxlEventAction) (last : Bool) (event : Option OcxlEvent) (t : State)
        → let (used, e) = k.read_event s.log s.afu.fd event_size in
          IsRead s used e (record { action = a; last = last; event = event }) t
          → Ends
              (Finished b s)
              (ReadFailed s)
              (after_read rest b (record { action = a; last = last; event = event }) t)
    unfolding after_read
    round fuel rest b s later lt space OcxlEventAction.fail last event t r = (refl, r.same)
    round fuel rest b s later lt space OcxlEventAction.none_pending last event t r =
        let (used, e) = k.read_event s.log s.afu.fd event_size in
        let keeps = p.keeps s.log (Event.read_event s.afu.fd event_size used e) in
        (b, refl, Drained-none b s t r.same (omega (arith, keeps, ap pending r.log)))
    round fuel rest b s later lt space OcxlEventAction.ignore last event t r =
        let (used, e) = k.read_event s.log s.afu.fd event_size in
        let falls = p.falls s.log s.afu.fd (r.ignored refl) in
        let less : pending t.log < pending s.log = omega (arith, falls, ap pending r.log) in
        let d = Drained-none b s t r.same (omega (arith, less)) in
        elim (Bool-cases last) [
          | inl end ↦ rw end (b, refl, d)
          | inr more ↦ rw more (go_on fuel rest b b s t later d space (omega (arith, less)))
        ]
    round fuel rest b s later lt space OcxlEventAction.success last event t r =
        let (used, e) = k.read_event s.log s.afu.fd event_size in
        let falls = p.falls s.log s.afu.fd (ap is_neg (r.success.0 refl).0) in
        let less : pending t.log < pending s.log = omega (arith, falls, ap pending r.log) in
        let free : b.triggered < length b.cells = omega (arith, less) in
        let x = populate_xsl_fault_error e in
        let d = Drained-added b e s t free r.same less in
        rw ((r.event refl).0, put_event-added b x free space.1)
          (elim (Bool-cases last) [
            | inl end ↦ rw end (added b x, refl, d)
            | inr more ↦
                rw more (go_on fuel rest b (added b x) s t later d space (omega (arith, less)))
          ])

    drain_afu-Continues : (fuel : ℕ) → Continues fuel (drain_afu fuel 0)
    unfolding drain_afu
    drain_afu-Continues zero b s lt space = absurd (omega arith)
    drain_afu-Continues (suc fuel) b s lt space =
        let (used, e) = k.read_event s.log s.afu.fd event_size in
        Ends-bind (IsRead s used e) Never (Finished b s) (ReadFailed s) _ _
          (read_afu_event-IsRead s)
          (λ r t h.
            round fuel (drain_afu fuel 0) b s (drain_afu-Continues fuel) lt space r.action r.last
              r.event t h)
          (λ x t n. absurd n)

    -- With version 0 of the event interface, the loop that reads the AFU's events ends within one
    -- round more than events are pending, and has no fault if the array has room for them all. It
    -- ends with at most so many events, all of them translation faults, behind those that were
    -- there, which it leaves alone, or fails with the error of a failed read; the AFU is as it was.
    pub drain_afu-Finished :
        (fuel : ℕ) (b : Batch) (s : State)
        → pending s.log < fuel
        → HasSpace b s
        → Ends (Finished b s) (ReadFailed s) (drain_afu fuel 0 b s)
    drain_afu-Finished fuel b s lt space = drain_afu-Continues fuel b s lt space
