-- ===== src/Events/Overrun.antt =====
-- More events of the AFU than the array has room for.
use mathlib.Core.Path.{subst}
use libocxl.Base.{
  sym, ℕ, zero, suc, ◌+◌, ◌^◌, ◌<◌, ◌≡◌, refl, ap, ◌∙◌, Bool, false, Option, none, some, ◌∷◌, arith,
  ltb, length, length-set,
}
use libocxl.Base.Int.{ℤ, pos}
use libocxl.Types.{OcxlEventAction, OcxlEvent, value, OcxlAfu, State, Event, History}
use libocxl.Kernel.{Kernel, Cmd, fault, Ends-done}
use libocxl.Events.{
  AfuRead, Batch, populate_xsl_fault_error, put_event, event_size, after_read, drain_afu,
}
use libocxl.Events.Read.{IsRead, read_afu_event-IsRead}
use libocxl.Events.Written.{added, put_event-added}

-- The next `n` reads of the descriptor each give a whole translation fault that is not the last.
abbrev pub Delivers : ⦃k : Kernel⦄ → ℕ → ℤ → History → Type 0
Delivers zero fd l = Unit
Delivers ⦃k⦄ (suc n) fd l =
    let (used, e) = k.read_event l fd event_size in
    (used ≡ pos event_size)
    × (e.type ≡ k.xsl_fault_type)
    × (e.last ≡ false)
    × Delivers n fd (Event.read_event fd event_size used e ∷ l)

put_event-full : (b : Batch) (x : OcxlEvent) → length b.cells ≡ b.triggered → put_event b x ≡ none
put_event-full b x full =
    let test : ltb b.triggered (length b.cells) ≡ false = ground arith in rw test

module _ ⦃k : Kernel⦄ (rest : Batch → Cmd (Option Batch)) (b : Batch) (r : AfuRead) (t : State)
    (x : OcxlEvent) (action : r.action ≡ OcxlEventAction.success) (event : r.event ≡ some x) where
  shape :
      (last : Bool)
      → r.last ≡ last
      → r ≡ record { action = OcxlEventAction.success; last = last; event = some x }
  shape last h = λ i. record { action = action i; last = h i; event = event i }

  after_read-full : put_event b x ≡ none → after_read rest b r t ≡ fault
  unfolding after_read
  after_read-full full = ap (λ q. after_read rest b q t) (shape r.last refl) ∙ rw full

  after_read-more :
      (b' : Batch) → put_event b x ≡ some b' → r.last ≡ false → after_read rest b r t ≡ rest b' t
  unfolding after_read
  after_read-more b' put last = ap (λ q. after_read rest b q t) (shape false last) ∙ rw put

module _ ⦃k : Kernel⦄ where
  -- If the kernel delivers one event more than the array has room for, the loop that reads the
  -- AFU's events writes behind the array: it does not know how long it is.
  pub drain_afu-overruns :
      (n fuel : ℕ) (b : Batch) (s : State)
      → length b.cells ≡ b.triggered + n
      → length b.cells < 2 ^ 16
      → n < fuel
      → Delivers (suc n) s.afu.fd s.log
      → drain_afu fuel 0 b s ≡ fault
  unfolding drain_afu
  drain_afu-overruns n zero b s size small lt d = absurd (omega arith)
  drain_afu-overruns zero (suc fuel) b s size small lt d =
      let (used, e) = k.read_event s.log s.afu.fd event_size in
      let (r, t, ran, h) = Ends-done (IsRead s used e) _ (read_afu_event-IsRead s) in
      let action = h.success.1 (d.0, d.1) in
      let full : length b.cells ≡ b.triggered = omega arith in
      let x = populate_xsl_fault_error e in
      rw ran (
        after_read-full (drain_afu fuel 0) b r t x action (h.event action).0
          (put_event-full b x full))
  drain_afu-overruns (suc n) (suc fuel) b s size small lt d =
      let (used, e) = k.read_event s.log s.afu.fd event_size in
      let (r, t, ran, h) = Ends-done (IsRead s used e) _ (read_afu_event-IsRead s) in
      let action = h.success.1 (d.0, d.1) in
      let x = populate_xsl_fault_error e in
      let last : r.last ≡ false = (h.event action).1 ∙ d.2 in
      let fd = ap (λ (a : OcxlAfu). a.fd) h.same in
      let later =
        subst (λ m. Delivers (suc n) m t.log) (sym fd)
          (subst (λ l. Delivers (suc n) s.afu.fd l) (sym h.log) d.3) in
      let grown : length (added b x).cells ≡ length b.cells =
        length-set b.cells b.triggered (value x) in
      rw ran (
        after_read-more (drain_afu fuel 0) b r t x action (h.event action).0 (added b x)
          (put_event-added b x (omega arith) small) last
        ∙ drain_afu-overruns n fuel (added b x) t (omega (arith, grown)) (omega (arith, grown))
            (omega arith) later)
