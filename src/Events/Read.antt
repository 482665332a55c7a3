-- ===== src/Events/Read.antt =====
-- What one read of the AFU's descriptor gives.
use libocxl.Base.{
  ℕ, ◌≡◌, ◌≢◌, ◌↔◌, refl, ap, Bool, true, false, none, some, inl, inr, ◌∷◌, arith, ltb, ◌==◌,
  Bool-cases,
}
use libocxl.Base.Int.{ℤ, pos, negsuc, is_neg, leb_ℤ}
use libocxl.Types.{OcxlErr, OcxlEventAction, KernelEvent, State, Event}
use libocxl.Kernel.{Kernel, Errno, Ends}
use libocxl.Message.{afu_reported}
use libocxl.Irq.Release.{Never}
use libocxl.Events.{
  AfuRead, populate_xsl_fault_error, is_size, event_size, read_failed, interpret, read_afu_event,
}

whole_size : (used : ℤ) (n : ℕ) → is_size n used ≡ true → used ≡ pos n
whole_size (pos m) n h = let same : m ≡ n = ground arith in ap pos same
whole_size (negsuc m) n h = cc

module _ ⦃k : Kernel⦄ (s : State) (used : ℤ) (e : KernelEvent) where
  -- The read returned `used`, and `e` is in the buffer: the result is a success exactly if that is a
  -- whole translation fault, which is then the event; nothing but a success has an event; a failure
  -- and nothing else is reported; the AFU is as it was, and no other call was made.
  pub record IsRead (r : AfuRead) (t : State) : Type 0 where
    pub success :
        (r.action ≡ OcxlEventAction.success)
        ↔ ((used ≡ pos event_size) × (e.type ≡ k.xsl_fault_type))
    pub event :
        r.action ≡ OcxlEventAction.success
        → (r.event ≡ some (populate_xsl_fault_error e)) × (r.last ≡ e.last)
    pub no_event : r.action ≢ OcxlEventAction.success → r.event ≡ none
    pub ignored : r.action ≡ OcxlEventAction.ignore → is_neg used ≡ false
    pub reported :
        r.action ≡ OcxlEventAction.fail → t.messages ≡ afu_reported s OcxlErr.internal_error
    pub quiet : r.action ≢ OcxlEventAction.fail → t.messages ≡ s.messages
    pub same : t.afu ≡ s.afu
    pub log : t.log ≡ Event.read_event s.afu.fd event_size used e ∷ s.log

  abbrev after : State
  after = record s { log = Event.read_event s.afu.fd event_size used e ∷ s.log }

  module _ (wrong : used ≡ pos event_size → e.type ≡ k.xsl_fault_type → ⊥) where
    as_failure :
        IsRead
          (record { action = OcxlEventAction.fail; last = false; event = none })
          (record after { messages = afu_reported after OcxlErr.internal_error })
    unfolding afu_reported
    as_failure = record {
      success = (λ h. cc, λ (a, b). absurd (wrong a b));
      event = λ h. cc;
      no_event = λ h. refl;
      ignored = λ h. cc;
      reported = λ h. refl;
      quiet = λ h. absurd (h refl);
      same = refl;
      log = refl;
    }

    as_nothing :
        (a : OcxlEventAction) (last : Bool)
        → a ≢ OcxlEventAction.success
        → a ≢ OcxlEventAction.fail
        → (a ≡ OcxlEventAction.ignore → is_neg used ≡ false)
        → IsRead (record { action = a; last = last; event = none }) after
    as_nothing a last n m i = record {
      success = (λ h. absurd (n h), λ (x, y). absurd (wrong x y));
      event = λ h. absurd (n h);
      no_event = λ h. refl;
      ignored = i;
      reported = λ h. absurd (m h);
      quiet = λ h. refl;
      same = refl;
      log = refl;
    }

  read_failed-IsRead :
      (errno : Errno) → is_neg used ≡ true → Ends IsRead Never (read_failed errno after)
  unfolding read_failed
  read_failed-IsRead Errno.eagain n =
      as_nothing (λ a b. cc) OcxlEventAction.none_pending true (λ h. cc) (λ h. cc) (λ h. cc)
  read_failed-IsRead Errno.ewouldblock n =
      as_nothing (λ a b. cc) OcxlEventAction.none_pending true (λ h. cc) (λ h. cc) (λ h. cc)
  read_failed-IsRead Errno.enospc n = as_failure (λ a b. cc)
  read_failed-IsRead (Errno.other m) n = as_failure (λ a b. cc)

  interpret-IsRead : is_neg used ≡ false → Ends IsRead Never (interpret used e after)
  unfolding interpret
  interpret-IsRead nonneg = elim (Bool-cases (leb_ℤ (pos k.sizeof_header) used)) [
    | inr short ↦ rw short (as_failure (λ a b. ground arith))
    | inl long ↦ rw long (elim (Bool-cases (ltb k.xsl_fault_type e.type)) [
      | inl unknown ↦ rw unknown (
          as_nothing (λ a b. ground arith) OcxlEventAction.ignore e.last (λ h. cc) (λ h. cc)
            (λ h. nonneg))
      | inr known ↦ rw known (elim (Bool-cases (e.type == k.xsl_fault_type)) [
        | inr other ↦ rw other (as_failure (λ a b. ground arith))
        | inl fault ↦ rw fault (elim (Bool-cases (is_size event_size used)) [
          | inr wrong ↦ rw wrong (as_failure (λ a b. ground arith))
          | inl whole ↦ rw whole (record {
            success = (λ h. (whole_size used event_size whole, ground arith), λ h. refl);
            event = λ h. (refl, refl);
            no_event = λ h. absurd (h refl);
            ignored = λ h. cc;
            reported = λ h. cc;
            quiet = λ h. refl;
            same = refl;
            log = refl;
          })
        ])
      ])
    ])
  ]

-- With version 0 of the event interface, reading an event of the AFU makes one call and has no fault.
-- It is a success exactly if a whole translation fault was read, which is then the event, with the
-- kernel's flag of the last event; no other result has an event. A failure, and nothing else, is
-- reported, and the AFU is as it was.
pub read_afu_event-IsRead :
    ⦃k : Kernel⦄ (s : State)
    → let (used, e) = k.read_event s.log s.afu.fd event_size in
      Ends (IsRead s used e) Never (read_afu_event 0 s)
unfolding read_afu_event
read_afu_event-IsRead ⦃k⦄ s =
    let (used, e) = k.read_event s.log s.afu.fd event_size in
    elim (Bool-cases (is_neg used)) [
      | inl n ↦ rw n (read_failed-IsRead s used e _ n)
      | inr p ↦ rw p (interpret-IsRead s used e p)
    ]
