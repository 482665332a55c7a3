-- ===== src/Memcpy/Submit.antt =====
-- The elements of a copy: the copy becomes valid when everything behind it is in memory.
use mathlib.Core.Path.{subst}
use libocxl.Base.{
  ℕ, ◌+◌, ◌*◌, ◌/◌, ◌%◌, ◌^◌, ◌≤◌, ◌<◌, ◌≡◌, ◌≢◌, refl, sym, ap, ◌∙◌, ◌⊎◌, inl, inr, some, ◌∷◌,
  arith, ◌==◌, Bool-cases,
}
use libocxl.Types.{State, Event, History, OcxlErr, OcxlAfu}
use libocxl.Kernel.{Kernel, Ends, Ends-bind, pure, ◌>>=◌}
use libocxl.Irq.Table.{IsIrqs}
use libocxl.Irq.Release.{Never}
use libocxl.Events.{ocxl_afu_get_p9_thread_id}
use libocxl.Events.Thread.{IsOfThread, get_p9_thread_id-Keeps}
use libocxl.Weq.{WorkElement, MemcpyWeq, memcpy3_add_we}
use libocxl.Weq.Laps.{HasAdded}
use libocxl.Weq.Memory.{word_at}
use libocxl.Weq.Stores.{element_at, store_we}
use libocxl.Weq.Published.{IsInMemory, store_we-IsInMemory}
use libocxl.Memcpy.Copy.{
  Submitted, irq_element, wake_element, stop_element, queue_notification, set_valid, submit,
}
use libocxl.Memcpy.Notify.{
  SameWords, IsInMemory-SameWords, HasHandle, NoHandle, irq_alloc-HasHandle,
}

thread_call-SameWords : (l : History) (e : Event) → IsOfThread e → SameWords l (e ∷ l)
unfolding word_at
thread_call-SameWords l (Event.get_features fd answer) h bytes addr = refl
thread_call-SameWords l (Event.enable_p9_wait fd answer) h bytes addr = refl
thread_call-SameWords l e h bytes addr = absurd h

load-SameWords : (l : History) (b a v : ℕ) → SameWords l (Event.load b a v ∷ l)
unfolding word_at
load-SameWords l b a v bytes addr = refl

thread-SameWords :
    ⦃k : Kernel⦄ (s : State)
    → Ends
        (λ _ t. SameWords s.log t.log)
        (λ _ t. SameWords s.log t.log)
        (ocxl_afu_get_p9_thread_id s)
thread-SameWords s =
    get_p9_thread_id-Keeps SameWords (λ l m n h g bytes addr. g bytes addr ∙ h bytes addr)
      thread_call-SameWords s

module _ ⦃k : Kernel⦄ where
  -- The element that reports the completion.
  abbrev pub Announces : (completion irq_ea : ℕ) → WorkElement → Type 0
  Announces completion irq_ea x =
      ((completion ≡ 1) × (x ≡ irq_element irq_ea))
      ⊎ ((completion ≡ 2) × ((tid : ℕ) × (x ≡ wake_element irq_ea tid)))

  -- It has been added to the queue, or there is none.
  abbrev pub Notified : (completion irq_ea : ℕ) → MemcpyWeq → MemcpyWeq → Type 0
  Notified completion irq_ea w w' =
      ((completion ≢ 1) × (completion ≢ 2) × (w' ≡ w))
      ⊎ ((x : WorkElement) × Announces completion irq_ea x
          × (memcpy3_add_we w x ≡ some (w', w.next)))

  module _ (n base : ℕ) where
    -- A queue that so many elements have been added to, in memory.
    abbrev pub IsQueue : (total : ℕ) → MemcpyWeq → State → Type 0
    IsQueue total w s = HasAdded n total w × IsInMemory base w s.log

    -- What storing one element does.
    abbrev Stored : (total : ℕ) → MemcpyWeq → WorkElement → State → MemcpyWeq × ℕ → State → Type 0
    Stored total w we s r t =
        (memcpy3_add_we w we ≡ some (r.0, w.next))
        × (r.1 ≡ element_at base w.next)
        × (t.afu ≡ s.afu)
        × IsQueue (total + 1) r.0 t

    store_we-Stored :
        (total : ℕ) (w : MemcpyWeq) (we : WorkElement) (s : State)
        → IsQueue total w s
        → Ends (Stored total w we s) Never (store_we base w we s)
    store_we-Stored total w we s (h, there) =
        let (w', ran, stored, added, stays, _, _) =
          store_we-IsInMemory n total base w we s h there in
        rw stored (ran, refl, refl, (added, stays))

    -- The queue's place in memory holds the same after a call that stores nothing.
    IsQueue-SameWords :
        (total : ℕ) (w : MemcpyWeq) (s t : State)
        → SameWords s.log t.log
        → IsQueue total w s
        → IsQueue total w t
    IsQueue-SameWords total w s t same (h, there) =
        (h, IsInMemory-SameWords base w s.log t.log same there)

    -- After the notification: the queue with its element, or still the one from before.
    abbrev Announced : (completion total : ℕ) → MemcpyWeq → MemcpyWeq × (ℕ × ℕ) → State → Type 0
    Announced completion total w r t =
        Notified completion r.1.1 w r.0 × ((m : ℕ) × (m ≤ total + 1) × IsQueue m r.0 t)

    abbrev StillQueued : (total : ℕ) → MemcpyWeq → OcxlErr → State → Type 0
    StillQueued total w e t = IsQueue total w t

    module _ (total : ℕ) (w : MemcpyWeq) (s : State) (v : IsIrqs s.afu)
        (small : s.afu.irq_count < 2 ^ 15) (there : IsQueue total w s) where
      announced :
          (completion irq_ea : ℕ) (x : WorkElement) (t : State)
          → Announces completion irq_ea x
          → IsQueue total w t
          → Ends
              (Announced completion total w)
              (StillQueued total w)
              ((do (w', at) ← store_we base w x; pure (w', (at, irq_ea))) t)
      announced completion irq_ea x t a q =
          Ends-bind (Stored total w x t) Never (Announced completion total w) (StillQueued total w)
            _ _ (store_we-Stored total w x t q)
            (λ r u (ran, at, same, q'). (inr (x, a, ran), (total + 1, omega arith, q')))
            (λ e u n. absurd n)

      queue_notification-Announced :
          (completion : ℕ)
          → Ends
              (Announced completion total w)
              (StillQueued total w)
              (queue_notification base completion w s)
      unfolding queue_notification
      queue_notification-Announced completion = elim (Bool-cases (completion == 1)) [
        | inl irq ↦ rw irq (
            Ends-bind (HasHandle s) (NoHandle s) (Announced completion total w)
              (StillQueued total w) _ _ (irq_alloc-HasHandle s v small)
              (λ i t (_, words, _, _, _, (q, _, handle)). rw handle (
                announced completion q.addr (irq_element q.addr) t (inl (ground arith, refl))
                  (IsQueue-SameWords total w s t words there)))
              (λ e t (words, _, _). IsQueue-SameWords total w s t words there))
        | inr other ↦ elim (Bool-cases (completion == 2)) [
          | inr none_asked ↦
              rw (other, none_asked)
                (inl ((λ e. ground arith), (λ e. ground arith), refl), (total, omega arith, there))
          | inl wake ↦
              rw (other, wake)
                (Ends-bind (HasHandle s) (NoHandle s) (Announced completion total w)
                  (StillQueued total w) _ _ (irq_alloc-HasHandle s v small)
                  (λ i t (_, words, _, _, _, (q, _, handle)).
                    let queued = IsQueue-SameWords total w s t words there in
                    rw handle (
                      Ends-bind (λ _ u. SameWords t.log u.log) (λ _ u. SameWords t.log u.log)
                        (Announced completion total w) (StillQueued total w) _ _
                        (thread-SameWords t)
                        (λ tid u words.
                          announced completion q.addr (wake_element q.addr tid) u
                            (inr (ground arith, (tid, refl)))
                            (IsQueue-SameWords total w t u words queued))
                        (λ e u words. IsQueue-SameWords total w t u words queued)))
                  (λ e t (words, _, _). IsQueue-SameWords total w s t words there))
        ]
      ]

    -- The copy has just become valid, and the whole queue with the notification and the stop is in
    -- memory, as it was just before.
    abbrev pub IsSubmitted : (completion : ℕ) → MemcpyWeq → WorkElement → Submitted → State → Type 0
    IsSubmitted completion w we q t =
        (w1 : MemcpyWeq) × (w2 : MemcpyWeq) × (w3 : MemcpyWeq) × (memcpy3_add_we w we
          ≡ some (w1, w.next))
        × Notified completion q.irq_ea w1 w2
        × (memcpy3_add_we w2 stop_element ≡ some (w3, w2.next))
        × (q.copy ≡ element_at base w.next)
        × ((v : ℕ) × (l : History) × IsInMemory base w3 l
            × (t.log ≡ Event.store 1 q.copy (v / 2 * 2 + 1) ∷ (Event.load 1 q.copy v ∷ l)))

    -- The queue in memory has the copy, with the command that it was given, and nothing behind it.
    abbrev pub IsHeldBack : MemcpyWeq → WorkElement → OcxlErr → State → Type 0
    IsHeldBack w we e t =
        (w1 : MemcpyWeq) × (memcpy3_add_we w we ≡ some (w1, w.next)) × IsInMemory base w1 t.log

    -- Putting a copy into a queue that is in memory, for any way of reporting the completion, where
    -- the table of interrupts is in order and has fewer than 2^15 in use, has no fault. If it
    -- succeeds, the last call is the store that makes the copy's command valid; before it, the
    -- copy, then the element of the interrupt or of the wake if one was asked for, and then the
    -- stop were already in memory. If it fails, because of the interrupt or the thread's identity,
    -- the memory holds the queue with the copy, whose command is the one it was given.
    pub submit-IsSubmitted :
        (total completion : ℕ) (w : MemcpyWeq) (we : WorkElement) (s : State)
        → IsIrqs s.afu
        → s.afu.irq_count < 2 ^ 15
        → IsQueue total w s
        → Ends (IsSubmitted completion w we) (IsHeldBack w we) (submit base completion w we s)
    unfolding submit set_valid
    submit-IsSubmitted total completion w we s v small there =
        Ends-bind (Stored total w we s) Never (IsSubmitted completion w we) (IsHeldBack w we) _ _
          (store_we-Stored total w we s there)
          (λ r1 t1 (ran1, at1, same1, q1).
            Ends-bind (Announced completion (total + 1) r1.0) (StillQueued (total + 1) r1.0)
              (IsSubmitted completion w we) (IsHeldBack w we) _ _
              (queue_notification-Announced (total + 1) r1.0 t1
                (subst (λ a. IsIrqs a) (sym same1) v)
                (omega (arith, ap (λ (a : OcxlAfu). a.irq_count) same1, small)) q1 completion)
              (λ r2 t2 (notified, (m, _, q2)).
                Ends-bind (Stored m r2.0 stop_element t2) Never (IsSubmitted completion w we)
                  (IsHeldBack w we) _ _ (store_we-Stored m r2.0 stop_element t2 q2)
                  (λ r3 t3 (ran3, _, _, q3). (
                    r1.0,
                    r2.0,
                    r3.0,
                    ran1,
                    notified,
                    ran3,
                    at1,
                    (k.load t3.log 1 r1.1 % 256 ^ 1, t3.log, q3.1, refl),
                  ))
                  (λ e t n. absurd n))
              (λ e t2 q2. (r1.0, ran1, q2.1)))
          (λ e t n. absurd n)
