-- ===== src/Memcpy/Poll.antt =====
-- `wait_for_status`: it ends when the status is set, an event comes, or the time is over.
use libocxl.Base.{
  ℕ, zero, suc, ◌+◌, ◌^◌, ◌%◌, ◌<◌, ◌≡◌, ◌≢◌, refl, true, false, Option, some, inl, inr, ◌⊎◌, ◌∷◌,
  arith, ltb, ◌==◌, Bool-cases,
}
use libocxl.Types.{OcxlMmioH, Timeval, State, Event, History}
use libocxl.Kernel.{Kernel, Cmd, Ends, Ends-bind, Ends-mono}
use libocxl.Irq.Release.{Never}
use libocxl.Events.Arrivals.{IsArriving}
use libocxl.Events.Drain.{IsPending}
use libocxl.Memcpy.{after_wait, timeradd, is_after, status_loop, wait_for_status}
use libocxl.Memcpy.Check.{Later, Later-trans, CanWait, CanWait-Later}
use libocxl.Memcpy.Taken.{one_call, called}
use libocxl.Memcpy.Wait.{Waited, wait_for_irq-Waited}
use libocxl.Memcpy.Verdict.{Verdict}

-- The measure of what is still to come counts, besides the reports of epoll, the readings of the
-- clock that are not after a time.
abbrev pub IsTicking : ⦃k : Kernel⦄ → (limit : Timeval) (steps : History → ℕ) → Type 0
IsTicking ⦃k⦄ limit steps =
    (l : History)
    → is_after (k.gettimeofday l) limit ≡ false
    → steps (Event.gettimeofday (k.gettimeofday l) ∷ l) < steps l

-- The latest call was a reading of the clock, after the limit.
abbrev pub TimeIsOver : Timeval → Timeval → State → Type 0
TimeIsOver limit now t =
    (is_after now limit ≡ true) × ((l : History) × (t.log ≡ Event.gettimeofday now ∷ l))

-- The latest call was a load of the element's status, which was set.
abbrev pub StatusIsSet : (work_element : ℕ) → State → Type 0
StatusIsSet work_element t =
    (v : ℕ) × (l : History) × (v ≢ 0) × (t.log ≡ Event.load 1 (work_element + 1) v ∷ l)

-- The first test of the loop compares the timeout itself with the deadline.
timeradd-later :
    (now : Timeval) (timeout : ℕ)
    → let temp : Timeval = record { tv_sec = timeout; tv_usec = 0 } in
      is_after temp (timeradd now temp) ≡ false
timeradd-later now timeout = elim (Bool-cases (ltb (now.tv_usec + 0) 1000000)) [
  | inl small ↦ rw small (ground arith)
  | inr large ↦ rw large (ground arith)
]

module _ (pending steps : History → ℕ) ⦃k : Kernel⦄ (p : IsPending pending) (q : IsArriving steps)
    (rounds reads work_element err_ea : ℕ) where
  -- The result 8 means that the time is over, 0 that the status is set, and any other is that of a
  -- wait for an interrupt, without a timeout, a completion interrupt, or an area to write to.
  abbrev pub Polled : Timeval → State → Option ℕ → State → Type 0
  Polled limit s r t =
      Later pending steps s t
      × ((n : ℕ) × (r ≡ some n)
          × (((n ≡ 8) × ((now : Timeval) × TimeIsOver limit now t))
              ⊎ (((n ≡ 0) × StatusIsSet work_element t)
                  ⊎ ((n ≢ 0)
                      × (u : State) × Later pending steps s u
                      × Verdict reads 0 OcxlMmioH.null 0 err_ea u n t))))

  Polled-Later :
      (limit : Timeval) (s t : State) (r : Option ℕ) (u : State)
      → Later pending steps s t
      → Polled limit t r u
      → Polled limit s r u
  Polled-Later limit s t r u l (l', (n, e, inl over)) =
      (Later-trans pending steps s t u l l', (n, e, inl over))
  Polled-Later limit s t r u l (l', (n, e, inr (inl set_))) =
      (Later-trans pending steps s t u l l', (n, e, inr (inl set_)))
  Polled-Later limit s t r u l (l', (n, e, inr (inr (nonzero, w, l'', v)))) = (
    Later-trans pending steps s t u l l',
    (n, e, inr (inr (nonzero, w, Later-trans pending steps s t w l l'', v))),
  )

  -- Enough fuel: one round more than the clock is still read, or the last round.
  abbrev HasFuel : (fuel : ℕ) (limit temp : Timeval) → State → Type 0
  HasFuel fuel limit temp s =
      ((0 < fuel) × TimeIsOver limit temp s)
      ⊎ ((is_after temp limit ≡ false) × (steps s.log + 1 < fuel))

  abbrev Continues : (fuel : ℕ) → Timeval → (Timeval → Cmd (Option ℕ)) → Type 0
  Continues fuel limit loop =
      (temp : Timeval) (s : State)
      → CanWait pending steps p q OcxlMmioH.null reads s
      → steps s.log < rounds
      → HasFuel fuel limit temp s
      → Ends (Polled limit s) Never (loop temp s)

  module _ (fuel : ℕ) (limit : Timeval) (ticking : IsTicking limit steps)
      (later : Continues fuel limit (status_loop fuel rounds reads work_element err_ea limit))
      (s : State) (w : CanWait pending steps p q OcxlMmioH.null reads s) (lt : steps s.log < rounds)
      (enough : steps s.log + 1 < suc fuel) where
    -- Reading the clock, and the rounds that follow.
    next_round :
        (t : State)
        → Later pending steps s t
        → let now = k.gettimeofday t.log in
          Ends (Polled limit s) Never (
            status_loop fuel rounds reads work_element err_ea limit now
              (record t { log = Event.gettimeofday now ∷ t.log }))
    next_round t l =
        let now = k.gettimeofday t.log in
        let u = record t { log = Event.gettimeofday now ∷ t.log } in
        let l' = called pending steps p q (Event.gettimeofday now) s t l in
        let fuel_left : HasFuel fuel limit now u = elim (Bool-cases (is_after now limit)) [
          | inl over ↦ inl (omega arith, (over, (t.log, refl)))
          | inr early ↦ inr (early, omega (arith, ticking t.log early, l.fewer_arrivals))
        ] in
        Ends-mono (Polled limit u) Never (Polled limit s) Never _
          (later now u (CanWait-Later pending steps p q OcxlMmioH.null reads s u w l')
            (omega (arith, l'.fewer_arrivals)) fuel_left)
          (λ r v h. Polled-Later limit s u r v l' h) (λ e v n. n)

    -- After the wait.
    polled :
        (n : ℕ) (t : State)
        → Later pending steps s t
        → Verdict reads 0 OcxlMmioH.null 0 err_ea s n t
        → Ends (Polled limit s) Never (
            after_wait
              (status_loop fuel rounds reads work_element err_ea limit)
              work_element
              (some n)
              t)
    unfolding after_wait
    polled (suc n) t l v = (
      l,
      (
        suc n,
        refl,
        inr (inr ((λ e. ground arith), s, one_call pending steps p q s s (refl, inl refl), v)),
      ),
    )
    polled zero t l v =
        let status = k.load t.log 1 (work_element + 1) % 256 ^ 1 in
        let e = Event.load 1 (work_element + 1) status in
        let l' = called pending steps p q e s t l in
        elim (Bool-cases (status == 0)) [
          | inl unset ↦ rw unset (next_round (record t { log = e ∷ t.log }) l')
          | inr set_ ↦
              rw set_ (l', (0, refl, inr (inl (refl, (status, t.log, (λ z. ground arith), refl)))))
        ]

  status_loop-Continues :
      (fuel : ℕ) (limit : Timeval)
      → IsTicking limit steps
      → Continues fuel limit (status_loop fuel rounds reads work_element err_ea limit)
  unfolding status_loop
  status_loop-Continues zero limit ticking temp s w lt (inl (n, over)) = absurd (omega arith)
  status_loop-Continues zero limit ticking temp s w lt (inr (early, n)) = absurd (omega arith)
  status_loop-Continues (suc fuel) limit ticking temp s w lt (inl (_, over)) =
      rw over.0
        (one_call pending steps p q s s (refl, inl refl), (8, refl, inl (refl, (temp, over))))
  status_loop-Continues (suc fuel) limit ticking temp s w lt (inr (early, enough)) = rw early (
      Ends-bind (Waited pending steps reads 0 OcxlMmioH.null 0 err_ea s) Never (Polled limit s)
        Never _ _
        (wait_for_irq-Waited pending steps reads 0 OcxlMmioH.null 0 err_ea p q rounds s w lt
          (omega arith))
        (λ r t (l, (n, e, v)). rw e (
          polled fuel limit ticking (status_loop-Continues fuel limit ticking) s w lt enough n t l
            v))
        (λ e t n. n))

  -- Waiting for an element's status, where the table of interrupts is in order and what epoll
  -- reports, now and later, is nothing, one interrupt that is ready, or the AFU with one event to
  -- read at most, with enough fuel: two rounds more than the clock is read before the deadline, one
  -- round more than epoll still has reports, one read more than events are pending. It ends without
  -- a fault, and changes the AFU's array for epoll and nothing else of the AFU. If the result is 8,
  -- the latest call was a reading of the clock, after the time of the first reading and the
  -- timeout; if it is 0, the latest call was a load of the status, which was set; any other result
  -- is that of a wait for an interrupt, which began later and had no timeout and no completion
  -- interrupt: 4, when a check failed, or the bit 1 exactly if its checks gave the error interrupt,
  -- and the bit 2 exactly if they gave a translation fault.
  pub wait_for_status-Polled :
      (fuel timeout : ℕ) (s : State)
      → let limit = timeradd (k.gettimeofday s.log) (record { tv_sec = timeout; tv_usec = 0 }) in
        CanWait pending steps p q OcxlMmioH.null reads s
        → steps s.log < rounds
        → IsTicking limit steps
        → steps s.log + 1 < fuel
        → Ends
            (Polled limit s)
            Never
            (wait_for_status fuel rounds reads timeout work_element err_ea s)
  unfolding wait_for_status
  wait_for_status-Polled fuel timeout s w lt ticking enough =
      let now = k.gettimeofday s.log in
      let limit = timeradd now (record { tv_sec = timeout; tv_usec = 0 }) in
      let e = Event.gettimeofday now in
      let t = record s { log = e ∷ s.log } in
      let l = called pending steps p q e s s (one_call pending steps p q s s (refl, inl refl)) in
      Ends-mono (Polled limit t) Never (Polled limit s) Never _
        (status_loop-Continues fuel limit ticking (record { tv_sec = timeout; tv_usec = 0 }) t
          (CanWait-Later pending steps p q OcxlMmioH.null reads s t w l)
          (omega (arith, l.fewer_arrivals, lt))
          (inr (timeradd-later now timeout, omega (arith, l.fewer_arrivals, enough))))
        (λ r u h. Polled-Later limit s t r u l h) (λ e u n. n)
