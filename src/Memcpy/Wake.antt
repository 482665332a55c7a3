-- ===== src/Memcpy/Wake.antt =====
-- `wait_for_wake_host_thread`: it ends, and says that the copy is done only when its status is set.
use libocxl.Base.{
  ℕ, zero, suc, ◌+◌, ◌%◌, ◌^◌, ◌<◌, ◌≡◌, ◌≢◌, refl, ap, ◌∙◌, Bool, true, false, Option, some, inl,
  inr, ◌⊎◌, ◌∷◌, arith, ◌==◌, Bool-cases,
}
use libocxl.Types.{OcxlMmioH, Timeval, State, Event, History}
use libocxl.Kernel.{Kernel, Ends, Ends-bind}
use libocxl.Irq.Release.{Never}
use libocxl.Events.Arrivals.{IsArriving}
use libocxl.Events.Drain.{IsPending}
use libocxl.Memcpy.{
  timeradd, is_after, wake_loop, fall_back, after_wake, wait_for_irq, wait_for_wake_host_thread,
}
use libocxl.Memcpy.Check.{Later, Later-trans, CanWait, CanWait-Later}
use libocxl.Memcpy.Taken.{one_call, called}
use libocxl.Memcpy.Wait.{Waited, wait_for_irq-Waited}
use libocxl.Memcpy.Poll.{IsTicking, TimeIsOver, StatusIsSet}

module _ (pending steps : History → ℕ) ⦃k : Kernel⦄ (p : IsPending pending) (q : IsArriving steps)
    (work_element : ℕ) where
  -- The loop has seen the status, or the time is over.
  abbrev Woken : Timeval → State → Option Bool → State → Type 0
  Woken limit s r t =
      Later pending steps s t
      × (((r ≡ some true) × StatusIsSet work_element t)
          ⊎ ((r ≡ some false) × ((now : Timeval) × TimeIsOver limit now t)))

  wake_loop-Woken :
      (limit : Timeval)
      → IsTicking limit steps
      → (fuel : ℕ) (s t : State) → Later pending steps s t
      → steps t.log < fuel
      → Ends (Woken limit s) Never (wake_loop fuel work_element limit t)
  unfolding wake_loop
  wake_loop-Woken limit ticking zero s t l lt = absurd (omega arith)
  wake_loop-Woken limit ticking (suc fuel) s t l lt =
      let status = k.load t.log 1 (work_element + 1) % 256 ^ 1 in
      let e = Event.load 1 (work_element + 1) status in
      let u = record t { log = e ∷ t.log } in
      let now = k.gettimeofday u.log in
      let v = record u { log = Event.gettimeofday now ∷ u.log } in
      let l' = called pending steps p q e s t l in
      let l'' = called pending steps p q (Event.gettimeofday now) s u l' in
      elim (Bool-cases (status == 0)) [
        | inr set_ ↦ rw set_ (l', inl (refl, (status, t.log, (λ z. ground arith), refl)))
        | inl unset ↦ elim (Bool-cases (is_after now limit)) [
          | inl over ↦ rw (unset, over) (l'', inr (refl, (now, (over, (u.log, refl)))))
          | inr early ↦
              rw (unset, early)
                (wake_loop-Woken limit ticking fuel s v l''
                  (omega (arith, ticking u.log early, q.keeps t.log e)))
        ]
      ]

  -- The result 0 means that the status is set; with any other the clock was read after the limit.
  abbrev pub WakeResult : Timeval → State → State → ℕ → Type 0
  WakeResult limit s t n =
      Later pending steps s t
      × (((n ≡ 0) × StatusIsSet work_element t)
          ⊎ ((n ≢ 0)
              × ((now : Timeval) × (u : State) × TimeIsOver limit now u
                  × Later pending steps s u
                  × Later pending steps u t)))

  fall_back-nonzero : (n : ℕ) → (m : ℕ) × (fall_back (some n) ≡ some m) × (m ≢ 0)
  unfolding fall_back
  fall_back-nonzero zero = (8, refl, λ e. omega arith)
  fall_back-nonzero (suc n) = (suc n, refl, λ e. omega arith)

  -- After the loop.
  woken :
      (rounds reads : ℕ) (pp_mmio : OcxlMmioH) (irq_ea err_ea : ℕ) (limit : Timeval) (s : State)
      → CanWait pending steps p q pp_mmio reads s
      → steps s.log < rounds
      → (r : Option Bool) (t : State) → Woken limit s r t
      → Ends
          (λ r t. (n : ℕ) × (r ≡ some n) × WakeResult limit s t n)
          Never
          (after_wake (wait_for_irq rounds reads 0 pp_mmio irq_ea err_ea) r t)
  unfolding after_wake
  woken rounds reads pp_mmio irq_ea err_ea limit s w lt r t (l, inl (e, set_)) =
      rw e (0, refl, (l, inl (refl, set_)))
  woken rounds reads pp_mmio irq_ea err_ea limit s w lt r t (l, inr (e, (now, over))) = rw e (
      Ends-bind (Waited pending steps reads 0 pp_mmio irq_ea err_ea t) Never
        (λ r t. (n : ℕ) × (r ≡ some n) × WakeResult limit s t n) Never _ _
        (wait_for_irq-Waited pending steps reads 0 pp_mmio irq_ea err_ea p q rounds t
          (CanWait-Later pending steps p q pp_mmio reads s t w l)
          (omega (arith, l.fewer_arrivals, lt)) (omega arith))
        (λ r u (l', (n, e', _)).
          let (m, back, nonzero) = fall_back-nonzero n in
          (
            m,
            ap fall_back e' ∙ back,
            (Later-trans pending steps s t u l l', inr (nonzero, (now, t, over, l, l'))),
          ))
        (λ e u n. n))

  -- Waiting for the thread to be woken, under the conditions of the other waits, ends without a
  -- fault, and changes the AFU's array for epoll and nothing else of the AFU. If the result is 0,
  -- the latest call was a load of the element's status, which was set; if not, the clock was read
  -- after the time of the first reading and the timeout. So the fallback interrupt, which is looked
  -- for only then, never makes it 0.
  pub wait_for_wake-WakeResult :
      (fuel rounds reads timeout : ℕ) (pp_mmio : OcxlMmioH) (irq_ea err_ea : ℕ) (s : State)
      → let limit = timeradd (k.gettimeofday s.log) (record { tv_sec = timeout; tv_usec = 0 }) in
        CanWait pending steps p q pp_mmio reads s
        → steps s.log < rounds
        → IsTicking limit steps
        → steps s.log < fuel
        → Ends
            (λ r t. (n : ℕ) × (r ≡ some n) × WakeResult limit s t n)
            Never
            (wait_for_wake_host_thread fuel rounds reads timeout pp_mmio work_element irq_ea err_ea
              s)
  unfolding wait_for_wake_host_thread
  wait_for_wake-WakeResult fuel rounds reads timeout pp_mmio irq_ea err_ea s w lt ticking enough =
      let now = k.gettimeofday s.log in
      let limit = timeradd now (record { tv_sec = timeout; tv_usec = 0 }) in
      let e = Event.gettimeofday now in
      let t = record s { log = e ∷ s.log } in
      let l = called pending steps p q e s s (one_call pending steps p q s s (refl, inl refl)) in
      Ends-bind (Woken limit s) Never (λ r t. (n : ℕ) × (r ≡ some n) × WakeResult limit s t n) Never
        _ _ (wake_loop-Woken limit ticking fuel s t l (omega (arith, l.fewer_arrivals, enough)))
        (λ r u h. woken rounds reads pp_mmio irq_ea err_ea limit s w lt r u h) (λ e u n. n)
