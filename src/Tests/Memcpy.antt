-- ===== src/Tests/Memcpy.antt =====
-- samples/memcpy at concrete inputs.
use mathlib.Core.Option
use mathlib.Core.Path.{subst}
use libocxl.Base.{
  ℕ, ◌*◌, ◌^◌, ◌≤◌, ◌<◌, ◌≡◌, refl, Bool, true, false, some, inl, inr, [], ◌∷◌, arith, ◌==◌,
  if◌then◌else◌, Bool-cases,
}
use libocxl.Base.Int.{ℤ, pos}
use libocxl.Types.{OcxlMmioType, OcxlMmioH, EpollFdSource, value, Timeval, History, Event, State}
use libocxl.Kernel.{Kernel, Ends, done}
use libocxl.Irq.Release.{Never}
use libocxl.Events.Drain.{IsPending}
use libocxl.Events.Arrivals.{IsArriving}
use libocxl.Memcpy.{wait_for_irq, wait_for_status, wait_for_wake_host_thread, timeradd, is_after}
use libocxl.Memcpy.Wed.{memcpy_wed, wed_queue, wed_depth, memcpy_wed_lem}
use libocxl.Memcpy.Check.{CanWait}
use libocxl.Memcpy.Poll.{IsTicking, Polled, wait_for_status-Polled}
use libocxl.Memcpy.Wake.{WakeResult, wait_for_wake-WakeResult}
use libocxl.Memcpy.Complete.{restarted, wait_for_irq-completes}
use libocxl.Mmio.Access.Total.{IsSafe}
use libocxl.Events.{grow_events}
use libocxl.Events.Ready.{AllReady, expected}
use libocxl.Events.Delivered.{counted}
use libocxl.Tests.Setup.{friendly, area_a, irq_a, afu, start}

memcpy_wed_lem_example :
    (wed_queue (memcpy_wed (0x200 * 4096) 4095) ≡ 0x200 * 4096)
    × (wed_depth (memcpy_wed (0x200 * 4096) 4095) ≡ 4095)
    × (memcpy_wed (0x200 * 4096) 4095 < 2 ^ 64)
memcpy_wed_lem_example = memcpy_wed_lem 0x200 4095 (omega arith) (omega arith)

-- Nothing is pending on the AFU's descriptor.
abbrev idle : History → ℕ
idle l = 0

abbrev is_step : Event → Bool
is_step (Event.epoll_wait fd max timeout answer) = true
is_step (Event.gettimeofday now) = true
is_step e = false

-- Epoll reports the interrupt once, and the clock is read once before the time is over.
abbrev steps : History → ℕ
steps [] = 1
steps (e ∷ l) = if is_step e then 0 else steps l

abbrev calm : Kernel
calm = record friendly {
  read_event =
      λ l fd size. (ℤ.negsuc 0, record { type = 0; last = true; addr = 0; dsisr = 0; count = 0 });
  epoll_wait =
      λ l fd max timeout. if steps l == 0 then some [] else some (EpollFdSource.irq 0x900 0 ∷ []);
  gettimeofday = λ l.
      if steps l == 0
      then record { tv_sec = 200; tv_usec = 0 }
      else record { tv_sec = 100; tv_usec = 0 };
}

steps-keep : (l : History) (e : Event) → steps (e ∷ l) ≤ steps l
steps-keep l e = elim (Bool-cases (is_step e)) [
  | inl h ↦ rw h (omega arith)
  | inr h ↦ rw h (omega arith)
]

calm-IsPending : IsPending ⦃k = calm⦄ idle
calm-IsPending = record { keeps = λ l e. omega arith; falls = λ l fd h. cc }

calm-IsArriving : IsArriving ⦃k = calm⦄ steps
calm-IsArriving = record {
  keeps = steps-keep;
  falls = λ l fd max timeout x xs h. elim (Bool-cases (steps l == 0)) [
    | inl n ↦
        let report = some (EpollFdSource.irq 0x900 0 ∷ []) in
        let never : some [] ≡ some (x ∷ xs) =
          subst (λ b. (if b then some [] else report) ≡ some (x ∷ xs)) n h in
        cc
    | inr p ↦ ground arith
  ];
}

calm-CanWait :
    (h : OcxlMmioH)
    → IsSafe h start
    → CanWait idle steps ⦃k = calm⦄ calm-IsPending calm-IsArriving h 1 start
calm-CanWait h safe = record {
  table = record { size = refl; used = tt; room = omega arith; bound = omega arith };
  reports = λ timeout l xs e. elim (Bool-cases (steps l == 0)) [
    | inl n ↦
        let report = some (EpollFdSource.irq 0x900 0 ∷ []) in
        let found : some [] ≡ some xs =
          subst (λ b. (if b then some [] else report) ≡ some xs) n e in
        let same : [] ≡ xs = cc in
        subst (λ ys. AllReady afu ys × (expected ys 0 ≤ 1)) same (tt, omega arith)
    | inr n ↦
        let report = some (EpollFdSource.irq 0x900 0 ∷ []) in
        let found : report ≡ some xs = subst (λ b. (if b then some [] else report) ≡ some xs) n e in
        let same : EpollFdSource.irq 0x900 0 ∷ [] ≡ xs = cc in
        subst (λ ys. AllReady afu ys × (expected ys 0 ≤ 1)) same
          (((refl, irq_a, refl, refl), tt), omega arith)
  ];
  safe = safe;
  enough = omega arith;
}

abbrev ten_seconds : Timeval
ten_seconds = timeradd (record { tv_sec = 100; tv_usec = 0 }) (record { tv_sec = 10; tv_usec = 0 })

calm-IsTicking : IsTicking ⦃k = calm⦄ ten_seconds steps
calm-IsTicking l early = elim (Bool-cases (steps l == 0)) [
  | inl over ↦
      let never : true ≡ false =
        subst
          (λ b.
            is_after
              (if b
                then record { tv_sec = 200; tv_usec = 0 }
                else record { tv_sec = 100; tv_usec = 0 })
              ten_seconds
            ≡ false)
          over early in
      cc
  | inr more ↦ ground arith
]

wait_for_status-Polled_example :
    Ends
      (Polled idle steps ⦃k = calm⦄ calm-IsPending calm-IsArriving 2 1 0x3000 0x7000 ten_seconds
        start)
      Never
      (wait_for_status ⦃k = calm⦄ 3 2 1 10 0x3000 0x7000 start)
wait_for_status-Polled_example =
    wait_for_status-Polled idle steps ⦃k = calm⦄ calm-IsPending calm-IsArriving 2 1 0x3000 0x7000 3
      10 start (calm-CanWait OcxlMmioH.null tt) (omega arith) calm-IsTicking (omega arith)

-- An area with the control register.
abbrev controlled : State
controlled = record start {
  afu = record afu {
    mmios = record {
      base = 0x800;
      cells =
          value (record { start = 0x5000; length = 64; type = OcxlMmioType.per_pasid_mmio }) ∷ [];
    };
    epoll_events = 0x1000;
    epoll_event_count = 1;
  };
}

grown : grow_events 1 controlled ≡ done tt controlled
unfolding grow_events
grown = refl

wait_for_irq-completes_example :
    wait_for_irq 1 1 10 (OcxlMmioH.area 0x800 0) 0x6000 0x7000 controlled
    ≡ done (some 0) (
        restarted 0x800 0
          (record { start = 0x5000; length = 64; type = OcxlMmioType.per_pasid_mmio })
          (counted 0 irq_a 1 (pos 10000) 1 controlled))
unfolding Option.bind
wait_for_irq-completes_example =
    wait_for_irq-completes 0 1 10 0x800 0 0 0x7000 1 irq_a
      (record { start = 0x5000; length = 64; type = OcxlMmioType.per_pasid_mmio }) controlled
      controlled grown (record { irq = refl; watched = refl; ready = refl; counter = refl })
      (record {
        area = refl;
        mapped = record { start = λ e. omega arith; short = omega arith; fits = omega arith };
        long = omega arith;
      })
      (λ e. omega arith) (omega arith)

wait_for_wake-WakeResult_example :
    Ends
      (λ r t.
        (n : ℕ) × (r ≡ some n)
        × WakeResult idle steps ⦃k = calm⦄ calm-IsPending calm-IsArriving 0x3000 ten_seconds start t
            n)
      Never
      (wait_for_wake_host_thread ⦃k = calm⦄ 2 2 1 10
        (OcxlMmioH.area 0x800 0)
        0x3000
        0x6000
        0x7000
        start)
unfolding Option.bind
wait_for_wake-WakeResult_example =
    wait_for_wake-WakeResult idle steps ⦃k = calm⦄ calm-IsPending calm-IsArriving 0x3000 2 2 1 10
      (OcxlMmioH.area 0x800 0) 0x6000 0x7000 start
      (calm-CanWait (OcxlMmioH.area 0x800 0) (area_a, refl)) (omega arith) calm-IsTicking
      (omega arith)
