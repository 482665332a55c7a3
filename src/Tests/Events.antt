-- ===== src/Tests/Events.antt =====
-- Events at concrete inputs.
use mathlib.Core.Path.{subst}
use libocxl.Base.{
  ℕ, ◌≤◌, ◌≡◌, refl, Bool, true, false, some, inl, inr, List, [], ◌∷◌, arith, ◌==◌, if◌then◌else◌,
  Bool-cases,
}
use libocxl.Base.Int.{pos, minus_one, negsuc, is_neg}
use libocxl.Types.{indeterminate, EpollFdSource, KernelEvent, History, Event}
use libocxl.Kernel.{Kernel, Errno, Ends, fault}
use libocxl.Buffer.Table.{IsTable}
use libocxl.Irq.Release.{Never}
use libocxl.Events.{Batch, read_afu_event, drain_afu, handle_sources, ocxl_afu_event_check}
use libocxl.Events.Read.{IsRead, read_afu_event-IsRead}
use libocxl.Events.Drain.{IsPending, Finished, ReadFailed, drain_afu-Finished}
use libocxl.Events.Overrun.{drain_afu-overruns}
use libocxl.Events.Ready.{AllReady, expected}
use libocxl.Events.Sources.{AllHandled, HandleFailed, handle_sources-Handled}
use libocxl.Events.Check.{Checked, CheckFailed, ocxl_afu_event_check-Checked}
use libocxl.Tests.Setup.{friendly, irq_a, afu, start}

abbrev is_read : Event → Bool
is_read (Event.read_event fd size used e) = true
is_read e = false

-- One translation fault is pending until the first read.
abbrev pub pending : History → ℕ
pending [] = 1
pending (e ∷ l) = if is_read e then 0 else pending l

abbrev xsl_fault : KernelEvent
xsl_fault = record { type = 0; last = false; addr = 0xdead; dsisr = 4; count = 1 }

abbrev both : List EpollFdSource
both = EpollFdSource.irq 0x900 0 ∷ EpollFdSource.ocxl ∷ []

both-AllReady : AllReady afu both
both-AllReady = ((refl, irq_a, refl, refl), (tt, tt))

-- A kernel with that fault, for which both the interrupt and the AFU are ready.
abbrev pub faulting : Kernel
faulting = record friendly {
  errno = λ _. Errno.eagain;
  read_event = λ l fd size. (if pending l == 0 then minus_one else pos 40, xsl_fault);
  epoll_wait = λ l fd max timeout. some both;
}

pub faulting-IsPending : IsPending ⦃k = faulting⦄ pending
faulting-IsPending = record {
  keeps = λ l e. elim (Bool-cases (is_read e)) [
    | inl h ↦ rw h (omega arith)
    | inr h ↦ rw h (omega arith)
  ];
  falls = λ l fd h. elim (Bool-cases (pending l == 0)) [
    | inl n ↦
        let never : true ≡ false =
          subst (λ b. is_neg (if b then minus_one else pos 40) ≡ false) n h in
        cc
    | inr p ↦ ground arith
  ];
}

abbrev room : Batch
room = record { cells = indeterminate ∷ indeterminate ∷ []; triggered = 0 }

read_afu_event-IsRead_example :
    Ends
      (IsRead ⦃k = faulting⦄ start (pos 40) xsl_fault)
      Never
      (read_afu_event ⦃k = faulting⦄ 0 start)
read_afu_event-IsRead_example = read_afu_event-IsRead ⦃k = faulting⦄ start

drain_afu-Finished_example :
    Ends
      (Finished pending room start)
      (ReadFailed pending start)
      (drain_afu ⦃k = faulting⦄ 2 0 room start)
drain_afu-Finished_example =
    drain_afu-Finished pending ⦃k = faulting⦄ faulting-IsPending 2 room start (omega arith)
      (omega arith, omega arith)

-- A kernel that never runs out of faults, and an array for one event, as in samples/memcpy.
abbrev endless : Kernel
endless = record friendly { read_event = λ l fd size. (pos 40, xsl_fault) }

abbrev one : Batch
one = record { cells = indeterminate ∷ []; triggered = 0 }

drain_afu-overruns_example : drain_afu ⦃k = endless⦄ 2 0 one start ≡ fault
drain_afu-overruns_example =
    drain_afu-overruns ⦃k = endless⦄ 1 2 one start refl (omega arith) (omega arith)
      (refl, refl, refl, (refl, refl, refl, tt))

start-IsTable : IsTable afu.irqs 1 1
start-IsTable = record { size = refl; used = tt; room = omega arith; bound = omega arith }

handle_sources-Handled_example :
    Ends
      (AllHandled pending both room start)
      (HandleFailed pending start)
      (handle_sources ⦃k = faulting⦄ 2 0 both room start)
handle_sources-Handled_example =
    handle_sources-Handled pending ⦃k = faulting⦄ faulting-IsPending 2 both room start start-IsTable
      both-AllReady (omega arith) (omega arith) (omega arith)

ocxl_afu_event_check-Checked_example :
    Ends
      (Checked room.cells start)
      (CheckFailed start)
      (ocxl_afu_event_check ⦃k = faulting⦄ 2 (negsuc 0) room.cells 2 start)
ocxl_afu_event_check-Checked_example =
    ocxl_afu_event_check-Checked pending ⦃k = faulting⦄ faulting-IsPending 2 (negsuc 0) room.cells 2
      start start-IsTable (omega arith) (omega arith)
      (λ l xs e.
        let same : both ≡ xs = cc in
        subst (λ ys. AllReady afu ys × (expected ys 1 ≤ 2)) same (both-AllReady, omega arith))
