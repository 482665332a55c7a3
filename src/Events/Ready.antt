-- ===== src/Events/Ready.antt =====
-- The sources that epoll reports, the AFU and its interrupts, and how many events they give.
use libocxl.Base.{ℕ, suc, ◌+◌, ◌≤◌, ◌≡◌, some, List, [], ◌∷◌, arith, get_elem?}
use libocxl.Types.{EpollFdSource, OcxlIrq, OcxlAfu, OcxlEvent}
use libocxl.Irq.Table.{irqs_in_use}
use libocxl.Events.Drain.{IsFault}

-- An event is a translation fault, or of one of these interrupts: its number, page and cookie.
abbrev pub FromIrqs : List OcxlIrq → OcxlEvent → Type 0
FromIrqs qs (OcxlEvent.irq number handle info count) =
    (i : ℕ) × (q : OcxlIrq) × (get_elem? qs i ≡ some q)
    × (number ≡ q.irq_number)
    × (handle ≡ q.addr)
    × (info ≡ q.info)
FromIrqs qs (OcxlEvent.translation_fault addr dsisr count) = Unit

-- A source is the AFU, or an interrupt in use whose `fd_info` is at the address that epoll kept.
abbrev pub IsReady : OcxlAfu → EpollFdSource → Type 0
IsReady afu EpollFdSource.ocxl = Unit
IsReady afu (EpollFdSource.irq base i) =
    (base ≡ afu.irqs.base)
    × (q : OcxlIrq) × (get_elem? (irqs_in_use afu) i ≡ some q)
    × (q.fd_info ≡ EpollFdSource.irq afu.irqs.base i)

abbrev pub AllReady : OcxlAfu → List EpollFdSource → Type 0
AllReady afu [] = Unit
AllReady afu (x ∷ sources) = IsReady afu x × AllReady afu sources

-- At most so many events come from these sources, but for the AFU's own.
abbrev pub from_irqs : List EpollFdSource → ℕ
from_irqs [] = 0
from_irqs (EpollFdSource.ocxl ∷ sources) = from_irqs sources
from_irqs (EpollFdSource.irq base i ∷ sources) = suc (from_irqs sources)

-- And so many from the AFU, if it is among them.
abbrev from_afu : List EpollFdSource → ℕ → ℕ
from_afu [] n = 0
from_afu (EpollFdSource.ocxl ∷ sources) n = n
from_afu (EpollFdSource.irq base i ∷ sources) n = from_afu sources n

pub from_afu_mono : (xs : List EpollFdSource) (m n : ℕ) → m ≤ n → from_afu xs m ≤ from_afu xs n
from_afu_mono [] m n h = omega arith
from_afu_mono (EpollFdSource.ocxl ∷ xs) m n h = h
from_afu_mono (EpollFdSource.irq base i ∷ xs) m n h = from_afu_mono xs m n h

from_afu_le : (xs : List EpollFdSource) (n : ℕ) → from_afu xs n ≤ n
from_afu_le [] n = omega arith
from_afu_le (EpollFdSource.ocxl ∷ xs) n = omega arith
from_afu_le (EpollFdSource.irq base i ∷ xs) n = from_afu_le xs n

-- What these sources can write, when the AFU has `n` events.
abbrev pub expected : List EpollFdSource → ℕ → ℕ
expected xs n = from_irqs xs + from_afu xs n

pub expected-cons :
    (x : EpollFdSource) (xs : List EpollFdSource) (n : ℕ)
    → expected (x ∷ []) n ≤ expected (x ∷ xs) n
expected-cons EpollFdSource.ocxl xs n = omega arith
expected-cons (EpollFdSource.irq base i) xs n = omega arith

-- What is left for the sources behind the first one, which wrote from `b` on to `b'`.
pub expected_left :
    (x : EpollFdSource) (xs : List EpollFdSource) (b b' n n' : ℕ)
    → b' + n' ≤ b + from_irqs (x ∷ []) + n
    → b' ≤ b + expected (x ∷ []) n
    → n' ≤ n
    → b' + expected xs n' ≤ b + expected (x ∷ xs) n
expected_left EpollFdSource.ocxl xs b b' n n' bound fits le = omega (arith, from_afu_le xs n')
expected_left (EpollFdSource.irq base i) xs b b' n n' bound fits le =
    omega (arith, from_afu_mono xs n' n le)

pub from_irqs-cons :
    (x : EpollFdSource) (xs : List EpollFdSource)
    → from_irqs (x ∷ xs) ≡ from_irqs (x ∷ []) + from_irqs xs
from_irqs-cons EpollFdSource.ocxl xs = omega arith
from_irqs-cons (EpollFdSource.irq base i) xs = omega arith

pub fault_from : (qs : List OcxlIrq) (x : OcxlEvent) → IsFault x → FromIrqs qs x
fault_from qs (OcxlEvent.irq number handle info count) h = absurd h
fault_from qs (OcxlEvent.translation_fault addr dsisr count) h = tt
