-- ===== src/Memcpy/Notify.antt =====
-- The interrupt that reports a completion, and its element in the queue.
use libocxl.Base.{
  length-append, ℕ, zero, suc, ◌+◌, ◌^◌, ◌<◌, ◌≡◌, refl, sym, ap, ◌∙◌, some, List, [], ◌∷◌, ◌++◌,
  arith, length, get_elem?,
}
use libocxl.Types.{OcxlErr, OcxlIrq, State, Event, History}
use libocxl.Kernel.{Kernel, Ends, Ends-mono, Ends-After, done}
use libocxl.Irq.{ocxl_irq_alloc, ocxl_irq_get_handle}
use libocxl.Irq.Table.{IsIrqs, irqs_in_use}
use libocxl.Irq.Ledger.{Resource}
use libocxl.Irq.Grow.{SameButIrqs}
use libocxl.Irq.Append.{Appended, Refused, irq_alloc-Appended}
use libocxl.Irq.Handle.{get_handle-values}
use libocxl.Irq.Keeps.{IsOfIrq, irq_alloc-Keeps}
use libocxl.Buffer.Table.{length-values}
use libocxl.Weq.{MemcpyWeq}
use libocxl.Weq.Memory.{word_at}
use libocxl.Weq.Stores.{element_at}
use libocxl.Weq.Published.{IsInMemory}

-- No word of memory has changed.
abbrev pub SameWords : History → History → Type 0
SameWords l m = (bytes addr : ℕ) → word_at m bytes addr ≡ word_at l bytes addr

SameWords-call : (l : History) (e : Event) → IsOfIrq e → SameWords l (e ∷ l)
unfolding word_at
SameWords-call l (Event.realloc block size answer) h bytes addr = refl
SameWords-call l (Event.eventfd fd) h bytes addr = refl
SameWords-call l (Event.irq_alloc fd answer) h bytes addr = refl
SameWords-call l (Event.irq_set_fd fd offset efd ok) h bytes addr = refl
SameWords-call l (Event.mmap size prot fd offset answer) h bytes addr = refl
SameWords-call l (Event.epoll_add epoll_fd fd source ok) h bytes addr = refl
SameWords-call l (Event.munmap a size) h bytes addr = refl
SameWords-call l (Event.close fd) h bytes addr = refl
SameWords-call l (Event.irq_free fd offset ok) h bytes addr = refl
SameWords-call l e h bytes addr = absurd h

pub IsInMemory-SameWords :
    (base : ℕ) (w : MemcpyWeq) (l m : History)
    → SameWords l m
    → IsInMemory base w l
    → IsInMemory base w m
IsInMemory-SameWords base w l m same there j x found =
    let (h, c) = there j x found in
    let at = element_at base j in
    (
      record {
        status = same 1 (at + 1) ∙ h.status;
        length = same 2 (at + 2) ∙ h.length;
        cmd_extra = same 1 (at + 4) ∙ h.cmd_extra;
        atomic_op = same 8 (at + 8) ∙ h.atomic_op;
        src = same 8 (at + 16) ∙ h.src;
        dst = same 8 (at + 24) ∙ h.dst;
      },
      same 1 at ∙ c,
    )

get_elem?-last :
    (qs : List OcxlIrq) (q : OcxlIrq) (n : ℕ) → length qs ≡ n → get_elem? (qs ++ q ∷ []) n ≡ some q
get_elem?-last [] q zero h = refl
get_elem?-last [] q (suc n) h = absurd (omega arith)
get_elem?-last (x ∷ qs) q zero h = absurd (omega arith)
get_elem?-last (x ∷ qs) q (suc n) h = get_elem?-last qs q n (omega arith)

module _ ⦃k : Kernel⦄ where
  -- The interrupt is in use, behind those that were, and its page is that of the handle.
  abbrev pub HasHandle : State → ℕ → State → Type 0
  HasHandle s i t =
      IsIrqs t.afu
      × SameWords s.log t.log
      × SameButIrqs s.afu t.afu
      × (t.afu.irq_count ≡ s.afu.irq_count + 1)
      × (i ≡ s.afu.irq_count)
      × ((q : OcxlIrq) × (get_elem? (irqs_in_use t.afu) i ≡ some q)
          × (ocxl_irq_get_handle i t ≡ done q.addr t))

  -- The interrupts are as they were.
  abbrev pub NoHandle : State → OcxlErr → State → Type 0
  NoHandle s e t = SameWords s.log t.log × IsIrqs t.afu × SameButIrqs s.afu t.afu

  pub irq_alloc-HasHandle :
      (s : State)
      → IsIrqs s.afu
      → s.afu.irq_count < 2 ^ 15
      → Ends (HasHandle s) (NoHandle s) (ocxl_irq_alloc 0 s)
  irq_alloc-HasHandle s v small =
      let r = Resource.descriptor 0 in
      Ends-mono (λ i t. Appended r tt 0 s i t × SameWords s.log t.log)
        (λ e t. Refused r tt 0 s e t × SameWords s.log t.log) (HasHandle s) (NoHandle s) _
        (Ends-After (Appended r tt 0 s) (Refused r tt 0 s) (λ t. SameWords s.log t.log) _
          (irq_alloc-Appended r tt 0 s v small)
          (irq_alloc-Keeps SameWords (λ l bytes addr. refl)
            (λ l m n h g bytes addr. g bytes addr ∙ h bytes addr) SameWords-call 0 s))
        (λ i t (a, words).
          let last =
            get_elem?-last (irqs_in_use s.afu) a.irq i
              (length-values s.afu.irq_count s.afu.irqs.cells v.table.used ∙ sym a.index) in
          let found = ap (λ qs. get_elem? qs i) a.table.new ∙ last in
          let sizes =
            sym (length-values t.afu.irq_count t.afu.irqs.cells a.table.irqs.table.used)
            ∙ ap (λ (qs : List OcxlIrq). length qs) a.table.new
            ∙ length-append (irqs_in_use s.afu) (a.irq ∷ []) in
          let count : t.afu.irq_count ≡ s.afu.irq_count + 1 =
            omega (arith, sizes, length-values s.afu.irq_count s.afu.irqs.cells v.table.used) in
          (
            a.table.irqs,
            words,
            a.table.others,
            count,
            a.index,
            (a.irq, found, (get_handle-values t a.table.irqs.table i a.irq found).0),
          ))
        (λ e t (refused, words). (words, refused.table.irqs, refused.table.others))
