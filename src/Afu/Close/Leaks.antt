-- ===== src/Afu/Close/Leaks.antt =====
-- The memory that opening and closing an AFU do not give back.
use Prim.Native.String.{String}
use libocxl.Base.{
  ℕ, ◌≡◌, ◌≢◌, refl, ap, ◌∙◌, true, false, Option, none, some, inl, inr, List, [], ◌∷◌, arith, ◌==◌,
  Bool-cases,
}
use libocxl.Base.Int.{is_neg, is_minus_one}
use libocxl.Types.{OcxlMmioArea, OcxlIrq, OcxlAfu, State, Event, History}
use libocxl.Kernel.{Kernel, Ends, Ends-mono}
use libocxl.Mmio.Map.{path_text}
use libocxl.Mmio.Register.Refines.{areas}
use libocxl.Irq.Release.{Never, page_log, interrupt_log, eventfd_log}
use libocxl.Afu.Ledger.{frees}
use libocxl.Afu.Open.{open_device, open_error, afu_open}
use libocxl.Afu.Open.Opened.{IsFresh}
use libocxl.Afu.Close.{ocxl_afu_close, open_found}
use libocxl.Afu.Close.Loops.{unmap_log, dealloc_log}
use libocxl.Irq.Table.{irqs_in_use}
use libocxl.Afu.Close.Stages.{
  IsSound, Closed, global_log, irqs_log, descriptors_log, path_log, close_log,
}
use libocxl.Afu.Close.Released.{afu_close-Closed}

-- When the device of an AFU that has been found cannot be opened, nothing is given back: closing
-- the AFU makes no call, so its struct and its two paths stay allocated, and the caller gets the
-- error.
pub open_found-leaks :
    ⦃k : Kernel⦄ (s : State) (path : String)
    → IsFresh s.afu
    → path_text s.afu.device_path ≡ some path
    → is_neg (k.open_file s.log path) ≡ true
    → Ends
        (λ _ _. ⊥)
        (λ e t.
          let l = Event.open_file path (k.open_file s.log path) ∷ s.log in
          (e ≡ open_error (k.errno l)) × (t.log ≡ l) × (t.afu ≡ s.afu))
        (open_found s)
unfolding open_found afu_open open_device ocxl_afu_close
open_found-leaks s path f e bad =
    let closed = ap is_minus_one f.fd in
    let negative = ap is_neg f.fd in rw (closed, e, bad, negative) (refl, refl, refl)

-- The block is not one that closing frees.
pub record IsOther (b : ℕ) (s : State) : Type 0 where
  pub struct_block : s.afu_h ≢ b
  pub irqs_block : s.afu.irqs.base ≢ b
  pub events_block : s.afu.epoll_events ≢ b
  pub device_block : (p : ℕ × String) → s.afu.device_path ≡ some p → p.0 ≢ b
  pub sysfs_block : (p : ℕ × String) → s.afu.sysfs_path ≡ some p → p.0 ≢ b

module _ (b : ℕ) where
  unmap_log-frees :
      (rest : List OcxlMmioArea) (l : History) → frees b (unmap_log rest l) ≡ frees b l
  unfolding frees
  unmap_log-frees [] l = refl
  unmap_log-frees (a ∷ rest) l = elim (Bool-cases (a.start == 0)) [
    | inl e ↦ rw e (unmap_log-frees rest l)
    | inr e ↦ rw e (unmap_log-frees rest (Event.munmap a.start a.length ∷ l))
  ]

  module _ ⦃k : Kernel⦄ (a : OcxlAfu) where
    page_log-frees : (q : OcxlIrq) (l : History) → frees b (page_log l a q) ≡ frees b l
    unfolding frees
    page_log-frees q l = elim (Bool-cases (q.addr == 0)) [ inl e ↦ rw e refl | inr e ↦ rw e refl ]

    interrupt_log-frees : (q : OcxlIrq) (l : History) → frees b (interrupt_log l a q) ≡ frees b l
    unfolding frees
    interrupt_log-frees q l = elim (Bool-cases (q.irq_offset == 0)) [
      | inl e ↦ rw e refl
      | inr e ↦ rw e refl
    ]

    eventfd_log-frees : (q : OcxlIrq) (l : History) → frees b (eventfd_log l a q) ≡ frees b l
    unfolding frees
    eventfd_log-frees q l = elim (Bool-cases (is_neg q.eventfd)) [
      | inl e ↦ rw e refl
      | inr e ↦ rw e refl
    ]

    dealloc_log-frees : (qs : List OcxlIrq) (l : History) → frees b (dealloc_log a qs l) ≡ frees b l
    dealloc_log-frees [] l = refl
    dealloc_log-frees (q ∷ qs) l =
        dealloc_log-frees qs _
        ∙ eventfd_log-frees q _
        ∙ interrupt_log-frees q _
        ∙ page_log-frees q l

  free-frees : (block : ℕ) (l : History) → block ≢ b → frees b (Event.free block ∷ l) ≡ frees b l
  unfolding frees
  free-frees block l ne = let test : (block == b) ≡ false = ground arith in rw test (omega arith)

  path_log-frees :
      (p : Option (ℕ × String)) (l : History)
      → ((x : ℕ × String) → p ≡ some x → x.0 ≢ b)
      → frees b (path_log p l) ≡ frees b l
  path_log-frees none l h = refl
  path_log-frees (some x) l h = free-frees x.0 l (h x refl)

module _ ⦃k : Kernel⦄ (b : ℕ) (s : State) (h : IsOther b s) where
  global_log-frees : (l : History) → frees b (global_log s.afu l) ≡ frees b l
  unfolding frees
  global_log-frees l = elim (Bool-cases (is_minus_one s.afu.global_mmio_fd)) [
    | inl e ↦ rw e refl
    | inr e ↦ rw e refl
  ]

  irqs_log-frees : (l : History) → frees b (irqs_log s.afu l) ≡ frees b l
  irqs_log-frees l = elim (Bool-cases (s.afu.irqs.base == 0)) [
    | inl e ↦ rw e refl
    | inr e ↦ rw e (
        free-frees b s.afu.irqs.base _ h.irqs_block
        ∙ dealloc_log-frees b s.afu (irqs_in_use s.afu) l)
  ]

  descriptors_log-frees : (l : History) → frees b (descriptors_log s.afu l) ≡ frees b l
  unfolding frees
  descriptors_log-frees l = elim (Bool-cases (s.afu.epoll_events == 0)) [
    | inl e ↦ rw e refl
    | inr e ↦ rw e (free-frees b s.afu.epoll_events l h.events_block)
  ]

  close_log-frees : frees b (close_log s) ≡ frees b s.log
  close_log-frees =
      free-frees b s.afu_h _ h.struct_block
      ∙ path_log-frees b s.afu.sysfs_path _ h.sysfs_block
      ∙ path_log-frees b s.afu.device_path _ h.device_block
      ∙ descriptors_log-frees _
      ∙ irqs_log-frees _
      ∙ global_log-frees _
      ∙ unmap_log-frees b (areas s.afu) s.log

-- Closing an open AFU that is in order (IsSound) never frees the buffer of its areas, if that is another block
-- than the table of interrupts, the list of events, the two paths and the struct.
afu_close-leaks :
    ⦃k : Kernel⦄ (s : State)
    → IsSound s.afu
    → is_neg s.afu.fd ≡ false
    → IsOther s.afu.mmios.base s
    → Ends
        (λ _ t. frees s.afu.mmios.base t.log ≡ frees s.afu.mmios.base s.log)
        Never
        (ocxl_afu_close s)
afu_close-leaks s v opened h =
    let b = s.afu.mmios.base in
    Ends-mono (Closed (close_log s)) Never (λ _ t. frees b t.log ≡ frees b s.log) Never _
      (afu_close-Closed s v opened) (λ _ t (l, _, _). ap (λ x. frees b x) l ∙ close_log-frees b s h)
      (λ e t n. n)
