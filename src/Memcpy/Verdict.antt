-- ===== src/Memcpy/Verdict.antt =====
-- What a wait for an interrupt is told, the events of its checks, and what its result says of them.
use mathlib.Core.Path.{subst}
use libocxl.Base.{
  refl, ap, ◌∙◌, ℕ, ◌+◌, ◌*◌, ◌≡◌, Bool, true, false, not, ◌&&◌, ◌||◌, none, some, ◌⊎◌, List, [],
  ◌∷◌, ◌==◌, if◌then◌else◌,
}
use libocxl.Base.Int.{ℤ, pos}
use libocxl.Types.{OcxlMmioH, Cell, indeterminate, OcxlEvent, State}
use libocxl.Kernel.{Kernel, done}
use libocxl.Irq.Table.{irqs_in_use}
use libocxl.Events.{Batch}
use libocxl.Events.Ready.{FromIrqs}
use libocxl.Memcpy.{first_event, check_event, restart_afu_if_stopped}

-- The interrupt with this page, where 0 stands for no interrupt.
abbrev pub is_completion : (irq_ea : ℕ) → OcxlEvent → Bool
is_completion irq_ea (OcxlEvent.irq number handle info count) =
    not (irq_ea == 0) && (handle == irq_ea)
is_completion irq_ea (OcxlEvent.translation_fault addr dsisr count) = false

abbrev pub is_error : (err_ea : ℕ) → OcxlEvent → Bool
is_error err_ea (OcxlEvent.irq number handle info count) = handle == err_ea
is_error err_ea (OcxlEvent.translation_fault addr dsisr count) = false

abbrev pub is_fault : OcxlEvent → Bool
is_fault (OcxlEvent.irq number handle info count) = false
is_fault (OcxlEvent.translation_fault addr dsisr count) = true

-- Whether one of the events is of this kind.
abbrev pub any : (OcxlEvent → Bool) → List OcxlEvent → Bool
any f [] = false
any f (x ∷ xs) = f x || any f xs

-- The bits of a result: an error interrupt, a translation fault.
abbrev pub bits : (error fault : Bool) → ℕ
bits error fault = (if error then 1 else 0) + (if fault then 2 else 0)

pub or_shift : (a b c : Bool) → b || (a || c) ≡ (a || b) || c
or_shift true true c = refl
or_shift true false c = refl
or_shift false true c = refl
or_shift false false c = refl

pub or_false : (a : Bool) → a || false ≡ a
or_false true = refl
or_false false = refl

module _ ⦃k : Kernel⦄ (reads : ℕ) where
  -- The check gave one event, a translation fault or of an interrupt in use.
  abbrev pub Gives : ℤ → List (Cell OcxlEvent) → State → OcxlEvent → Batch → State → Type 0
  Gives timeout event s x b t =
      (check_event reads timeout event s ≡ done (some (some b)) t)
      × (b.triggered ≡ 1)
      × (first_event b.cells ≡ some x)
      × FromIrqs (irqs_in_use s.afu) x

  module _ (timeout : ℕ) (pp_mmio : OcxlMmioH) (irq_ea err_ea : ℕ) where
    -- How a wait ends, with the state before its last check: the check failed, and the result is 4;
    -- it gave the completion interrupt, the AFU was told to go on, and the result is 0; or it gave
    -- nothing, and the result is these bits, with the bit 8 if there is a timeout.
    abbrev pub Ending :
        (error fault : Bool) → ℕ → State → ℤ → List (Cell OcxlEvent) → State → Type 0
    Ending error fault n t first event s =
        ((n ≡ 4) × (check_event reads first event s ≡ done none t))
        ⊎ (((n ≡ 0)
              × (x : OcxlEvent) × (b : Batch) × (u : State) × Gives first event s x b u
              × (is_completion irq_ea x ≡ true)
              × (stopped : Bool) × (restart_afu_if_stopped pp_mmio u ≡ done stopped t))
            ⊎ ((n ≡ (if timeout == 0 then bits error fault else bits error fault + 8))
                × (b : Batch) × (check_event reads first event s ≡ done (some (some b)) t)
                × (b.triggered ≡ 0)))

    -- The checks gave these events, none of them the completion interrupt, and then the wait ended
    -- like this. Only the first check waits.
    abbrev pub Story :
        List OcxlEvent
        → (ℤ → List (Cell OcxlEvent) → State → Type 0)
        → ℤ
        → List (Cell OcxlEvent)
        → State
        → Type 0
    Story [] end first event s = end first event s
    Story (x ∷ seen) end first event s =
        (b : Batch) × (u : State) × Gives first event s x b u
        × (is_completion irq_ea x ≡ false)
        × Story seen end (pos 0) b.cells u

    -- What a wait's result says of the events that its checks gave: the bits 1 and 2 tell exactly
    -- whether an error interrupt and a translation fault were among them.
    abbrev pub Verdict : State → ℕ → State → Type 0
    Verdict s n t =
        (seen : List OcxlEvent) × Story seen
          (Ending (any (is_error err_ea) seen) (any is_fault seen) n t) (pos (timeout * 1000))
          (indeterminate ∷ []) s

    pub Story-bits :
        (seen : List OcxlEvent) (error error' xsl xsl' : Bool) (n : ℕ) (t : State) (first : ℤ)
        (event : List (Cell OcxlEvent)) (s : State)
        → error ≡ error'
        → xsl ≡ xsl'
        → Story seen (Ending error xsl n t) first event s
        → Story seen (Ending error' xsl' n t) first event s
    Story-bits seen error error' xsl xsl' n t first event s h h' story =
        subst (λ (b : Bool × Bool). Story seen (Ending b.0 b.1 n t) first event s)
          (ap (λ b. (b, xsl)) h ∙ ap (λ b. (error', b)) h') story
