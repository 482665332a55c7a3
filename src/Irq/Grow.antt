-- ===== src/Irq/Grow.antt =====
-- Making room in the table of interrupts.
use mathlib.Core.Path.{subst}
use libocxl.Base.{
  ℕ, ◌*◌, ◌%◌, ◌^◌, ◌<◌, ◌≡◌, ◌≢◌, refl, sym, ap, ◌∙◌, inl, inr, arith, ◌==◌, Bool-cases,
}
use libocxl.Types.{OcxlErr, Buffer, OcxlIrq, OcxlAfu, State}
use libocxl.Kernel.{
  Kernel, Cmd, Ends, Ends-bind, Ends-mono, Ends-both, Ends-cleanup, gets, when, ◌>>=◌,
}
use libocxl.Buffer.{next_count, grow_buffer}
use libocxl.Buffer.Table.{IsTable, values}
use libocxl.Buffer.Grow.{IsGrown, grow_buffer-IsGrown}
use libocxl.Irq.{sizeof_irq, initial_irq_count, grow_irqs}
use libocxl.Irq.Ledger.{Resource, taken, given_back}

-- Nothing but the table of interrupts differs.
abbrev pub SameButIrqs : OcxlAfu → OcxlAfu → Type 0
SameButIrqs before after = after ≡ record before {
  irqs = after.irqs;
  irq_count = after.irq_count;
  irq_max_count = after.irq_max_count;
}

pub SameButIrqs-of :
    (a b : OcxlAfu) (irqs : Buffer OcxlIrq) (n m : ℕ)
    → b ≡ record a { irqs = irqs; irq_count = n; irq_max_count = m }
    → SameButIrqs a b
SameButIrqs-of a b irqs n m e = subst (λ x. SameButIrqs a x) (sym e) refl

pub SameButIrqs-trans : (a b c : OcxlAfu) → SameButIrqs a b → SameButIrqs b c → SameButIrqs a c
SameButIrqs-trans a b c h k =
    k
    ∙ ap
        (λ (x : OcxlAfu). record x {
          irqs = c.irqs;
          irq_count = c.irq_count;
          irq_max_count = c.irq_max_count;
        })
        h

module _ (r : Resource) where
  -- The resource was neither taken nor given back.
  pub record IsIdle (s t : State) : Type 0 where
    pub taken : taken r t.log ≡ taken r s.log
    pub kept : given_back r t.log ≡ given_back r s.log
    pub handle : t.afu_h ≡ s.afu_h

  grow_irqs-IsIdle :
      ⦃k : Kernel⦄ (s : State) → Ends (λ _ t. IsIdle s t) (λ _ t. IsIdle s t) (grow_irqs s)
  unfolding grow_irqs grow_buffer taken given_back
  grow_irqs-IsIdle ⦃k⦄ s =
      let n = next_count s.afu.irq_max_count initial_irq_count in
      elim (Bool-cases (k.realloc s.log s.afu.irqs.base (n * sizeof_irq % 2 ^ 64) == 0)) [
        | inl e ↦ rw e (record { taken = refl; kept = refl; handle = refl })
        | inr e ↦ rw e (record { taken = refl; kept = refl; handle = refl })
      ]

  -- The table has a free element behind those in use, which are the same.
  pub record HasRoom (s t : State) : Type 0 where
    pub table : IsTable t.afu.irqs t.afu.irq_count t.afu.irq_max_count
    pub count : t.afu.irq_count ≡ s.afu.irq_count
    pub free : t.afu.irq_count < t.afu.irq_max_count
    pub moved : t.afu.irqs.base ≢ 0
    pub same : values t.afu.irq_count t.afu.irqs.cells ≡ values s.afu.irq_count s.afu.irqs.cells
    pub others : SameButIrqs s.afu t.afu
    pub idle : IsIdle s t

  abbrev pub OutOfMemory : State → OcxlErr → State → Type 0
  OutOfMemory s e t = (e ≡ OcxlErr.no_mem) × (t.afu ≡ s.afu) × IsIdle s t

  module _ ⦃k : Kernel⦄ (s : State) where
    abbrev Grown : Unit {0} → State → Type 0
    Grown _ t =
        IsGrown s.afu.irqs s.afu.irq_max_count initial_irq_count (t.afu.irqs, t.afu.irq_max_count)
        × (t.afu ≡ record s.afu { irqs = t.afu.irqs; irq_max_count = t.afu.irq_max_count })

    grow_irqs-Grown :
        IsTable s.afu.irqs s.afu.irq_max_count s.afu.irq_max_count
        → s.afu.irq_max_count < 2 ^ 15
        → Ends Grown (λ e t. (e ≡ OcxlErr.no_mem) × (t.afu ≡ s.afu)) (grow_irqs s)
    unfolding grow_irqs
    grow_irqs-Grown full small =
        let P = λ (b : Buffer OcxlIrq × ℕ) (t : State).
          IsGrown s.afu.irqs s.afu.irq_max_count initial_irq_count b × (t.afu ≡ s.afu) in
        let Q = λ (e : OcxlErr) (t : State). (e ≡ OcxlErr.no_mem) × (t.afu ≡ s.afu) in
        Ends-bind P Q Grown Q _ _
          (Ends-cleanup P Q Q _ _
            (grow_buffer-IsGrown s.afu.irqs s.afu.irq_max_count sizeof_irq initial_irq_count s full
              small (omega arith) (omega arith))
            (λ e t q. q))
          (λ b t p. (p.0, ap (λ (a : OcxlAfu). record a { irqs = b.0; irq_max_count = b.1 }) p.1))
          (λ e t q. q)

    -- `if (afu->irq_count == afu->irq_max_count) grow`
    abbrev pub make_room : Cmd (Unit {0})
    make_room = do full ← gets (λ s. s.afu.irq_count == s.afu.irq_max_count); when full grow_irqs

    pub make_room-HasRoom :
        IsTable s.afu.irqs s.afu.irq_count s.afu.irq_max_count
        → (s.afu.irqs.base ≡ 0 → s.afu.irq_max_count ≡ 0)
        → s.afu.irq_count < 2 ^ 15
        → Ends (λ _ t. HasRoom s t) (OutOfMemory s) (make_room s)
    make_room-HasRoom v h small = elim (Bool-cases (s.afu.irq_count == s.afu.irq_max_count)) [
      | inl full ↦
          let same : s.afu.irq_count ≡ s.afu.irq_max_count = ground arith in
          rw full (
            Ends-mono _ _ (λ _ t. HasRoom s t) (OutOfMemory s) _
              (Ends-both Grown (λ e t. (e ≡ OcxlErr.no_mem) × (t.afu ≡ s.afu)) (λ _ t. IsIdle s t)
                (λ _ t. IsIdle s t) _
                (grow_irqs-Grown (subst (λ n. IsTable s.afu.irqs n s.afu.irq_max_count) same v)
                  (omega (arith, same)))
                (grow_irqs-IsIdle s))
              (λ _ t ((g, o), idle).
                let kept : t.afu.irq_count ≡ s.afu.irq_count =
                  ap (λ (a : OcxlAfu). a.irq_count) o in
                record {
                  table =
                      subst (λ n. IsTable t.afu.irqs n t.afu.irq_max_count) (sym same ∙ sym kept)
                        g.table;
                  count = kept;
                  free = omega (arith, g.more, same, kept);
                  moved = g.moved;
                  same =
                      ap (λ n. values n t.afu.irqs.cells) (kept ∙ same)
                      ∙ g.same
                      ∙ ap (λ n. values n s.afu.irqs.cells) (sym same);
                  others =
                      SameButIrqs-of s.afu t.afu t.afu.irqs s.afu.irq_count t.afu.irq_max_count o;
                  idle = idle;
                })
              (λ e t ((a, b), idle). (a, b, idle)))
      | inr spare ↦ rw spare (record {
        table = v;
        count = refl;
        free = ground (arith, v.room);
        moved = λ e. ground (arith, h e, v.room);
        same = refl;
        others = refl;
        idle = record { taken = refl; kept = refl; handle = refl };
      })
    ]
