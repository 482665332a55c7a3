-- ===== src/Irq/Append.antt =====
-- `ocxl_irq_alloc` puts an interrupt behind those in use, or leaves the AFU with the same interrupts.
use libocxl.Base.{
  ℕ, zero, suc, ◌+◌, ◌%◌, ◌^◌, ◌<◌, ◌≡◌, ◌≢◌, refl, sym, ap, ◌∙◌, ◌⊎◌, inl, inr, false, List, [],
  ◌∷◌, ◌++◌, arith, length, lt_of_get_elem?,
}
use mathlib.Core.Path.{subst}
use libocxl.Base.Int.{is_neg}
use libocxl.Types.{OcxlErr, OcxlIrq, OcxlAfu, State}
use libocxl.Kernel.{Kernel, Ends, Ends-bind, Ends-cleanup, map_failed}
use libocxl.Buffer.Table.{IsTable, Assigned, values, Assigned-agree, Assigned-snoc}
use libocxl.Irq.{ocxl_irq_alloc, with_irq}
use libocxl.Irq.Element.{OnlyIrq, OnlyIrq-trans, OnlyIrq-with_irq, update_irq-Holds}
use libocxl.Irq.Table.{IsIrqs, Closable, irqs_in_use}
use libocxl.Irq.Ledger.{Resource, IsReal, taken, given_back, holds}
use libocxl.Irq.Grow.{
  SameButIrqs, SameButIrqs-of, SameButIrqs-trans, HasRoom, OutOfMemory, make_room-HasRoom,
}
use libocxl.Irq.Alloc.{Allocated, Undone, irq_allocate-Allocated}

-- The same interrupts are in use, and the table is in order.
pub record SameInterrupts (before after : OcxlAfu) : Type 0 where
  pub irqs : IsIrqs after
  pub same : irqs_in_use after ≡ irqs_in_use before
  pub others : SameButIrqs before after

-- An interrupt that waits on its descriptor, with its page, for the application's `info`.
pub record IsLive (cookie i : ℕ) (q : OcxlIrq) : Type 0 where
  pub number : q.irq_number ≡ i
  pub info : q.info ≡ cookie
  pub watched : is_neg q.eventfd ≡ false
  pub mapped : q.addr ≢ map_failed

-- One more interrupt is in use, and the table is in order.
pub record HasNew (q : OcxlIrq) (before after : OcxlAfu) : Type 0 where
  pub irqs : IsIrqs after
  pub new : irqs_in_use after ≡ irqs_in_use before ++ q ∷ []
  pub others : SameButIrqs before after

-- Writing the element behind those in use leaves them alone.
beyond :
    (a b : OcxlAfu) (q : OcxlIrq)
    → IsTable a.irqs a.irq_count a.irq_max_count
    → OnlyIrq a.irq_count a b q
    → Assigned a.irq_count b.irqs.cells
      × (values a.irq_count b.irqs.cells ≡ values a.irq_count a.irqs.cells)
beyond a b q v o =
    Assigned-agree a.irq_count a.irqs.cells b.irqs.cells v.used
      (λ j lt. o.rest j (λ e. omega arith))

Closable-snoc :
    (qs : List OcxlIrq) (q : OcxlIrq)
    → Closable qs
    → is_neg q.eventfd ≡ false
    → Closable (qs ++ q ∷ [])
Closable-snoc [] q c n zero x e h = cc
Closable-snoc [] q c n (suc j) x e h = cc
Closable-snoc (p ∷ qs) q c n zero x e h = c 0 x e h
Closable-snoc (p ∷ qs) q c n (suc j) x e h = Closable-snoc qs q (λ j. c (suc j)) n j x e h

module _ (r : Resource) (real : IsReal r) (info : ℕ) ⦃k : Kernel⦄ (s : State) where
  -- The interrupt was allocated: its resources are those that were taken.
  pub record Appended (i : ℕ) (t : State) : Type 0 where
    pub index : i ≡ s.afu.irq_count
    pub irq : OcxlIrq
    pub live : IsLive info i irq
    pub table : HasNew irq s.afu t.afu
    pub counted : taken r t.log ≡ holds r irq + taken r s.log
    pub kept : given_back r t.log ≡ given_back r s.log
    pub handle : t.afu_h ≡ s.afu_h

  -- It was not, and nothing that was taken is kept.
  pub record Refused (e : OcxlErr) (t : State) : Type 0 where
    pub error : (e ≡ OcxlErr.no_mem) ⊎ (e ≡ OcxlErr.internal_error)
    pub table : SameInterrupts s.afu t.afu
    pub balanced : taken r t.log + given_back r s.log ≡ taken r s.log + given_back r t.log
    pub handle : t.afu_h ≡ s.afu_h

  module _ (v : IsIrqs s.afu) where
    refused :
        (t u : State) (q : OcxlIrq)
        → HasRoom r s t
        → OnlyIrq t.afu.irq_count t.afu u.afu q
        → SameInterrupts s.afu u.afu
    refused t u q room o =
        let count : u.afu.irq_count ≡ t.afu.irq_count =
          ap (λ (a : OcxlAfu). a.irq_count) o.others in
        let max : u.afu.irq_max_count ≡ t.afu.irq_max_count =
          ap (λ (a : OcxlAfu). a.irq_max_count) o.others in
        let b = beyond t.afu u.afu q room.table o in
        let same = ap (λ n. values n u.afu.irqs.cells) count ∙ b.1 ∙ room.same in
        record {
          irqs = record {
            table = record {
              size = o.size ∙ room.table.size ∙ sym max;
              used = subst (λ n. Assigned n u.afu.irqs.cells) (sym count) b.0;
              room = omega (arith, count, max, room.table.room);
              bound = omega (arith, max, room.table.bound);
            };
            allocated = λ e. absurd (room.moved (sym o.base ∙ e));
            closable = subst (λ x. Closable x) (sym same) v.closable;
          };
          same = same;
          others =
              SameButIrqs-trans s.afu t.afu u.afu room.others (
                SameButIrqs-of t.afu u.afu u.afu.irqs t.afu.irq_count t.afu.irq_max_count o.others);
        }

    -- `irq_count++` once the element behind those in use has been written.
    appended :
        (t w : State) (q : OcxlIrq) (n : ℕ)
        → HasRoom r s t
        → s.afu.irq_count < 2 ^ 15
        → OnlyIrq t.afu.irq_count t.afu w.afu q
        → is_neg q.eventfd ≡ false
        → n ≡ (w.afu.irq_count + 1) % 2 ^ 16
        → HasNew q s.afu (record w.afu { irq_count = n })
    appended t w q n room small o watched e =
        let count : w.afu.irq_count ≡ t.afu.irq_count =
          ap (λ (a : OcxlAfu). a.irq_count) o.others in
        let max : w.afu.irq_max_count ≡ t.afu.irq_max_count =
          ap (λ (a : OcxlAfu). a.irq_max_count) o.others in
        let next : n ≡ suc t.afu.irq_count = omega (arith, e, count, room.count) in
        let b = beyond t.afu w.afu q room.table o in
        let more = Assigned-snoc t.afu.irq_count w.afu.irqs.cells q b.0 o.holds in
        let new =
          ap (λ m. values m w.afu.irqs.cells) next
          ∙ more.1
          ∙ ap (λ qs. qs ++ q ∷ []) (b.1 ∙ room.same) in
        record {
          irqs = record {
            table = record {
              size = o.size ∙ room.table.size ∙ sym max;
              used = subst (λ m. Assigned m w.afu.irqs.cells) (sym next) more.0;
              room = omega (arith, next, max, room.free);
              bound = omega (arith, max, room.table.bound);
            };
            allocated = λ e. absurd (room.moved (sym o.base ∙ e));
            closable =
                subst (λ x. Closable x) (sym new)
                  (Closable-snoc (irqs_in_use s.afu) q v.closable watched);
          };
          new = new;
          others =
              SameButIrqs-trans s.afu t.afu (record w.afu { irq_count = n }) room.others
                (SameButIrqs-of t.afu (record w.afu { irq_count = n }) w.afu.irqs n
                  t.afu.irq_max_count (ap (λ (a : OcxlAfu). record a { irq_count = n }) o.others));
        }

    -- Allocating an interrupt, where the table is in order and has fewer than 2^15 in use, has no
    -- fault. If it succeeds, the number returned is that of the interrupt put behind those in use,
    -- which has its descriptor and its page and carries the application's `info`, and each resource
    -- was taken as often as that interrupt holds it; if it fails, memory ran out or a call to the
    -- kernel failed, the same interrupts are in use, and each resource was given back as often as
    -- it was taken. Either way the table stays in order and the rest of the AFU as it was.
    pub irq_alloc-Appended :
        s.afu.irq_count < 2 ^ 15 → Ends Appended Refused (ocxl_irq_alloc info s)
    unfolding ocxl_irq_alloc
    irq_alloc-Appended small =
        Ends-bind (λ _ t. HasRoom r s t) (OutOfMemory r s) Appended Refused _ _
          (make_room-HasRoom r s v.table v.allocated small)
          (λ _ t room.
            let i = t.afu.irq_count in
            let lt : i < length t.afu.irqs.cells = omega (arith, room.table.size, room.free) in
            Ends-bind (Allocated r real i info t) (Undone r real i t) Appended Refused _ _
              (Ends-cleanup (Allocated r real i info t) (Undone r real i t) (Undone r real i t) _ _
                (irq_allocate-Allocated r real i info t lt)
                (λ e u f. record {
                  error = f.error;
                  left = f.left;
                  only = f.only;
                  balanced = f.balanced;
                  handle = f.handle;
                }))
              (λ _ u a.
                let q = record a.irq { irq_number = i } in
                let w = with_irq u.afu i q in
                let o =
                  OnlyIrq-trans i t.afu u.afu w a.irq q a.only (
                    OnlyIrq-with_irq i u.afu q (lt_of_get_elem? u.afu.irqs.cells i a.only.holds)) in
                rw (update_irq-Holds i u a.irq (λ q. record q { irq_number = i }) a.only.holds)
                  (record {
                    index = room.count;
                    irq = q;
                    live = record {
                      number = refl;
                      info = ap (λ (x : OcxlIrq). x.info) a.complete.same;
                      watched = a.complete.watched;
                      mapped = a.complete.mapped;
                    };
                    table =
                        appended t (record u { afu = w }) q _ room small o a.complete.watched refl;
                    counted = omega (arith, a.counted, room.idle.taken);
                    kept = a.kept ∙ room.idle.kept;
                    handle = a.handle ∙ room.idle.handle;
                  }))
              (λ e u f. record {
                error = inr f.error;
                table = refused t u f.left room f.only;
                balanced = omega (arith, f.balanced, room.idle.taken, room.idle.kept);
                handle = f.handle ∙ room.idle.handle;
              }))
          (λ e t (error, same, idle). record {
            error = inl error;
            table = record {
              irqs = subst (λ x. IsIrqs x) (sym same) v;
              same = ap irqs_in_use same;
              others =
                  SameButIrqs-of s.afu t.afu s.afu.irqs s.afu.irq_count s.afu.irq_max_count same;
            };
            balanced = omega (arith, idle.taken, idle.kept);
            handle = idle.handle;
          })
