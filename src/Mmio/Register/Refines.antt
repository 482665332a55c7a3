-- ===== src/Mmio/Register/Refines.antt =====
-- `register_mmio` implements `place`.
use mathlib.Core.Path.{subst}
use libocxl.Base.{
  ℕ, suc, ◌+◌, ◌%◌, ◌^◌, ◌<◌, ◌≡◌, refl, sym, ap, ◌∙◌, true, inl, inr, none, some, List, [], ◌∷◌,
  ◌++◌, arith, ltb, ◌==◌, Bool-cases, Option-cases, length, set, length-set,
}
use libocxl.Types.{Buffer, OcxlErr, OcxlMmioType, value, OcxlMmioArea, OcxlMmioH, OcxlAfu, State}
use libocxl.Kernel.{Kernel, done, Ends, Ends-bind, Ends-cleanup}
use libocxl.Buffer.Table.{Assigned, values, IsTable, length-values, Assigned-set, Assigned-set_next}
use libocxl.Buffer.Grow.{IsGrown, grow_buffer-IsGrown}
use libocxl.Mmio.Register.{
  sizeof_mmio_area, initial_mmio_count, put_area, grow_mmios, claim_slot, register_mmio,
}
use libocxl.Mmio.Register.Slots.{
  vacant, slot_for, place, find_free-vacant, vacant-some, vacant-none,
}

-- The table of mapped areas is in order.
abbrev pub IsMmios : OcxlAfu → Type 0
IsMmios a = IsTable a.mmios a.mmio_count a.mmio_max_count

-- The areas that have been registered.
abbrev pub areas : OcxlAfu → List OcxlMmioArea
areas a = values a.mmio_count a.mmios.cells

-- Nothing but the table of mapped areas differs.
abbrev pub SameButMmios : OcxlAfu → OcxlAfu → Type 0
SameButMmios before after = after ≡ record before {
  mmios = after.mmios;
  mmio_count = after.mmio_count;
  mmio_max_count = after.mmio_max_count;
}

-- A slot behind the last has been claimed, and is not yet written.
pub record IsClaimed (before after : OcxlAfu) (i : ℕ) : Type 0 where
  pub index : i ≡ before.mmio_count
  pub count : after.mmio_count ≡ suc before.mmio_count
  pub size : length after.mmios.cells ≡ after.mmio_max_count
  pub used : Assigned before.mmio_count after.mmios.cells
  pub room : before.mmio_count < after.mmio_max_count
  pub bound : after.mmio_max_count < 65536
  pub same : values before.mmio_count after.mmios.cells ≡ areas before
  pub others : SameButMmios before after

-- The call ran out of memory, and the AFU is as it was.
abbrev pub OutOfMemory : OcxlAfu → OcxlErr → State → Type 0
OutOfMemory before e s = (e ≡ OcxlErr.no_mem) × (s.afu ≡ before)

-- The table has been given more room.
abbrev Grown : OcxlAfu → OcxlAfu → Type 0
Grown before after =
    IsGrown before.mmios before.mmio_max_count initial_mmio_count
      (after.mmios, after.mmio_max_count)
    × (after ≡ record before { mmios = after.mmios; mmio_max_count = after.mmio_max_count })

full-IsTable :
    (a : OcxlAfu)
    → IsMmios a
    → a.mmio_count ≡ a.mmio_max_count
    → IsTable a.mmios a.mmio_max_count a.mmio_max_count
full-IsTable a v full = subst (λ n. IsTable a.mmios n a.mmio_max_count) full v

claimed :
    (before mid : OcxlAfu)
    → before.mmio_count ≡ before.mmio_max_count
    → before.mmio_count < 2 ^ 15
    → Grown before mid
    → IsClaimed before (record mid { mmio_count = (mid.mmio_count + 1) % 2 ^ 16 }) mid.mmio_count
claimed before mid full small (g, same) =
    let kept : mid.mmio_count ≡ before.mmio_count = ap (λ (a : OcxlAfu). a.mmio_count) same in
    record {
      index = kept;
      count = omega arith;
      size = g.table.size;
      used = rw full g.table.used;
      room = rw full g.more;
      bound = g.table.bound;
      same = rw full g.same;
      others =
          ap
            (λ (a : OcxlAfu). record a {
              mmios = mid.mmios;
              mmio_count = (mid.mmio_count + 1) % 2 ^ 16;
              mmio_max_count = mid.mmio_max_count;
            })
            same;
    }

module _ ⦃k : Kernel⦄ (s : State) where
  grow_mmios-Grown :
      IsTable s.afu.mmios s.afu.mmio_max_count s.afu.mmio_max_count
      → s.afu.mmio_max_count < 2 ^ 15
      → Ends (λ _ s'. Grown s.afu s'.afu) (OutOfMemory s.afu) (grow_mmios s)
  unfolding grow_mmios
  grow_mmios-Grown full small =
      let P = λ (r : Buffer OcxlMmioArea × ℕ) (s' : State).
        IsGrown s.afu.mmios s.afu.mmio_max_count initial_mmio_count r × (s'.afu ≡ s.afu) in
      Ends-bind P (OutOfMemory s.afu) _ _ _ _
        (Ends-cleanup P (OutOfMemory s.afu) _ _ _
          (grow_buffer-IsGrown s.afu.mmios s.afu.mmio_max_count sizeof_mmio_area initial_mmio_count
            s full small (omega arith) (omega arith))
          (λ e s' q. q))
        (λ r s' p. (p.0, ap (λ (a : OcxlAfu). record a { mmios = r.0; mmio_max_count = r.1 }) p.1))
        (λ e s' q. q)

  pub claim_slot-IsClaimed :
      IsMmios s.afu
      → s.afu.mmio_count < 2 ^ 15
      → Ends (λ i s'. IsClaimed s.afu s'.afu i) (OutOfMemory s.afu) (claim_slot s)
  unfolding claim_slot
  claim_slot-IsClaimed v small = elim (Bool-cases (s.afu.mmio_count == s.afu.mmio_max_count)) [
    | inl full ↦ rw full (
        Ends-bind (λ _ s'. Grown s.afu s'.afu) (OutOfMemory s.afu) _ _ _ _
          (grow_mmios-Grown (full-IsTable s.afu v (ground arith)) (ground arith))
          (λ _ s' g. claimed s.afu s'.afu (ground arith) small g) (λ e s' q. q))
    | inr spare ↦ rw spare (record {
      index = refl;
      count = ground arith;
      size = v.size;
      used = v.used;
      room = ground arith;
      bound = v.bound;
      same = refl;
      others = refl;
    })
  ]

-- The outcome of registering an area.
pub record IsRegistered (a : OcxlMmioArea) (before after : OcxlAfu) (h : OcxlMmioH) : Type 0 where
  pub handle : h ≡ OcxlMmioH.area after.mmios.base (slot_for (areas before))
  pub placed : areas after ≡ place a (areas before)
  pub table : IsMmios after
  pub others : SameButMmios before after

-- `afu` with an element of its table of areas assigned.
abbrev pub with_area : OcxlAfu → ℕ → OcxlMmioArea → OcxlAfu
with_area afu i a = record afu {
  mmios = record { base = afu.mmios.base; cells = set afu.mmios.cells i (value a) };
}

reused :
    (a : OcxlMmioArea) (afu : OcxlAfu) (i : ℕ)
    → IsMmios afu
    → vacant (areas afu) ≡ some i
    → IsRegistered a afu (with_area afu i a) (OcxlMmioH.area afu.mmios.base i)
reused a afu i v found =
    let (low, slot, put) = vacant-some (areas afu) a i found in
    let n = length-values afu.mmio_count afu.mmios.cells v.used in
    let written = Assigned-set afu.mmio_count afu.mmios.cells i a v.used (omega arith) in
    record {
      handle = ap (OcxlMmioH.area afu.mmios.base) (sym slot);
      placed = written.1 ∙ sym put;
      table = record {
        size = length-set afu.mmios.cells i (value a) ∙ v.size;
        used = written.0;
        room = v.room;
        bound = v.bound;
      };
      others = refl;
    }

appended :
    (a : OcxlMmioArea) (before mid : OcxlAfu) (i : ℕ)
    → IsMmios before
    → vacant (areas before) ≡ none
    → IsClaimed before mid i
    → IsRegistered a before (with_area mid i a) (OcxlMmioH.area mid.mmios.base i)
appended a before mid i v full c =
    let (slot, put) = vacant-none (areas before) a full in
    let n = length-values before.mmio_count before.mmios.cells v.used in
    let written =
      Assigned-set_next before.mmio_count mid.mmios.cells a c.used
        (omega (arith, c.size, c.room)) in
    record {
      handle = ap (OcxlMmioH.area mid.mmios.base) (c.index ∙ sym (slot ∙ n));
      placed = rw (c.count, c.index) (written.1 ∙ ap (λ xs. xs ++ a ∷ []) c.same ∙ sym put);
      table = record {
        size = length-set mid.mmios.cells i (value a) ∙ c.size;
        used = rw (c.count, c.index) written.0;
        room = omega arith;
        bound = c.bound;
      };
      others =
          ap
            (λ (x : OcxlAfu). record x {
              mmios = record { base = mid.mmios.base; cells = set mid.mmios.cells i (value a) };
            })
            c.others;
    }

module _ ⦃k : Kernel⦄ (addr size : ℕ) (type : OcxlMmioType) (s : State) where
  abbrev new_area : OcxlMmioArea
  new_area = record { start = addr; length = size; type = type }

  pub put_area-done :
      (i : ℕ) (s' : State)
      → i < length s'.afu.mmios.cells
      → put_area i new_area s' ≡ done tt (record s' { afu = with_area s'.afu i new_area })
  unfolding put_area
  put_area-done i s' lt =
      let test : ltb i (length s'.afu.mmios.cells) ≡ true = ground arith in rw test

  -- In a table that is in order and has fewer than 2^15 areas, registering an area has no fault.
  -- Either memory runs out and the AFU is as it was, or the area is put in the first slot whose
  -- area has been unmapped, or else in a new slot behind the last; the other areas, and the AFU
  -- besides its table of areas, are as they were; the handle is that slot's address; and the table
  -- is in order again.
  pub register_mmio-IsRegistered :
      IsMmios s.afu
      → s.afu.mmio_count < 2 ^ 15
      → Ends
          (λ h s'.
            IsRegistered (record { start = addr; length = size; type = type }) s.afu s'.afu h)
          (OutOfMemory s.afu)
          (register_mmio addr size type s)
  unfolding register_mmio
  register_mmio-IsRegistered v small =
      rw (find_free-vacant s.afu.mmio_count s.afu.mmios.cells v.used)
        (elim (Option-cases (vacant (areas s.afu))) [
          | inl full ↦ rw full (
              Ends-bind (λ i s'. IsClaimed s.afu s'.afu i) (OutOfMemory s.afu) _ _ _ _
                (claim_slot-IsClaimed s v small)
                (λ i s' c.
                  rw (put_area-done i s' (omega (arith, c.index, c.size, c.room)))
                    (appended new_area s.afu s'.afu i v full c))
                (λ e s' q. q))
          | inr (i, found) ↦
              let low = (vacant-some (areas s.afu) new_area i found).0 in
              let n = length-values s.afu.mmio_count s.afu.mmios.cells v.used in
              rw (found, put_area-done i s (omega (arith, v.size, v.room)))
                (reused new_area s.afu i v found)
        ])
