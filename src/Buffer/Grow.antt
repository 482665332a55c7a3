-- ===== src/Buffer/Grow.antt =====
-- What `grow_buffer` does to a table.
use libocxl.Base.{
  ℕ, zero, suc, ◌-◌, ◌*◌, ◌%◌, ◌^◌, ◌≤◌, ◌<◌, ◌≡◌, ◌≢◌, refl, ap, ◌∙◌, false, inl, inr, List, [],
  ◌∷◌, arith, ◌==◌, Bool-cases, length, take, replicate, length-append, length-take,
  length-replicate, take-all,
}
use libocxl.Types.{OcxlErr, Cell, indeterminate, zeroed, value, Buffer, State}
use libocxl.Kernel.{Kernel, Ends}
use libocxl.Buffer.{resized, memset_cells, next_count, grow_buffer}
use libocxl.Buffer.Table.{Assigned, values, IsTable, Assigned-append}

module _ {A : Type 0} where
  length-memset_cells :
      (from bytes size : ℕ) (cells : List (Cell A))
      → length (memset_cells from bytes size cells) ≡ length cells
  unfolding memset_cells
  length-memset_cells from bytes size [] = refl
  length-memset_cells (suc from) bytes size (x ∷ xs) =
      ap suc (length-memset_cells from bytes size xs)
  length-memset_cells zero bytes size (x ∷ xs) =
      ground (arith, length-memset_cells zero (bytes - size) size xs)

  length-resized : (n : ℕ) (cells : List (Cell A)) → length (resized n cells) ≡ n
  unfolding resized
  length-resized n cells = omega (
    arith,
    length-append (take n cells) (replicate (n - length cells) indeterminate),
    length-take n cells,
    length-replicate {A = Cell A} (n - length cells) indeterminate,
  )

  -- `memset` leaves the values below its start alone.
  Assigned-memset_cells :
      (n bytes size : ℕ) (cells : List (Cell A))
      → Assigned n cells
      → Assigned n (memset_cells n bytes size cells)
        × (values n (memset_cells n bytes size cells) ≡ values n cells)
  unfolding memset_cells
  Assigned-memset_cells zero bytes size cells h = (tt, refl)
  Assigned-memset_cells (suc n) bytes size [] h = absurd h
  Assigned-memset_cells (suc n) bytes size (indeterminate ∷ cells) h = absurd h
  Assigned-memset_cells (suc n) bytes size (zeroed ∷ cells) h = absurd h
  Assigned-memset_cells (suc n) bytes size (value x ∷ cells) h =
      let rest = Assigned-memset_cells n bytes size cells h in (rest.0, ap (λ t. x ∷ t) rest.1)

  Assigned-resized :
      (n m : ℕ) (cells : List (Cell A))
      → Assigned n cells
      → length cells ≤ m
      → Assigned n (resized m cells) × (values n (resized m cells) ≡ values n cells)
  unfolding resized
  Assigned-resized n m cells h le =
      rw (take-all m cells (omega arith)) (Assigned-append n cells _ h)

-- The table that growing makes of a full one: the same values, and room for more.
pub record IsGrown {A : Type 0} (b : Buffer A) (count initial : ℕ) (r : Buffer A × ℕ) : Type 0 where
  pub counted : r.1 ≡ next_count count initial
  pub moved : r.0.base ≢ 0
  pub table : IsTable r.0 count r.1
  pub more : count < r.1
  pub same : values count r.0.cells ≡ values count b.cells

module _ {A : Type 0} (b : Buffer A) (count size initial : ℕ) where
  grown :
      IsTable b count count
      → count < 2 ^ 15
      → 0 < initial
      → initial < 2 ^ 16
      → (temp : ℕ) → (temp == 0) ≡ false
      → let n = next_count count initial in
        IsGrown b count initial (
          record { base = temp; cells = memset_cells count (n - count) size (resized n b.cells) },
          n % 2 ^ 16,
        )
  grown t small h0 h1 temp moved =
      let n = next_count count initial in
      let fits : n % 2 ^ 16 ≡ n = ground arith in
      let wide = Assigned-resized count n b.cells t.used (ground arith) in
      let kept = Assigned-memset_cells count (n - count) size (resized n b.cells) wide.0 in
      rw fits (record {
        counted = refl;
        moved = ground arith;
        table = record {
          size =
              length-memset_cells count (n - count) size (resized n b.cells)
              ∙ length-resized n b.cells;
          used = kept.0;
          room = ground arith;
          bound = ground arith;
        };
        more = ground arith;
        same = kept.1 ∙ wide.1;
      })

module _ {A : Type 0} ⦃k : Kernel⦄ (b : Buffer A) (count size initial : ℕ) (s : State) where
  -- Growing a full table of fewer than 2^15 elements either runs out of memory and changes neither
  -- the table nor the AFU, or gives a table with the same values and twice the room, or with the
  -- initial room if there was none.
  pub grow_buffer-IsGrown :
      IsTable b count count
      → count < 2 ^ 15
      → 0 < initial
      → initial < 2 ^ 16
      → Ends
          (λ r s'. IsGrown b count initial r × (s'.afu ≡ s.afu))
          (λ e s'. (e ≡ OcxlErr.no_mem) × (s'.afu ≡ s.afu))
          (grow_buffer b count size initial s)
  unfolding grow_buffer
  grow_buffer-IsGrown t small h0 h1 =
      let n = next_count count initial in
      let temp = k.realloc s.log b.base (n * size % 2 ^ 64) in
      elim (Bool-cases (temp == 0)) [
        | inl null ↦ rw null (refl, refl)
        | inr moved ↦ rw moved (grown b count size initial t small h0 h1 temp moved, refl)
      ]

  -- At 2^15 elements the new count does not fit in its uint16_t: growing succeeds, allocates 2^16
  -- elements, and records that there are none.
  pub grow_buffer-wraps :
      count ≡ 2 ^ 15
      → Ends
          (λ r s'. (r.1 ≡ 0) × (length r.0.cells ≡ 2 ^ 16))
          (λ e s'. (e ≡ OcxlErr.no_mem) × (s'.afu ≡ s.afu))
          (grow_buffer b count size initial s)
  unfolding grow_buffer
  grow_buffer-wraps full =
      let n = next_count count initial in
      let twice : n ≡ 2 ^ 16 = ground arith in
      let temp = k.realloc s.log b.base (n * size % 2 ^ 64) in
      elim (Bool-cases (temp == 0)) [
        | inl null ↦ rw null (refl, refl)
        | inr moved ↦ rw moved (
          omega arith,
          length-memset_cells count (n - count) size (resized n b.cells)
              ∙ length-resized n b.cells
              ∙ twice,
        )
      ]
