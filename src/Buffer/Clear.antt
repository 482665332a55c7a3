-- ===== src/Buffer/Clear.antt =====
-- How much of the new room `grow_buffer` clears.
use libocxl.Base.{
  ℕ, zero, suc, ◌+◌, ◌-◌, ◌*◌, ◌%◌, ◌^◌, ◌<◌, ap, ◌==◌, ◌≡◌, ◌∙◌, refl, Option, some, List, [], ◌∷◌,
  arith, leb, ltb, Bool, true, false, inl, inr, Bool-cases, if◌then◌else◌, get_elem?, replicate,
}
use libocxl.Types.{OcxlErr, Cell, indeterminate, zeroed, Buffer, State}
use libocxl.Kernel.{Kernel, Ends}
use libocxl.Buffer.{resized, memset_cells, grow_buffer}

get_elem?-replicate : {A : Type 0} (m i : ℕ) (a : A) → i < m → get_elem? (replicate m a) i ≡ some a
get_elem?-replicate zero i a lt = absurd (omega arith)
get_elem?-replicate (suc m) zero a lt = refl
get_elem?-replicate (suc m) (suc i) a lt = get_elem?-replicate m i a (omega arith)

step_within :
    (i size bytes : ℕ)
    → leb size bytes ≡ true
    → leb ((suc i + 1) * size) bytes ≡ leb ((i + 1) * size) (bytes - size)
step_within i size bytes h = ground arith

step_beyond : (i size bytes : ℕ) → leb size bytes ≡ false → leb ((suc i + 1) * size) bytes ≡ false
step_beyond i size bytes h = grind arith

-- Of a fresh block, `memset` of so many bytes clears exactly the elements that lie within them.
get_elem?-memset_cells :
    {A : Type 0} (m bytes size i : ℕ)
    → 0 < size
    → i < m
    → get_elem? (memset_cells {A = A} 0 bytes size (replicate m indeterminate)) i
      ≡ some (if leb ((i + 1) * size) bytes then zeroed else indeterminate)
unfolding memset_cells
get_elem?-memset_cells zero bytes size i h lt = absurd (omega arith)
get_elem?-memset_cells (suc m) bytes size zero h lt = ground arith
get_elem?-memset_cells {A} (suc m) bytes size (suc i) h lt = elim (Bool-cases (leb size bytes)) [
  | inl within ↦
      rw (within, step_within i size bytes within)
        (get_elem?-memset_cells m (bytes - size) size i h (omega arith))
  | inr beyond ↦ rw (beyond, step_beyond i size bytes beyond) (either (ltb 0 bytes))
]
  where
    either :
        (c : Bool)
        → ◌≡◌ {A = Option (Cell A)}
            (get_elem?
              (if c
                then indeterminate ∷ replicate m indeterminate
                else indeterminate ∷ replicate m indeterminate)
              (suc i))
            (some indeterminate)
    either true = get_elem?-replicate m i indeterminate (omega arith)
    either false = get_elem?-replicate m i indeterminate (omega arith)

sub_zero : (n : ℕ) → n - 0 ≡ n
sub_zero n = omega arith

resized-nil : {A : Type 0} (n : ℕ) → resized {A = A} n [] ≡ replicate n indeterminate
unfolding resized
resized-nil zero = refl
resized-nil (suc n) = ap (λ m. replicate m indeterminate) (sub_zero (suc n))

-- Of `n` elements of `size` bytes, exactly those within the first `bytes` bytes are cleared, and
-- the others have no known value.
abbrev pub ClearedBytes : {A : Type 0} → List (Cell A) → (n size bytes : ℕ) → Type 0
ClearedBytes cells n size bytes =
    (i : ℕ)
    → i < n
    → get_elem? cells i ≡ some (if leb ((i + 1) * size) bytes then zeroed else indeterminate)

module _ {A : Type 0} ⦃k : Kernel⦄ (size initial : ℕ) (hs : 0 < size) (b : Buffer A)
    (s : State) where
  -- The first growth of a buffer makes room for the initial number of elements, but clears as many
  -- bytes as there are elements: only the elements that lie within so many bytes.
  pub grow_buffer-clears :
      b.cells ≡ []
      → Ends
          (λ r s'. ClearedBytes r.0.cells initial size initial)
          (λ e s'. (e ≡ OcxlErr.no_mem) × (s'.afu ≡ s.afu))
          (grow_buffer b 0 size initial s)
  unfolding grow_buffer
  grow_buffer-clears none_yet =
      let temp = k.realloc s.log b.base (initial * size % 2 ^ 64) in
      let fresh : resized initial b.cells ≡ replicate initial indeterminate =
        ap (resized initial) none_yet ∙ resized-nil initial in
      elim (Bool-cases (temp == 0)) [
        | inl null ↦ rw null (refl, refl)
        | inr moved ↦
            rw (moved, fresh, sub_zero initial)
              (λ i lt. get_elem?-memset_cells initial initial size i hs lt)
      ]
