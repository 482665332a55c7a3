-- ===== src/Buffer.antt =====
-- `grow_buffer` of src/internal.c, over a buffer of any element type. The caller assigns the
-- buffer and the count that C updates in place.
pub mod Table
pub mod Grow
pub mod Clear
use libocxl.Base.{
  ℕ, zero, suc, ◌+◌, ◌-◌, ◌*◌, ◌%◌, ◌^◌, List, [], ◌∷◌, ◌++◌, ltb, leb, ◌==◌, if◌then◌else◌, length,
  take, replicate,
}
use libocxl.Types.{OcxlErr, Cell, indeterminate, zeroed, Buffer}
use libocxl.Kernel.{Kernel, Cmd, pure, ◌>>=◌, realloc}
use libocxl.Message.{fail}

-- (*count > 0) ? 2 * *count : initial_count
abbrev pub next_count : (count initial : ℕ) → ℕ
next_count count initial = if ltb 0 count then 2 * count else initial

module _ {A : Type 0} where
  -- The elements of a block that `realloc` has given room for `n`.
  resized : ℕ → List (Cell A) → List (Cell A)
  resized n cells = take n cells ++ replicate (n - length cells) indeterminate

  -- `memset` to 0 of so many bytes, from the element `from`, where an element takes `size` bytes.
  -- An element that is cleared in part has no known value.
  memset_cells : (from bytes size : ℕ) → List (Cell A) → List (Cell A)
  memset_cells from bytes size [] = []
  memset_cells (suc from) bytes size (x ∷ xs) = x ∷ memset_cells from bytes size xs
  memset_cells zero bytes size (x ∷ xs) =
      let rest = memset_cells zero (bytes - size) size xs in
      if leb size bytes then zeroed ∷ rest else if ltb 0 bytes then indeterminate ∷ xs else x ∷ xs

  unfoldable pub grow_buffer :
      ⦃k : Kernel⦄ → Buffer A → (count size initial : ℕ) → Cmd (Buffer A × ℕ)
  unfolding resized memset_cells
  grow_buffer buffer count size initial = do
    let n = next_count count initial
    temp ← realloc buffer.base (n * size % 2 ^ 64)
    if temp == 0
        then fail OcxlErr.no_mem
        else pure (
          record {
            base = temp;
            cells = memset_cells count (n - count) size (resized n buffer.cells);
          },
          n % 2 ^ 16,
        )
