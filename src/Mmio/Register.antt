-- ===== src/Mmio/Register.antt =====
-- `register_mmio` of src/mmio.c: the table of mapped areas. An area handle is the address of an
-- element of the buffer `mmios`: it dangles once the buffer has moved.
pub mod Slots
pub mod Refines
use mathlib.Core.Option
use Prim.Native.String.{String, ◌++◌ as str_append}
use libocxl.Base.{
  ℕ, zero, suc, ◌+◌, ◌-◌, ◌%◌, ◌^◌, Bool, true, false, Option, none, some, List, [], ◌∷◌, ltb, ◌==◌,
  if◌then◌else◌, length, get_elem?, set, not, ◌<◌, ◌≡◌,
}
use libocxl.Base.Int.{ℤ, is_neg, minus_one, to_size_t}
use libocxl.Types.{
  OcxlErr, OcxlMmioType, Cell, indeterminate, zeroed, value, Buffer, OcxlMmioArea, OcxlMmioH, State,
  OcxlAfu,
}
use libocxl.Kernel.{
  Kernel, Cmd, pure, undefined, gets, or_fault, on_error, return_err, ◌>>=◌, ◌>>◌, modify_afu, when,
  mmap, munmap, open_file, map_failed, prot_read_write,
}
use libocxl.Message.{errmsg, fail}
use libocxl.Buffer.{grow_buffer}

-- sizeof(ocxl_mmio_area), and INITIAL_MMIO_COUNT.
abbrev pub sizeof_mmio_area : ℕ
sizeof_mmio_area = 32

abbrev pub initial_mmio_count : ℕ
initial_mmio_count = 4

-- The value of an element: reading one that was never written is undefined.
abbrev pub read_area : Cell OcxlMmioArea → Option OcxlMmioArea
read_area indeterminate = none
read_area zeroed = some (record { start = 0; length = 0; type = OcxlMmioType.global_mmio })
read_area (value a) = some a

-- The first of the next `n` elements whose `start` is NULL, if any; `none` is a read out of bounds
-- or of an indeterminate value.
unfoldable pub find_free : ℕ → List (Cell OcxlMmioArea) → Option (Option ℕ)
find_free zero cells = some none
find_free (suc n) [] = none
find_free (suc n) (indeterminate ∷ cells) = none
find_free (suc n) (zeroed ∷ cells) = some (some 0)
find_free (suc n) (value a ∷ cells) =
    if a.start == 0 then some (some 0) else Option.map (Option.map suc) (find_free n cells)

-- `afu->mmios[i] = area`
unfoldable pub put_area : ℕ → OcxlMmioArea → Cmd (Unit {0})
put_area i a s =
    if ltb i (length s.afu.mmios.cells)
    then modify_afu
        (λ afu. record afu {
          mmios = record { base = afu.mmios.base; cells = set afu.mmios.cells i (value a) };
        })
        s
    else undefined s

-- The area behind a handle, if it is no dangling pointer.
abbrev pub area_at : OcxlMmioH → State → Option OcxlMmioArea
area_at OcxlMmioH.null s = none
area_at (OcxlMmioH.area base i) s =
    if base == s.afu.mmios.base then Option.bind (get_elem? s.afu.mmios.cells i) read_area else none

module _ ⦃k : Kernel⦄ where
  unfoldable pub grow_mmios : Cmd (Unit {0})
  grow_mmios = do
    afu ← gets (λ s. s.afu)
    (mmios, max) ←
        on_error (grow_buffer afu.mmios afu.mmio_max_count sizeof_mmio_area initial_mmio_count)
          (λ rc. fail rc)
    modify_afu (λ a. record a { mmios = mmios; mmio_max_count = max })

  -- `available_mmio = afu->mmio_count++`, after growing a full buffer.
  unfoldable pub claim_slot : Cmd ℕ
  claim_slot = do
    full ← gets (λ s. s.afu.mmio_count == s.afu.mmio_max_count)
    when full grow_mmios
    i ← gets (λ s. s.afu.mmio_count)
    modify_afu (λ a. record a { mmio_count = (a.mmio_count + 1) % 2 ^ 16 })
    pure i

  unfoldable pub register_mmio : (addr size : ℕ) → OcxlMmioType → Cmd OcxlMmioH
  register_mmio addr size type = do
    available ← gets (λ s. find_free s.afu.mmio_count s.afu.mmios.cells)
    found ← or_fault available
    i ← elim found [ some i ↦ pure i | none ↦ claim_slot ]
    put_area i (record { start = addr; length = size; type = type })
    gets (λ s. OcxlMmioH.area s.afu.mmios.base i)
