-- ===== src/Mmio/Register/Slots.antt =====
-- The mapped areas as a list: the abstract view that `register_mmio` implements.
use mathlib.Core.Option
use libocxl.Base.{
  ℕ, zero, suc, ◌<◌, ◌≡◌, refl, inl, inr, Option, none, some, List, [], ◌∷◌, ◌++◌, arith, ◌==◌,
  if◌then◌else◌, Bool-cases, length, get_elem?, set,
}
use libocxl.Types.{Cell, indeterminate, zeroed, value, OcxlMmioArea}
use libocxl.Buffer.Table.{Assigned, values}
use libocxl.Mmio.Register.{find_free}

-- The first slot whose area has been unmapped.
unfoldable pub vacant : List OcxlMmioArea → Option ℕ
vacant [] = none
vacant (x ∷ xs) = if x.start == 0 then some 0 else Option.map suc (vacant xs)

-- The slot that an area is put in: the first vacant one, or a new one behind the last.
pub slot_for : List OcxlMmioArea → ℕ
slot_for [] = 0
slot_for (x ∷ xs) = if x.start == 0 then 0 else suc (slot_for xs)

-- The areas after one is put in that slot.
pub place : OcxlMmioArea → List OcxlMmioArea → List OcxlMmioArea
place a [] = a ∷ []
place a (x ∷ xs) = if x.start == 0 then a ∷ xs else x ∷ place a xs

pub find_free-vacant :
    (n : ℕ) (cells : List (Cell OcxlMmioArea))
    → Assigned n cells
    → find_free n cells ≡ some (vacant (values n cells))
unfolding find_free vacant
find_free-vacant zero cells h = refl
find_free-vacant (suc n) [] h = absurd h
find_free-vacant (suc n) (indeterminate ∷ cells) h = absurd h
find_free-vacant (suc n) (zeroed ∷ cells) h = absurd h
find_free-vacant (suc n) (value a ∷ cells) h = elim (Bool-cases (a.start == 0)) [
  | inl free ↦ rw free
  | inr used ↦ rw (used, find_free-vacant n cells h)
]

pub vacant-some :
    (xs : List OcxlMmioArea) (a : OcxlMmioArea) (i : ℕ)
    → vacant xs ≡ some i
    → (i < length xs) × (slot_for xs ≡ i) × (place a xs ≡ set xs i a)
unfolding vacant slot_for place
vacant-some [] a i e = cc
vacant-some (x ∷ xs) a zero e = elim (Bool-cases (x.start == 0)) [
  | inl free ↦ (omega arith, rw free, rw free)
  | inr used ↦ ground (arith, vacant-some xs a 0)
]
vacant-some (x ∷ xs) a (suc i) e = ground (arith, vacant-some xs a i)

pub vacant-none :
    (xs : List OcxlMmioArea) (a : OcxlMmioArea)
    → vacant xs ≡ none
    → (slot_for xs ≡ length xs) × (place a xs ≡ xs ++ a ∷ [])
unfolding vacant slot_for place
vacant-none [] a e = (refl, refl)
vacant-none (x ∷ xs) a e = ground (arith, vacant-none xs a)

pub get_elem?-place :
    (xs : List OcxlMmioArea) (a : OcxlMmioArea) → get_elem? (place a xs) (slot_for xs) ≡ some a
unfolding slot_for place
get_elem?-place [] a = refl
get_elem?-place (x ∷ xs) a = ground (arith, get_elem?-place xs a)
