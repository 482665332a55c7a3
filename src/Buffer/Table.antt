-- ===== src/Buffer/Table.antt =====
-- A buffer used as a table: the elements below a count are assigned.
use libocxl.Base.{
  ℕ, zero, suc, ◌<◌, ◌≤◌, ◌≡◌, refl, ap, some, List, [], ◌∷◌, ◌++◌, arith, length, get_elem?, set,
}
use libocxl.Types.{Cell, indeterminate, zeroed, value, Buffer}

module _ {A : Type 0} where
  -- The first `n` elements hold values.
  abbrev pub Assigned : ℕ → List (Cell A) → Type 0
  Assigned zero cells = Unit
  Assigned (suc n) [] = ⊥
  Assigned (suc n) (indeterminate ∷ cells) = ⊥
  Assigned (suc n) (zeroed ∷ cells) = ⊥
  Assigned (suc n) (value a ∷ cells) = Assigned n cells

  -- The values of the first `n` elements.
  abbrev pub values : ℕ → List (Cell A) → List A
  values zero cells = []
  values (suc n) [] = []
  values (suc n) (indeterminate ∷ cells) = []
  values (suc n) (zeroed ∷ cells) = []
  values (suc n) (value a ∷ cells) = a ∷ values n cells

-- A table of `max` elements, of which `count` are in use. Both fit in a uint16_t.
pub record IsTable {A : Type 0} (b : Buffer A) (count max : ℕ) : Type 0 where
  pub size : length b.cells ≡ max
  pub used : Assigned count b.cells
  pub room : count ≤ max
  pub bound : max < 65536

module _ {A : Type 0} where
  pub length-values :
      (n : ℕ) (cells : List (Cell A)) → Assigned n cells → length (values n cells) ≡ n
  length-values zero cells h = refl
  length-values (suc n) [] h = absurd h
  length-values (suc n) (indeterminate ∷ cells) h = absurd h
  length-values (suc n) (zeroed ∷ cells) h = absurd h
  length-values (suc n) (value a ∷ cells) h = ap suc (length-values n cells h)

  pub get_elem?-values :
      (n : ℕ) (cells : List (Cell A)) (i : ℕ) {a : A}
      → Assigned n cells
      → get_elem? (values n cells) i ≡ some a
      → get_elem? cells i ≡ some (value a)
  get_elem?-values zero cells i h e = cc
  get_elem?-values (suc n) [] i h e = absurd h
  get_elem?-values (suc n) (indeterminate ∷ cells) i h e = absurd h
  get_elem?-values (suc n) (zeroed ∷ cells) i h e = absurd h
  get_elem?-values (suc n) (value a ∷ cells) zero h e = cc
  get_elem?-values (suc n) (value a ∷ cells) (suc i) h e = get_elem?-values n cells i h e

  -- Writing the element behind the last value.
  pub Assigned-set_next :
      (n : ℕ) (cells : List (Cell A)) (a : A)
      → Assigned n cells
      → n < length cells
      → Assigned (suc n) (set cells n (value a))
        × (values (suc n) (set cells n (value a)) ≡ values n cells ++ a ∷ [])
  Assigned-set_next zero [] a h lt = absurd (omega arith)
  Assigned-set_next zero (x ∷ cells) a h lt = (tt, refl)
  Assigned-set_next (suc n) [] a h lt = absurd h
  Assigned-set_next (suc n) (indeterminate ∷ cells) a h lt = absurd h
  Assigned-set_next (suc n) (zeroed ∷ cells) a h lt = absurd h
  Assigned-set_next (suc n) (value x ∷ cells) a h lt =
      let rest = Assigned-set_next n cells a h (omega arith) in (rest.0, ap (λ t. x ∷ t) rest.1)

  -- Writing an element that holds a value.
  pub Assigned-set :
      (n : ℕ) (cells : List (Cell A)) (i : ℕ) (a : A)
      → Assigned n cells
      → i < n
      → Assigned n (set cells i (value a))
        × (values n (set cells i (value a)) ≡ set (values n cells) i a)
  Assigned-set zero cells i a h lt = absurd (omega arith)
  Assigned-set (suc n) [] i a h lt = absurd h
  Assigned-set (suc n) (indeterminate ∷ cells) i a h lt = absurd h
  Assigned-set (suc n) (zeroed ∷ cells) i a h lt = absurd h
  Assigned-set (suc n) (value x ∷ cells) zero a h lt = (h, refl)
  Assigned-set (suc n) (value x ∷ cells) (suc i) a h lt =
      let rest = Assigned-set n cells i a h (omega arith) in (rest.0, ap (λ t. x ∷ t) rest.1)

  -- More elements behind those of a table.
  pub Assigned-append :
      (n : ℕ) (cells more : List (Cell A))
      → Assigned n cells
      → Assigned n (cells ++ more) × (values n (cells ++ more) ≡ values n cells)
  Assigned-append zero cells more h = (tt, refl)
  Assigned-append (suc n) [] more h = absurd h
  Assigned-append (suc n) (indeterminate ∷ cells) more h = absurd h
  Assigned-append (suc n) (zeroed ∷ cells) more h = absurd h
  Assigned-append (suc n) (value x ∷ cells) more h =
      let rest = Assigned-append n cells more h in (rest.0, ap (λ t. x ∷ t) rest.1)

  -- Elements that agree with those of a table.
  pub Assigned-agree :
      (n : ℕ) (xs ys : List (Cell A))
      → Assigned n xs
      → ((j : ℕ) → j < n → get_elem? ys j ≡ get_elem? xs j)
      → Assigned n ys × (values n ys ≡ values n xs)
  Assigned-agree zero xs ys h agree = (tt, refl)
  Assigned-agree (suc n) [] ys h agree = absurd h
  Assigned-agree (suc n) (indeterminate ∷ xs) ys h agree = absurd h
  Assigned-agree (suc n) (zeroed ∷ xs) ys h agree = absurd h
  Assigned-agree (suc n) (value x ∷ xs) [] h agree = let e = agree 0 (omega arith) in cc
  Assigned-agree (suc n) (value x ∷ xs) (indeterminate ∷ ys) h agree =
      let e = agree 0 (omega arith) in cc
  Assigned-agree (suc n) (value x ∷ xs) (zeroed ∷ ys) h agree = let e = agree 0 (omega arith) in cc
  Assigned-agree (suc n) (value x ∷ xs) (value y ∷ ys) h agree =
      let e : get_elem? (value y ∷ ys) 0 ≡ get_elem? (value x ∷ xs) 0 = agree 0 (omega arith) in
      let same : y ≡ x = cc in
      let rest = Assigned-agree n xs ys h (λ j lt. agree (suc j) (omega arith)) in
      (rest.0, rw same (ap (λ t. x ∷ t) rest.1))

  -- One more element that holds a value.
  pub Assigned-snoc :
      (n : ℕ) (cells : List (Cell A)) (a : A)
      → Assigned n cells
      → get_elem? cells n ≡ some (value a)
      → Assigned (suc n) cells × (values (suc n) cells ≡ values n cells ++ a ∷ [])
  Assigned-snoc zero [] a h e = cc
  Assigned-snoc zero (indeterminate ∷ cells) a h e = cc
  Assigned-snoc zero (zeroed ∷ cells) a h e = cc
  Assigned-snoc zero (value x ∷ cells) a h e = let same : x ≡ a = cc in (tt, rw same)
  Assigned-snoc (suc n) [] a h e = absurd h
  Assigned-snoc (suc n) (indeterminate ∷ cells) a h e = absurd h
  Assigned-snoc (suc n) (zeroed ∷ cells) a h e = absurd h
  Assigned-snoc (suc n) (value x ∷ cells) a h e =
      let rest = Assigned-snoc n cells a h e in (rest.0, ap (λ t. x ∷ t) rest.1)
