-- ===== src/Events/Written.antt =====
-- The application's array between two moments.
use libocxl.Base.{
  ℕ, ◌+◌, ◌%◌, ◌^◌, ◌≤◌, ◌<◌, ◌≡◌, refl, sym, ap, ◌∙◌, true, some, inl, inr, arith, ltb, Bool-cases,
  length, get_elem?, set, length-set, get_elem?-set_self, get_elem?-set_ne, lt_of_get_elem?,
}
use libocxl.Types.{value, OcxlEvent}
use libocxl.Events.{Batch, put_event}

-- `b` with one more event.
abbrev pub added : Batch → OcxlEvent → Batch
added b x = record { cells = set b.cells b.triggered (value x); triggered = b.triggered + 1 }

pub put_event-added :
    (b : Batch) (x : OcxlEvent)
    → b.triggered < length b.cells
    → length b.cells < 2 ^ 16
    → put_event b x ≡ some (added b x)
put_event-added b x lt small =
    let test : ltb b.triggered (length b.cells) ≡ true = ground arith in
    let fits : (b.triggered + 1) % 2 ^ 16 ≡ b.triggered + 1 = omega arith in rw (test, fits)

module _ (P : OcxlEvent → Type 0) where
  -- Events with this property were written behind those that were there, and nothing else.
  pub record Written (b b' : Batch) : Type 0 where
    pub more : b.triggered ≤ b'.triggered
    pub size : length b'.cells ≡ length b.cells
    pub before : (j : ℕ) → j < b.triggered → get_elem? b'.cells j ≡ get_elem? b.cells j
    pub behind : (j : ℕ) → b'.triggered ≤ j → get_elem? b'.cells j ≡ get_elem? b.cells j
    pub events :
        (j : ℕ)
        → b.triggered ≤ j
        → j < b'.triggered
        → (x : OcxlEvent) × (get_elem? b'.cells j ≡ some (value x)) × P x

  pub Written-refl : (b : Batch) → Written b b
  Written-refl b = record {
    more = omega arith;
    size = refl;
    before = λ j h. refl;
    behind = λ j h. refl;
    events = λ j h h'. absurd (omega arith);
  }

  pub Written-trans : (a b c : Batch) → Written a b → Written b c → Written a c
  Written-trans a b c h k = record {
    more = omega (arith, h.more, k.more);
    size = k.size ∙ h.size;
    before = λ j lt. k.before j (omega (arith, h.more)) ∙ h.before j lt;
    behind = λ j le. k.behind j le ∙ h.behind j (omega (arith, k.more));
    events = λ j le lt. elim (Bool-cases (ltb j b.triggered)) [
      | inl early ↦
          let (x, found, p) = h.events j le (ground arith) in
          (x, k.before j (ground arith) ∙ found, p)
      | inr late ↦ k.events j (ground arith) lt
    ];
  }

  pub Written-added :
      (b : Batch) (x : OcxlEvent) → b.triggered < length b.cells → P x → Written b (added b x)
  Written-added b x room p = record {
    more = omega arith;
    size = length-set b.cells b.triggered _;
    before = λ j h. get_elem?-set_ne b.cells b.triggered j _ (λ e. omega arith);
    behind = λ j h. get_elem?-set_ne b.cells b.triggered j _ (λ e. omega arith);
    events = λ j le h.
        let here : b.triggered ≡ j = omega arith in
        (
          x,
          ap (λ n. get_elem? (set b.cells b.triggered (value x)) n) (sym here)
              ∙ get_elem?-set_self b.cells b.triggered _ room,
          p,
        );
  }

-- Events are written within the array.
pub Written-bound :
    (P : OcxlEvent → Type 0) (b b' : Batch)
    → Written P b b'
    → b.triggered ≤ length b.cells
    → b'.triggered ≤ length b.cells
Written-bound P b b' w le = elim (Bool-cases (ltb (length b.cells) b'.triggered)) [
  | inr inside ↦ ground arith
  | inl outside ↦
      let (x, found, _) = w.events (length b.cells) le (ground arith) in
      absurd (omega (arith, lt_of_get_elem? b'.cells (length b.cells) found, w.size))
]

pub Written-mono :
    (P Q : OcxlEvent → Type 0) (b b' : Batch)
    → ((x : OcxlEvent) → P x → Q x)
    → Written P b b'
    → Written Q b b'
Written-mono P Q b b' f h = record {
  more = h.more;
  size = h.size;
  before = h.before;
  behind = h.behind;
  events = λ j le lt. let (x, found, p) = h.events j le lt in (x, found, f x p);
}
