-- ===== src/Weq/Laps.antt =====
-- Where the queue puts an element, and how the device tells it from the one that was there before.
use mathlib.Core.Option
use mathlib.Core.Path.{subst}
use libocxl.Base.{
  ℕ, zero, suc, ◌+◌, ◌*◌, ◌<◌, ◌≡◌, ◌≢◌, refl, sym, ap, ◌∙◌, Bool, true, false, not, Option, List,
  [], ◌∷◌, some, inl, inr, arith, ltb, ◌==◌, Bool-cases, length, get_elem?, set, length-set,
  get_elem?-set_self, get_elem?-set_ne, length-replicate, replicate, ◌/◌,
}
use libocxl.Weq.{
  WorkElement, MemcpyWeq, zero_element, wrap_cmd, advance, memcpy3_queue_length, memcpy3_init_weq,
  memcpy3_add_we,
}

unfoldable pub is_odd : ℕ → Bool
is_odd zero = false
is_odd (suc n) = not (is_odd n)

-- `total` elements have been added to a queue of `n`: `lap` times all of it, and `next` more.
pub record HasAdded (n total : ℕ) (w : MemcpyWeq) : Type 0 where
  pub size : length w.queue ≡ n
  pub limit : w.limit ≡ n
  pub lap : ℕ
  pub position : total ≡ lap * n + w.next
  pub inside : w.next < n
  pub wrap : w.wrap ≡ is_odd lap

-- The queue before anything has been added to it.
abbrev pub empty_weq : (queue_size : ℕ) → MemcpyWeq
empty_weq queue_size = record {
  queue = replicate (queue_size / 32) zero_element;
  next = 0;
  limit = queue_size / 32;
  wrap = false;
}

pub init_weq-HasAdded :
    (block queue_size : ℕ)
    → block ≢ 0
    → 32 < queue_size + 1
    → (memcpy3_init_weq block queue_size ≡ some (empty_weq queue_size))
      × HasAdded (memcpy3_queue_length queue_size) 0 (empty_weq queue_size)
unfolding memcpy3_init_weq memcpy3_queue_length is_odd
init_weq-HasAdded block queue_size real large =
    let test : (block == 0) ≡ false = ground arith in
    (
      rw test refl,
      record {
        size = length-replicate (queue_size / 32) zero_element;
        limit = refl;
        lap = 0;
        position = omega arith;
        inside = omega arith;
        wrap = refl;
      },
    )

advance-HasAdded :
    (n total : ℕ) (w : MemcpyWeq)
    → HasAdded n total w
    → HasAdded n (total + 1) (advance w) × ((advance w).queue ≡ w.queue)
unfolding advance is_odd
advance-HasAdded n total w h = elim (Bool-cases (ltb (w.next + 1) w.limit)) [
  | inl more ↦ rw more (
    record {
      size = h.size;
      limit = h.limit;
      lap = h.lap;
      position = omega (arith, h.position);
      inside = ground (arith, h.limit);
      wrap = h.wrap;
    },
    refl,
  )
  | inr last ↦
      let full : n ≡ w.next + 1 = ground (arith, h.limit, h.inside) in
      let next_lap : suc h.lap * n ≡ h.lap * n + n = grind arith in
      rw last (
        record {
          size = h.size;
          limit = h.limit;
          lap = suc h.lap;
          position = omega (arith, h.position, full, next_lap);
          inside = omega (arith, full);
          wrap = ap not h.wrap;
        },
        refl,
      )
]

-- Adding an element to a queue of `n` that `total` elements have been added to writes only the slot
-- returned, which is the number of the elements added in this lap, with the wrap bit set in every
-- second lap; then one more element has been added.
pub add_we-HasAdded :
    (n total : ℕ) (w : MemcpyWeq) (we : WorkElement) (h : HasAdded n total w)
    → (w' : MemcpyWeq) × (memcpy3_add_we w we ≡ some (w', w.next))
      × HasAdded n (total + 1) w'
      × (get_elem? w'.queue w.next ≡ some (record we { cmd = wrap_cmd we.cmd (is_odd h.lap) }))
      × ((j : ℕ) → j ≢ w.next → get_elem? w'.queue j ≡ get_elem? w.queue j)
unfolding memcpy3_add_we
add_we-HasAdded n total w we h =
    let x = record we { cmd = wrap_cmd we.cmd w.wrap } in
    let v = record w { queue = set w.queue w.next x } in
    let room : ltb w.next (length w.queue) ≡ true = ground (arith, h.inside, h.size) in
    let written : HasAdded n total v = record {
      size = length-set w.queue w.next x ∙ h.size;
      limit = h.limit;
      lap = h.lap;
      position = h.position;
      inside = h.inside;
      wrap = h.wrap;
    } in
    let (added, same) = advance-HasAdded n total v written in
    (
      advance v,
      rw room refl,
      added,
      ap (λ q. get_elem? q w.next) same
          ∙ get_elem?-set_self w.queue w.next x (omega (arith, h.inside, h.size))
          ∙ ap (λ b. some (record we { cmd = wrap_cmd we.cmd b })) h.wrap,
      λ j ne. ap (λ q. get_elem? q j) same ∙ get_elem?-set_ne w.queue w.next j x (λ e. ne (sym e)),
    )

-- Adding one element after another.
add_all : MemcpyWeq → List WorkElement → Option MemcpyWeq
add_all w [] = some w
add_all w (we ∷ rest) = Option.bind (memcpy3_add_we w we) (λ p. add_all p.0 rest)

add_all-HasAdded :
    (n total : ℕ) (w : MemcpyWeq) (wes : List WorkElement)
    → HasAdded n total w
    → (w' : MemcpyWeq) × (add_all w wes ≡ some w') × HasAdded n (total + length wes) w'
unfolding add_all Option.bind
add_all-HasAdded n total w [] h =
    let same : total ≡ total + 0 = omega arith in (w, refl, subst (λ m. HasAdded n m w) same h)
add_all-HasAdded n total w (we ∷ rest) h =
    let (v, ran, added, _, _) = add_we-HasAdded n total w we h in
    let (w', all, more) = add_all-HasAdded n (total + 1) v rest added in
    let same : total + 1 + length rest ≡ total + length (we ∷ rest) = omega arith in
    (w', rw ran all, subst (λ m. HasAdded n m w') same more)

-- A queue of at least one element that could be allocated takes any number of elements, one after
-- another, without writing outside. The place for the next element and the wrap bit are then those
-- of that many elements, lap by lap.
init_weq-add_all :
    (block queue_size : ℕ) (wes : List WorkElement)
    → block ≢ 0
    → 32 < queue_size + 1
    → (w : MemcpyWeq) × (memcpy3_init_weq block queue_size ≡ some w)
      × ((w' : MemcpyWeq) × (add_all w wes ≡ some w')
          × HasAdded (memcpy3_queue_length queue_size) (length wes) w')
init_weq-add_all block queue_size wes real large =
    let w = empty_weq queue_size in
    let (ran, empty) = init_weq-HasAdded block queue_size real large in
    let (w', all, added) = add_all-HasAdded _ 0 w wes empty in
    let same : 0 + length wes ≡ length wes = omega arith in
    (w, ran, (w', all, subst (λ m. HasAdded (memcpy3_queue_length queue_size) m w') same added))
