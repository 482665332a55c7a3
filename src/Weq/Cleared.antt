-- ===== src/Weq/Cleared.antt =====
-- A fresh queue is in memory.
use mathlib.Core.Path.{subst}
use libocxl.Base.{
  ℕ, zero, suc, ◌+◌, ◌/◌, ◌≤◌, ◌<◌, ◌≡◌, ◌⊎◌, refl, some, inl, inr, ◌∷◌, arith, Bool-cases, ◌==◌,
  get_elem?, replicate,
}
use libocxl.Types.{State, Event, History}
use libocxl.Kernel.{Kernel, done, fault}
use libocxl.Weq.{WorkElement, zero_element, memcpy3_queue_length, memcpy3_init_weq}
use libocxl.Weq.Laps.{HasAdded, empty_weq, init_weq-HasAdded}
use libocxl.Weq.Memory.{word_at, word_at_cleared, Holds}
use libocxl.Weq.Stores.{element_at, init_weq}
use libocxl.Weq.Published.{IsInMemory}

-- The element of a replicated list, and where it is.
get_elem?-replicate :
    (n j : ℕ) (a x : WorkElement) → get_elem? (replicate n a) j ≡ some x → (a ≡ x) × (j < n)
get_elem?-replicate zero j a x h = cc
get_elem?-replicate (suc n) zero a x h = (cc, omega arith)
get_elem?-replicate (suc n) (suc j) a x h =
    let (same, lt) = get_elem?-replicate n j a x h in (same, omega (arith, lt))

-- A cleared block holds empty elements.
pub cleared-IsInMemory :
    (block queue_size : ℕ) (l : History)
    → IsInMemory block (empty_weq queue_size) (Event.store queue_size block 0 ∷ l)
cleared-IsInMemory block queue_size l j x found =
    let (same, lt) = get_elem?-replicate (queue_size / 32) j zero_element x found in
    let at = element_at block j in
    let clear : (bytes addr : ℕ)
        → 0 < bytes
        → at ≤ addr
        → addr + bytes ≤ at + 32
        → word_at (Event.store queue_size block 0 ∷ l) bytes addr ≡ some 0 =
      λ bytes addr real low high.
        word_at_cleared l queue_size block bytes addr real (omega arith) (omega (arith, lt)) in
    subst (λ y. Holds (Event.store queue_size block 0 ∷ l) at y) same
      (
        record {
          status = clear 1 (at + 1) (omega arith) (omega arith) (omega arith);
          length = clear 2 (at + 2) (omega arith) (omega arith) (omega arith);
          cmd_extra = clear 1 (at + 4) (omega arith) (omega arith) (omega arith);
          atomic_op = clear 8 (at + 8) (omega arith) (omega arith) (omega arith);
          src = clear 8 (at + 16) (omega arith) (omega arith) (omega arith);
          dst = clear 8 (at + 24) (omega arith) (omega arith) (omega arith);
        },
        clear 1 at (omega arith) (omega arith) (omega arith),
      )

-- Where the allocator gives a block, of the size of an element or more, the queue that results is in
-- memory and empty; where it gives NULL, clearing it is undefined.
init_weq-IsInMemory :
    ⦃k : Kernel⦄ (queue_size : ℕ) (s : State)
    → 32 ≤ queue_size
    → let block = k.aligned_alloc s.log k.page_size queue_size in
      (init_weq queue_size s ≡ fault) × (block ≡ 0)
      ⊎ ((t : State) × (init_weq queue_size s ≡ done (block, empty_weq queue_size) t)
          × (t.afu ≡ s.afu)
          × HasAdded (memcpy3_queue_length queue_size) 0 (empty_weq queue_size)
          × IsInMemory block (empty_weq queue_size) t.log)
unfolding init_weq memcpy3_init_weq
init_weq-IsInMemory ⦃k⦄ queue_size s large =
    let block = k.aligned_alloc s.log k.page_size queue_size in
    let l = Event.aligned_alloc k.page_size queue_size block ∷ s.log in
    elim (Bool-cases (block == 0)) [
      | inl null ↦ rw null (inl (refl, ground arith))
      | inr real ↦
          let (ran, empty) = init_weq-HasAdded block queue_size (λ e. ground arith) (omega arith) in
          inr (
            record s { log = Event.store queue_size block 0 ∷ l },
            rw ran refl,
            refl,
            empty,
            cleared-IsInMemory block queue_size l,
          )
    ]
