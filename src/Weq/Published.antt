-- ===== src/Weq/Published.antt =====
-- The stores of `memcpy3_add_we` carry out the queue's operation in memory, and the command, which
-- tells the device that the element is there, is stored last.
use mathlib.Core.Path.{subst}
use libocxl.Base.{
  ℕ, ◌+◌, ◌≡◌, ◌≢◌, refl, sym, ◌∙◌, some, inl, inr, ◌∷◌, arith, Bool-cases, ◌==◌, get_elem?,
}
use libocxl.Types.{State, Event, History}
use libocxl.Kernel.{Kernel, done}
use libocxl.Weq.{WorkElement, MemcpyWeq, wrap_cmd, memcpy3_add_we}
use libocxl.Weq.Laps.{HasAdded, is_odd, add_we-HasAdded}
use libocxl.Weq.Memory.{
  word_at, HoldsFields, Holds, fields_stored, fields_stored-HoldsFields, fields_stored-apart,
  element_stored-apart, element_stored-Holds,
}
use libocxl.Weq.Stores.{element_at, store_fields, store_we}

-- Every element of the queue is in memory, at its place in the block at `base`.
abbrev pub IsInMemory : (base : ℕ) → MemcpyWeq → History → Type 0
IsInMemory base w l =
    (j : ℕ) (x : WorkElement) → get_elem? w.queue j ≡ some x → Holds l (element_at base j) x

module _ ⦃k : Kernel⦄ (n total base : ℕ) (w : MemcpyWeq) (we : WorkElement) (s : State)
    (h : HasAdded n total w) where
  -- The command with the wrap bit of the queue.
  abbrev pub cmd : ℕ
  cmd = wrap_cmd we.cmd w.wrap

  -- The history when the fields are stored, and when the command is stored too.
  abbrev pub before_cmd : History
  before_cmd = fields_stored (element_at base w.next) we s.log

  abbrev pub published : State
  published = record s { log = Event.store 1 (element_at base w.next) cmd ∷ before_cmd }

  -- Storing an element in a queue of `n` that is in memory, and that `total` elements have been
  -- added to, does what adding it to the queue does: the queue that results is again in memory, and
  -- one more element has been added. The last of its stores is that of the command: before it the
  -- command in memory is the one that was there, and all the other fields are the new element's.
  pub store_we-IsInMemory :
      IsInMemory base w s.log
      → (w' : MemcpyWeq) × (memcpy3_add_we w we ≡ some (w', w.next))
        × (store_we base w we s ≡ done (w', element_at base w.next) published)
        × HasAdded n (total + 1) w'
        × IsInMemory base w' published.log
        × (word_at before_cmd 1 (element_at base w.next) ≡ word_at s.log 1 (element_at base w.next))
        × HoldsFields before_cmd (element_at base w.next) we
  unfolding store_we store_fields
  store_we-IsInMemory there =
      let (w', ran, added, here, others) = add_we-HasAdded n total w we h in
      let at = element_at base w.next in
      let stays : IsInMemory base w' published.log = λ j x found. elim (Bool-cases (j == w.next)) [
        | inl same ↦
            let e : w.next ≡ j = ground arith in
            let odd : record we { cmd = wrap_cmd we.cmd (is_odd h.lap) } ≡ x = cc in
            let written : record we { cmd = cmd } ≡ x = rw h.wrap odd in
            subst (λ i. Holds published.log (element_at base i) x) e
              (subst (λ y. Holds published.log at y) written (element_stored-Holds at cmd we s.log))
        | inr other ↦
            let apart : j ≢ w.next = λ e. ground arith in
            element_stored-apart at cmd we s.log (element_at base j) x (ground arith)
              (there j x (sym (others j apart) ∙ found))
      ] in
      let first = fields_stored-apart at we s.log 1 at (inl (omega arith)) in
      (w', ran, rw ran refl, added, stays, first, fields_stored-HoldsFields at we s.log)
