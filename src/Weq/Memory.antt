-- ===== src/Weq/Memory.antt =====
-- What the stores in the history leave in memory.
use libocxl.Base.{
  ℕ, ◌+◌, ◌≤◌, ◌<◌, ◌≡◌, ◌⊎◌, Option, none, some, [], ◌∷◌, ◌||◌, ◌&&◌, leb, ◌==◌, ◌∙◌,
  if◌then◌else◌, arith,
}
use libocxl.Types.{Event, History}
use libocxl.Weq.{WorkElement}

-- The word of so many bytes at an address: the latest store that touches it is of that word, or
-- clears a block that has it; otherwise it is not known.
unfoldable pub word_at : History → (bytes addr : ℕ) → Option ℕ
word_at [] bytes addr = none
word_at (Event.store b a v ∷ l) bytes addr =
    if leb (addr + bytes) a || leb (a + b) addr
    then word_at l bytes addr
    else if (b == bytes) && (a == addr)
    then some v
    else if (v == 0) && (leb a addr && leb (addr + bytes) (a + b))
    then some 0
    else none
word_at (e ∷ l) bytes addr = word_at l bytes addr

module _ (l : History) (b a v bytes addr : ℕ) where
  word_at_apart :
      (addr + bytes ≤ a) ⊎ (a + b ≤ addr)
      → word_at (Event.store b a v ∷ l) bytes addr ≡ word_at l bytes addr
  unfolding word_at
  word_at_apart h = ground arith

word_at_self : (l : History) (b a v : ℕ) → 0 < b → word_at (Event.store b a v ∷ l) b a ≡ some v
unfolding word_at
word_at_self l b a v h = ground arith

pub word_at_cleared :
    (l : History) (b a bytes addr : ℕ)
    → 0 < bytes
    → a ≤ addr
    → addr + bytes ≤ a + b
    → word_at (Event.store b a 0 ∷ l) bytes addr ≡ some 0
unfolding word_at
word_at_cleared l b a bytes addr h0 h1 h2 = ground arith

-- The fields of an element but for its command, and all of them.
pub record HoldsFields (l : History) (at : ℕ) (we : WorkElement) : Type 0 where
  pub status : word_at l 1 (at + 1) ≡ some we.status
  pub length : word_at l 2 (at + 2) ≡ some we.length
  pub cmd_extra : word_at l 1 (at + 4) ≡ some we.cmd_extra
  pub atomic_op : word_at l 8 (at + 8) ≡ some we.atomic_op
  pub src : word_at l 8 (at + 16) ≡ some we.src
  pub dst : word_at l 8 (at + 24) ≡ some we.dst

abbrev pub Holds : History → ℕ → WorkElement → Type 0
Holds l at we = HoldsFields l at we × (word_at l 1 at ≡ some we.cmd)

-- The history after the stores of the fields.
abbrev pub fields_stored : ℕ → WorkElement → History → History
fields_stored at we l =
    Event.store 8 (at + 24) we.dst
    ∷ (Event.store 8 (at + 16) we.src
        ∷ (Event.store 8 (at + 8) we.atomic_op
            ∷ (Event.store 1 (at + 4) we.cmd_extra
                ∷ (Event.store 2 (at + 2) we.length ∷ (Event.store 1 (at + 1) we.status ∷ l)))))

pub fields_stored-HoldsFields :
    (at : ℕ) (we : WorkElement) (l : History) → HoldsFields (fields_stored at we l) at we
unfolding word_at
fields_stored-HoldsFields at we l = record {
  status = ground arith;
  length = ground arith;
  cmd_extra = ground arith;
  atomic_op = ground arith;
  src = ground arith;
  dst = ground arith;
}

-- The stores leave alone what lies outside the bytes from 1 to 32 of the element.
pub fields_stored-apart :
    (at : ℕ) (we : WorkElement) (l : History) (bytes addr : ℕ)
    → (addr + bytes ≤ at + 1) ⊎ (at + 32 ≤ addr)
    → word_at (fields_stored at we l) bytes addr ≡ word_at l bytes addr
unfolding word_at
fields_stored-apart at we l bytes addr h = ground arith

-- A store of the command alone keeps the fields.
store_cmd-HoldsFields :
    (at v : ℕ) (we : WorkElement) (l : History)
    → HoldsFields l at we
    → HoldsFields (Event.store 1 at v ∷ l) at we
unfolding word_at
store_cmd-HoldsFields at v we l h = record {
  status = ground (arith, h.status);
  length = ground (arith, h.length);
  cmd_extra = ground (arith, h.cmd_extra);
  atomic_op = ground (arith, h.atomic_op);
  src = ground (arith, h.src);
  dst = ground (arith, h.dst);
}

-- The history after an element has been stored, its command last.
abbrev pub element_stored : (at cmd : ℕ) → WorkElement → History → History
element_stored at cmd we l = Event.store 1 at cmd ∷ fields_stored at we l

-- The stores of an element leave another element alone.
pub element_stored-apart :
    (at cmd : ℕ) (we : WorkElement) (l : History) (at' : ℕ) (x : WorkElement)
    → (at' + 32 ≤ at) ⊎ (at + 32 ≤ at')
    → Holds l at' x
    → Holds (element_stored at cmd we l) at' x
element_stored-apart at cmd we l at' x apart (h, c) =
    let m = fields_stored at we l in
    let kept : (bytes addr : ℕ)
        → at' ≤ addr
        → addr + bytes ≤ at' + 32
        → word_at (element_stored at cmd we l) bytes addr ≡ word_at l bytes addr =
      λ bytes addr low high.
        word_at_apart m 1 at cmd bytes addr (ground arith)
        ∙ fields_stored-apart at we l bytes addr (ground arith) in
    (
      record {
        status = kept 1 (at' + 1) (omega arith) (omega arith) ∙ h.status;
        length = kept 2 (at' + 2) (omega arith) (omega arith) ∙ h.length;
        cmd_extra = kept 1 (at' + 4) (omega arith) (omega arith) ∙ h.cmd_extra;
        atomic_op = kept 8 (at' + 8) (omega arith) (omega arith) ∙ h.atomic_op;
        src = kept 8 (at' + 16) (omega arith) (omega arith) ∙ h.src;
        dst = kept 8 (at' + 24) (omega arith) (omega arith) ∙ h.dst;
      },
      kept 1 at' (omega arith) (omega arith) ∙ c,
    )

-- The stores of an element put it there.
pub element_stored-Holds :
    (at v : ℕ) (we : WorkElement) (l : History)
    → Holds (element_stored at v we l) at (record we { cmd = v })
element_stored-Holds at v we l =
    let f = store_cmd-HoldsFields at v we _ (fields_stored-HoldsFields at we l) in
    (
      record {
        status = f.status;
        length = f.length;
        cmd_extra = f.cmd_extra;
        atomic_op = f.atomic_op;
        src = f.src;
        dst = f.dst;
      },
      word_at_self _ 1 at v (omega arith),
    )
