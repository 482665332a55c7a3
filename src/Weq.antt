-- ===== src/Weq.antt =====
-- The work element queue of samples/memcpy/memcpy.c: `memcpy3_queue_length`, `memcpy3_init_weq` and
-- `memcpy3_add_we`. A pointer into the queue is an index; `wrap` is 0 or MEMCPY_WE_CMD_WRAP, here a
-- truth value.
pub mod Laps
pub mod Memory
pub mod Stores
pub mod Published
pub mod Cleared
use libocxl.Base.{
  ℕ, zero, suc, ◌+◌, ◌-◌, ◌*◌, ◌/◌, ◌%◌, Bool, true, false, not, Option, none, some, List, [], ◌∷◌,
  ltb, ◌==◌, if◌then◌else◌, length, set, replicate,
}

pub record WorkElement : Type 0 where
  pub cmd : ℕ
  pub status : ℕ
  pub length : ℕ
  pub cmd_extra : ℕ
  pub atomic_op : ℕ
  pub src : ℕ
  pub dst : ℕ

-- `limit` is one more than the index of `last`, which is before the queue if it has no element.
pub record MemcpyWeq : Type 0 where
  pub queue : List WorkElement
  pub next : ℕ
  pub limit : ℕ
  pub wrap : Bool

-- sizeof(struct memcpy_work_element), which is packed.
abbrev pub sizeof_work_element : ℕ
sizeof_work_element = 32

pub memcpy3_queue_length : (queue_size : ℕ) → ℕ
memcpy3_queue_length queue_size = queue_size / sizeof_work_element

abbrev pub zero_element : WorkElement
zero_element = record {
  cmd = 0;
  status = 0;
  length = 0;
  cmd_extra = 0;
  atomic_op = 0;
  src = 0;
  dst = 0;
}

-- `block` is what `aligned_alloc` returned: clearing NULL is undefined.
pub memcpy3_init_weq : (block queue_size : ℕ) → Option MemcpyWeq
unfolding memcpy3_queue_length
memcpy3_init_weq block queue_size =
    let n = memcpy3_queue_length queue_size in
    if block == 0
    then none
    else some (record { queue = replicate n zero_element; next = 0; limit = n; wrap = false })

-- `(cmd & ~MEMCPY_WE_CMD_WRAP) | wrap` for the 8 bits of a command.
abbrev pub wrap_cmd : (cmd : ℕ) → (wrap : Bool) → ℕ
wrap_cmd cmd wrap = cmd / 4 * 4 + (if wrap then 2 else 0) + cmd % 2

-- `weq->next++`, and back to the first element with the other wrap bit behind the last.
pub advance : MemcpyWeq → MemcpyWeq
advance weq =
    if ltb (weq.next + 1) weq.limit
    then record weq { next = weq.next + 1 }
    else record weq { next = 0; wrap = not weq.wrap }

-- The queue with the element, and the index of its copy; writing outside the queue is undefined.
pub memcpy3_add_we : MemcpyWeq → WorkElement → Option (MemcpyWeq × ℕ)
memcpy3_add_we weq we =
    if ltb weq.next (length weq.queue)
    then some (
      advance (record weq {
        queue = set weq.queue weq.next (record we { cmd = wrap_cmd we.cmd weq.wrap });
      }),
      weq.next,
    )
    else none
