-- ===== src/Weq/Stores.antt =====
-- The stores that `memcpy3_add_we` of samples/memcpy/memcpy.c makes, in their order: the device may
-- read the queue at any time.
use libocxl.Base.{ℕ, ◌+◌, ◌*◌}
use libocxl.Kernel.{Kernel, Cmd, pure, or_fault, ◌>>=◌, ◌>>◌, store, aligned_alloc}
use libocxl.Weq.{
  WorkElement, MemcpyWeq, sizeof_work_element, wrap_cmd, memcpy3_add_we, memcpy3_init_weq,
}

-- The address of an element of the queue at `base`.
abbrev pub element_at : (base i : ℕ) → ℕ
element_at base i = base + sizeof_work_element * i

module _ ⦃k : Kernel⦄ where
  -- The fields but for `cmd`, at their offsets in the packed struct.
  unfoldable pub store_fields : (at : ℕ) → WorkElement → Cmd (Unit {0})
  store_fields at we = do
    store 1 (at + 1) we.status
    store 2 (at + 2) we.length
    store 1 (at + 4) we.cmd_extra
    store 8 (at + 8) we.atomic_op
    store 8 (at + 16) we.src
    store 8 (at + 24) we.dst

  -- The queue with the element, and the address of its copy.
  unfoldable pub store_we : (base : ℕ) → MemcpyWeq → WorkElement → Cmd (MemcpyWeq × ℕ)
  store_we base weq we = do
    (weq', i) ← or_fault (memcpy3_add_we weq we)
    store_fields (element_at base i) we
    store 1 (element_at base i) (wrap_cmd we.cmd weq.wrap)
    pure (weq', element_at base i)

  -- `memcpy3_init_weq`: the block's address, and the queue. `memset` is one store of the whole block,
  -- and clearing NULL is undefined.
  unfoldable pub init_weq : (queue_size : ℕ) → Cmd (ℕ × MemcpyWeq)
  init_weq queue_size = do
    block ← aligned_alloc k.page_size queue_size
    weq ← or_fault (memcpy3_init_weq block queue_size)
    store queue_size block 0
    pure (block, weq)
