-- ===== src/Memcpy/Wed.antt =====
-- `MEMCPY_WED` and `MEMCPY_WE_CMD` of samples/memcpy/memcpy.c.
use libocxl.Base.{ℕ, ◌+◌, ◌*◌, ◌/◌, ◌%◌, ◌^◌, ◌<◌, ◌≡◌, arith}

-- The queue's page and, in the 12 bits below, the depth.
pub memcpy_wed : (queue depth : ℕ) → ℕ
memcpy_wed queue depth = queue % 2 ^ 64 / 4096 * 4096 + depth % 4096

pub memcpy_we_cmd : (valid cmd : ℕ) → ℕ
memcpy_we_cmd valid cmd = valid % 2 + cmd % 64 * 4

-- What the device reads in a descriptor: the queue's address and its depth.
abbrev pub wed_queue : ℕ → ℕ
wed_queue wed = wed / 4096 * 4096

abbrev pub wed_depth : ℕ → ℕ
wed_depth wed = wed % 4096

-- A descriptor of a queue in memory that begins at a page of 4096 bytes or larger, with fewer than
-- 4096 cache lines, gives both back, and fits in 64 bits.
pub memcpy_wed_lem :
    (page depth : ℕ)
    → page * 4096 < 2 ^ 64
    → depth < 4096
    → (wed_queue (memcpy_wed (page * 4096) depth) ≡ page * 4096)
      × (wed_depth (memcpy_wed (page * 4096) depth) ≡ depth)
      × (memcpy_wed (page * 4096) depth < 2 ^ 64)
unfolding memcpy_wed
memcpy_wed_lem page depth hp hd = (omega arith, omega arith, omega arith)
