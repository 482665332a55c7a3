-- ===== src/Tests/Weq.antt =====
-- The work element queue at concrete inputs.
use libocxl.Base.{ℕ, ◌≡◌, ◌≢◌, refl, true, some, arith, get_elem?, [], ◌∷◌}
use libocxl.Weq.{
  WorkElement, MemcpyWeq, zero_element, wrap_cmd, memcpy3_add_we, memcpy3_queue_length,
}
use libocxl.Types.{State, Event}
use libocxl.Kernel.{done}
use libocxl.Weq.Memory.{word_at, HoldsFields}
use libocxl.Weq.Stores.{store_we}
use libocxl.Weq.Published.{IsInMemory, before_cmd, published, store_we-IsInMemory}
use libocxl.Weq.Cleared.{cleared-IsInMemory}
use libocxl.Tests.Setup.{friendly, start}
use libocxl.Weq.Laps.{empty_weq, init_weq-HasAdded, HasAdded, is_odd, add_we-HasAdded}

-- A queue of one element, in its second lap.
abbrev queue_of_one : MemcpyWeq
queue_of_one = record { queue = zero_element ∷ []; next = 0; limit = 1; wrap = true }

second_lap : HasAdded 1 1 queue_of_one
unfolding is_odd
second_lap = record {
  size = refl;
  limit = refl;
  lap = 1;
  position = refl;
  inside = omega arith;
  wrap = refl;
}

abbrev copy : WorkElement
copy = record zero_element { cmd = 1; length = 2048; src = 0x1000; dst = 0x2000 }

add_we-HasAdded_example :
    (w' : MemcpyWeq) × (memcpy3_add_we queue_of_one copy ≡ some (w', 0))
    × HasAdded 1 2 w'
    × (get_elem? w'.queue 0 ≡ some (record copy { cmd = wrap_cmd 1 (is_odd second_lap.lap) }))
    × ((j : ℕ) → j ≢ 0 → get_elem? w'.queue j ≡ get_elem? queue_of_one.queue j)
add_we-HasAdded_example = add_we-HasAdded 1 1 queue_of_one copy second_lap

-- A cleared block of two elements.
abbrev cleared : State
cleared = record start { log = Event.store 64 0x1000 0 ∷ [] }

two-HasAdded : HasAdded (memcpy3_queue_length 64) 0 (empty_weq 64)
two-HasAdded = (init_weq-HasAdded 0x1000 64 (λ e. omega arith) (omega arith)).1

store_we-IsInMemory_example :
    (w' : MemcpyWeq) × (memcpy3_add_we (empty_weq 64) copy ≡ some (w', 0))
    × (store_we 0x1000 (empty_weq 64) copy cleared
        ≡ done (w', 0x1000) (published _ 0 0x1000 (empty_weq 64) copy cleared two-HasAdded))
    × HasAdded (memcpy3_queue_length 64) 1 w'
    × IsInMemory 0x1000 w' (published _ 0 0x1000 (empty_weq 64) copy cleared two-HasAdded).log
    × (word_at (before_cmd _ 0 0x1000 (empty_weq 64) copy cleared two-HasAdded) 1 0x1000
        ≡ word_at cleared.log 1 0x1000)
    × HoldsFields (before_cmd _ 0 0x1000 (empty_weq 64) copy cleared two-HasAdded) 0x1000 copy
store_we-IsInMemory_example =
    store_we-IsInMemory (memcpy3_queue_length 64) 0 0x1000 (empty_weq 64) copy cleared two-HasAdded
      (cleared-IsInMemory 0x1000 64 [])
