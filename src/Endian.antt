-- ===== src/Endian.antt =====
-- Byte order: the conversions of <endian.h> that src/mmio.c uses, on a host of either order, and
-- the bytes that a number takes in memory.
pub mod Laws
use mathlib.Core.List.{reverse}
use libocxl.Base.{ℕ, zero, suc, ◌+◌, ◌*◌, ◌/◌, ◌%◌, Bool, true, false, List, [], ◌∷◌}
use libocxl.Types.{OcxlEndian}

-- The low `count` bytes of a number, the lowest first.
unfoldable pub bytes_le : (count : ℕ) → ℕ → List ℕ
bytes_le zero n = []
bytes_le (suc c) n = n % 256 ∷ bytes_le c (n / 256)

pub number_le : List ℕ → ℕ
number_le [] = 0
number_le (b ∷ bs) = b + 256 * number_le bs

-- `bswap_32` is `swap_bytes 4`, `bswap_64` is `swap_bytes 8`.
unfoldable pub swap_bytes : (count : ℕ) → ℕ → ℕ
unfolding bytes_le number_le
swap_bytes count n = number_le (reverse (bytes_le count n))

module _ (host_is_big : Bool) (count : ℕ) where
  -- `htobe32`, `htobe64`, and `be32toh`, `be64toh`, which are the same functions.
  abbrev pub htobe : ℕ → ℕ
  htobe n = elim host_is_big [ true ↦ n | false ↦ swap_bytes count n ]

  -- `htole32`, `htole64`, `le32toh`, `le64toh`.
  abbrev pub htole : ℕ → ℕ
  htole n = elim host_is_big [ true ↦ swap_bytes count n | false ↦ n ]

  -- `switch (endian)` of the four accesses.
  abbrev pub convert : OcxlEndian → ℕ → ℕ
  convert OcxlEndian.big_endian n = htobe n
  convert OcxlEndian.little_endian n = htole n
  convert OcxlEndian.host_endian n = n
  convert (OcxlEndian.other m) n = n

  -- The bytes of memory, by rising address, that the host reads as this number.
  abbrev pub memory_bytes : ℕ → List ℕ
  memory_bytes n = elim host_is_big [ true ↦ reverse (bytes_le count n) | false ↦ bytes_le count n ]
