-- ===== src/Endian/Laws.antt =====
-- Laws of the byte order conversions.
use mathlib.Core.List.{reverse, reverse-reverse, reverse-append}
use mathlib.Core.Path.{subst}
use native.Mathlib.Nat.{pow-suc}
use libocxl.Base.{
  ℕ, zero, suc, ◌+◌, ◌*◌, ◌/◌, ◌%◌, ◌^◌, ◌<◌, ◌≡◌, refl, sym, ap, ◌∙◌, Bool, true, false, List, [],
  ◌∷◌, ◌++◌, arith, length, length-append,
}
use libocxl.Types.{OcxlEndian}
use libocxl.Endian.{bytes_le, number_le, swap_bytes, convert, memory_bytes}

abbrev AllBytes : List ℕ → Type 0
AllBytes [] = Unit
AllBytes (b ∷ bs) = (b < 256) × AllBytes bs

number_le-bytes_le : (c n : ℕ) → n < 256 ^ c → number_le (bytes_le c n) ≡ n
unfolding number_le bytes_le
number_le-bytes_le zero n h = omega arith
number_le-bytes_le (suc c) n h =
    let small : n < 256 ^ c * 256 = rw pow-suc at h in
    omega (arith, number_le-bytes_le c (n / 256) (omega arith))

bytes_le-number_le : (bs : List ℕ) → AllBytes bs → bytes_le (length bs) (number_le bs) ≡ bs
unfolding number_le bytes_le
bytes_le-number_le [] h = refl
bytes_le-number_le (b ∷ bs) h =
    let low : (b + 256 * number_le bs) % 256 ≡ b = omega arith in
    let high : (b + 256 * number_le bs) / 256 ≡ number_le bs = omega arith in
    rw (low, high, bytes_le-number_le bs h.1)

AllBytes-append : (xs ys : List ℕ) → AllBytes xs → AllBytes ys → AllBytes (xs ++ ys)
AllBytes-append [] ys h k = k
AllBytes-append (x ∷ xs) ys h k = (h.0, AllBytes-append xs ys h.1 k)

AllBytes-reverse : (xs : List ℕ) → AllBytes xs → AllBytes (reverse xs)
AllBytes-reverse [] h = tt
AllBytes-reverse (x ∷ xs) h =
    rw (reverse-append (x ∷ []) xs)
      (AllBytes-append (reverse xs) (x ∷ []) (AllBytes-reverse xs h.1) (h.0, tt))

length-reverse : (xs : List ℕ) → length (reverse xs) ≡ length xs
length-reverse [] = refl
length-reverse (x ∷ xs) =
    rw (reverse-append (x ∷ []) xs)
      (omega (arith, length-append (reverse xs) (x ∷ []), length-reverse xs))

AllBytes-bytes_le : (c n : ℕ) → AllBytes (bytes_le c n)
unfolding bytes_le
AllBytes-bytes_le zero n = tt
AllBytes-bytes_le (suc c) n = (omega arith, AllBytes-bytes_le c (n / 256))

length-bytes_le : (c n : ℕ) → length (bytes_le c n) ≡ c
unfolding bytes_le
length-bytes_le zero n = refl
length-bytes_le (suc c) n = ap suc (length-bytes_le c (n / 256))

-- A swapped number has the same bytes in reverse order.
bytes_le-swap_bytes : (c n : ℕ) → bytes_le c (swap_bytes c n) ≡ reverse (bytes_le c n)
unfolding swap_bytes
bytes_le-swap_bytes c n =
    let bs = reverse (bytes_le c n) in
    let len : length bs ≡ c = length-reverse (bytes_le c n) ∙ length-bytes_le c n in
    ap (λ m. bytes_le m (number_le bs)) (sym len)
    ∙ bytes_le-number_le bs (AllBytes-reverse (bytes_le c n) (AllBytes-bytes_le c n))

swap_bytes-swap_bytes : (c n : ℕ) → n < 256 ^ c → swap_bytes c (swap_bytes c n) ≡ n
unfolding swap_bytes
swap_bytes-swap_bytes c n h =
    ap (λ bs. number_le (reverse bs)) (bytes_le-swap_bytes c n)
    ∙ ap number_le (reverse-reverse (bytes_le c n))
    ∙ number_le-bytes_le c n h

-- Converting twice for the same endianness gives the number back, on hosts of either order.
pub convert-convert :
    (host_is_big : Bool) (c : ℕ) (e : OcxlEndian) (n : ℕ)
    → n < 256 ^ c
    → convert host_is_big c e (convert host_is_big c e n) ≡ n
convert-convert true c OcxlEndian.big_endian n h = refl
convert-convert false c OcxlEndian.big_endian n h = swap_bytes-swap_bytes c n h
convert-convert true c OcxlEndian.little_endian n h = swap_bytes-swap_bytes c n h
convert-convert false c OcxlEndian.little_endian n h = refl
convert-convert b c OcxlEndian.host_endian n h = refl
convert-convert b c (OcxlEndian.other m) n h = refl

-- The layout in memory that an endianness asks for, on hosts of either order.
abbrev pub layout : Bool → ℕ → OcxlEndian → ℕ → List ℕ
layout host_is_big c OcxlEndian.big_endian n = reverse (bytes_le c n)
layout host_is_big c OcxlEndian.little_endian n = bytes_le c n
layout host_is_big c OcxlEndian.host_endian n = memory_bytes host_is_big c n
layout host_is_big c (OcxlEndian.other m) n = memory_bytes host_is_big c n

-- The bytes that a converted number takes in memory.
pub memory_bytes-convert :
    (host_is_big : Bool) (c : ℕ) (e : OcxlEndian) (n : ℕ)
    → memory_bytes host_is_big c (convert host_is_big c e n) ≡ layout host_is_big c e n
memory_bytes-convert true c OcxlEndian.big_endian n = refl
memory_bytes-convert false c OcxlEndian.big_endian n = bytes_le-swap_bytes c n
memory_bytes-convert true c OcxlEndian.little_endian n =
    ap reverse (bytes_le-swap_bytes c n) ∙ reverse-reverse (bytes_le c n)
memory_bytes-convert false c OcxlEndian.little_endian n = refl
memory_bytes-convert b c OcxlEndian.host_endian n = refl
memory_bytes-convert b c (OcxlEndian.other m) n = refl

number_le-lt : (bs : List ℕ) → AllBytes bs → number_le bs < 256 ^ length bs
unfolding number_le
number_le-lt [] h = omega arith
number_le-lt (b ∷ bs) h =
    let rest : number_le bs < 256 ^ length bs = number_le-lt bs h.1 in rw pow-suc (omega arith)

swap_bytes-lt : (c n : ℕ) → swap_bytes c n < 256 ^ c
unfolding swap_bytes
swap_bytes-lt c n =
    let bs = reverse (bytes_le c n) in
    let len : length bs ≡ c = length-reverse (bytes_le c n) ∙ length-bytes_le c n in
    subst (λ m. number_le bs < 256 ^ m) len
      (number_le-lt bs (AllBytes-reverse (bytes_le c n) (AllBytes-bytes_le c n)))

-- A converted number still fits.
pub convert-lt :
    (host_is_big : Bool) (c : ℕ) (e : OcxlEndian) (n : ℕ)
    → n < 256 ^ c
    → convert host_is_big c e n < 256 ^ c
convert-lt true c OcxlEndian.big_endian n h = h
convert-lt false c OcxlEndian.big_endian n h = swap_bytes-lt c n
convert-lt true c OcxlEndian.little_endian n h = swap_bytes-lt c n
convert-lt false c OcxlEndian.little_endian n h = h
convert-lt b c OcxlEndian.host_endian n h = h
convert-lt b c (OcxlEndian.other m) n h = h
