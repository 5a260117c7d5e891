-- ===== src/Base64.antt =====
-- es3/base64.cpp: `base64Encode`, `base64_encode` and `base64_decode`.
-- A mask and a shift, `(temp & 0x0003F000) >> 12`, is written as a quotient and a remainder.
pub mod RoundTrip
mod Tests
use extreme_s.Prelude.{
  ℕ, zero, suc, ◌+◌, ◌*◌, ◌/◌, ◌%◌, ◌^◌, Bool, true, false, not, ◌&&◌, ◌||◌, List, [], ◌∷◌, ◌++◌,
  Option, none, some, Str, codes, leb, ◌==◌, if◌then◌else◌, length, get_elem?, take, replicate,
}

-- `base64_chars` and `encodeLookup`, the same sixty-four letters.
abbrev alphabet : Str
alphabet = codes "ABCDEFGHIJKLMNOPQRSTUVWXYZabcdefghijklmnopqrstuvwxyz0123456789+/"

abbrev pub pad_character : ℕ
pad_character = b'='

byte_at : Str → ℕ → ℕ
byte_at s i = elim (get_elem? s i) [ none ↦ 0 | some c ↦ c ]

encode_lookup : ℕ → ℕ
unfolding byte_at
encode_lookup i = byte_at alphabet i

-- Six bits of `temp` from bit `k` on, as a letter.
abbrev sextet : ℕ → ℕ → ℕ
sextet temp k = encode_lookup (temp / 2 ^ k % 64)

-- `base64Encode`: whole groups of three bytes, then the `switch` on what is left.
pub base64_encode : Str → Str
unfolding encode_lookup
base64_encode [] = []
base64_encode (a ∷ []) =
    let temp = a * 2 ^ 16 in sextet temp 18 ∷ sextet temp 12 ∷ pad_character ∷ pad_character ∷ []
base64_encode (a ∷ b ∷ []) =
    let temp = a * 2 ^ 16 + b * 2 ^ 8 in
    sextet temp 18 ∷ sextet temp 12 ∷ sextet temp 6 ∷ pad_character ∷ []
base64_encode (a ∷ b ∷ c ∷ rest) =
    let temp = a * 2 ^ 16 + b * 2 ^ 8 + c in
    sextet temp 18 ∷ sextet temp 12 ∷ sextet temp 6 ∷ sextet temp 0 ∷ base64_encode rest

-- `isalnum(c) || (c == '+') || (c == '/')`.
is_base64 : ℕ → Bool
is_base64 c =
    (leb b'0' c && leb c b'9')
    || (leb b'A' c && leb c b'Z')
    || (leb b'a' c && leb c b'z')
    || (c == b'+')
    || (c == b'/')

-- `base64_chars.find(c)` stored in an `unsigned char`; `npos` becomes 255.
find_from : Str → ℕ → ℕ → ℕ
find_from [] c i = 255
find_from (x ∷ xs) c i = let rest = find_from xs c (i + 1) in if x == c then i else rest

index_of : ℕ → ℕ
unfolding find_from
index_of c = find_from alphabet c 0

-- `char_array_3` from the four indices in `char_array_4`.
abbrev combine : ℕ → ℕ → ℕ → ℕ → Str
combine a b c d =
    ((a * 4 + b / 16 % 4) % 256)
    ∷ ((b % 16 * 16 + c / 4 % 16) % 256)
    ∷ ((c % 4 * 64 + d) % 256)
    ∷ []

-- The first `i` entries of `char_array_4` are `arr`; the entries behind them are set to 0.
decode_group : Str → Str
unfolding byte_at index_of
decode_group arr =
    combine (index_of (byte_at arr 0)) (index_of (byte_at arr 1)) (index_of (byte_at arr 2))
      (index_of (byte_at arr 3))

-- The code after the loop: `i - 1` bytes of the last, partial group.
decode_tail : Str → Str
unfolding decode_group
decode_tail [] = []
decode_tail (c ∷ arr) = take (length arr) (decode_group (c ∷ arr))

-- The `while` loop over the input, with `char_array_4[0 .. i)` and the text returned so far.
decode_loop : Str → Str → Str → Str
unfolding is_base64 decode_tail
decode_loop [] arr ret = ret ++ decode_tail arr
decode_loop (c ∷ s) arr ret =
    let full = decode_loop s [] (ret ++ decode_group (arr ++ (c ∷ []))) in
    let more = decode_loop s (arr ++ (c ∷ [])) ret in
    if not (c == pad_character) && is_base64 c
    then (if length arr == 3 then full else more)
    else ret ++ decode_tail arr

pub base64_decode : Str → Str
unfolding decode_loop
base64_decode s = decode_loop s [] []
