-- ===== src/Base64/RoundTrip.antt =====
-- Decoding what was encoded, for es3/base64.cpp.
use mathlib.Core.List.{append_assoc}
use extreme_s.Prelude.{
  passes_under, passes_under→test, ℕ, ◌+◌, ◌*◌, ◌/◌, ◌%◌, ◌^◌, ◌<◌, ◌≡◌, refl, ap, ◌∙◌, Bool, true,
  false, not, ◌&&◌, [], ◌∷◌, ◌++◌, arith, Str, ltb, ◌==◌, if◌then◌else◌, length, All,
}
use extreme_s.Base64.{
  pad_character, encode_lookup, base64_encode, is_base64, index_of, combine, decode_group,
  decode_tail, decode_loop, base64_decode,
}

abbrev letter_test : ℕ → Bool
letter_test x =
    is_base64 (encode_lookup x)
    && not (encode_lookup x == pad_character)
    && (index_of (encode_lookup x) == x)

letter_table : passes_under letter_test 64 ≡ true
unfolding passes_under is_base64 encode_lookup index_of
letter_table = refl

letter_facts :
    (x : ℕ)
    → x < 64
    → (is_base64 (encode_lookup x) ≡ true)
      × ((encode_lookup x == pad_character) ≡ false)
      × (index_of (encode_lookup x) ≡ x)
letter_facts x h = ground (arith, passes_under→test letter_test 64 x h letter_table)

abbrev IsByte : ℕ → Type 0
IsByte x = x < 256

-- One letter is kept.
decode_loop-letter :
    (x : ℕ) (s arr ret : Str)
    → x < 64
    → decode_loop (encode_lookup x ∷ s) arr ret ≡ (
        if length arr == 3
        then decode_loop s [] (ret ++ decode_group (arr ++ (encode_lookup x ∷ [])))
        else decode_loop s (arr ++ (encode_lookup x ∷ [])) ret)
unfolding decode_loop
decode_loop-letter x s arr ret h = rw ((letter_facts x h).0, (letter_facts x h).1)

decode_loop-group :
    (a b c d : ℕ) (s ret : Str)
    → a < 64
    → b < 64
    → c < 64
    → d < 64
    → decode_loop (encode_lookup a ∷ encode_lookup b ∷ encode_lookup c ∷ encode_lookup d ∷ s) [] ret
      ≡ decode_loop s [] (ret ++ combine a b c d)
unfolding decode_group
decode_loop-group a b c d s ret ha hb hc hd =
    decode_loop-letter a _ _ _ ha
    ∙ decode_loop-letter b _ _ _ hb
    ∙ decode_loop-letter c _ _ _ hc
    ∙ decode_loop-letter d _ _ _ hd
    ∙ rw
        ((letter_facts a ha).2, (letter_facts b hb).2, (letter_facts c hc).2, (letter_facts d hd).2)

decode_loop-pad :
    (s arr ret : Str) → decode_loop (pad_character ∷ s) arr ret ≡ ret ++ decode_tail arr
unfolding decode_loop
decode_loop-pad s arr ret = refl

decode_loop_end : (ret : Str) → decode_loop [] [] ret ≡ ret ++ []
unfolding decode_loop
decode_loop_end ret = refl

combine-three :
    (a b c : ℕ)
    → a < 256
    → b < 256
    → c < 256
    → let temp = a * 2 ^ 16 + b * 2 ^ 8 + c in
      combine (temp / 2 ^ 18 % 64) (temp / 2 ^ 12 % 64) (temp / 2 ^ 6 % 64) (temp / 2 ^ 0 % 64)
      ≡ a ∷ b ∷ c ∷ []
combine-three a b c ha hb hc = ground arith

decode_tail-two :
    (x y : ℕ)
    → x < 64
    → y < 64
    → decode_tail (encode_lookup x ∷ encode_lookup y ∷ []) ≡ ((x * 4 + y / 16 % 4) % 256) ∷ []
unfolding decode_tail decode_group
decode_tail-two x y hx hy = rw ((letter_facts x hx).2, (letter_facts y hy).2)

decode_tail-three :
    (x y z : ℕ)
    → x < 64
    → y < 64
    → z < 64
    → decode_tail (encode_lookup x ∷ encode_lookup y ∷ encode_lookup z ∷ [])
      ≡ ((x * 4 + y / 16 % 4) % 256) ∷ ((y % 16 * 16 + z / 4 % 16) % 256) ∷ []
unfolding decode_tail decode_group
decode_tail-three x y z hx hy hz =
    rw ((letter_facts x hx).2, (letter_facts y hy).2, (letter_facts z hz).2)

decode_loop-two :
    (x y : ℕ) (s ret : Str)
    → x < 64
    → y < 64
    → decode_loop (encode_lookup x ∷ encode_lookup y ∷ pad_character ∷ s) [] ret
      ≡ ret ++ (((x * 4 + y / 16 % 4) % 256) ∷ [])
decode_loop-two x y s ret hx hy =
    decode_loop-letter x _ _ _ hx
    ∙ decode_loop-letter y _ _ _ hy
    ∙ decode_loop-pad s _ ret
    ∙ rw (decode_tail-two x y hx hy)

decode_loop-three :
    (x y z : ℕ) (s ret : Str)
    → x < 64
    → y < 64
    → z < 64
    → decode_loop (encode_lookup x ∷ encode_lookup y ∷ encode_lookup z ∷ pad_character ∷ s) [] ret
      ≡ ret ++ (((x * 4 + y / 16 % 4) % 256) ∷ ((y % 16 * 16 + z / 4 % 16) % 256) ∷ [])
decode_loop-three x y z s ret hx hy hz =
    decode_loop-letter x _ _ _ hx
    ∙ decode_loop-letter y _ _ _ hy
    ∙ decode_loop-letter z _ _ _ hz
    ∙ decode_loop-pad s _ ret
    ∙ rw (decode_tail-three x y z hx hy hz)

decode-encode_onto :
    (bytes ret : Str) → All IsByte bytes → decode_loop (base64_encode bytes) [] ret ≡ ret ++ bytes
unfolding base64_encode
decode-encode_onto [] ret h = decode_loop_end ret
decode-encode_onto (a ∷ []) ret h =
    let t = a * 2 ^ 16 in
    decode_loop-two (t / 2 ^ 18 % 64) (t / 2 ^ 12 % 64) (pad_character ∷ []) ret (omega arith)
      (omega arith)
    ∙ ap (◌++◌ ret) (ground arith)
decode-encode_onto (a ∷ b ∷ []) ret h =
    let t = a * 2 ^ 16 + b * 2 ^ 8 in
    decode_loop-three (t / 2 ^ 18 % 64) (t / 2 ^ 12 % 64) (t / 2 ^ 6 % 64) [] ret (omega arith)
      (omega arith) (omega arith)
    ∙ ap (◌++◌ ret) (ground arith)
decode-encode_onto (a ∷ b ∷ c ∷ rest) ret h =
    let t = a * 2 ^ 16 + b * 2 ^ 8 + c in
    decode_loop-group (t / 2 ^ 18 % 64) (t / 2 ^ 12 % 64) (t / 2 ^ 6 % 64) (t / 2 ^ 0 % 64)
      (base64_encode rest) ret (omega arith) (omega arith) (omega arith) (omega arith)
    ∙ decode-encode_onto rest _ h.1.1.1
    ∙ append_assoc ret _ rest
    ∙ ap (λ (group : Str). ret ++ (group ++ rest)) (combine-three a b c h.0 h.1.0 h.1.1.0)

-- Whatever bytes are encoded, with or without padding at the end, decoding gives them back.
pub base64_decode-base64_encode :
    (bytes : Str) → All IsByte bytes → base64_decode (base64_encode bytes) ≡ bytes
unfolding base64_decode
base64_decode-base64_encode bytes h = decode-encode_onto bytes [] h

-- The encoded text has the length that the function reserves: four letters for each group of three
-- bytes, a last partial group included.
pub length-base64_encode :
    (bytes : Str)
    → length (base64_encode bytes)
      ≡ (length bytes / 3 + (if ltb 0 (length bytes % 3) then 1 else 0)) * 4
unfolding base64_encode
length-base64_encode [] = refl
length-base64_encode (a ∷ []) = refl
length-base64_encode (a ∷ b ∷ []) = refl
length-base64_encode (a ∷ b ∷ c ∷ rest) = ground (arith, length-base64_encode rest)
