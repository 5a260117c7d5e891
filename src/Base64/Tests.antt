-- ===== src/Base64/Tests.antt =====
-- The encoder and the decoder at work.
use extreme_s.Prelude.{◌≡◌, refl, [], ◌∷◌, Str, codes, arith}
use extreme_s.Base64.{base64_encode, base64_decode}
use extreme_s.Base64.RoundTrip.{base64_decode-base64_encode}

abbrev four_bytes : Str
four_bytes = 0 ∷ 255 ∷ 16 ∷ 77 ∷ []

encode_man : base64_encode (codes "Man") ≡ codes "TWFu"
unfolding base64_encode
encode_man = refl

base64_decode-base64_encode_example : base64_decode (base64_encode four_bytes) ≡ four_bytes
base64_decode-base64_encode_example =
    base64_decode-base64_encode four_bytes
      (omega arith, (omega arith, (omega arith, (omega arith, tt))))
