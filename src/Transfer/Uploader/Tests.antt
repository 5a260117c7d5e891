-- ===== src/Transfer/Uploader/Tests.antt =====
-- A large file that begins as a gzip file does.
use extreme_s.Prelude.{◌≡◌, refl, ◌∷◌, [], Str, codes, true, ok, arith, str_eq}
use extreme_s.Transfer.Uploader.{should_compress, one_of}
use extreme_s.Transfer.Uploader.Magic.{should_compress-any_magic}

abbrev gzip_magic : Str
gzip_magic = 31 ∷ 139 ∷ 8 ∷ 8 ∷ []

should_compress-any_magic_example :
    should_compress (codes ".data") 20000000 (ok gzip_magic) ≡ ok true
unfolding one_of str_eq
should_compress-any_magic_example =
    should_compress-any_magic (codes ".data") 20000000 gzip_magic refl (omega arith)
