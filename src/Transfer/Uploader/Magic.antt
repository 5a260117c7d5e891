-- ===== src/Transfer/Uploader/Magic.antt =====
-- Which files are compressed.
use extreme_s.Prelude.{ℕ, ◌<◌, ◌≡◌, refl, Bool, true, false, ◌&&◌, Str, leb, arith, ok}
use extreme_s.Transfer.Uploader.{
  compression_threshold, compact_extensions, one_of, char_equals, magic_at, has_magic,
  should_compress,
}

char_equals-high : (b : ℕ) → char_equals b 139 ≡ false
unfolding char_equals
char_equals-high b = ground arith

and-false : (a c : Bool) → (a && (false && c)) ≡ false
and-false true c = refl
and-false false c = refl

has_magic-never : (magic : Str) → has_magic magic ≡ false
unfolding has_magic
has_magic-never magic = rw (char_equals-high (magic_at 1 magic)) (
    and-false (char_equals (magic_at 0 magic) 31)
      (char_equals (magic_at 2 magic) 8 && char_equals (magic_at 3 magic) 8))

-- With a signed `char`, a file whose extension is none of the list and that is larger than the threshold counts as one to
-- be compressed whatever its first bytes are, those of a gzip file included, if they can be read.
pub should_compress-any_magic :
    (ext : Str) (sz : ℕ) (magic : Str)
    → one_of ext compact_extensions ≡ false
    → compression_threshold < sz
    → should_compress ext sz (ok magic) ≡ ok true
unfolding should_compress
should_compress-any_magic ext sz magic listed large =
    let over : leb sz compression_threshold ≡ false = ground arith in
    rw (listed, over, has_magic-never magic) refl
