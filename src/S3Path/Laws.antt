-- ===== src/S3Path/Laws.antt =====
-- Reading and printing remote names, the leaf of a key, and the order on names.
use extreme_s.Prelude.{
  ◌≡◌, refl, ◌≢◌, true, false, [], ◌∷◌, ◌++◌, none, some, arith, Str, codes, str_lt, starts_with,
  contains, drop, All, ok, Bool-cases, inl, inr, ◌⊎◌, subst,
}
use extreme_s.S3Path.{
  S3Path, path_lt, print_path, split_slash, check_path, bucket_and_path, parse_path,
  after_last_slash, extract_leaf,
}

-- No byte of the text is a slash.
abbrev pub IsName : Str → Type 0
IsName = All (λ c. c ≢ b'/')

split_slash-append :
    (name path : Str) → IsName name → split_slash (name ++ (b'/' ∷ path)) ≡ (name, b'/' ∷ path)
unfolding split_slash
split_slash-append [] path h = refl
split_slash-append (c ∷ name) path h = ground (arith, split_slash-append name path h.1)

-- A name with a bucket that is not empty and has no slash, and with a path that begins with a slash
-- and has no two slashes in a row, is read back as it was printed, its zone aside.
pub parse_path-print_path :
    (zone bucket path : Str)
    → bucket ≢ []
    → IsName bucket
    → contains (b'/' ∷ path) (codes "//") ≡ false
    → parse_path (print_path (record { zone = zone; bucket = bucket; path = b'/' ∷ path }))
      ≡ ok (record { zone = []; bucket = bucket; path = b'/' ∷ path })
unfolding parse_path print_path starts_with check_path
parse_path-print_path zone [] path h k e = absurd (h refl)
parse_path-print_path zone (b ∷ bucket) path h k e = rw (split_slash-append (b ∷ bucket) path k, e)

split_slash-IsName : (s : Str) → IsName (split_slash s).0
unfolding split_slash
split_slash-IsName [] = tt
split_slash-IsName (c ∷ s) = ground (arith, split_slash-IsName s)

-- What is left behind the bucket is nothing, or begins with a slash.
split_slash-rest :
    (s : Str) → ((split_slash s).1 ≡ []) ⊎ (starts_with (split_slash s).1 (codes "/") ≡ true)
unfolding split_slash starts_with
split_slash-rest [] = inl refl
split_slash-rest (c ∷ s) = ground (arith, split_slash-rest s)

pub record IsParsed (p : S3Path) : Type 0 where
  pub bucket_name : IsName p.bucket
  pub rooted : starts_with p.path (codes "/") ≡ true
  pub no_double : contains p.path (codes "//") ≡ false
  pub no_zone : p.zone ≡ []

check_path-eq :
    (q : S3Path) {p : S3Path}
    → check_path q ≡ ok p
    → (q ≡ p) × (contains q.path (codes "//") ≡ false)
unfolding check_path
check_path-eq q e = ground arith

IsParsed-check_path :
    (bucket path : Str) {p : S3Path}
    → IsName bucket
    → starts_with path (codes "/") ≡ true
    → check_path (record { zone = []; bucket = bucket; path = path }) ≡ ok p
    → IsParsed p
IsParsed-check_path bucket path h r e =
    let (same, double) = check_path-eq _ e in
    subst IsParsed same (record { bucket_name = h; rooted = r; no_double = double; no_zone = refl })

bucket_and_path-IsParsed :
    (b path : Str) {p : S3Path}
    → IsName b
    → (path ≡ []) ⊎ (starts_with path (codes "/") ≡ true)
    → bucket_and_path (b, path) ≡ ok p
    → IsParsed p
unfolding bucket_and_path starts_with
bucket_and_path-IsParsed [] [] h r e = IsParsed-check_path [] (codes "/") tt refl e
bucket_and_path-IsParsed [] (c ∷ path) h r e = cc
bucket_and_path-IsParsed (b ∷ bucket) [] h r e =
    IsParsed-check_path (b ∷ bucket) (codes "/") h refl e
bucket_and_path-IsParsed (b ∷ bucket) (c ∷ path) h (inl r) e = cc
bucket_and_path-IsParsed (b ∷ bucket) (c ∷ path) h (inr r) e =
    IsParsed-check_path (b ∷ bucket) (c ∷ path) h r e

-- A name that was read has no zone yet, a bucket without a slash, and a path that begins with a
-- slash and has no two slashes in a row.
parse_path-IsParsed : (url : Str) {p : S3Path} → parse_path url ≡ ok p → IsParsed p
unfolding parse_path
parse_path-IsParsed url e = elim (Bool-cases (starts_with url (codes "s3://"))) [
  | inl s ↦
      bucket_and_path-IsParsed (split_slash (drop 5 url)).0 (split_slash (drop 5 url)).1
        (split_slash-IsName (drop 5 url)) (split_slash-rest (drop 5 url)) (rw s at e)
  | inr s ↦ absurd (fails s)
]
  where
    fails : starts_with url (codes "s3://") ≡ false → ⊥
    fails s = ground arith

-- The order on names is no strict order: two names may each come before the other.
pub path_lt_both :
    (zone low high : Str)
    → str_lt low high ≡ true
    → let a : S3Path = record { zone = zone; bucket = low; path = high } in
      let b : S3Path = record { zone = zone; bucket = high; path = low } in
      (path_lt a b ≡ true) × (path_lt b a ≡ true)
unfolding path_lt
path_lt_both zone low high h = ground arith

after_last_slash-name : (name : Str) → IsName name → after_last_slash name ≡ none
unfolding after_last_slash
after_last_slash-name [] h = refl
after_last_slash-name (c ∷ name) h = ground (arith, after_last_slash-name name h.1)

after_last_slash-append :
    (dir name : Str) → IsName name → after_last_slash (dir ++ (b'/' ∷ name)) ≡ some name
unfolding after_last_slash
after_last_slash-append [] name h = ground (arith, after_last_slash-name name h)
after_last_slash-append (c ∷ dir) name h = rw (after_last_slash-append dir name h)

-- The leaf of a key is its last name, with and without folders before it.
pub extract_leaf-name :
    (dir name : Str)
    → name ≢ []
    → IsName name
    → (extract_leaf (dir ++ (b'/' ∷ name)) ≡ name) × (extract_leaf name ≡ name)
unfolding extract_leaf
extract_leaf-name dir [] h k = absurd (h refl)
extract_leaf-name dir (c ∷ name) h k = (
  rw (after_last_slash-append dir (c ∷ name) k, extract_leaf),
  rw (after_last_slash-name (c ∷ name) k, extract_leaf),
)
