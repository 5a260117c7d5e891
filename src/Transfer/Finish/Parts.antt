-- ===== src/Transfer/Finish/Parts.antt =====
-- When a multipart upload is completed.
use extreme_s.Prelude.{
  ℕ, zero, suc, ◌+◌, ◌<◌, ◌≤◌, ◌≡◌, ◌≢◌, refl, sym, ap, ◌∙◌, subst, inl, inr, true, false, List, [],
  ◌∷◌, ◌++◌, some, Str, arith, ltb, ◌==◌, length, set, get_elem?, length-set, ok, fail, Failure,
  All, In,
}
use extreme_s.Transfer.Finish.{UploadContent, record_part, assemble, part_upload}

-- The parts in the order in which they end, each with its etag.
pub upload_all : List (ℕ × Str) → UploadContent → UploadContent
upload_all [] c = c
upload_all ((num, etag) ∷ parts) c =
    upload_all parts (part_upload num (record { upload = ok etag; complete = ok tt }) c).0

-- The etags as the parts leave them.
pub set_all : List (ℕ × Str) → List Str → List Str
set_all [] etags = etags
set_all ((num, etag) ∷ parts) etags = set_all parts (set etags num etag)

-- Each part has a number of its own.
abbrev pub Distinct : List (ℕ × Str) → Type 0
Distinct [] = Unit
Distinct ((num, etag) ∷ parts) = All (λ q. q.0 ≢ num) parts × Distinct parts

-- A part that is not the last one is counted, and the last one ends the upload.
part_upload-early :
    (num : ℕ) (etag : Str) (c : UploadContent)
    → num < length c.etags
    → (c.num_completed + 1 == c.num_parts) ≡ false
    → (part_upload num (record { upload = ok etag; complete = ok tt }) c).0 ≡ record_part num etag c
unfolding part_upload
part_upload-early num etag c h e =
    let inside : ltb num (length c.etags) ≡ true = ground arith in rw (inside, e) refl

part_upload-last :
    (num : ℕ) (etag : Str) (c : UploadContent)
    → num < length c.etags
    → (c.num_completed + 1 == c.num_parts) ≡ true
    → (part_upload num (record { upload = ok etag; complete = ok tt }) c).0
      ≡ assemble (record_part num etag c)
unfolding part_upload
part_upload-last num etag c h e =
    let inside : ltb num (length c.etags) ≡ true = ground arith in rw (inside, e) refl

All-length :
    (parts : List (ℕ × Str)) {n m : ℕ} → n ≡ m → All (λ p. p.0 < m) parts → All (λ p. p.0 < n) parts
All-length parts e h = subst (λ k. All (λ p. p.0 < k) parts) (sym e) h

upload_all-assembled :
    (parts : List (ℕ × Str)) (c : UploadContent)
    → All (λ p. p.0 < length c.etags) parts
    → 0 < length parts
    → c.num_completed + length parts ≡ c.num_parts
    → (upload_all parts c).assembled ≡ c.assembled ++ (set_all parts c.etags ∷ [])
unfolding upload_all set_all
upload_all-assembled [] c inside some_part count = absurd (omega arith)
upload_all-assembled ((num, etag) ∷ []) c inside some_part count =
    let last : (c.num_completed + 1 == c.num_parts) ≡ true = ground arith in
    ap (λ d. d.assembled) (part_upload-last num etag c inside.0 last)
upload_all-assembled ((num, etag) ∷ (q ∷ parts)) c inside some_part count =
    let early : (c.num_completed + 1 == c.num_parts) ≡ false = ground arith in
    ap (λ d. (upload_all (q ∷ parts) d).assembled) (part_upload-early num etag c inside.0 early)
    ∙ (upload_all-assembled (q ∷ parts) (record_part num etag c)
        (All-length (q ∷ parts) (length-set c.etags num etag) inside.1) (omega arith) (omega arith))

pub get_elem?-set_same {ℓ} :
    {A : Type ℓ} (xs : List A) (i : ℕ) (v : A) → i < length xs → get_elem? (set xs i v) i ≡ some v
get_elem?-set_same [] i v h = absurd (omega arith)
get_elem?-set_same (x ∷ xs) zero v h = refl
get_elem?-set_same (x ∷ xs) (suc i) v h = get_elem?-set_same xs i v (omega arith)

pub get_elem?-set_other {ℓ} :
    {A : Type ℓ} (xs : List A) (i j : ℕ) (v : A) → j ≢ i → get_elem? (set xs i v) j ≡ get_elem? xs j
get_elem?-set_other [] i j v h = refl
get_elem?-set_other (x ∷ xs) zero zero v h = absurd (h refl)
get_elem?-set_other (x ∷ xs) zero (suc j) v h = refl
get_elem?-set_other (x ∷ xs) (suc i) zero v h = refl
get_elem?-set_other (x ∷ xs) (suc i) (suc j) v h = get_elem?-set_other xs i j v (λ e. h (ap suc e))

-- A number that no later part has keeps its etag.
set_all-other :
    (parts : List (ℕ × Str)) (etags : List Str) (i : ℕ)
    → All (λ q. q.0 ≢ i) parts
    → get_elem? (set_all parts etags) i ≡ get_elem? etags i
unfolding set_all
set_all-other [] etags i h = refl
set_all-other ((num, etag) ∷ parts) etags i h =
    set_all-other parts (set etags num etag) i h.1
    ∙ get_elem?-set_other etags num i etag (λ e. h.0 (sym e))

set_all-same :
    (parts : List (ℕ × Str)) (etags : List Str) (i : ℕ) (e : Str)
    → Distinct parts
    → All (λ p. p.0 < length etags) parts
    → In (i, e) parts
    → get_elem? (set_all parts etags) i ≡ some e
unfolding set_all
set_all-same [] etags i e d h m = elim m [ ]
set_all-same ((num, etag) ∷ parts) etags i e d h (inl same) =
    let number : i ≡ num = ap (λ p. p.0) same in
    let content : e ≡ etag = ap (λ p. p.1) same in
    rw (number, content)
      (set_all-other parts (set etags num etag) num d.0 ∙ get_elem?-set_same etags num etag h.0)
set_all-same ((num, etag) ∷ parts) etags i e d h (inr m) =
    set_all-same parts (set etags num etag) i e d.1
      (All-length parts (length-set etags num etag) h.1) m

-- When the parts of an upload, each with a number of its own within the bounds, have all been sent
-- once, in whatever order they ended, `complete_multipart` was called exactly once, with every part's
-- etag at its number.
pub upload_all-once :
    (parts : List (ℕ × Str)) (c : UploadContent)
    → Distinct parts
    → All (λ p. p.0 < length c.etags) parts
    → 0 < length parts
    → c.num_completed ≡ 0
    → c.assembled ≡ []
    → length parts ≡ c.num_parts
    → (etags : List Str) × ((upload_all parts c).assembled ≡ etags ∷ [])
      × ((i : ℕ) (e : Str) → In (i, e) parts → get_elem? etags i ≡ some e)
upload_all-once parts c distinct inside some_part fresh empty count = (
  set_all parts c.etags,
  upload_all-assembled parts c inside some_part (omega arith)
      ∙ ap (λ before. before ++ (set_all parts c.etags ∷ [])) empty,
  λ i e m. set_all-same parts c.etags i e distinct inside m,
)

-- The part whose `complete_multipart` failed and every attempt to send it again.
pub retried : ℕ → List Str → UploadContent → UploadContent
retried num [] c = c
retried num (etag ∷ etags) c =
    retried num etags (part_upload num (record { upload = ok etag; complete = ok tt }) c).0

past_end :
    (num : ℕ) (etags : List Str) (c : UploadContent)
    → num < length c.etags
    → c.num_parts ≤ c.num_completed
    → (retried num etags c).assembled ≡ c.assembled
unfolding retried
past_end num [] c h past = refl
past_end num (etag ∷ etags) c h past =
    let over : (c.num_completed + 1 == c.num_parts) ≡ false = ground arith in
    ap (λ d. (retried num etags d).assembled) (part_upload-early num etag c h over)
    ∙ (past_end num etags (record_part num etag c) (rw (length-set c.etags num etag) h)
        (omega arith))

-- When `complete_multipart` fails after the last part, the task fails with that error, so that it may
-- be tried again; but then every further attempt that sends the part succeeds, and none of them calls
-- `complete_multipart` again, since the counter has gone past the number of parts.
pub part_upload-lost :
    (num : ℕ) (etag again : Str) (more : List Str) (e : Failure) (c : UploadContent)
    → num < length c.etags
    → c.num_completed + 1 ≡ c.num_parts
    → (part_upload num (record { upload = ok etag; complete = fail e }) c
        ≡ (assemble (record_part num etag c), fail e))
      × ((part_upload num
            (record { upload = ok again; complete = ok tt })
            (assemble (record_part num etag c))).1
          ≡ ok tt)
      × ((retried num (again ∷ more) (assemble (record_part num etag c))).assembled
          ≡ c.assembled ++ (set c.etags num etag ∷ []))
unfolding part_upload
part_upload-lost num etag again more e c h count =
    let inside : ltb num (length c.etags) ≡ true = ground arith in
    let last : (c.num_completed + 1 == c.num_parts) ≡ true = ground arith in
    let over : (c.num_completed + 1 + 1 == c.num_parts) ≡ false = ground arith in
    (
      rw (inside, last) refl,
      rw (length-set c.etags num etag, inside, over) refl,
      past_end num (again ∷ more) (assemble (record_part num etag c))
          (rw (length-set c.etags num etag) h) (omega arith),
    )
