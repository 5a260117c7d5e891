-- ===== src/Listing/Laws.antt =====
-- What the entries of a listing put into the directory.
use extreme_s.Prelude.{
  ℕ, ◌≡◌, refl, ◌⊎◌, inl, inr, Bool, true, false, ◌||◌, List, [], ◌∷◌, some, map, arith, Str,
  str_eq, str_eq_refl, str_eq_iff, if◌then◌else◌, ok, In, Bool-cases, Option, sym, ap, ◌∙◌,
}
use extreme_s.Prelude.Dict.{lookup, has, lookup-insert, has-insert}
use extreme_s.S3Path.{S3Path, extract_leaf}
use extreme_s.Sync.Tree.{
  dir, Subdirs, S3File, S3Directory, files, subdirs, absolute, lookup_sub, has_sub,
}
use extreme_s.Sync.Tree.Laws.{
  has_sub-place_sub, has_sub-replace_sub, lookup_sub-place_sub, lookup_sub-replace_sub,
}
use extreme_s.Listing.{
  Node, contents, common_prefixes, other_node, Entry, key, prefix, nothing, read_node, entry_name,
  ends_in_slash, trimmed, insert_sub, file_of, dir_of, add_entry, collect,
}

-- The node that the service writes for an entry.
abbrev pub node_of : Entry → Node
node_of (key name size mtime) = contents (some name) (some size) (some mtime)
node_of (prefix name) = common_prefixes (some name)
node_of nothing = other_node

read_node-node_of : (e : Entry) → read_node (node_of e) ≡ ok e
unfolding read_node
read_node-node_of (key name size mtime) = refl
read_node-node_of (prefix name) = refl
read_node-node_of nothing = refl

has_sub-insert_sub :
    (k j : Str) (d : S3Directory) (ds : Subdirs S3Path S3File)
    → has_sub j (insert_sub k d ds) ≡ str_eq k j || has_sub j ds
unfolding insert_sub
has_sub-insert_sub k j d ds = elim (Bool-cases (has_sub k ds)) [
  | inl e ↦ rw e (has_sub-replace_sub k j d ds e)
  | inr e ↦ rw e (has_sub-place_sub k j d ds)
]

lookup_sub-insert_sub :
    (k j : Str) (d : S3Directory) (ds : Subdirs S3Path S3File)
    → lookup_sub j (insert_sub k d ds) ≡ (if str_eq k j then some d else lookup_sub j ds)
unfolding insert_sub
lookup_sub-insert_sub k j d ds = elim (Bool-cases (has_sub k ds)) [
  | inl e ↦ rw e (lookup_sub-replace_sub k j d ds e)
  | inr e ↦ rw e (lookup_sub-place_sub k j d ds e)
]

abbrev pub IsDirOf : S3Path → Str → S3Directory → Entry → Type 0
IsDirOf at k d (key name size mtime) = ⊥
IsDirOf at k d (prefix name) = (k ≡ extract_leaf (trimmed name)) × (d ≡ dir_of at name)
IsDirOf at k d nothing = ⊥

pub last_name : List Entry → Str → Str
last_name [] name = name
last_name (e ∷ es) name = last_name es (entry_name e)

pub last_name-In :
    (e : Entry) (es : List Entry) (name : Str)
    → (f : Entry) × In f (e ∷ es) × (last_name (e ∷ es) name ≡ entry_name f)
unfolding last_name
last_name-In e [] name = (e, inl refl, refl)
last_name-In e (g ∷ es) name =
    let (f, there, same) = last_name-In g es (entry_name e) in (f, inr there, same)

module _ (atoll : Str → ℕ) where
  pub add_entries : List Entry → S3Directory → S3Directory
  add_entries [] d = d
  add_entries (e ∷ es) d = add_entries es (add_entry atoll e d)

  pub collect-node_of :
      (es : List Entry) (name : Str) (d : S3Directory)
      → collect atoll (map node_of es) name d ≡ ok (last_name es name, add_entries es d)
  unfolding collect add_entries last_name
  collect-node_of [] name d = refl
  collect-node_of (e ∷ es) name d =
      rw (read_node-node_of e) (collect-node_of es (entry_name e) (add_entry atoll e d))

  -- The directory holds the entry under its leaf; a key that ends in a slash is no file.
  abbrev pub Holds : S3Directory → Entry → Type 0
  Holds d (key name size mtime) =
      (ends_in_slash name ≡ true) ⊎ (has (extract_leaf name) (files d) ≡ true)
  Holds d (prefix name) = has_sub (extract_leaf (trimmed name)) (subdirs d) ≡ true
  Holds d nothing = Unit

  Holds-added : (e : Entry) (d : S3Directory) → Holds (add_entry atoll e d) e
  unfolding add_entry
  Holds-added (key name size mtime) (dir n p fs ds) = elim (Bool-cases (ends_in_slash name)) [
    | inl slash ↦ inl slash
    | inr no_slash ↦
        inr (rw (no_slash, has-insert (extract_leaf name), str_eq_refl (extract_leaf name)) refl)
  ]
  Holds-added (prefix name) (dir n p fs ds) =
      rw
        (
          has_sub-insert_sub (extract_leaf (trimmed name)),
          str_eq_refl (extract_leaf (trimmed name)),
        )
        refl
  Holds-added nothing d = tt

  -- The files that an entry is found as.
  abbrev pub IsFileOf : S3Path → Str → S3File → Entry → Type 0
  IsFileOf at k f (key name size mtime) =
      (ends_in_slash name ≡ false)
      × (k ≡ extract_leaf name)
      × (f ≡ file_of atoll at name size mtime)
  IsFileOf at k f (prefix name) = ⊥
  IsFileOf at k f nothing = ⊥

  Holds-keeps : (e f : Entry) (d : S3Directory) → Holds d e → Holds (add_entry atoll f d) e
  unfolding add_entry
  Holds-keeps (key name size mtime) (key other s t) (dir n p fs ds) (inl slash) = inl slash
  Holds-keeps (key name size mtime) (key other s t) (dir n p fs ds) (inr h) =
      elim (Bool-cases (ends_in_slash other)) [
        | inl slash ↦ inr (rw slash h)
        | inr no_slash ↦ inr (rw (no_slash, has-insert (extract_leaf other), h) (ground arith))
      ]
  Holds-keeps (key name size mtime) (prefix other) (dir n p fs ds) h = h
  Holds-keeps (prefix name) (key other s t) (dir n p fs ds) h =
      elim (Bool-cases (ends_in_slash other)) [
        | inl slash ↦ rw slash h
        | inr no_slash ↦ rw no_slash h
      ]
  Holds-keeps (prefix name) (prefix other) (dir n p fs ds) h =
      rw (has_sub-insert_sub (extract_leaf (trimmed other)), h) (ground arith)
  Holds-keeps nothing f d h = tt
  Holds-keeps e nothing d h = h

  pub Holds-add_entries_before :
      (e : Entry) (es : List Entry) (d : S3Directory) → Holds d e → Holds (add_entries es d) e
  unfolding add_entries
  Holds-add_entries_before e [] d h = h
  Holds-add_entries_before e (f ∷ es) d h =
      Holds-add_entries_before e es (add_entry atoll f d) (Holds-keeps e f d h)

  pub Holds-add_entries :
      (e : Entry) (es : List Entry) (d : S3Directory) → In e es → Holds (add_entries es d) e
  unfolding add_entries
  Holds-add_entries e (f ∷ es) d (inl same) =
      Holds-add_entries_before e es (add_entry atoll f d) (rw same (Holds-added f d))
  Holds-add_entries e (f ∷ es) d (inr h) = Holds-add_entries e es (add_entry atoll f d) h
  Holds-add_entries e [] d h = elim h [ ]

  -- What a directory has is what it had before, or comes of one of the entries.
  pub record ComesFrom (entries : List Entry) (before d : S3Directory) : Type 0 where
    pub same_place : absolute d ≡ absolute before
    pub found_file :
        (k : Str) (f : S3File)
        → lookup k (files d) ≡ some f
        → (lookup k (files before) ≡ some f)
          ⊎ ((e : Entry) × In e entries × IsFileOf (absolute before) k f e)
    pub found_dir :
        (k : Str) (s : S3Directory)
        → lookup_sub k (subdirs d) ≡ some s
        → (lookup_sub k (subdirs before) ≡ some s)
          ⊎ ((e : Entry) × In e entries × IsDirOf (absolute before) k s e)

  pub ComesFrom-refl : (entries : List Entry) (d : S3Directory) → ComesFrom entries d d
  ComesFrom-refl entries d = record {
    same_place = refl;
    found_file = λ k f h. inl h;
    found_dir = λ k s h. inl h;
  }

  -- An entry of the value that was just put in, or an older one.
  if_some :
      {A : Type 0} (b : Bool) (v w : A) (older : Option A)
      → (if b then some v else older) ≡ some w
      → ((b ≡ true) × (w ≡ v)) ⊎ (older ≡ some w)
  if_some true v w older h = inl (refl, cc)
  if_some false v w older h = inr h

  ComesFrom-add_entry :
      (entries : List Entry) (before d : S3Directory) (e : Entry)
      → In e entries
      → ComesFrom entries before d
      → ComesFrom entries before (add_entry atoll e d)
  unfolding add_entry
  ComesFrom-add_entry entries before (dir n p fs ds) (key name size mtime) there c =
      elim (Bool-cases (ends_in_slash name)) [
        | inl slash ↦ rw slash c
        | inr no_slash ↦ rw no_slash (record {
          same_place = c.same_place;
          found_file = λ k f h.
              elim (if_some (str_eq (extract_leaf name) k) (file_of atoll p name size mtime) f
                (lookup k fs) (rw (lookup-insert (extract_leaf name)) at h)) [
                  | inl (same, is_new) ↦ inr (
                    key name size mtime,
                    there,
                    (
                      no_slash,
                      sym ((str_eq_iff _ _).0 same),
                      is_new ∙ ap (λ at. file_of atoll at name size mtime) c.same_place,
                    ),
                  )
                  | inr older ↦ c.found_file k f older
                ];
          found_dir = c.found_dir;
        })
      ]
  ComesFrom-add_entry entries before (dir n p fs ds) (prefix name) there c = record {
    same_place = c.same_place;
    found_file = c.found_file;
    found_dir = λ k s h.
        elim (if_some (str_eq (extract_leaf (trimmed name)) k) (dir_of p name) s (lookup_sub k ds)
          (rw (lookup_sub-insert_sub (extract_leaf (trimmed name))) at h)) [
            | inl (same, is_new) ↦ inr (
              prefix name,
              there,
              (sym ((str_eq_iff _ _).0 same), is_new ∙ ap (λ at. dir_of at name) c.same_place),
            )
            | inr older ↦ c.found_dir k s older
          ];
  }
  ComesFrom-add_entry entries before d nothing there c = c

  pub ComesFrom-add_entries :
      (entries : List Entry) (before d : S3Directory) (es : List Entry)
      → ((e : Entry) → In e es → In e entries)
      → ComesFrom entries before d
      → ComesFrom entries before (add_entries es d)
  unfolding add_entries
  ComesFrom-add_entries entries before d [] within c = c
  ComesFrom-add_entries entries before d (e ∷ es) within c =
      ComesFrom-add_entries entries before (add_entry atoll e d) es (λ f h. within f (inr h))
        (ComesFrom-add_entry entries before d e (within e (inl refl)) c)
