-- ===== src/Sync/Download/Entries.antt =====
-- What `unseen` starts with.
use extreme_s.Prelude.{
  ◌≡◌, refl, sym, ◌∙◌, subst, inl, inr, false, List, [], ◌∷◌, ◌++◌, some, Str, str_eq, str_eq_refl,
  All, In, Bool-cases,
}
use extreme_s.Prelude.Dict.{Dict, lookup, insert, lookup-insert}
use extreme_s.Sync.Tree.{dir, Subdirs, end, sub, LocalFile, LocalDir, values}
use extreme_s.Sync.Download.{unseen, unseen_files, unseen_subs}

-- The files and the directories that stand directly in a local directory, by name, with their absolute
-- names.
pub file_entries : Dict LocalFile → List (Str × Str)
file_entries [] = []
file_entries ((k, f) ∷ fs) = (k, f.absolute_name) ∷ file_entries fs

pub sub_entries : Subdirs Str LocalFile → List (Str × Str)
sub_entries end = []
sub_entries (sub k (dir n p fs ds) rest) = (k, p) ∷ sub_entries rest

unfoldable pub local_entries : LocalDir → List (Str × Str)
unfolding file_entries sub_entries
local_entries (dir n p fs ds) = file_entries fs ++ sub_entries ds

-- Their names differ.
abbrev pub OwnNames : List (Str × Str) → Type 0
OwnNames [] = Unit
OwnNames (e ∷ es) = All (λ d. str_eq d.0 e.0 ≡ false) es × OwnNames es

put : List (Str × Str) → Dict Str → Dict Str
put [] u = u
put ((k, a) ∷ es) u = put es (insert k a u)

put-append : (xs ys : List (Str × Str)) (u : Dict Str) → put (xs ++ ys) u ≡ put ys (put xs u)
unfolding put
put-append [] ys u = refl
put-append ((k, a) ∷ xs) ys u = put-append xs ys (insert k a u)

unseen_files-put :
    (fs : Dict LocalFile) (u : Dict Str) → unseen_files fs u ≡ put (file_entries fs) u
unfolding unseen_files put file_entries
unseen_files-put [] u = refl
unseen_files-put ((k, f) ∷ fs) u = unseen_files-put fs (insert k f.absolute_name u)

unseen_subs-put :
    (ds : Subdirs Str LocalFile) (u : Dict Str) → unseen_subs ds u ≡ put (sub_entries ds) u
unfolding unseen_subs put sub_entries
unseen_subs-put end u = refl
unseen_subs-put (sub k (dir n p fs es) ds) u = unseen_subs-put ds (insert k p u)

put-other :
    (k : Str) (es : List (Str × Str)) (u : Dict Str)
    → All (λ d. str_eq d.0 k ≡ false) es
    → lookup k (put es u) ≡ lookup k u
unfolding put
put-other k [] u h = refl
put-other k ((j, a) ∷ es) u (here, later) =
    put-other k es (insert j a u) later ∙ lookup-insert j k a u ∙ rw here refl

put-In :
    (k a : Str) (es : List (Str × Str)) (u : Dict Str)
    → OwnNames es
    → In (k, a) es
    → lookup k (put es u) ≡ some a
unfolding put
put-In k a [] u own m = elim m [ ]
put-In k a ((j, b) ∷ es) u (other, own) (inl e) =
    subst (λ (d : Str × Str). lookup d.0 (put es (insert j b u)) ≡ some d.1) (sym e)
      (put-other j es (insert j b u) other ∙ lookup-insert j j b u ∙ rw (str_eq_refl j) refl)
put-In k a ((j, b) ∷ es) u (other, own) (inr m) = put-In k a es (insert j b u) own m

lookup-In : (k : Str) (m : Dict Str) {a : Str} → lookup k m ≡ some a → In a (values m)
unfolding lookup
lookup-In k [] e = cc
lookup-In k ((j, b) ∷ m) {a} e = elim (Bool-cases (str_eq j k)) [
  | inl hit ↦ let same : some b ≡ some a = rw hit at e in inl (cc)
  | inr miss ↦ inr (lookup-In k m (rw miss at e))
]

-- Each of the entries is there at first.
pub unseen-In :
    (l : LocalDir) (k a : Str)
    → OwnNames (local_entries l)
    → In (k, a) (local_entries l)
    → In a (values (unseen (some l)))
unfolding unseen local_entries
unseen-In (dir n p fs ds) k a own m =
    let es = file_entries fs ++ sub_entries ds in
    let same : unseen_subs ds (unseen_files fs []) ≡ put es [] =
      rw
        (
          unseen_subs-put ds (unseen_files fs []),
          unseen_files-put fs [],
          put-append (file_entries fs) (sub_entries ds) [],
        )
        refl in
    lookup-In k (unseen_subs ds (unseen_files fs [])) (rw same (put-In k a es [] own m))

pub local_entries-one :
    (n p k : Str) (f : LocalFile)
    → local_entries (dir n p ((k, f) ∷ []) end) ≡ (k, f.absolute_name) ∷ []
unfolding local_entries file_entries sub_entries
local_entries-one n p k f = refl
