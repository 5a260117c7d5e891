-- ===== src/Mimes/Laws.antt =====
-- What `find_mime` answers once `init_mimes` has run.
use extreme_s.Prelude.{
  ◌≡◌, refl, ap, ◌∙◌, Bool, true, false, ◌||◌, ◌&&◌, List, [], ◌∷◌, Option, some, String, Str,
  codes, str_eq, if◌then◌else◌, ◌==◌, Bool-cases, inl, inr,
}
use extreme_s.Prelude.Dict.{Dict, lookup, insert, lookup-insert}
use extreme_s.Mimes.{assign_all, mime_rows, init_mimes, or_binary, find_mime}

-- The value of the last row with a key, and a default when no row has it.
abbrev pub last_of : Str → List (String × String) → Str → Str
last_of ext [] default = default
last_of ext ((k, v) ∷ rows) default =
    last_of ext rows (if str_eq (codes k) ext then codes v else default)

or_binary-if :
    (b : Bool) (v : Str) (o : Option Str)
    → or_binary (if b then some v else o) ≡ (if b then v else or_binary o)
unfolding or_binary
or_binary-if true v o = refl
or_binary-if false v o = refl

find_mime-insert :
    (ext k v : Str) (mp : Dict Str)
    → find_mime ext (insert k v mp) ≡ (if str_eq k ext then v else find_mime ext mp)
unfolding find_mime
find_mime-insert ext k v mp =
    ap or_binary (lookup-insert k ext v mp) ∙ or_binary-if (str_eq k ext) v (lookup ext mp)

find_mime-assign_all :
    (ext : Str) (rows : List (String × String)) (mp : Dict Str)
    → find_mime ext (assign_all rows mp) ≡ last_of ext rows (find_mime ext mp)
unfolding assign_all
find_mime-assign_all ext [] mp = refl
find_mime-assign_all ext ((k, v) ∷ rows) mp =
    find_mime-assign_all ext rows (insert (codes k) (codes v) mp)
    ∙ rw (find_mime-insert ext (codes k) (codes v) mp) refl

-- After `init_mimes` an extension has the media type of the last row that assigns it, whatever the
-- map held, or else what the map already answered.
pub find_mime-init_mimes :
    (ext : Str) (mp : Dict Str)
    → find_mime ext (init_mimes mp) ≡ last_of ext mime_rows (find_mime ext mp)
unfolding init_mimes
find_mime-init_mimes ext mp = find_mime-assign_all ext mime_rows mp

pub has_slash : Str → Bool
has_slash [] = false
has_slash (c ∷ cs) = (c == 47) || has_slash cs

-- Whether every row gives a type and a subtype.
rows_slashed : List (String × String) → Bool
unfolding has_slash
rows_slashed [] = true
rows_slashed ((k, v) ∷ rows) = has_slash (codes v) && rows_slashed rows

&&_left : (a b : Bool) → (a && b) ≡ true → a ≡ true
&&_left true b h = refl
&&_left false b h = cc

&&_right : (a b : Bool) → (a && b) ≡ true → b ≡ true
&&_right true b h = h
&&_right false b h = cc

last_of-has_slash :
    (ext : Str) (rows : List (String × String)) (default : Str)
    → rows_slashed rows ≡ true
    → has_slash default ≡ true
    → has_slash (last_of ext rows default) ≡ true
unfolding rows_slashed
last_of-has_slash ext [] default h d = d
last_of-has_slash ext ((k, v) ∷ rows) default h d = elim (Bool-cases (str_eq (codes k) ext)) [
  | inl e ↦ rw e (
      last_of-has_slash ext rows (codes v) (&&_right (has_slash (codes v)) (rows_slashed rows) h)
        (&&_left (has_slash (codes v)) (rows_slashed rows) h))
  | inr e ↦
      rw e (
        last_of-has_slash ext rows default (&&_right (has_slash (codes v)) (rows_slashed rows) h) d)
]

mime_rows_slashed : rows_slashed mime_rows ≡ true
unfolding rows_slashed
mime_rows_slashed = refl

-- Whatever the extension, the answer after `init_mimes` on an empty map has a slash in it: it is a
-- type and a subtype.
pub find_mime-has_slash : (ext : Str) → has_slash (find_mime ext (init_mimes [])) ≡ true
unfolding find_mime has_slash lookup or_binary
find_mime-has_slash ext =
    rw (find_mime-init_mimes ext [])
      (last_of-has_slash ext mime_rows (find_mime ext []) mime_rows_slashed refl)
