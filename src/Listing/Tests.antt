-- ===== src/Listing/Tests.antt =====
-- A bucket of a file and a folder, listed with one entry to a page.
use extreme_s.Prelude.{
  ℕ, ◌-◌, ◌≡◌, refl, ◌∙◌, ap, inl, inr, true, false, [], ◌∷◌, ◌++◌, none, some, arith, Str, codes,
  str_eq, str_lt, if◌then◌else◌, length, take, drop, length-append, take-append_left, take-length,
  Outcome, ok, In, Bool-cases,
}
use extreme_s.S3Path.{S3Path}
use extreme_s.Listing.{
  Page, listed, Entry, key, prefix, entry_name, list_args, list_page, start, list_files_shallow,
}
use extreme_s.Listing.Laws.{node_of}
use extreme_s.Listing.Pages.{Serves, IsWhole, list_files_shallow-IsWhole}

abbrev file_a : Entry
file_a = key (codes "a") (codes "3") (codes "now")

abbrev folder_b : Entry
folder_b = prefix (codes "b/")

abbrev bucket : S3Path
bucket = record { zone = []; bucket = codes "logs"; path = codes "/" }

abbrev plain : Str → Str
plain s = s

abbrev no_number : Str → ℕ
no_number s = 0

abbrev without_end : Str → Str
without_end s = take (length s - 12) s

abbrev page_for : Str → Outcome Page
page_for marker =
    if str_lt marker (codes "a")
    then ok (listed (some (codes "true")) (node_of file_a ∷ []))
    else if str_lt marker (codes "b/")
    then ok (listed (some (codes "false")) (node_of folder_b ∷ []))
    else ok (listed (some (codes "false")) [])

abbrev service : S3Path → Str → Outcome Page
service root args = page_for (without_end (drop 8 args))

without_end-append : (marker : Str) → without_end (marker ++ codes "&delimiter=/") ≡ marker
without_end-append marker =
    let e : length (marker ++ codes "&delimiter=/") - 12 ≡ length marker =
      omega (arith, length-append marker (codes "&delimiter=/")) in
    rw e (
      take-append_left (length marker) marker (codes "&delimiter=/") (omega arith)
      ∙ take-length (length marker) marker (omega arith))

page_of_marker : (marker : Str) → list_page no_number plain service bucket marker ≡ page_for marker
unfolding list_page list_args
page_of_marker marker = ap page_for (without_end-append marker)

a_before_b : str_lt (codes "a") (codes "b/") ≡ true
unfolding str_lt
a_before_b = refl

not_last : str_eq (codes "true") (codes "false") ≡ false
unfolding str_eq
not_last = refl

last : str_eq (codes "false") (codes "false") ≡ true
unfolding str_eq
last = refl

serves :
    (marker : Str)
    → Serves (file_a ∷ folder_b ∷ []) marker (list_page no_number plain service bucket marker)
serves marker = elim (Bool-cases (str_lt marker (codes "a"))) [
  | inl first ↦ record {
    shown = file_a ∷ [];
    is_truncated = codes "true";
    answers = page_of_marker marker ∙ rw first refl;
    shown_behind =
        λ e h. elim h [ inl same ↦ rw same (first, inl refl) | inr none_left ↦ elim none_left [ ] ];
    in_order = λ e there ahead. elim there [
      | inl same ↦ inl (inl same)
      | inr (inl same) ↦ inr (
        not_last,
        λ f h. elim h [
          | inl is_a ↦ rw (is_a, same) a_before_b
          | inr none_left ↦ elim none_left [ ]
        ],
      )
      | inr (inr none_left) ↦ elim none_left [ ]
    ];
    not_empty = λ e. cc;
  }
  | inr passed ↦ elim (Bool-cases (str_lt marker (codes "b/"))) [
    | inl second ↦ record {
      shown = folder_b ∷ [];
      is_truncated = codes "false";
      answers = page_of_marker marker ∙ rw (passed, second) refl;
      shown_behind = λ e h. elim h [
        | inl same ↦ rw same (second, inr (inl refl))
        | inr none_left ↦ elim none_left [ ]
      ];
      in_order = λ e there ahead. elim there [
        | inl same ↦ let seen : str_lt marker (codes "a") ≡ true = rw same at ahead in absurd (cc)
        | inr (inl same) ↦ inl (inl same)
        | inr (inr none_left) ↦ elim none_left [ ]
      ];
      not_empty = λ e. last;
    }
    | inr beyond ↦ record {
      shown = [];
      is_truncated = codes "false";
      answers = page_of_marker marker ∙ rw (passed, beyond) refl;
      shown_behind = λ e h. elim h [ ];
      in_order = λ e there ahead. elim there [
        | inl same ↦ let seen : str_lt marker (codes "a") ≡ true = rw same at ahead in absurd (cc)
        | inr (inl same) ↦
            let seen : str_lt marker (codes "b/") ≡ true = rw same at ahead in absurd (cc)
        | inr (inr none_left) ↦ elim none_left [ ]
      ];
      not_empty = λ e. last;
    }
  ]
]

named : (e : Entry) → In e (file_a ∷ folder_b ∷ []) → str_lt [] (entry_name e) ≡ true
unfolding str_lt
named e (inl same) = rw same refl
named e (inr (inl same)) = rw same refl
named e (inr (inr h)) = elim h [ ]

list_files_shallow-IsWhole_example :
    IsWhole no_number plain service
      (file_a ∷ folder_b ∷ [])
      (start no_number plain service bucket none true)
      (list_files_shallow no_number plain service 3 bucket none true)
list_files_shallow-IsWhole_example =
    list_files_shallow-IsWhole no_number plain service (file_a ∷ folder_b ∷ []) bucket serves 3 none
      true (omega arith) named
