-- ===== src/Listing/Pages.antt =====
-- The whole listing, for a service that answers in pages.
use extreme_s.Prelude.{
  ℕ, zero, suc, ◌<◌, ◌≤◌, ◌≡◌, refl, ◌⊎◌, inl, inr, Bool, true, false, List, [], ◌∷◌, Option, some,
  map, arith, Str, codes, str_eq, str_lt, str_lt_irrefl, str_lt_trans, if◌then◌else◌, length,
  Outcome, ok, In, Bool-cases, ◌∙◌,
}
use extreme_s.S3Path.{S3Path}
use extreme_s.Sync.Tree.{S3Directory}
use extreme_s.Listing.{
  Page, listed, Entry, entry_name, next_marker, take_page, list_page, go_on, pages, start,
  list_files_shallow,
}
use extreme_s.Listing.Laws.{
  node_of, add_entries, last_name, last_name-In, collect-node_of, Holds, Holds-add_entries_before,
  Holds-add_entries, ComesFrom, ComesFrom-refl, ComesFrom-add_entries,
}

-- A page of the service for a marker: some of the entries behind the marker, none of them while a
-- lesser one is kept back, and all of them if the page says that it is the last one.
pub record Serves (entries : List Entry) (marker : Str) (page : Outcome Page) : Type 0 where
  pub shown : List Entry
  pub is_truncated : Str
  pub answers : page ≡ ok (listed (some is_truncated) (map node_of shown))
  pub shown_behind : (e : Entry) → In e shown → (str_lt marker (entry_name e) ≡ true) × In e entries
  pub in_order :
      (e : Entry)
      → In e entries
      → str_lt marker (entry_name e) ≡ true
      → In e shown
        ⊎ ((str_eq is_truncated (codes "false") ≡ false)
            × ((f : Entry) → In f shown → str_lt (entry_name f) (entry_name e) ≡ true))
  pub not_empty : shown ≡ [] → str_eq is_truncated (codes "false") ≡ true

-- How many entries stand behind the marker.
behind : Str → List Entry → ℕ
behind marker [] = 0
behind marker (e ∷ es) =
    let rest = behind marker es in if str_lt marker (entry_name e) then suc rest else rest

behind-le : (marker : Str) (es : List Entry) → behind marker es ≤ length es
unfolding behind
behind-le marker [] = omega arith
behind-le marker (e ∷ es) = ground (arith, behind-le marker es)

behind_mono :
    (low high : Str) (es : List Entry) → str_lt low high ≡ true → behind high es ≤ behind low es
unfolding behind
behind_mono low high [] h = omega arith
behind_mono low high (e ∷ es) h =
    ground (arith, str_lt_trans low high (entry_name e), behind_mono low high es)

-- A marker that is one of the names leaves fewer entries behind it.
behind-less :
    (low : Str) (f : Entry) (es : List Entry)
    → In f es
    → str_lt low (entry_name f) ≡ true
    → behind (entry_name f) es < behind low es
unfolding behind
behind-less low f [] there h = elim there [ ]
behind-less low f (e ∷ es) (inl same) h =
    rw (← same, str_lt_irrefl (entry_name f), h)
      (ground (arith, behind_mono low (entry_name f) es h))
behind-less low f (e ∷ es) (inr there) h =
    ground (arith, str_lt_trans low (entry_name f) (entry_name e), behind-less low f es there h)

module _ (atoll : Str → ℕ) (escape : Str → Str) (read_fully : S3Path → Str → Outcome Page) where
  -- The whole of the entries, found with enough rounds.
  abbrev pub IsWhole : List Entry → S3Directory → Option (Outcome S3Directory) → Type 0
  IsWhole entries before result =
      (d : S3Directory) × (result ≡ some (ok d))
      × ((e : Entry) → In e entries → Holds atoll d e)
      × ComesFrom atoll entries before d

  go_on-stop :
      (fuel : ℕ) (path : S3Path) (marker : Str) (d : S3Directory) (is_truncated : Str)
      → list_page atoll escape read_fully path marker ≡ ok (listed (some is_truncated) [])
      → pages atoll escape read_fully (suc fuel) path marker d ≡ some (ok d)
  unfolding pages go_on take_page
  go_on-stop fuel path marker d is_truncated e = rw e refl

  go_on-next :
      (fuel : ℕ) (path : S3Path) (marker : Str) (d : S3Directory) (is_truncated : Str) (f : Entry)
      (fs : List Entry)
      → list_page atoll escape read_fully path marker
        ≡ ok (listed (some is_truncated) (map node_of (f ∷ fs)))
      → pages atoll escape read_fully (suc fuel) path marker d ≡ (
          if str_eq is_truncated (codes "false")
          then some (ok (add_entries atoll (f ∷ fs) d))
          else pages atoll escape read_fully fuel path
              (last_name (f ∷ fs) [])
              (add_entries atoll (f ∷ fs) d))
  unfolding pages go_on take_page next_marker
  go_on-next fuel path marker d is_truncated f fs e =
      rw (e, collect-node_of atoll (f ∷ fs) [] d)
        (elim (Bool-cases (str_eq is_truncated (codes "false"))) [
          | inl last ↦ rw last refl
          | inr others ↦ rw others refl
        ])

  module _ (entries : List Entry) where
    -- What the page of a marker has to show, as in `Serves`.
    abbrev InOrder : Str → List Entry → Str → Type 0
    InOrder marker shown is_truncated =
        (e : Entry)
        → In e entries
        → str_lt marker (entry_name e) ≡ true
        → In e shown
          ⊎ ((str_eq is_truncated (codes "false") ≡ false)
              × ((f : Entry) → In f shown → str_lt (entry_name f) (entry_name e) ≡ true))

    -- Everything up to the marker is held.
    abbrev HeldTo : Str → S3Directory → Type 0
    HeldTo marker d =
        (e : Entry) → In e entries → str_lt marker (entry_name e) ≡ false → Holds atoll d e

    held_after :
        (marker : Str) (d : S3Directory) (is_truncated : Str) (f : Entry) (fs : List Entry)
        → InOrder marker (f ∷ fs) is_truncated
        → HeldTo marker d
        → (e : Entry) → In e entries
        → (str_lt (last_name (f ∷ fs) []) (entry_name e) ≡ false)
          ⊎ (str_eq is_truncated (codes "false") ≡ true)
        → Holds atoll (add_entries atoll (f ∷ fs) d) e
    held_after marker d is_truncated f fs in_order before e there reached =
        elim (Bool-cases (str_lt marker (entry_name e))) [
          | inr passed ↦ Holds-add_entries_before atoll e (f ∷ fs) d (before e there passed)
          | inl ahead ↦ elim (in_order e there ahead) [
            | inl on_page ↦ Holds-add_entries atoll e (f ∷ fs) d on_page
            | inr (others, greater) ↦ elim reached [
              | inr last ↦ absurd (cc)
              | inl up_to ↦
                  let (g, on_page, same) = last_name-In f fs [] in
                  let above : str_lt (last_name (f ∷ fs) []) (entry_name e) ≡ true =
                    rw same (greater g on_page) in
                  absurd (cc)
            ]
          ]
        ]

    held_at_end :
        (marker : Str) (d : S3Directory) (is_truncated : Str)
        → InOrder marker [] is_truncated
        → str_eq is_truncated (codes "false") ≡ true
        → HeldTo marker d
        → (e : Entry) → In e entries
        → Holds atoll d e
    held_at_end marker d is_truncated in_order last held e there =
        elim (Bool-cases (str_lt marker (entry_name e))) [
          | inr passed ↦ held e there passed
          | inl ahead ↦ elim (in_order e there ahead) [
            | inl on_page ↦ elim on_page [ ]
            | inr (others, greater) ↦ absurd (cc)
          ]
        ]

    module _ (path : S3Path) where
      -- The rounds from a marker find all that is left.
      abbrev Finds : ℕ → Type 0
      Finds fuel =
          (marker : Str) (before d : S3Directory)
          → behind marker entries < fuel
          → HeldTo marker d
          → ComesFrom atoll entries before d
          → IsWhole entries before (pages atoll escape read_fully fuel path marker d)

      one_round :
          (fuel : ℕ)
          → Finds fuel
          → (marker : Str) (shown : List Entry) (is_truncated : Str)
          → list_page atoll escape read_fully path marker
            ≡ ok (listed (some is_truncated) (map node_of shown))
          → ((e : Entry) → In e shown → (str_lt marker (entry_name e) ≡ true) × In e entries)
          → InOrder marker shown is_truncated
          → (shown ≡ [] → str_eq is_truncated (codes "false") ≡ true)
          → (before d : S3Directory) → behind marker entries < suc fuel
          → HeldTo marker d
          → ComesFrom atoll entries before d
          → IsWhole entries before (pages atoll escape read_fully (suc fuel) path marker d)
      one_round fuel again marker [] is_truncated answers _ in_order not_empty before d h held c = (
        d,
        go_on-stop fuel path marker d is_truncated answers,
        held_at_end marker d is_truncated in_order (not_empty refl) held,
        c,
      )
      one_round fuel again marker (f ∷ fs) is_truncated answers shown_behind in_order _ before d h
            held c =
          let d' = add_entries atoll (f ∷ fs) d in
          let c' =
            ComesFrom-add_entries atoll entries before d (f ∷ fs)
              (λ e on_page. (shown_behind e on_page).1) c in
          let next = go_on-next fuel path marker d is_truncated f fs answers in
          let keep = held_after marker d is_truncated f fs in_order held in
          elim (Bool-cases (str_eq is_truncated (codes "false"))) [
            | inl last ↦ (d', next ∙ rw last refl, (λ e there. keep e there (inr last)), c')
            | inr others ↦
                let (g, on_page, same) = last_name-In f fs [] in
                let (g_behind, g_there) = shown_behind g on_page in
                let less : behind (last_name (f ∷ fs) []) entries < fuel =
                  rw same (omega (arith, behind-less marker g entries g_there g_behind)) in
                let (r, e, all, from) =
                  again (last_name (f ∷ fs) []) before d' less
                    (λ e there up_to. keep e there (inl up_to)) c' in
                (r, next ∙ rw others e, all, from)
          ]

      pages-IsWhole :
          ((marker : Str) → Serves entries marker (list_page atoll escape read_fully path marker))
          → (fuel : ℕ) → Finds fuel
      pages-IsWhole serves zero marker before d h held c = absurd (omega arith)
      pages-IsWhole serves (suc fuel) marker before d h held c =
          let s = serves marker in
          one_round fuel (pages-IsWhole serves fuel) marker s.shown s.is_truncated s.answers
            s.shown_behind s.in_order s.not_empty before d h held c

    -- Against a service that answers each marker with a page of the entries behind it in their order,
    -- and for entries with names that are not empty, as many rounds as there are entries and one more
    -- are enough: the listing ends without an error, its directory holds every file and every common
    -- prefix of the entries under its leaf, and all that it has was there before or is one of these.
    pub list_files_shallow-IsWhole :
        (path : S3Path)
        → ((marker : Str) → Serves entries marker (list_page atoll escape read_fully path marker))
        → (fuel : ℕ) (target : Option S3Directory) (try_to_root : Bool) → length entries < fuel
        → ((e : Entry) → In e entries → str_lt [] (entry_name e) ≡ true)
        → IsWhole entries
            (start atoll escape read_fully path target try_to_root)
            (list_files_shallow atoll escape read_fully fuel path target try_to_root)
    unfolding list_files_shallow
    list_files_shallow-IsWhole path serves fuel target try_to_root enough named =
        let d = start atoll escape read_fully path target try_to_root in
        pages-IsWhole path serves fuel [] d d (omega (arith, behind-le [] entries))
          (λ e there unnamed. let seen = named e there in absurd (cc))
          (ComesFrom-refl atoll entries d)
