-- ===== src/Listing.antt =====
-- `s3_connection::list_files_shallow` of es3/connection.cpp: the pages of a listing, collected in a
-- directory. The service with the parser of its replies (`read_fully` and TinyXML), curl's escaping and
-- libc's `atoll` are parameters. The source's assertion, that a path begins with a slash, holds of every
-- path of the program.
pub mod Laws
pub mod Pages
mod Tests
use extreme_s.Prelude.{
  ℕ, zero, suc, Bool, true, false, not, ◌&&◌, List, [], ◌∷◌, ◌++◌, Option, none, some, Str, codes,
  str_eq, last?, drop, ◌==◌, if◌then◌else◌, Outcome, ok, fail, es3_error, null_pointer, err_warn,
  ◌>>=◌,
}
use extreme_s.Prelude.Dict.{insert}
use extreme_s.S3Path.{S3Path, derive, extract_leaf}
use extreme_s.Sync.Tree.{
  dir, Subdirs, end, S3File, S3Directory, absolute, has_sub, place_sub, replace_sub,
}

-- A sibling of `IsTruncated` with the texts of its children; a child that is not there, or has no
-- text, is a null pointer.
pub data Node : Type 0 where
  contents : Option Str → Option Str → Option Str → Node
  common_prefixes : Option Str → Node
  other_node : Node

-- A reply: one that the parser refuses, one without the node `IsTruncated`, or one with the text of
-- that node and the siblings behind it.
pub data Page : Type 0 where
  unparsed : Page
  no_is_truncated : Page
  listed : Option Str → List Node → Page

-- What the loop reads of a node: the key, size and time of a file, or a common prefix.
pub data Entry : Type 0 where
  key : Str → Str → Str → Entry
  prefix : Str → Entry
  nothing : Entry

pub read_node : Node → Outcome Entry
read_node (contents (some name) (some size) (some mtime)) = ok (key name size mtime)
read_node (contents none size mtime) = fail null_pointer
read_node (contents (some name) none mtime) = fail null_pointer
read_node (contents (some name) (some size) none) = fail null_pointer
read_node (common_prefixes (some name)) = ok (prefix name)
read_node (common_prefixes none) = fail null_pointer
read_node other_node = ok nothing

-- The variable `name` at the end of a round.
abbrev pub entry_name : Entry → Str
entry_name (key name size mtime) = name
entry_name (prefix name) = name
entry_name nothing = []

-- `*name.rbegin() == '/'`; the parser makes no empty text.
abbrev pub ends_in_slash : Str → Bool
ends_in_slash name = elim (last? name) [ none ↦ false | some c ↦ c == b'/' ]

-- `name.substr(0, name.size()-1)`
abbrev pub trimmed : Str → Str
trimmed [] = []
trimmed (c ∷ []) = []
trimmed (c ∷ d ∷ s) = c ∷ trimmed (d ∷ s)

-- `target->subdirs_[name] = d`
pub insert_sub : Str → S3Directory → Subdirs S3Path S3File → Subdirs S3Path S3File
insert_sub k d ds = if has_sub k ds then replace_sub k d ds else place_sub k d ds

pub data Step : Type 0 where
  stop : S3Directory → Step
  more : Str → S3Directory → Step

pub dir_of : S3Path → Str → S3Directory
dir_of at name =
    let leaf = extract_leaf (trimmed name) in dir leaf (derive at (leaf ++ codes "/")) [] end

module _ (atoll : Str → ℕ) where
  pub file_of : S3Path → Str → Str → Str → S3File
  file_of at name size mtime = record {
    name = extract_leaf name;
    absolute_name = derive at (extract_leaf name);
    mtime_str = mtime;
    size = atoll size;
  }

  -- The body of the loop over nodes.
  pub add_entry : Entry → S3Directory → S3Directory
  add_entry (key name size mtime) (dir n p fs ds) =
      if ends_in_slash name
      then dir n p fs ds
      else dir n p (insert (extract_leaf name) (file_of p name size mtime) fs) ds
  add_entry (prefix name) (dir n p fs ds) =
      dir n p fs (insert_sub (extract_leaf (trimmed name)) (dir_of p name) ds)
  add_entry nothing target = target

  -- `while (node)`, with the name that the round before has left.
  pub collect : List Node → Str → S3Directory → Outcome (Str × S3Directory)
  unfolding read_node add_entry
  collect [] name target = ok (name, target)
  collect (n ∷ ns) name target = read_node n >>= λ e. collect ns (entry_name e) (add_entry e target)

  -- The end of a round of the outer loop.
  next_marker : Option Str → Str × S3Directory → Outcome Step
  next_marker none r = fail null_pointer
  next_marker (some is_trunc) (marker, target) =
      if str_eq is_trunc (codes "false") then ok (stop target) else ok (more marker target)

  take_page : S3Directory → Page → Outcome Step
  unfolding collect next_marker
  take_page target unparsed = fail (es3_error err_warn)
  take_page target no_is_truncated = ok (stop target)
  take_page target (listed is_trunc []) = ok (stop target)
  take_page target (listed is_trunc (n ∷ ns)) =
      collect (n ∷ ns) [] target >>= λ r. next_marker is_trunc r

  module _ (escape : Str → Str) (read_fully : S3Path → Str → Outcome Page) where
    list_args : Str → Str → Str
    list_args path marker = elim (drop 1 path) [
      | [] ↦ codes "?marker=" ++ (escape marker ++ codes "&delimiter=/")
      | c ∷ rest ↦
          codes "?prefix="
          ++ (escape (c ∷ rest) ++ (codes "&marker=" ++ (escape marker ++ codes "&delimiter=/")))
    ]

    pub list_page : S3Path → Str → Outcome Page
    unfolding list_args
    list_page path marker =
        read_fully (record path { path = codes "/" }) (list_args path.path marker)

    -- What a round leaves: the end of the listing, an error, or the next round.
    go_on :
        Outcome Step
        → (Str → S3Directory → Option (Outcome S3Directory))
        → Option (Outcome S3Directory)
    go_on (fail e) again = some (fail e)
    go_on (ok (stop target)) again = some (ok target)
    go_on (ok (more marker target)) again = again marker target

    -- `while (true)`, on fuel: `none` when the rounds are used up.
    pages : ℕ → S3Path → Str → S3Directory → Option (Outcome S3Directory)
    unfolding take_page go_on list_page
    pages zero path marker target = none
    pages (suc fuel) path marker target =
        go_on (list_page path marker >>= take_page target)
          (λ marker' target'. pages fuel path marker' target')

    -- `path.path_.substr(0, pos+1)`, up to the last slash.
    up_to_slash : Str → Option Str
    up_to_slash [] = none
    up_to_slash (c ∷ s) = elim (up_to_slash s) [
      | none ↦ if c == b'/' then some (c ∷ []) else none
      | some front ↦ some (c ∷ front)
    ]

    pub root_of : S3Path → Bool → S3Path
    unfolding up_to_slash
    root_of path try_to_root =
        if try_to_root && not (ends_in_slash path.path)
        then elim (up_to_slash path.path) [
          | none ↦ record path { path = codes "/" }
          | some front ↦ record path { path = front }
        ]
        else path

    pub start : S3Path → Option S3Directory → Bool → S3Directory
    unfolding root_of
    start path none try_to_root = dir [] (root_of path try_to_root) [] end
    start path (some target) try_to_root = target

    pub list_files_shallow : ℕ → S3Path → Option S3Directory → Bool → Option (Outcome S3Directory)
    unfolding pages start
    list_files_shallow fuel path target try_to_root =
        pages fuel path [] (start path target try_to_root)
