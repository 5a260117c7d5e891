-- ===== src/Mimes.antt =====
-- The media types of files: es3/mimes.cpp.
mod First
mod Second
mod Third
mod Fourth
mod Fifth
pub mod Laws
use extreme_s.Prelude.{List, [], ◌∷◌, ◌++◌, Option, none, some, String, Str, codes}
use extreme_s.Prelude.Dict.{Dict, lookup, insert}
use First.{first_mimes}
use Second.{second_mimes}
use Third.{third_mimes}
use Fourth.{fourth_mimes}
use Fifth.{fifth_mimes}

-- The assignments `mp[k]=v`, one after the other.
assign_all : List (String × String) → Dict Str → Dict Str
assign_all [] mp = mp
assign_all ((k, v) ∷ rows) mp = assign_all rows (insert (codes k) (codes v) mp)

abbrev pub mime_rows : List (String × String)
mime_rows = first_mimes ++ (second_mimes ++ (third_mimes ++ (fourth_mimes ++ fifth_mimes)))

pub init_mimes : Dict Str → Dict Str
unfolding assign_all
init_mimes mp = assign_all mime_rows mp

or_binary : Option Str → Str
or_binary none = codes "application/x-binary"
or_binary (some v) = v

-- `find_mime`, with the global map as an argument.
pub find_mime : Str → Dict Str → Str
unfolding or_binary
find_mime ext mp = or_binary (lookup ext mp)
