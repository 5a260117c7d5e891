-- ===== src/Requests.antt =====
-- The errors of es3/connection.cpp: `checked` and `check_for_errors`. What curl and the XML parser
-- answer is an argument.
pub mod Laws
pub mod Buffers
mod Tests
use extreme_s.Prelude.{
  ℕ, zero, suc, ◌+◌, Bool, true, false, List, [], ◌∷◌, ◌++◌, Option, none, some, Str, codes,
  contains, ltb, leb, ◌==◌, is_empty, if◌then◌else◌, Outcome, ok, fail, es3_error, null_pointer,
  Code, err_fatal, err_warn, ◌>>=◌,
}

-- The texts of the nodes `Error/Code` and `Error/Message` of a reply that could be parsed; a node that
-- is not there is a null pointer.
pub record ErrorNodes : Type 0 where
  pub s3_err_code : Option Str
  pub message : Option Str

-- `checked`: curl's `CURLE_OK` is 0.
pub checked : ℕ → Outcome (Unit {0})
checked curl_code = if curl_code == 0 then ok tt else fail (es3_error err_warn)

-- The branch of a reply that could be parsed. Both nodes are followed before they are tested.
parsed_error : Code → ErrorNodes → Outcome (Unit {0})
parsed_error err_level nodes = elim nodes.message [
  | none ↦ fail null_pointer
  | some msg_val ↦ elim nodes.s3_err_code [
    | none ↦ fail null_pointer
    | some err_code ↦
        if contains msg_val (codes "Idle connections will be closed")
        then fail (es3_error err_warn)
        else fail (es3_error err_level)
  ]
]

-- `check_for_errors`, for what `curl_easy_getinfo` answers, the status, and the parsed reply, which
-- is `none` when `doc.Error()`.
pub check_for_errors : ℕ → ℕ → Option ErrorNodes → Outcome (Unit {0})
unfolding parsed_error checked
check_for_errors curl_code code doc = checked curl_code >>= λ u.
    let err_level = if leb 500 code then err_warn else err_fatal in
    if ltb code 400
    then ok tt
    else elim doc [ none ↦ fail (es3_error err_level) | some nodes ↦ parsed_error err_level nodes ]
