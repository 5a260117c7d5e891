-- ===== src/Requests/Laws.antt =====
-- Which replies are errors, and which of them are tried again.
use extreme_s.Prelude.{
  ℕ, ◌<◌, ◌≤◌, ◌≡◌, ◌↔◌, ◌⊎◌, true, false, Option, some, Str, codes, contains, arith, ok, fail,
  es3_error, err_warn, err_fatal,
}
use extreme_s.Agenda.Retry.{verdict, again, give_up}
use extreme_s.Requests.{ErrorNodes, checked, parsed_error, check_for_errors}

-- A reply passes exactly when curl answers for its status and that is below 400, whatever its text.
pub check_for_errors-ok :
    (curl_code code : ℕ) (doc : Option ErrorNodes)
    → (check_for_errors curl_code code doc ≡ ok tt) ↔ ((curl_code ≡ 0) × (code < 400))
unfolding check_for_errors checked parsed_error
check_for_errors-ok curl_code code doc = ground arith

-- A reply with a status from 400 on and with its two nodes is an error: a warning, after which the task
-- is tried again, exactly when the status is 500 or more or the message tells of an idle connection,
-- and else a fatal one, after which it is given up.
pub check_for_errors-again :
    (code : ℕ) (err_code msg_val : Str)
    → 400 ≤ code
    → let nodes : ErrorNodes = record { s3_err_code = some err_code; message = some msg_val } in
      let outcome = check_for_errors 0 code (some nodes) in
      let idle = contains msg_val (codes "Idle connections will be closed") in
      (((outcome ≡ fail (es3_error err_warn)) × (verdict outcome ≡ again))
        ↔ ((500 ≤ code) ⊎ (idle ≡ true)))
      × (((outcome ≡ fail (es3_error err_fatal)) × (verdict outcome ≡ give_up))
          ↔ ((code < 500) × (idle ≡ false)))
unfolding check_for_errors checked parsed_error verdict
check_for_errors-again code err_code msg_val h = (ground arith, ground arith)
