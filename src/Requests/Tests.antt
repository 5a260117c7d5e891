-- ===== src/Requests/Tests.antt =====
-- Replies with an error status.
use extreme_s.Prelude.{
  ◌≡◌, ◌≤◌, ◌↔◌, ◌⊎◌, [], some, codes, contains, true, fail, arith, es3_error, err_warn, err_fatal,
  ◌<◌, false,
}
use extreme_s.Agenda.Retry.{verdict, again, give_up}
use extreme_s.Requests.{ErrorNodes, check_for_errors}
use extreme_s.Requests.Laws.{check_for_errors-again}

abbrev slow_down : ErrorNodes
slow_down = record { s3_err_code = some []; message = some (codes "Slow down") }

check_for_errors-again_example :
    (((check_for_errors 0 503 (some slow_down) ≡ fail (es3_error err_warn))
        × (verdict (check_for_errors 0 503 (some slow_down)) ≡ again))
      ↔ ((500 ≤ 503)
          ⊎ (contains (codes "Slow down") (codes "Idle connections will be closed") ≡ true)))
    × (((check_for_errors 0 503 (some slow_down) ≡ fail (es3_error err_fatal))
          × (verdict (check_for_errors 0 503 (some slow_down)) ≡ give_up))
        ↔ ((503 < 500)
            × (contains (codes "Slow down") (codes "Idle connections will be closed") ≡ false)))
check_for_errors-again_example = check_for_errors-again 503 [] (codes "Slow down") (omega arith)
