-- ===== src/Tests/Pages.antt =====
-- Pages of ten results, and a range of heights.
use go_execution_abci.Prelude.{◌≡◌, refl, some, nat_eq}
use go_execution_abci.Prelude.Int.{pos}
use go_execution_abci.Prelude.Exec.{ok}
use go_execution_abci.Rpc.Paging.{validate_page}
use go_execution_abci.Rpc.Heights.{bounded_range, filter_min_max}

third : validate_page (some (pos 3)) (pos 10) (pos 25) ≡ ok (pos 3)
unfolding validate_page
third = refl

seen : filter_min_max (pos 1) (pos 50) (pos 0) (pos 0) (pos 20) ≡ ok (pos 31, pos 50)
unfolding filter_min_max bounded_range
seen = refl
