-- ===== src/Nonce/Examples.antt =====
-- Runs of the nonces, and the theorem at a schedule of calls.
use cryptofiend.Prelude.{
  ◌+◌, ◌-◌, ◌<◌, ◌≡◌, refl, true, false, List, [], ◌∷◌, arith, codes, text_eq, length,
}
use cryptofiend.GoMap.{lookup, insert}
use cryptofiend.Nonce.{pos, negsuc, pos_part, half, succ64, Nonce, Now, get_value}
use cryptofiend.Nonce.Increasing.{Call, run, current, values_of, IsIncreasingFrom, run-IsIncreasing}

succ64_wraps : succ64 (pos (half - 1)) ≡ negsuc (half - 1)
succ64_wraps = refl

abbrev fresh : Nonce
fresh = record { n = pos 0; bounded_call = [] }

abbrev noon : Now
noon = record { unix = pos 1500000000; unix_nano = pos 1500000000000000000 }

abbrev calls : List Call
calls =
    record { exch_name = codes "ANX"; nano_precision = true; now = noon }
    ∷ record { exch_name = codes "Kraken"; nano_precision = false; now = noon }
    ∷ record { exch_name = codes "ANX"; nano_precision = true; now = noon }
    ∷ []

run_values :
    values_of (codes "ANX") (run fresh calls)
    ≡ pos 1500000000000000000 ∷ pos 1500000000000000001 ∷ []
unfolding run get_value text_eq lookup insert
run_values = refl

nothing_yet : pos_part (current fresh (codes "ANX")) + length calls < half
unfolding lookup
nothing_yet = omega arith

run-IsIncreasing_example :
    IsIncreasingFrom (current fresh (codes "ANX")) (values_of (codes "ANX") (run fresh calls))
run-IsIncreasing_example =
    run-IsIncreasing calls fresh (codes "ANX") 1500000000000000000 (omega arith) (omega arith)
      nothing_yet
