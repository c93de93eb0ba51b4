-- ===== src/Signal/SlowCat/Tests.antt =====
-- Runs of signal/slow_cat.c.
use apue_pratice.Prelude.{◌≡◌, refl, [], ◌∷◌, arith, replicate}
use apue_pratice.Prelude.Int.{pos}
use apue_pratice.Prelude.Outcome.{done}
use apue_pratice.Slots.{live}
use apue_pratice.Signal.Token.{moved}
use apue_pratice.Signal.Tbf.{Library, Tbf, at_start, default_action}
use apue_pratice.Signal.SlowCat.{Slow, goes_on, slow_round}
use apue_pratice.Signal.SlowCat.Spend.{with_tokens, round_spends}

abbrev bucket : Tbf
bucket = record { cps = pos 10; burst = pos 1024; token = pos 10; pos_field = pos 0 }

abbrev library : Library
library = record (at_start default_action) { jobs = live bucket ∷ [] }

abbrev at_round : Slow
at_round = record {
  lib = library;
  input = 104 ∷ 105 ∷ 10 ∷ [];
  buf = replicate 1024 0;
  output = [];
}

round_spends_example :
    slow_round (pos 0) (record { alarms = 0; reading = moved 1; writes = moved 1 ∷ [] }) at_round
    ≡ done (
        goes_on (record {
          lib = with_tokens 0 bucket 8 library;
          input = 10 ∷ [];
          buf = 104 ∷ 105 ∷ replicate 1022 0;
          output = 104 ∷ 105 ∷ [];
        }))
round_spends_example =
    round_spends 0 0 9 1 1 2 at_round bucket refl refl (ground arith) (ground arith) (ground arith)
      (ground arith) (ground arith)
