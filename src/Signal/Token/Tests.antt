-- ===== src/Signal/Token/Tests.antt =====
-- Runs of signal/token.c.
use apue_pratice.Prelude.{ℕ, ◌*◌, ◌≤◌, ◌≡◌, refl, some, List, [], ◌∷◌, arith, length, replicate}
use apue_pratice.Signal.Token.{
  cps, interrupted, moved, Event, alarm, answered, ended, run, token_main,
}
use apue_pratice.Signal.Token.Laws.{alarms, written, token_rate, token_copies}
use apue_pratice.Signal.Token.Pace.{paced, token_finishes}

abbrev text : List ℕ
text = 104 ∷ 105 ∷ 10 ∷ []

-- A second without a call, an interrupted read, and short transfers.
abbrev events : List Event
events =
    alarm
    ∷ answered interrupted
    ∷ answered (moved 1)
    ∷ answered (moved 0)
    ∷ answered interrupted
    ∷ answered (moved 4)
    ∷ alarm
    ∷ answered (moved 4)
    ∷ answered (moved 4)
    ∷ alarm
    ∷ answered (moved 0)
    ∷ []

token_rate_example :
    length (written (token_main 2 (some text) (replicate 10 0) events)) ≤ cps * alarms events
token_rate_example = token_rate 2 (some text) (replicate 10 0) events

token_copies_example : text ≡ text
unfolding token_main run
token_copies_example = token_copies 2 text (replicate 10 0) events refl

token_finishes_example :
    token_main 2 (some text) (replicate 10 0) (paced (replicate 7 1)) ≡ ended 0 text
token_finishes_example =
    token_finishes 2 text (replicate 10 0) (replicate 7 1) (ground arith) (ground arith)
