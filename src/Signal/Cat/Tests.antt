-- ===== src/Signal/Cat/Tests.antt =====
-- A short run of signal/cat.c.
use apue_pratice.Prelude.{◌≤◌, ◌≡◌, refl, ◌⊎◌, true, false, List, [], ◌∷◌, ◌++◌, length, replicate}
use apue_pratice.Signal.Cat.{Answer, got, Cat, cat_loop, all_got, cat_loop-copies}

-- Two bytes, then the last one, then the end of the file.
abbrev three_alarms : List Answer
three_alarms = got 1 ∷ got 4 ∷ got 0 ∷ []

cat_loop-copies_example :
    let c : Cat =
      cat_loop three_alarms (record { file = 97 ∷ 98 ∷ 99 ∷ []; output = []; over = false }) in
    (c.output ++ c.file ≡ 97 ∷ 98 ∷ 99 ∷ [])
    × (length c.output ≤ 30)
    × (all_got three_alarms ≡ true → (c.over ≡ false) × ((c.file ≡ []) ⊎ (3 ≤ length c.output)))
cat_loop-copies_example = cat_loop-copies three_alarms (97 ∷ 98 ∷ 99 ∷ [])

-- Of eleven bytes one alarm copies ten, however many more are at hand.
eleven_bytes :
    (cat_loop (got 99 ∷ []) (record { file = replicate 11 7; output = []; over = false })).output
    ≡ replicate 10 7
unfolding cat_loop
eleven_bytes = refl
