-- ===== src/Signal/Token/Pace.antt =====
-- signal/token.c with one alarm before each answer of the kernel: the program ends.
use Prim.Native.Nat.{min}
use native.Mathlib.Decide.{ℕ_discrete}
use apue_pratice.Prelude.{
  ℕ, suc, ◌+◌, ◌*◌, ◌≤◌, ◌<◌, ◌≡◌, ◌∙◌, ◌≢◌, some, List, [], ◌∷◌, arith, length, length-drop,
}
use apue_pratice.Signal.Token.{
  cps, Answer, moved, Event, alarm, answered, Cat, ended, running, on_alarm, read_some, write_some,
  calls, run, token_main,
}
use apue_pratice.Signal.Token.Laws.{token_copies}

-- An alarm, then an answer, as often as there are members.
unfoldable pub paced : List ℕ → List Event
paced [] = []
paced (k ∷ ks) = alarm ∷ answered (moved k) ∷ paced ks

-- After an alarm there is a token.
on_alarm-token : (c : Cat) → (on_alarm c).token ≢ 0
on_alarm-token c = ground arith

run-goes_on :
    (a : Answer) (es : List Event) (c d : Cat)
    → calls a c ≡ running d
    → run (answered a ∷ es) c ≡ run es d
unfolding run
run-goes_on a es c d h = cc

-- Each answer takes at least one byte further.
run-ends :
    (ks : List ℕ) (c : Cat)
    → 2 * length c.input + c.sz < length ks
    → (out : List ℕ) × (run (paced ks) c ≡ ended 0 out)
unfolding run paced
run-ends [] c h = absurd (omega arith)
run-ends (k ∷ ks) c h =
    let d = on_alarm c in
    let same_input : d.input ≡ c.input = ground arith in
    let same_sz : d.sz ≡ c.sz = ground arith in
    elim (ℕ_discrete d.sz 0) [
      | yes empty ↦ elim (ℕ_discrete (length d.input) 0) [
        | yes at_end ↦ (d.output, ground (arith, on_alarm-token c))
        | no more ↦
            let called : calls (moved k) d ≡ running (read_some k d) =
              ground (arith, on_alarm-token c) in
            let (out, e) =
              run-ends ks (read_some k d)
                (ground (arith, length-drop (min (suc k) (min cps (length d.input))) d.input)) in
            (out, run-goes_on (moved k) (paced ks) d (read_some k d) called ∙ e)
      ]
      | no full ↦
          let called : calls (moved k) d ≡ running (write_some k d) = ground arith in
          let (out, e) = run-ends ks (write_some k d) (ground arith) in
          (out, run-goes_on (moved k) (paced ks) d (write_some k d) called ∙ e)
    ]

-- With the file open, an alarm before each answer and no call failing, twice as many answers as the
-- file has bytes, and one more, are enough for signal/token.c to exit with status 0 with the file
-- written.
pub token_finishes :
    (argc : ℕ) (bytes memory : List ℕ) (ks : List ℕ)
    → 2 ≤ argc
    → 2 * length bytes < length ks
    → token_main argc (some bytes) memory (paced ks) ≡ ended 0 bytes
unfolding token_main
token_finishes argc bytes memory ks usage enough =
    let start : Cat = record {
      token = 0;
      buf = memory;
      cur = 0;
      sz = 0;
      input = bytes;
      output = [];
    } in
    let (out, e) = run-ends ks start (ground arith) in
    let exits : token_main argc (some bytes) memory (paced ks) ≡ ended 0 out = ground arith in
    rw (exits, token_copies argc bytes memory (paced ks) exits)
