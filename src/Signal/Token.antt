-- ===== src/Signal/Token.antt =====
-- signal/token.c, which writes a file to the standard output at ten bytes for each second, with a
-- token for each alarm. The handler runs between two calls of the program, not inside of `token--`.
pub mod Laws
pub mod Pace
mod Tests
use Prim.Native.Nat.{min}
use apue_pratice.Prelude.{
  ℕ, zero, suc, ◌+◌, ◌-◌, ◌*◌, ◌/◌, ◌%◌, ◌^◌, ◌≤◌, ◌<◌, ◌≡◌, refl, sym, ap, ◌∙◌, ◌≢◌, ◌↔◌, ◌⊎◌, inl,
  inr, Bool, true, false, ◌&&◌, ◌||◌, Option, none, some, List, [], ◌∷◌, ◌++◌, map, arith, ltb, leb,
  ◌==◌, if◌then◌else◌, Bool-cases, Option-cases, length, get_elem?, get_or, set, length-set,
  get_elem?-set_self, get_elem?-set_ne, length-append, take, drop, replicate, length-replicate,
  length-map, take-append-drop, length-take, length-drop,
}
use apue_pratice.Prelude.Int.{
  ℤ, pos, negsuc, pos_part, neg_part, ◌+ℤ◌, ◌-ℤ◌, ◌≤ℤ◌, leb_ℤ, ltb_ℤ, eqb_ℤ, int_laws, eq_of_parts,
}
use apue_pratice.Prelude.Outcome.{Outcome, done, fault, blocked, ◌>>=◌, >>=-eq-done}
use apue_pratice.Prelude.CInt.{
  fits, checked, add_int, sub_int, min_int, int_min, int_max, add_int-done, sub_int-done,
  fits_of_le, add_int-eq, sub_int-eq,
}

-- TOKEN_MAX
abbrev pub token_max : ℕ
token_max = 1024

-- CPS
abbrev pub cps : ℕ
cps = 10

-- What the kernel answers to one `read` or `write`: EINTR, another error, or up to so many bytes, and at
-- least one where there are bytes to transfer.
pub data Answer : Type 0 where
  interrupted : Answer
  failed : Answer
  moved : ℕ → Answer

-- What happens next: SIGALRM, or an answer to the call that the program makes.
pub data Event : Type 0 where
  alarm : Event
  answered : Answer → Event

-- `token`, the locals, the bytes that the file still has, and the bytes written. With `sz` 0 the program
-- is at `while(token <= 0)`, else in its loop over `write`.
pub record Cat : Type 0 where
  pub token : ℕ
  pub buf : List ℕ
  pub cur : ℕ
  pub sz : ℕ
  pub input : List ℕ
  pub output : List ℕ

pub data Progress : Type 0 where
  ended : ℕ → List ℕ → Progress  -- the exit status, and the output
  running : Cat → Progress

-- `on_alarm`
abbrev pub on_alarm : Cat → Cat
on_alarm c = if leb token_max c.token then c else record c { token = (c.token + 1) % 2 ^ 32 }

-- `read(src, buf, CPS)`, where it does not fail, and `token--`.
abbrev pub read_some : ℕ → Cat → Cat
read_some k c =
    let n = min (suc k) (min cps (length c.input)) in
    record c {
      token = c.token - 1;
      buf = take n c.input ++ drop n c.buf;
      cur = 0;
      sz = n;
      input = drop n c.input;
    }

-- `write(1, buf + cur, sz)`, where it does not fail.
abbrev pub write_some : ℕ → Cat → Cat
write_some k c =
    let r = min (suc k) c.sz in
    record c { output = c.output ++ take r (drop c.cur c.buf); cur = c.cur + r; sz = c.sz - r }

-- The answer to the call that the program makes; without a token it makes none but `pause`.
abbrev pub calls : Answer → Cat → Progress
calls interrupted c = running c
calls failed c = if (c.sz == 0) && (c.token == 0) then running c else ended 1 c.output
calls (moved k) c =
    if c.sz == 0
    then (if c.token == 0
        then running c
        else if length c.input == 0
        then ended 0 c.output
        else running (read_some k c))
    else running (write_some k c)

unfoldable pub run : List Event → Cat → Progress
run [] c = running c
run (alarm ∷ es) c = run es (on_alarm c)
run (answered a ∷ es) c = elim (calls a c) [
  | ended status out ↦ ended status out
  | running d ↦ run es d
]

-- `main`: the number of arguments, the file if it opens, what the buffer happens to hold, and what
-- happens. `ended 1` without output is `exit(1)`.
unfoldable pub token_main : ℕ → Option (List ℕ) → List ℕ → List Event → Progress
token_main argc src memory events = if ltb argc 2 then ended 1 [] else elim src [
  | none ↦ ended 1 []
  | some bytes ↦
      run events (record { token = 0; buf = memory; cur = 0; sz = 0; input = bytes; output = [] })
]
