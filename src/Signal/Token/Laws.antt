-- ===== src/Signal/Token/Laws.antt =====
-- What signal/token.c writes, and how fast.
use Prim.Native.Nat.{min}
use mathlib.Core.Path.{subst}
use mathlib.Core.List.{append-nil, append_assoc}
use apue_pratice.Prelude.{
  ℕ, zero, suc, ◌+◌, ◌-◌, ◌*◌, ◌%◌, ◌^◌, ◌≤◌, ◌≡◌, refl, sym, ap, ◌∙◌, Bool, true, false, ◌&&◌,
  Option, none, some, List, [], ◌∷◌, ◌++◌, arith, leb, ◌==◌, if◌then◌else◌, length, length-append,
  take, drop, take-append-drop, length-take,
}
use apue_pratice.Signal.Token.{
  token_max, cps, Answer, interrupted, failed, moved, Event, alarm, answered, Cat, Progress, ended,
  running, on_alarm, read_some, write_some, calls, run, token_main,
}
use apue_pratice.Copy.Blocks.{take-left, take-split, drop-drop, no_bytes}

-- The alarms among the events.
pub alarms : List Event → ℕ
alarms [] = 0
alarms (alarm ∷ es) = suc (alarms es)
alarms (answered _ ∷ es) = alarms es

abbrev pub written : Progress → List ℕ
written (ended status out) = out
written (running c) = c.output

-- What the tokens and the bytes that are read already allow to be written.
abbrev credit : Cat → ℕ
credit c = length c.output + c.sz + cps * c.token

after_calls : Progress → ℕ
after_calls (ended status out) = length out
after_calls (running c) = credit c

calls-credit : (a : Answer) (c : Cat) → after_calls (calls a c) ≤ credit c
unfolding after_calls
calls-credit interrupted c = ground arith
calls-credit failed c = ground arith
calls-credit (moved k) c =
    let r = min (suc k) c.sz in
    ground
      (arith, length-append c.output (take r (drop c.cur c.buf)), length-take r (drop c.cur c.buf))

resume-credit :
    (p : Progress) (es : List Event) (m : ℕ)
    → ((d : Cat) → length (written (run es d)) ≤ credit d + cps * alarms es)
    → after_calls p ≤ m
    → length (written (elim p [ ended status out ↦ ended status out | running d ↦ run es d ]))
      ≤ m + cps * alarms es
unfolding after_calls
resume-credit (ended status out) es m rest h = omega (arith, h)
resume-credit (running d) es m rest h = omega (arith, h, rest d)

run-credit : (es : List Event) (c : Cat) → length (written (run es c)) ≤ credit c + cps * alarms es
unfolding run alarms
run-credit [] c = ground arith
run-credit (alarm ∷ es) c = ground (arith, run-credit es (on_alarm c))
run-credit (answered a ∷ es) c =
    resume-credit (calls a c) es (credit c) (run-credit es) (calls-credit a c)

-- What is still to be written, of the buffer and of the file.
abbrev pub pending : Cat → List ℕ
pending c = take c.sz (drop c.cur c.buf) ++ c.input

-- The bytes that are read and not written stand in the buffer.
abbrev pub InBuffer : Cat → Type 0
InBuffer c = c.cur + c.sz ≤ length c.buf

pub read_some-InBuffer : (k : ℕ) (c : Cat) → InBuffer (read_some k c)
read_some-InBuffer k c =
    let n = min (suc k) (min cps (length c.input)) in
    ground (arith, length-append (take n c.input) (drop n c.buf), length-take n c.input)

pub write_some-InBuffer : (k : ℕ) (c : Cat) → InBuffer c → InBuffer (write_some k c)
write_some-InBuffer k c b = ground arith

pub read_some-pending : (k : ℕ) (c : Cat) → pending (read_some k c) ≡ c.input
read_some-pending k c =
    let n = min (suc k) (min cps (length c.input)) in
    rw (take-left n c.input (drop n c.buf) (ground arith), take-append-drop n c.input)

pub write_some-pending :
    (k : ℕ) (c : Cat) → (write_some k c).output ++ pending (write_some k c) ≡ c.output ++ pending c
write_some-pending k c =
    let r = min (suc k) c.sz in
    let ahead = drop c.cur c.buf in
    rw (
      sym (drop-drop r c.cur (c.cur + r) c.buf refl),
      append_assoc c.output (take r ahead) (take (c.sz - r) (drop r ahead) ++ c.input),
      sym (append_assoc (take r ahead) (take (c.sz - r) (drop r ahead)) c.input),
      take-split r (c.sz - r) c.sz ahead (ground arith),
    )

-- What the run has written, and still has to write, is `all`; an end with status 0 has written it.
Keeps : Progress → List ℕ → Type 0
Keeps (ended zero out) all = out ≡ all
Keeps (ended (suc status) out) all = Unit
Keeps (running c) all = InBuffer c × (c.output ++ pending c ≡ all)

branch-Keeps :
    (t : Bool) (p q : Progress) (all : List ℕ)
    → (t ≡ true → Keeps p all)
    → (t ≡ false → Keeps q all)
    → Keeps (if t then p else q) all
branch-Keeps true p q all holds fails = holds refl
branch-Keeps false p q all holds fails = fails refl

pending-nothing : (c : Cat) → c.sz ≡ 0 → pending c ≡ c.input
pending-nothing c h = rw h

calls-Keeps : (a : Answer) (c : Cat) → InBuffer c → Keeps (calls a c) (c.output ++ pending c)
unfolding Keeps
calls-Keeps interrupted c b = (b, refl)
calls-Keeps failed c b =
    branch-Keeps ((c.sz == 0) && (c.token == 0)) (running c) (ended 1 c.output)
      (c.output ++ pending c) (λ _. (b, refl)) (λ _. tt)
calls-Keeps (moved k) c b =
    let all = c.output ++ pending c in
    branch-Keeps (c.sz == 0)
      (if c.token == 0
        then running c
        else if length c.input == 0
        then ended 0 c.output
        else running (read_some k c))
      (running (write_some k c)) all
      (λ empty.
        branch-Keeps (c.token == 0) (running c)
          (if length c.input == 0 then ended 0 c.output else running (read_some k c)) all
          (λ _. (b, refl))
          (λ _.
            branch-Keeps (length c.input == 0) (ended 0 c.output) (running (read_some k c)) all
              (λ at_end. sym (
                ap (λ l. c.output ++ l)
                  (pending-nothing c (ground arith) ∙ no_bytes c.input (ground arith))
                ∙ append-nil c.output))
              (λ _. (
                read_some-InBuffer k c,
                ap (λ l. c.output ++ l)
                    (read_some-pending k c ∙ sym (pending-nothing c (ground arith))),
              ))))
      (λ _. (write_some-InBuffer k c b, write_some-pending k c))

resume-Keeps :
    (p : Progress) (es : List Event) (all : List ℕ)
    → ((d : Cat) → InBuffer d → Keeps (run es d) (d.output ++ pending d))
    → Keeps p all
    → Keeps (elim p [ ended status out ↦ ended status out | running d ↦ run es d ]) all
unfolding Keeps
resume-Keeps (ended zero out) es all rest h = h
resume-Keeps (ended (suc status) out) es all rest h = tt
resume-Keeps (running d) es all rest h = subst (Keeps (run es d)) h.1 (rest d h.0)

alarm-Keeps :
    (t : Bool) (es : List Event) (c : Cat) (token : ℕ) (all : List ℕ)
    → Keeps (run es c) all
    → Keeps (run es (record c { token = token })) all
    → Keeps (run es (if t then c else record c { token = token })) all
alarm-Keeps true es c token all holds fails = holds
alarm-Keeps false es c token all holds fails = fails

run-Keeps : (es : List Event) (c : Cat) → InBuffer c → Keeps (run es c) (c.output ++ pending c)
unfolding run Keeps
run-Keeps [] c b = (b, refl)
run-Keeps (alarm ∷ es) c b =
    let token' = (c.token + 1) % 2 ^ 32 in
    alarm-Keeps (leb token_max c.token) es c token' (c.output ++ pending c) (run-Keeps es c b)
      (run-Keeps es (record c { token = token' }) b)
run-Keeps (answered a ∷ es) c b =
    resume-Keeps (calls a c) es (c.output ++ pending c) (run-Keeps es) (calls-Keeps a c b)

-- Whatever the events, what signal/token.c has written by then is at most ten bytes for each alarm.
pub token_rate :
    (argc : ℕ) (src : Option (List ℕ)) (memory : List ℕ) (es : List Event)
    → length (written (token_main argc src memory es)) ≤ cps * alarms es
unfolding token_main
token_rate argc none memory es = ground arith
token_rate argc (some bytes) memory es = ground (
  arith,
  run-credit es (record { token = 0; buf = memory; cur = 0; sz = 0; input = bytes; output = [] }),
)

-- Whatever the events, interrupts and short transfers included, signal/token.c has written the whole
-- file when it exits with status 0.
pub token_copies :
    (argc : ℕ) (bytes memory : List ℕ) (es : List Event) {out : List ℕ}
    → token_main argc (some bytes) memory es ≡ ended 0 out
    → out ≡ bytes
unfolding token_main Keeps
token_copies argc bytes memory es {out} h =
    let start : Cat = record {
      token = 0;
      buf = memory;
      cur = 0;
      sz = 0;
      input = bytes;
      output = [];
    } in
    let exits : run es start ≡ ended 0 out = ground arith in
    subst (λ p. Keeps p bytes) exits (run-Keeps es start (ground arith))
