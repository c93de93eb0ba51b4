-- ===== src/Ipc/Stream.antt =====
-- ipc/pipe.c: the parent writes MESSAGE into a pipe, the child copies what it reads to the output. The calls
-- before the loops succeed; what the two do may be in any order.
use mathlib.Core.List.{append-nil, append_assoc}
use mathlib.Core.Path.{ap₂, subst}
use apue_pratice.Prelude.{
  take-all, ℕ, zero, suc, ◌+◌, ◌-◌, ◌*◌, ◌≤◌, ◌≡◌, refl, sym, ap, ◌∙◌, Bool, true, false, List, [],
  ◌∷◌, ◌++◌, arith, length, length-append, take, drop, take-append-drop, length-take,
}

-- "hello pipe\n"
abbrev pub pipe_message : List ℕ
pipe_message = 104 ∷ 101 ∷ 108 ∷ 108 ∷ 111 ∷ 32 ∷ 112 ∷ 105 ∷ 112 ∷ 101 ∷ 10 ∷ []

abbrev pub pipe_buf : ℕ
pipe_buf = 1024

-- Where the child stands: before `read`, before `write` with the bytes in `buf`, or out of its loop.
pub data Child : Type 0 where
  reading : Child
  holding : List ℕ → Child
  broken_off : Child

-- The bytes in the pipe, whether the parent still writes, the child, its output, and how many messages were
-- written.
pub record Talk : Type 0 where
  pub pipe : List ℕ
  pub writing : Bool
  pub child : Child
  pub output : List ℕ
  pub sent : ℕ

pub data Step (s : Talk) : Talk → Type 0 where
  -- A write of so few bytes goes into the pipe whole.
  send : s.writing ≡ true → Step s (record s { pipe = s.pipe ++ pipe_message; sent = suc s.sent })
  -- The parent is ended by a signal.
  killed : Step s (record s { writing = false })
  -- `read` brings at most `pipe_buf` bytes, and none only at the end of a pipe that nobody writes to.
  receive :
      (n : ℕ)
      → s.child ≡ reading
      → n ≤ pipe_buf
      → n ≤ length s.pipe
      → (n ≡ 0 → (s.pipe ≡ []) × (s.writing ≡ false))
      → Step s (record s { pipe = drop n s.pipe; child = holding (take n s.pipe) })
  receive_error : s.child ≡ reading → Step s (record s { child = broken_off })
  -- `write` takes `k` bytes of the buffer; what it returns is not looked at.
  copy :
      {buf : List ℕ} (k : ℕ)
      → s.child ≡ holding buf
      → k ≤ length buf
      → Step s (record s { child = reading; output = s.output ++ take k buf })

abbrev pub no_talk : Talk
no_talk = record { pipe = []; writing = true; child = reading; output = []; sent = 0 }

pub data Reach : Talk → Type 0 where
  start : Reach no_talk
  next : {s t : Talk} → Reach s → Step s t → Reach t

abbrev pub held : Child → List ℕ
held reading = []
held (holding buf) = buf
held broken_off = []

-- The bytes that a short write of the child drops.
abbrev pub dropped : {s t : Talk} → Step s t → ℕ
dropped (send w) = 0
dropped killed = 0
dropped (receive n c b l e) = 0
dropped (receive_error c) = 0
dropped (copy {buf} k c l) = length buf - k

unfoldable pub lost : {s : Talk} → Reach s → ℕ
lost start = 0
lost (next r st) = lost r + dropped st

unfoldable pub messages : ℕ → List ℕ
messages zero = []
messages (suc n) = messages n ++ pipe_message

-- What has come out of the child, what it holds, and what is in the pipe.
abbrev pub on_its_way : Talk → List ℕ
on_its_way s = s.output ++ (held s.child ++ s.pipe)

-- A step that drops nothing only adds what is sent.
step_keeps :
    {s t : Talk} (st : Step s t)
    → dropped st ≡ 0
    → on_its_way s ≡ messages s.sent
    → on_its_way t ≡ messages t.sent
unfolding messages
step_keeps {s} (send w) d e =
    ap (λ x. s.output ++ x) (sym (append_assoc (held s.child) s.pipe pipe_message))
    ∙ sym (append_assoc s.output (held s.child ++ s.pipe) pipe_message)
    ∙ ap (λ x. x ++ pipe_message) e
step_keeps killed d e = e
step_keeps {s} (receive n c b l z) d e =
    ap (λ x. s.output ++ x) (take-append-drop n s.pipe ∙ sym (ap (λ k. held k ++ s.pipe) c)) ∙ e
step_keeps {s} (receive_error c) d e = ap (λ k. s.output ++ (held k ++ s.pipe)) (sym c) ∙ e
step_keeps {s} (copy {buf} k c l) d e =
    ap (λ x. (s.output ++ x) ++ s.pipe) (take-all k buf (omega (arith, l, d)))
    ∙ append_assoc s.output buf s.pipe
    ∙ ap (λ h. s.output ++ (held h ++ s.pipe)) (sym c)
    ∙ e

kept_whole : {s : Talk} (r : Reach s) → lost r ≡ 0 → on_its_way s ≡ messages s.sent
unfolding lost messages
kept_whole start z = refl
kept_whole (next r st) z = step_keeps st (omega (arith, z)) (kept_whole r (omega (arith, z)))

length-three : (o h p : List ℕ) → length (o ++ (h ++ p)) ≡ length o + length h + length p
length-three o h p = omega (arith, length-append o (h ++ p), length-append h p)

length-step :
    {s t : Talk} (st : Step s t)
    → length (on_its_way t) + dropped st + 11 * s.sent ≡ length (on_its_way s) + 11 * t.sent
length-step {s} (send w) = omega (
  arith,
  length-three s.output (held s.child) (s.pipe ++ pipe_message),
  length-three s.output (held s.child) s.pipe,
  length-append s.pipe pipe_message,
)
length-step killed = omega arith
length-step {s} (receive n c b l z) = omega (
  arith,
  ap (λ k. length (s.output ++ (held k ++ s.pipe))) c,
  ap (λ x. length (s.output ++ x)) (take-append-drop n s.pipe),
)
length-step {s} (receive_error c) =
    omega (arith, ap (λ k. length (s.output ++ (held k ++ s.pipe))) c)
length-step {s} (copy {buf} k c l) = omega (
  arith,
  l,
  ap (λ h. length (s.output ++ (held h ++ s.pipe))) c,
  length-three s.output buf s.pipe,
  length-append (s.output ++ take k buf) s.pipe,
  length-append s.output (take k buf),
  length-take k buf,
)

counted : {s : Talk} (r : Reach s) → length (on_its_way s) + lost r ≡ 11 * s.sent
unfolding lost
counted start = refl
counted (next r st) = omega (arith, counted r, length-step st)

-- In ipc/pipe.c no byte is reordered or repeated: while no write of the child was short, its output, what it
-- holds and what is in the pipe are together the messages that were sent, in order; and however short its
-- writes were, these three and the dropped bytes are as many as were sent.
pub pipe_delivers :
    {s : Talk} (r : Reach s)
    → (lost r ≡ 0 → s.output ++ (held s.child ++ s.pipe) ≡ messages s.sent)
      × (length (s.output ++ (held s.child ++ s.pipe)) + lost r ≡ 11 * s.sent)
pipe_delivers r = (kept_whole r, counted r)

-- When the parent is gone and the pipe is empty, the child of ipc/pipe.c goes on for ever: it can read
-- nothing, write nothing and stand where it stood.
pub child_spins :
    (s : Talk)
    → s.writing ≡ false
    → s.pipe ≡ []
    → s.child ≡ reading
    → (t : Talk) × Step s t × Step t s
child_spins s w p c =
    let t : Talk = record s { child = holding [] } in
    let back : (let u : Talk = record s { child = reading; output = s.output ++ [] } in u) ≡ s =
      ap₂ (λ k o. let u : Talk = record s { child = k; output = o } in u) (sym c)
        (append-nil s.output) in
    (
      t,
      receive 0 c (omega arith) (omega arith) (λ z. (p, w)),
      subst (Step t) back (copy 0 refl (omega arith)),
    )
