-- ===== src/Ipc/Queue.antt =====
-- ipc/msg.c: the parent sends MESSAGE over a System V queue, the child prints what it receives. `msgsnd` reads a
-- `long`, the type, and then the text, and `msgrcv` stores both: here the first eight bytes of MESSAGE are the
-- type, and the text is what stands behind them. `beyond` is the memory behind the string.
use apue_pratice.Prelude.{
  ℕ, suc, ◌+◌, ◌≤◌, ◌≡◌, refl, ap, Option, none, some, List, [], ◌∷◌, ◌++◌, map, arith,
  if◌then◌else◌, length, take, drop, replicate, length-take,
}
use apue_pratice.Prelude.Int.{ℤ, pos, negsuc}
use apue_pratice.Prelude.Outcome.{Outcome, done, ◌>>=◌}
use apue_pratice.Socket.Message.{c_string}
use apue_pratice.Socket.Reports.{negative}

-- "hello mq"
abbrev pub queue_message : List ℕ
queue_message = 104 ∷ 101 ∷ 108 ∷ 108 ∷ 111 ∷ 32 ∷ 109 ∷ 113 ∷ []

abbrev pub queue_buf : ℕ
queue_buf = 1024

-- The size of a `long`.
abbrev pub type_size : ℕ
type_size = 8

-- `create_mq`, by what `ftok` and `msgget` return: the queue, or the call that is reported before exit(1).
pub data Opened : Type 0 where
  queue : ℤ → Opened
  ftok_failed : Opened
  msgget_failed : Opened

abbrev pub create_mq : ℤ → ℤ → Opened
create_mq k id = if negative k then ftok_failed else if negative id then msgget_failed else queue id

-- A message in the queue.
pub record Message : Type 0 where
  pub mtype : List ℕ
  pub mtext : List ℕ

-- `msgsnd` of `size` bytes of text, from memory.
abbrev pub msgsnd : ℕ → List ℕ → Message
msgsnd size memory = record {
  mtype = take type_size memory;
  mtext = take size (drop type_size memory);
}

-- `msgrcv` into a buffer.
abbrev pub msgrcv : Message → List ℕ → List ℕ
msgrcv msg buf = let bytes = msg.mtype ++ msg.mtext in bytes ++ drop (length bytes) buf

-- The loop of the parent: the messages it sends before a `msgsnd` fails.
unfoldable pub queue_parent : List ℤ → List ℕ → List Message
queue_parent [] beyond = []
queue_parent (pos n ∷ rs) beyond =
    msgsnd (length queue_message) (queue_message ++ 0 ∷ beyond) ∷ queue_parent rs beyond
queue_parent (negsuc n ∷ rs) beyond = []

-- The loop of the child, which ends when `msgrcv` fails: a message, or none.
unfoldable pub queue_child : List ℕ → List (Option Message) → Outcome (List (List ℕ))
queue_child buf [] = done []
queue_child buf (none ∷ ms) = done []
queue_child buf (some msg ∷ ms) =
    let rest = queue_child (msgrcv msg buf) ms in
    c_string (msgrcv msg buf) >>= λ t. rest >>= λ ts. done (t ∷ ts)

-- The calls of `msgsnd` before the first that fails.
abbrev pub queue_sends : List ℤ → ℕ
queue_sends [] = 0
queue_sends (pos n ∷ rs) = suc (queue_sends rs)
queue_sends (negsuc n ∷ rs) = 0

-- What the child of ipc/msg.c prints is "hello mq" for each message that the parent has sent, whatever the seven
-- bytes behind the string are that `msgsnd` reads too, and whatever stood in the buffer.
pub queue_prints :
    (rs : List ℤ) (beyond buf : List ℕ)
    → 7 ≤ length beyond
    → queue_child buf (map some (queue_parent rs beyond))
      ≡ done (replicate (queue_sends rs) queue_message)
unfolding queue_child queue_parent c_string
queue_prints [] beyond buf h = refl
queue_prints (pos n ∷ rs) beyond buf h =
    ap (λ o. o >>= λ ts. done (queue_message ∷ ts)) (queue_prints rs beyond _ h)
queue_prints (negsuc n ∷ rs) beyond buf h = refl

-- And `msgsnd` does read seven bytes that are not the string's.
message_size :
    (beyond : List ℕ)
    → 7 ≤ length beyond
    → length (msgsnd (length queue_message) (queue_message ++ 0 ∷ beyond)).mtext ≡ 1 + 7
message_size beyond h = omega (arith, h, length-take 7 beyond)
