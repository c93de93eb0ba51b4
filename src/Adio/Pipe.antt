-- ===== src/Adio/Pipe.antt =====
-- What adio/select.c, adio/poll.c and adio/epoll.c share: the pipeline from one descriptor to another
-- with its two files, and the answers of `read` and `write`.
pub mod Copies
use apue_pratice.Prelude.{
  ℕ, zero, suc, ◌-◌, ◌%◌, Bool, true, false, ◌&&◌, ◌||◌, Option, none, some, List, [], ◌∷◌, ◌++◌,
  ltb, ◌==◌, if◌then◌else◌, length, take, drop,
}
use apue_pratice.Prelude.Int.{ℤ, pos, negsuc}
use Prim.Native.Nat.{min}
use mathlib.Core.Option
use mathlib.Core.Bool.{not}

-- BUF_SIZE
abbrev pub buf_size : ℕ
buf_size = 4096

-- `enum pipe_state`
pub data PipeState : Type 0 where
  state_read : PipeState
  state_write : PipeState
  state_err : PipeState
  state_eof : PipeState

-- `struct pipe_st`, and what stands behind its two descriptors: the bytes that `src` still has and
-- the bytes that `dst` has received.
pub record Pipe : Type 0 where
  pub src : ℕ
  pub dst : ℕ
  pub state : PipeState
  pub buf : List ℕ
  pub off : ℤ
  pub len : ℤ
  pub err : ℤ
  pub input : List ℕ
  pub output : List ℕ

-- `pipe_init`: the buffer is not written.
unfoldable pub pipe_init : ℕ → ℕ → Pipe → Pipe
pipe_init src dst p = record p {
  src = src;
  dst = dst;
  off = pos 0;
  len = pos 0;
  err = pos 0;
  state = state_read;
}

-- What the kernel answers to one `read` or `write`: -1, or up to so many bytes.
pub data Transfer : Type 0 where
  failed : Transfer
  moved : ℕ → Transfer

-- How many bytes `read(fd, buf, BUF_SIZE)` gives: none at the end of the file, and at least one
-- before it.
abbrev pub read_size : ℕ → List ℕ → ℕ
read_size k input = min (suc k) (min buf_size (length input))

-- What the read leaves in `buf` and in the file.
abbrev pub after_read : ℕ → Pipe → Pipe
after_read sz p = record p { buf = take sz p.input ++ drop sz p.buf; input = drop sz p.input }

-- `write(dst, buf, len)` with a length that is negative, or longer than the buffer, reads outside
-- of it.
pub data Written : Type 0 where
  outside : Written
  refused : Written
  wrote : ℕ → Written

abbrev pub write_size : Transfer → ℤ → Written
write_size t (negsuc n) = outside
write_size t (pos n) =
    if ltb buf_size n then outside else elim t [ failed ↦ refused | moved k ↦ wrote (min k n) ]

-- The first bytes of the buffer reach the file.
abbrev pub after_write : ℕ → Pipe → Pipe
after_write n p = record p { output = p.output ++ take n p.buf }

-- A pipeline that is done, one way or the other.
unfoldable pub settled : PipeState → Bool
settled state_read = false
settled state_write = false
settled state_err = true
settled state_eof = true

-- The loop of `main` that computes `finished`.
unfoldable pub finished : List Pipe → Bool
unfolding settled
finished [] = true
finished (p ∷ ps) = settled p.state && finished ps

-- How a program ends: its exit status, and the pipelines as they are then.
pub record Exit : Type 0 where
  pub status : ℕ
  pub pipes : List Pipe

-- One pair of arguments: the descriptors that `open` gives, or -1, the contents of the source, and
-- what the buffer happens to hold.
pub record Files : Type 0 where
  pub src_fd : Option ℕ
  pub dst_fd : Option ℕ
  pub content : List ℕ
  pub memory : List ℕ

abbrev pub opened : ℕ → ℕ → Files → Pipe
opened src dst f = record {
  src = src;
  dst = dst;
  state = state_read;
  buf = f.memory;
  off = pos 0;
  len = pos 0;
  err = pos 0;
  input = f.content;
  output = [];
}

-- The loop of `main` that opens the files; `none` is `exit(1)`.
unfoldable pub open_all : List Files → Option (List Pipe)
unfolding pipe_init
open_all [] = some []
open_all (f ∷ fs) =
    let rest = open_all fs in
    elim f.src_fd [
      | none ↦ none
      | some src ↦ elim f.dst_fd [
        | none ↦ none
        | some dst ↦ Option.map (λ ps. pipe_init src dst (opened src dst f) ∷ ps) rest
      ]
    ]

-- `argc < 3 || ((argc - 1) % 2 != 0)`
unfoldable pub bad_usage : ℕ → Bool
bad_usage argc = ltb argc 3 || not ((argc - 1) % 2 == 0)

-- `-errno`
abbrev pub minus : ℕ → ℤ
minus zero = pos 0
minus (suc n) = negsuc n
