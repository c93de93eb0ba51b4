-- ===== src/Thread/Pool/Close.antt =====
-- `tp_close` of thread/thread_pool.c on an idle pool: every worker is in `pthread_cond_wait`. A thread that
-- is cancelled there takes `mtx` again before it ends, and no cleanup handler gives it back. What a worker
-- and `tp_close` do may be in any order.
use apue_pratice.Prelude.{
  ℕ, zero, suc, ◌<◌, ◌≡◌, refl, sym, ap, ◌∙◌, Bool, true, false, Option, none, some, arith,
  if◌then◌else◌,
}
use apue_pratice.Prelude.Outcome.{Outcome, done, fault, ◌>>=◌}
use apue_pratice.Thread.Family.{change}

-- Who holds `mtx`, how many workers were cancelled, which have left the condition variable, and which have ended.
pub record Closing : Type 0 where
  pub mtx : Option ℕ
  pub cancelled : ℕ
  pub left : ℕ → Bool
  pub ended : ℕ → Bool

pub data CloseStep (size : ℕ) (c : Closing) : Closing → Type 0 where
  -- `pthread_cancel(pool->threads[i])`
  cancel : c.cancelled < size → CloseStep size c (record c { cancelled = suc c.cancelled })
  -- A cancelled worker is no longer blocked on the condition variable, and has to take `mtx`.
  leave :
      (i : ℕ)
      → i < c.cancelled
      → c.left i ≡ false
      → CloseStep size c (record c { left = change i true c.left })
  -- It has `mtx` again and ends.
  end_worker :
      (i : ℕ)
      → i < c.cancelled
      → c.left i ≡ true
      → c.ended i ≡ false
      → c.mtx ≡ none
      → CloseStep size c (record c { mtx = some i; ended = change i true c.ended })

abbrev pub idle : Closing
idle = record { mtx = none; cancelled = 0; left = λ _. false; ended = λ _. false }

pub data CloseReach (size : ℕ) : Closing → Type 0 where
  start : CloseReach size idle
  next : {c d : Closing} → CloseReach size c → CloseStep size c d → CloseReach size d

-- Some of the first `n` workers have not come so far.
unfoldable pub behind : ℕ → (ℕ → Bool) → Bool
behind zero reached = false
behind (suc n) reached = if reached n then behind n reached else true

-- The destruction of a mutex that is locked is undefined, and so is that of a condition variable with
-- waiters. The mutexes of `waits` are free when the pool is idle.
abbrev pub destroy_mutex : Option ℕ → Outcome Bool
destroy_mutex none = done true
destroy_mutex (some i) = fault

abbrev pub destroy_cond : Bool → Outcome Bool
destroy_cond true = fault
destroy_cond false = done true

-- A worker that has still to take `mtx` when it is destroyed locks a mutex that is no more.
abbrev pub lock_again : Bool → Outcome Bool
lock_again true = fault
lock_again false = done true

-- The end of `tp_close`, after the loop of `pthread_cancel`, with what it leaves to the workers.
abbrev pub tp_close : ℕ → Closing → Outcome Bool
tp_close size c = destroy_mutex c.mtx >>= λ _.
    destroy_cond (behind size c.left) >>= λ _. lock_again (behind size c.ended)

-- While `mtx` is free, nobody has ended; and one worker at most ever ends.
pub record OneEnds (c : Closing) : Type 0 where
  pub free_none : c.mtx ≡ none → (i : ℕ) → c.ended i ≡ false
  pub held_one : (i j : ℕ) → c.mtx ≡ some i → c.ended j ≡ true → i ≡ j

step-OneEnds : {size : ℕ} {c d : Closing} → OneEnds c → CloseStep size c d → OneEnds d
step-OneEnds o (cancel h) = record { free_none = o.free_none; held_one = o.held_one }
step-OneEnds o (leave i h e) = record { free_none = o.free_none; held_one = o.held_one }
step-OneEnds {c} o (end_worker i h l e q) = record {
  free_none = λ z. cc;
  held_one = λ k j z t. ground (arith, o.free_none q j, z, t);
}

Reach-OneEnds : {size : ℕ} {c : Closing} → CloseReach size c → OneEnds c
Reach-OneEnds start = record { free_none = λ q i. refl; held_one = λ i j q. cc }
Reach-OneEnds (next r st) = step-OneEnds (Reach-OneEnds r) st

behind-true :
    (n : ℕ) (reached : ℕ → Bool) → 0 < n → ((i : ℕ) → reached i ≡ false) → behind n reached ≡ true
unfolding behind
behind-true zero reached h e = absurd (omega (arith, h))
behind-true (suc n) reached h e = ground (arith, e n)

locks_again :
    (waiting ending : Bool)
    → ending ≡ true
    → (destroy_cond waiting >>= λ _. lock_again ending) ≡ fault
locks_again true ending e = refl
locks_again false ending e = ap lock_again e

abbrev after_mutex : ℕ → Closing → Option ℕ → Outcome Bool
after_mutex size c o = destroy_mutex o >>= λ _.
    destroy_cond (behind size c.left) >>= λ _. lock_again (behind size c.ended)

by_mtx :
    (size : ℕ) (c : Closing) (o : Option ℕ)
    → c.mtx ≡ o
    → 0 < size
    → OneEnds c
    → tp_close size c ≡ fault
by_mtx size c none q h inv =
    ap (after_mutex size c) q
    ∙ locks_again (behind size c.left) (behind size c.ended)
        (behind-true size c.ended h (OneEnds.free_none inv q))
by_mtx size c (some i) q h inv = ap (after_mutex size c) q

-- `tp_close` of an idle pool with a worker is undefined, in whatever order the workers end: the mutex is
-- destroyed while a worker that has ended holds it, or the condition variable while a worker waits, or all
-- workers have still to lock the destroyed mutex. And of all workers that were cancelled, one at most ever
-- ends.
pub close_is_undefined :
    (size : ℕ) (c : Closing)
    → CloseReach size c
    → 0 < size
    → (tp_close size c ≡ fault) × ((i j : ℕ) → c.ended i ≡ true → c.ended j ≡ true → i ≡ j)
close_is_undefined size c r h =
    let inv : OneEnds c = Reach-OneEnds r in
    (by_mtx size c c.mtx refl h inv, λ i j ei ej. one c.mtx refl inv i j ei ej)
  where
    one :
        (o : Option ℕ)
        → c.mtx ≡ o
        → OneEnds c
        → (i j : ℕ) → c.ended i ≡ true
        → c.ended j ≡ true
        → i ≡ j
    one none q inv i j ei ej = absurd (ground (arith, OneEnds.free_none inv q i, ei))
    one (some k) q inv i j ei ej =
        sym (OneEnds.held_one inv k i q ei) ∙ OneEnds.held_one inv k j q ej
