-- ===== src/Signal/Timer/Table.antt =====
-- The table of tasks of signal/anytimer.c: what every call keeps of it, and where a job is put.
use mathlib.Core.Path.{subst}
use apue_pratice.Prelude.{
  ℕ, zero, suc, ◌+◌, ◌-◌, ◌<◌, ◌≡◌, refl, ap, ◌∙◌, ◌≢◌, ◌⊎◌, inl, inr, Bool, true, false, Option,
  none, some, List, [], ◌∷◌, arith, length, get_elem?, set, length-set,
}
use apue_pratice.Prelude.Int.{ℤ, pos, negsuc}
use apue_pratice.Prelude.Outcome.{Outcome, done, fault, ◌>>=◌, >>=-eq-done}
use apue_pratice.Prelude.CInt.{sub_int}
use apue_pratice.Slots.{Slot, null, live, dangling, slot, first_null, count_live}
use apue_pratice.Signal.Timer.{
  max_tasks, Task, Timer, at_start, Ticked, tick, handle, getf_free_pos, set_up, add_at, at_add_job,
  at_cancel_job, at_wait,
}
use apue_pratice.Slots.First.{
  IsFirst, first_null-IsFirst, count_live-set_live, count_live-set_null, slot-eq-done,
  nulls_none_live, nulls_length,
}
use apue_pratice.Slots.Placed.{IsPlaced, IsPlaced-set_live, IsPlaced-set_null, nulls-IsPlaced}

abbrev pub place : Task → ℤ
place t = t.pos_field

pub record IsValid (s : Timer) : Type 0 where
  pub size : length s.tasks ≡ max_tasks
  pub placed : IsPlaced place 0 s.tasks
  pub owned : count_live s.tasks ≡ s.blocks
  pub armed : s.handled ≡ s.inited
  pub ticking : 0 < s.blocks → s.handled ≡ true

tick_shape :
    (i : ℕ) (xs : List (Slot Task)) {r : Ticked}
    → tick i xs ≡ done r
    → IsPlaced place i xs
    → IsPlaced place i r.left
      × (length r.left ≡ length xs)
      × (count_live r.left + r.freed ≡ count_live xs)
unfolding tick count_live
tick_shape i [] q h = ground arith
tick_shape i (null ∷ xs) q h =
    let (r, e, d) = >>=-eq-done (tick (i + 1) xs) _ q in ground (arith, tick_shape (i + 1) xs e h)
tick_shape i (live t ∷ xs) q h =
    let (sec', e, d) = >>=-eq-done (sub_int t.sec (pos 1)) _ q in
    let (r, e', d') = >>=-eq-done (tick (i + 1) xs) _ d in
    ground (arith, tick_shape (i + 1) xs e' h.1)
tick_shape i (dangling ∷ xs) q h = absurd h

handle-IsValid : (s : Timer) {t : Timer} → handle s ≡ done t → IsValid s → IsValid t
unfolding handle
handle-IsValid s q v =
    let (r, e, d) = >>=-eq-done (tick 0 s.tasks) _ q in
    ground (arith, tick_shape 0 s.tasks e v.placed)

-- A wait that came to a value stopped at once, or at a later alarm.
wait_cases :
    (k : ℕ) (id : ℤ) (s : Timer) {t : Timer}
    → at_wait (suc k) id s ≡ done t
    → (t ≡ s) ⊎ ((handle s >>= at_wait k id) ≡ done t)
unfolding at_wait
wait_cases k id s {t} q = let (p, e, d) = >>=-eq-done (slot s.tasks id) _ q in go p d
  where
    go :
        (p : Slot Task)
        → (let r : Outcome Timer = elim p [
          | null ↦ done s
          | live _ ↦ handle s >>= at_wait k id
          | dangling ↦ handle s >>= at_wait k id
        ] in
            r)
          ≡ done t
        → (t ≡ s) ⊎ ((handle s >>= at_wait k id) ≡ done t)
    go null d = inl cc
    go (live _) d = inr d
    go dangling d = inr d

wait_done_zero : (id : ℤ) (s : Timer) {t : Timer} → at_wait 0 id s ≡ done t → t ≡ s
unfolding at_wait
wait_done_zero id s {t} q = let (p, e, d) = >>=-eq-done (slot s.tasks id) _ q in ground arith

wait-IsValid :
    (k : ℕ) (id : ℤ) (s : Timer) {t : Timer} → at_wait k id s ≡ done t → IsValid s → IsValid t
wait-IsValid zero id s q v = rw (wait_done_zero id s q) v
wait-IsValid (suc k) id s q v = elim (wait_cases k id s q) [
  | inl stopped ↦ rw stopped v
  | inr later ↦
      let (u, e, d) = >>=-eq-done (handle s) (at_wait k id) later in
      wait-IsValid k id u d (handle-IsValid s e v)
]

cancel-IsValid :
    (id : ℤ) (s : Timer) {r : Option ℤ} {t : Timer}
    → at_cancel_job id s ≡ done (r, t)
    → IsValid s
    → IsValid t
unfolding at_cancel_job
cancel-IsValid (negsuc n) s q v = cc
cancel-IsValid (pos i) s {r} {t} q v =
    let (p, e, d) = >>=-eq-done (slot s.tasks (pos i)) _ q in go p (slot-eq-done s.tasks i e) d
  where
    go :
        (p : Slot Task)
        → get_elem? s.tasks i ≡ some p
        → (let r : Outcome (Option ℤ × Timer) = elim p [
          | null ↦ done (some (pos 0), s)
          | live _ ↦ done (none, record s { tasks = set s.tasks i null; blocks = s.blocks - 1 })
          | dangling ↦ fault
        ] in
            r)
          ≡ done (r, t)
        → IsValid t
    go null h d = let same : t ≡ s = cc in rw same v
    go (live a) h d =
        let same : t ≡ record s { tasks = set s.tasks i null; blocks = s.blocks - 1 } = cc in
        rw same (record {
          size = length-set s.tasks i null ∙ v.size;
          placed = IsPlaced-set_null place 0 i s.tasks v.placed;
          owned = omega (arith, count_live-set_null s.tasks i h, v.owned);
          armed = v.armed;
          ticking = λ h. v.ticking (omega arith);
        })
    go dangling h d = cc

-- What `at_add_job` did to a timer `s` when it returns `r` and leaves `t`.
abbrev pub Added : ℤ → ℕ → ℕ → Timer → ℤ × Timer → Type 0
Added sec job arg s (pos i, t) =
    (get_elem? s.tasks i ≡ some null)
    × ((j : ℕ) → j < i → get_elem? s.tasks j ≢ some null)
    × (t.tasks
        ≡ set s.tasks i (live (record { sec = sec; func = job; arg = arg; pos_field = pos i })))
    × (t.blocks ≡ s.blocks + 1)
    × (t.handled ≡ true)
Added sec job arg s (negsuc n, t) =
    (n ≡ 0)
    × (t.tasks ≡ s.tasks)
    × (t.blocks ≡ s.blocks)
    × ((j : ℕ) → get_elem? s.tasks j ≢ some null)

set_up_same :
    (s : Timer)
    → ((set_up s).tasks ≡ s.tasks)
      × ((set_up s).blocks ≡ s.blocks)
      × (s.handled ≡ s.inited → (set_up s).handled ≡ true)
unfolding set_up
set_up_same s = (ground arith, ground arith, λ e. ground arith)

add_at-Added :
    (k : ℤ) (memory : Bool) (sec : ℤ) (job arg : ℕ) (s u : Timer) {r : ℤ} {t : Timer}
    → u.tasks ≡ s.tasks
    → u.blocks ≡ s.blocks
    → u.handled ≡ true
    → IsFirst 0 s.tasks k
    → add_at k memory sec job arg u ≡ done (r, t)
    → Added sec job arg s (r, t)
unfolding add_at
add_at-Added (negsuc n) memory sec job arg s u {r} {t} et eb eh f q =
    let er : r ≡ negsuc n = cc in let es : t ≡ u = cc in rw (er, es) (f.0, et, eb, f.1)
add_at-Added (pos i) false sec job arg s u et eb eh f q = cc
add_at-Added (pos i) true sec job arg s u {r} {t} et eb eh (n, e, free, before) q =
    let task : Task = record { sec = sec; func = job; arg = arg; pos_field = pos i } in
    let er : r ≡ pos i = cc in
    let es : t ≡ record u { tasks = set u.tasks i (live task); blocks = u.blocks + 1 } = cc in
    let here : n ≡ i = omega arith in
    rw (er, es)
      (
        subst (λ k. get_elem? s.tasks k ≡ some null) here free,
        λ j h. before j (omega arith),
        ap (λ l. set l i (live task)) et,
        ap (λ b. b + 1) eb,
        eh,
      )

-- `at_add_job` puts the job at the first free position, with SIGALRM handled from then on, or returns
-- -1 from a full table and loses no block. It comes to no value where `malloc` fails.
add_result :
    (memory : Bool) (sec : ℤ) (job arg : ℕ) (s : Timer) {r : ℤ} {t : Timer}
    → IsValid s
    → at_add_job memory sec job arg s ≡ done (r, t)
    → Added sec job arg s (r, t)
unfolding at_add_job getf_free_pos
add_result memory sec job arg s v q =
    let (et, eb, eh) = set_up_same s in
    add_at-Added (first_null 0 (set_up s).tasks) memory sec job arg s (set_up s) et eb (eh v.armed)
      (rw et (first_null-IsFirst 0 s.tasks)) q

set_up-IsValid : (s : Timer) → IsValid s → IsValid (set_up s)
unfolding set_up
set_up-IsValid s v = ground arith

add_at-IsValid :
    (k : ℤ) (memory : Bool) (sec : ℤ) (job arg : ℕ) (s : Timer) {r : ℤ} {t : Timer}
    → IsFirst 0 s.tasks k
    → add_at k memory sec job arg s ≡ done (r, t)
    → s.handled ≡ true
    → IsValid s
    → IsValid t
unfolding add_at
add_at-IsValid (negsuc n) memory sec job arg s {r} {t} f q a v = let same : t ≡ s = cc in rw same v
add_at-IsValid (pos i) false sec job arg s f q a v = cc
add_at-IsValid (pos i) true sec job arg s {r} {t} (n, e, free, before) q a v =
    let task : Task = record { sec = sec; func = job; arg = arg; pos_field = pos i } in
    let same : t ≡ record s { tasks = set s.tasks i (live task); blocks = s.blocks + 1 } = cc in
    let here : n ≡ i = omega arith in
    let free' = subst (λ k. get_elem? s.tasks k ≡ some null) here free in
    rw same (record {
      size = length-set s.tasks i (live task) ∙ v.size;
      placed = IsPlaced-set_live place 0 i s.tasks task (ground arith) v.placed;
      owned = omega (arith, count_live-set_live s.tasks i task free', v.owned);
      armed = v.armed;
      ticking = λ h. a;
    })

add-IsValid :
    (memory : Bool) (sec : ℤ) (job arg : ℕ) (s : Timer) {r : ℤ} {t : Timer}
    → at_add_job memory sec job arg s ≡ done (r, t)
    → IsValid s
    → IsValid t
unfolding at_add_job getf_free_pos
add-IsValid memory sec job arg s q v =
    add_at-IsValid _ memory sec job arg (set_up s) (first_null-IsFirst 0 (set_up s).tasks) q
      ((set_up_same s).2 v.armed) (set_up-IsValid s v)

-- One call, or one alarm between two calls.
pub data Step (s : Timer) : Timer → Type 0 where
  add :
      (memory : Bool) (sec : ℤ) (job arg : ℕ) (r : ℤ) {t : Timer}
      → at_add_job memory sec job arg s ≡ done (r, t)
      → Step s t
  cancel : (id : ℤ) (r : Option ℤ) {t : Timer} → at_cancel_job id s ≡ done (r, t) → Step s t
  wait : (k : ℕ) (id : ℤ) {t : Timer} → at_wait k id s ≡ done t → Step s t
  alarm_comes : {t : Timer} → handle s ≡ done t → Step s t

pub data Reach : Timer → Type 0 where
  start : Reach at_start
  next : {s t : Timer} → Reach s → Step s t → Reach t

Step-IsValid : {s t : Timer} → Step s t → IsValid s → IsValid t
Step-IsValid {s} (add memory sec job arg r q) v = add-IsValid memory sec job arg s q v
Step-IsValid {s} (cancel id r q) v = cancel-IsValid id s q v
Step-IsValid {s} (wait k id q) v = wait-IsValid k id s q v
Step-IsValid {s} (alarm_comes q) v = handle-IsValid s q v

-- In every state that calls and alarms lead to, the table has its 1024 slots, every task knows its
-- position, no slot points at a freed block, no block is lost, and while there is a block SIGALRM is
-- handled.
pub timer-IsValid : (s : Timer) → Reach s → IsValid s
timer-IsValid s r = go r
  where
    go : {t : Timer} → Reach t → IsValid t
    go start = record {
      size = nulls_length Task max_tasks;
      placed = nulls-IsPlaced place 0 max_tasks;
      owned = nulls_none_live Task max_tasks;
      armed = refl;
      ticking = λ h. absurd (let no : ¬ (0 < 0) = λ z. omega (arith, z) in no h);
    }
    go (next h st) = Step-IsValid st (go h)
