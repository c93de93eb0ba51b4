-- ===== src/Signal/Timer/Fires.antt =====
-- When the jobs of signal/anytimer.c are called, and when a wait for one ends.
use mathlib.Core.List.{append-nil}
use apue_pratice.Prelude.{
  ℕ, zero, suc, ◌-◌, ◌≤◌, ◌<◌, ◌≡◌, refl, sym, ap, ◌∙◌, ◌≢◌, Option, none, some, [], ◌∷◌, ◌++◌,
  arith, get_elem?, get_elem?-set_self,
}
use apue_pratice.Prelude.Int.{ℤ, pos, ◌-ℤ◌, ◌≤ℤ◌}
use apue_pratice.Prelude.Outcome.{Outcome, done, blocked, ◌>>=◌, >>=-eq-done}
use apue_pratice.Slots.{Slot, null, live, slot}
use apue_pratice.Signal.Timer.{Task, Timer, tick, handle, at_cancel_job, at_wait}
use apue_pratice.Slots.First.{get_elem?-lt-length, slot_held}
use apue_pratice.Signal.Timer.Ticks.{
  calls_from, calls_from-append, call_of, aged_slot, aged_calls, tick-aged,
}

pub handle-aged :
    (i : ℕ) (s : Timer) (v : Slot Task) {t : Timer}
    → handle s ≡ done t
    → get_elem? s.tasks i ≡ some v
    → (get_elem? t.tasks i ≡ some (aged_slot v))
      × (calls_from i t.calls ≡ calls_from i s.calls ++ aged_calls i v)
unfolding handle
handle-aged i s v {t} q h =
    let (r, e, d) = >>=-eq-done (tick 0 s.tasks) _ q in
    let (held, made) = tick-aged 0 i i s.tasks v e (omega arith) h in
    let left : t.tasks ≡ r.left = cc in
    let all : t.calls ≡ s.calls ++ r.made = cc in
    (rw left held, rw (all, calls_from-append i s.calls r.made, made))

-- `n` alarms in a row.
unfoldable pub alarms : ℕ → Timer → Outcome Timer
alarms zero s = done s
alarms (suc n) s = handle s >>= alarms n

aged_later :
    (t : Task) (n : ℕ)
    → t.sec ≡ pos (suc (suc n))
    → aged_slot (live t) ≡ live (record t { sec = pos (suc n) })
unfolding ◌-ℤ◌
aged_later t n e = ground arith

aged_silent : (i : ℕ) (t : Task) (n : ℕ) → t.sec ≡ pos (suc (suc n)) → aged_calls i (live t) ≡ []
aged_silent i t n e = ground arith

pub alarms_null :
    (m i : ℕ) (s : Timer) {u : Timer}
    → get_elem? s.tasks i ≡ some null
    → alarms m s ≡ done u
    → (get_elem? u.tasks i ≡ some null) × (calls_from i u.calls ≡ calls_from i s.calls)
unfolding alarms
alarms_null zero i s h q = ground arith
alarms_null (suc m) i s {u} h q =
    let (t, e, d) = >>=-eq-done (handle s) (alarms m) q in
    let (held, made) = handle-aged i s null e h in
    let (held', made') = alarms_null m i t held d in
    (held', made' ∙ made ∙ append-nil (calls_from i s.calls))

-- After at most `n` alarms, none of them undefined, a task that had `n + 1` seconds left still
-- waits, with the seconds that are left, and has not been called.
fires_not_yet :
    (m n i : ℕ) (s : Timer) (t : Task) {u : Timer}
    → get_elem? s.tasks i ≡ some (live t)
    → t.sec ≡ pos (suc n)
    → m ≤ n
    → alarms m s ≡ done u
    → (get_elem? u.tasks i ≡ some (live (record t { sec = pos (suc n - m) })))
      × (calls_from i u.calls ≡ calls_from i s.calls)
unfolding alarms
fires_not_yet zero n i s t h e le q = ground arith
fires_not_yet (suc m) zero i s t h e le q = absurd (omega arith)
fires_not_yet (suc m) (suc n) i s t {u} h e le q =
    let (s', e₁, d) = >>=-eq-done (handle s) (alarms m) q in
    let (held, made) = handle-aged i s (live t) e₁ h in
    let t' : Task = record t { sec = pos (suc n) } in
    let aged : aged_slot (live t) ≡ live t' = aged_later t n e in
    let quiet : aged_calls i (live t) ≡ [] = aged_silent i t n e in
    let (held', made') = fires_not_yet m n i s' t' (held ∙ ap some aged) refl (omega arith) d in
    let fewer : suc n - m ≡ suc (suc n) - suc m = omega arith in
    (
      rw (← fewer) held',
      made' ∙ made ∙ ap (λ l. calls_from i s.calls ++ l) quiet ∙ append-nil (calls_from i s.calls),
    )

aged_last :
    (i : ℕ) (t : Task)
    → t.sec ≡ pos 1
    → (aged_slot (live t) ≡ null) × (aged_calls i (live t) ≡ call_of i t ∷ [])
aged_last i t e = (ground arith, ground arith)

-- After more than `n` alarms, none of them undefined, a task that had `n + 1` seconds left has
-- been called exactly once more, and its slot is free.
pub fires_once :
    (m n i : ℕ) (s : Timer) (t : Task) {u : Timer}
    → get_elem? s.tasks i ≡ some (live t)
    → t.sec ≡ pos (suc n)
    → n < m
    → alarms m s ≡ done u
    → (get_elem? u.tasks i ≡ some null)
      × (calls_from i u.calls ≡ calls_from i s.calls ++ call_of i t ∷ [])
unfolding alarms
fires_once zero n i s t h e lt q = absurd (omega arith)
fires_once (suc m) zero i s t h e lt q =
    let (s', e₁, d) = >>=-eq-done (handle s) (alarms m) q in
    let (held, made) = handle-aged i s (live t) e₁ h in
    let (gone, called) = aged_last i t e in
    let (held', made') = alarms_null m i s' (held ∙ ap some gone) d in
    (held', made' ∙ made ∙ ap (λ l. calls_from i s.calls ++ l) called)
fires_once (suc m) (suc n) i s t h e lt q =
    let (s', e₁, d) = >>=-eq-done (handle s) (alarms m) q in
    let (held, made) = handle-aged i s (live t) e₁ h in
    let t' : Task = record t { sec = pos (suc n) } in
    let aged : aged_slot (live t) ≡ live t' = aged_later t n e in
    let quiet : aged_calls i (live t) ≡ [] = aged_silent i t n e in
    let (held', made') = fires_once m n i s' t' (held ∙ ap some aged) refl (omega arith) d in
    let same : calls_from i s'.calls ≡ calls_from i s.calls =
      made ∙ ap (λ l. calls_from i s.calls ++ l) quiet ∙ append-nil (calls_from i s.calls) in
    (held', made' ∙ ap (λ l. l ++ call_of i t ∷ []) same)

aged_never :
    (i : ℕ) (t : Task)
    → t.sec ≤ℤ pos 0
    → (aged_slot (live t) ≡ live (record t { sec = t.sec -ℤ pos 1 }))
      × (aged_calls i (live t) ≡ [])
      × (t.sec -ℤ pos 1 ≤ℤ pos 0)
unfolding ◌-ℤ◌
aged_never i t le = (ground arith, ground arith, ground arith)

-- A task with no second, or fewer, left is never called and keeps its slot, however many alarms
-- come.
never_fires :
    (m i : ℕ) (s : Timer) (t : Task) {u : Timer}
    → get_elem? s.tasks i ≡ some (live t)
    → t.sec ≤ℤ pos 0
    → alarms m s ≡ done u
    → (t' : Task) × (get_elem? u.tasks i ≡ some (live t'))
      × (t'.sec ≤ℤ pos 0)
      × (calls_from i u.calls ≡ calls_from i s.calls)
unfolding alarms
never_fires zero i s t h le q = (t, ground arith, le, ground arith)
never_fires (suc m) i s t h le q =
    let (s', e₁, d) = >>=-eq-done (handle s) (alarms m) q in
    let (held, made) = handle-aged i s (live t) e₁ h in
    let (kept, quiet, le') = aged_never i t le in
    let (t', held', le'', made') =
      never_fires m i s' (record t { sec = t.sec -ℤ pos 1 }) (held ∙ ap some kept) le' d in
    (
      t',
      held',
      le'',
      made' ∙ made ∙ ap (λ l. calls_from i s.calls ++ l) quiet ∙ append-nil (calls_from i s.calls),
    )

wait_null : (k i : ℕ) (s : Timer) → get_elem? s.tasks i ≡ some null → at_wait k (pos i) s ≡ done s
unfolding at_wait
wait_null zero i s h = rw (slot_held s.tasks i h)
wait_null (suc k) i s h = rw (slot_held s.tasks i h)

wait_live :
    (k i : ℕ) (s : Timer) {t : Task}
    → get_elem? s.tasks i ≡ some (live t)
    → at_wait (suc k) (pos i) s ≡ (handle s >>= at_wait k (pos i))
unfolding at_wait
wait_live k i s h = rw (slot_held s.tasks i h)

wait_blocked :
    (i : ℕ) (s : Timer) {t : Task}
    → get_elem? s.tasks i ≡ some (live t)
    → at_wait 0 (pos i) s ≡ blocked
unfolding at_wait
wait_blocked i s h = rw (slot_held s.tasks i h)

-- A wait for a task with `n + 1` seconds left ends at the alarm `n + 1`, in the state that this
-- alarm leaves, however many alarms more could come, when the first `n + 1` alarms are not
-- undefined.
pub wait_ends :
    (k n i : ℕ) (s : Timer) (t : Task) {u : Timer}
    → get_elem? s.tasks i ≡ some (live t)
    → t.sec ≡ pos (suc n)
    → n ≤ k
    → alarms (suc n) s ≡ done u
    → at_wait (suc k) (pos i) s ≡ done u
unfolding alarms
wait_ends k zero i s t h e le q =
    let (s', e₁, d) = >>=-eq-done (handle s) done q in
    let (held, made) = handle-aged i s (live t) e₁ h in
    wait_live k i s h ∙ rw e₁ (wait_null k i s' (held ∙ ap some (aged_last i t e).0) ∙ d)
wait_ends zero (suc n) i s t h e le q = absurd (omega arith)
wait_ends (suc k) (suc n) i s t h e le q =
    let (s', e₁, d) = >>=-eq-done (handle s) (alarms (suc n)) q in
    let (held, made) = handle-aged i s (live t) e₁ h in
    let t' : Task = record t { sec = pos (suc n) } in
    wait_live (suc k) i s h
    ∙ rw e₁ (wait_ends k n i s' t' (held ∙ ap some (aged_later t n e)) refl (omega arith) d)

-- A wait for a task with no second, or fewer, left never returns.
pub wait_hangs :
    (m i : ℕ) (s : Timer) (t : Task)
    → get_elem? s.tasks i ≡ some (live t)
    → t.sec ≤ℤ pos 0
    → (u : Timer) → at_wait m (pos i) s ≢ done u
wait_hangs zero i s t h le u q = cc (wait_blocked i s h)
wait_hangs (suc m) i s t h le u q =
    let (s', e₁, d) = >>=-eq-done (handle s) (at_wait m (pos i)) (sym (wait_live m i s h) ∙ q) in
    let (held, made) = handle-aged i s (live t) e₁ h in
    let (kept, quiet, le') = aged_never i t le in
    wait_hangs m i s' (record t { sec = t.sec -ℤ pos 1 }) (held ∙ ap some kept) le' u d

-- A cancelled task gives no value back, its slot is free at once, a wait for it returns without an
-- alarm, and no later alarm calls it.
cancel_stops :
    (m i : ℕ) (s : Timer) (t : Task) {r : Option ℤ} {s' u : Timer}
    → get_elem? s.tasks i ≡ some (live t)
    → at_cancel_job (pos i) s ≡ done (r, s')
    → alarms m s' ≡ done u
    → (r ≡ none)
      × (at_wait m (pos i) s' ≡ done s')
      × (at_cancel_job (pos i) s' ≡ done (some (pos 0), s'))
      × (calls_from i u.calls ≡ calls_from i s.calls)
unfolding at_cancel_job
cancel_stops m i s t {s'} h q al =
    let (v, e, d) = >>=-eq-done (slot s.tasks (pos i)) _ q in
    let it : v ≡ live t = cc (slot_held s.tasks i h) in
    let d' = rw it at d in
    let free : get_elem? s'.tasks i ≡ some null =
      cc (get_elem?-set_self s.tasks i null (get_elem?-lt-length s.tasks i h)) in
    let same : s'.calls ≡ s.calls = cc in
    (
      cc,
      wait_null m i s' free,
      rw (slot_held s'.tasks i free),
      (alarms_null m i s' free al).1 ∙ ap (calls_from i) same,
    )
