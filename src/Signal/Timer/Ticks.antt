-- ===== src/Signal/Timer/Ticks.antt =====
-- One alarm of signal/anytimer.c, slot by slot.
use apue_pratice.Prelude.{
  ℕ, zero, suc, ◌+◌, ◌<◌, ◌≡◌, refl, some, List, [], ◌∷◌, ◌++◌, arith, ◌==◌, if◌then◌else◌,
  get_elem?,
}
use apue_pratice.Prelude.Int.{pos, ◌-ℤ◌, eqb_ℤ}
use apue_pratice.Prelude.Outcome.{done, >>=-eq-done}
use apue_pratice.Prelude.CInt.{sub_int, sub_int-eq}
use apue_pratice.Slots.{Slot, null, live, dangling}
use apue_pratice.Signal.Timer.{Task, Call, Ticked, tick}

-- The calls that come from position `k`.
pub calls_from : ℕ → List Call → List Call
calls_from k [] = []
calls_from k (c ∷ cs) = let rest = calls_from k cs in if c.position == k then c ∷ rest else rest

pub calls_from-append :
    (k : ℕ) (xs ys : List Call) → calls_from k (xs ++ ys) ≡ calls_from k xs ++ calls_from k ys
unfolding calls_from
calls_from-append k [] ys = refl
calls_from-append k (c ∷ cs) ys = ground (arith, calls_from-append k cs ys)

abbrev pub call_of : ℕ → Task → Call
call_of k t = record { position = k; called = t.func; passed = t.arg }

-- What one alarm makes of a slot: a task with one second left is freed, any other has one less.
abbrev pub aged_slot : Slot Task → Slot Task
aged_slot null = null
aged_slot (live t) = if eqb_ℤ t.sec (pos 1) then null else live (record t { sec = t.sec -ℤ pos 1 })
aged_slot dangling = dangling

-- The calls that it makes there.
abbrev pub aged_calls : ℕ → Slot Task → List Call
aged_calls k null = []
aged_calls k (live t) = if eqb_ℤ t.sec (pos 1) then call_of k t ∷ [] else []
aged_calls k dangling = []

-- The loop makes no call from before the index where it starts.
tick_later :
    (i : ℕ) (xs : List (Slot Task)) {r : Ticked}
    → tick i xs ≡ done r
    → (k : ℕ) → k < i
    → calls_from k r.made ≡ []
unfolding tick calls_from
tick_later i [] q k h = ground arith
tick_later i (null ∷ xs) q k h =
    let (r, e, d) = >>=-eq-done (tick (i + 1) xs) _ q in ground (arith, tick_later (i + 1) xs e k)
tick_later i (live t ∷ xs) q k h =
    let (sec', e, d) = >>=-eq-done (sub_int t.sec (pos 1)) _ q in
    let (r, e', d') = >>=-eq-done (tick (i + 1) xs) _ d in
    ground (arith, tick_later (i + 1) xs e' k)
tick_later i (dangling ∷ xs) q k h = cc

-- What the loop leaves in a slot, and the calls that it makes from there.
pub tick-aged :
    (i n k : ℕ) (xs : List (Slot Task)) (v : Slot Task) {r : Ticked}
    → tick i xs ≡ done r
    → k ≡ i + n
    → get_elem? xs n ≡ some v
    → (get_elem? r.left n ≡ some (aged_slot v)) × (calls_from k r.made ≡ aged_calls k v)
unfolding tick calls_from ◌-ℤ◌
tick-aged i n k [] v q o h = cc
tick-aged i zero k (null ∷ xs) v q o h =
    let (r, e, d) = >>=-eq-done (tick (i + 1) xs) _ q in
    let same : null ≡ v = cc in
    rw (← same) (ground arith, ground (arith, tick_later (i + 1) xs e k))
tick-aged i zero k (live t ∷ xs) v q o h =
    let (sec', e, d) = >>=-eq-done (sub_int t.sec (pos 1)) _ q in
    let (r, e', d') = >>=-eq-done (tick (i + 1) xs) _ d in
    let same : live t ≡ v = cc in
    rw (← same) (
      ground (arith, sub_int-eq t.sec (pos 1) e),
      ground (arith, sub_int-eq t.sec (pos 1) e, tick_later (i + 1) xs e' k),
    )
tick-aged i (suc n) k (null ∷ xs) v q o h =
    let (r, e, d) = >>=-eq-done (tick (i + 1) xs) _ q in
    let ih = tick-aged (i + 1) n k xs v e (omega arith) h in
    (ground (arith, ih.0), ground (arith, ih.1))
tick-aged i (suc n) k (live t ∷ xs) v q o h =
    let (sec', e, d) = >>=-eq-done (sub_int t.sec (pos 1)) _ q in
    let (r, e', d') = >>=-eq-done (tick (i + 1) xs) _ d in
    let ih = tick-aged (i + 1) n k xs v e' (omega arith) h in
    (ground (arith, ih.0), ground (arith, ih.1))
tick-aged i n k (dangling ∷ xs) v q o h = cc
