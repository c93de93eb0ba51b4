-- ===== src/Thread/Cancel.antt =====
-- thread/cancel.c: `main` starts a thread, cancels it and waits for it; `routine` has switched cancellation
-- off. A step is one action of one of the two, in any order; no call fails.
mod Tests
use apue_pratice.Prelude.{
  ℕ, zero, suc, ◌+◌, ◌-◌, ◌*◌, ◌/◌, ◌%◌, ◌^◌, ◌≤◌, ◌<◌, ◌≡◌, refl, sym, ap, ◌∙◌, ◌≢◌, ◌↔◌, ◌⊎◌, inl,
  inr, Bool, true, false, ◌&&◌, ◌||◌, Option, none, some, List, [], ◌∷◌, ◌++◌, map, arith, ltb, leb,
  ◌==◌, if◌then◌else◌, Bool-cases, Option-cases, length, get_elem?, get_or, set, length-set,
  get_elem?-set_self, get_elem?-set_ne, length-append, take, drop, replicate, length-replicate,
  length-map, take-append-drop, length-take, length-drop,
}
use apue_pratice.Prelude.Int.{
  ℤ, pos, negsuc, pos_part, neg_part, ◌+ℤ◌, ◌-ℤ◌, ◌≤ℤ◌, leb_ℤ, ltb_ℤ, eqb_ℤ, int_laws, eq_of_parts,
}
use apue_pratice.Prelude.Outcome.{Outcome, done, fault, blocked, ◌>>=◌, >>=-eq-done}
use apue_pratice.Prelude.CInt.{
  fits, checked, add_int, sub_int, min_int, int_min, int_max, add_int-done, sub_int-done,
  fits_of_le, add_int-eq, sub_int-eq,
}

-- Where `routine` stands.
pub data RoutinePc : Type 0 where
  not_started : RoutinePc
  switching : RoutinePc  -- before `pthread_setcancelstate`
  counting : RoutinePc  -- before `i++`
  testing : RoutinePc  -- before `pthread_testcancel`
  printing : RoutinePc  -- before `printf`, a point of cancellation
  sleeping : RoutinePc  -- in `my_sleep`, a point of cancellation
  ended : RoutinePc

-- Where `main` stands.
pub data CancelPc : Type 0 where
  creating : CancelPc
  waiting : CancelPc  -- in `my_sleep(5)` and before `pthread_cancel`
  joining : CancelPc  -- in `pthread_join`
  joined : CancelPc

-- The counter `i`, whether the thread may be cancelled and is asked to end, and where the two stand.
pub record Cancelling : Type 0 where
  pub i : ℕ
  pub enabled : Bool
  pub asked : Bool
  pub routine : RoutinePc
  pub main : CancelPc

-- At a point of cancellation: before `pthread_testcancel`, `printf` or in `select`.
abbrev pub cancel_point : RoutinePc → Bool
cancel_point testing = true
cancel_point printing = true
cancel_point sleeping = true
cancel_point _ = false

pub data CancelStep (s : Cancelling) : Cancelling → Type 0 where
  create : s.main ≡ creating → CancelStep s (record s { routine = switching; main = waiting })
  switch_off :
      s.routine ≡ switching → CancelStep s (record s { enabled = false; routine = counting })
  count : s.routine ≡ counting → CancelStep s (record s { i = suc s.i; routine = testing })
  test : s.routine ≡ testing → CancelStep s (record s { routine = printing })
  print : s.routine ≡ printing → CancelStep s (record s { routine = sleeping })
  sleep : s.routine ≡ sleeping → CancelStep s (record s { routine = counting })
  -- A thread that was asked to end does so at a point of cancellation, where it may be cancelled.
  cancelled :
      cancel_point s.routine ≡ true
      → s.enabled ≡ true
      → s.asked ≡ true
      → CancelStep s (record s { routine = ended })
  cancel : s.main ≡ waiting → CancelStep s (record s { asked = true; main = joining })
  join : s.main ≡ joining → s.routine ≡ ended → CancelStep s (record s { main = joined })

abbrev pub cancel_start : Cancelling
cancel_start = record {
  i = 0;
  enabled = true;
  asked = false;
  routine = not_started;
  main = creating;
}

pub data CancelReach : Cancelling → Type 0 where
  start : CancelReach cancel_start
  next : {s t : Cancelling} → CancelReach s → CancelStep s t → CancelReach t

-- The thread runs, and in its loop it may not be cancelled.
record Kept (s : Cancelling) : Type 0 where
  guarded : cancel_point s.routine ≡ true → s.enabled ≡ false
  guarded_count : s.routine ≡ counting → s.enabled ≡ false
  runs : s.routine ≢ ended
  unjoined : s.main ≢ joined
  started : s.routine ≡ not_started → s.main ≡ creating

step-Kept : {s t : Cancelling} → Kept s → CancelStep s t → Kept t
step-Kept k (create q) = record {
  guarded = λ h. ground arith;
  guarded_count = λ h. cc;
  runs = λ h. cc;
  unjoined = λ h. cc;
  started = λ h. cc;
}
step-Kept k (switch_off q) = record {
  guarded = λ h. refl;
  guarded_count = λ h. refl;
  runs = λ h. cc;
  unjoined = Kept.unjoined k;
  started = λ h. cc;
}
step-Kept k (count q) = record {
  guarded = λ h. Kept.guarded_count k q;
  guarded_count = λ h. cc;
  runs = λ h. cc;
  unjoined = Kept.unjoined k;
  started = λ h. cc;
}
step-Kept k (test q) = record {
  guarded = λ h. Kept.guarded k (ap cancel_point q);
  guarded_count = λ h. cc;
  runs = λ h. cc;
  unjoined = Kept.unjoined k;
  started = λ h. cc;
}
step-Kept k (print q) = record {
  guarded = λ h. Kept.guarded k (ap cancel_point q);
  guarded_count = λ h. cc;
  runs = λ h. cc;
  unjoined = Kept.unjoined k;
  started = λ h. cc;
}
step-Kept k (sleep q) = record {
  guarded = λ h. Kept.guarded k (ap cancel_point q);
  guarded_count = λ h. Kept.guarded k (ap cancel_point q);
  runs = λ h. cc;
  unjoined = Kept.unjoined k;
  started = λ h. cc;
}
step-Kept k (cancelled p e a) = absurd (ground (arith, Kept.guarded k p, e))
step-Kept k (cancel q) = record {
  guarded = Kept.guarded k;
  guarded_count = Kept.guarded_count k;
  runs = Kept.runs k;
  unjoined = λ h. cc;
  started = λ h. absurd (ground (arith, Kept.started k h, q));
}
step-Kept k (join q r) = absurd (Kept.runs k r)

Reach-Kept : {s : Cancelling} → CancelReach s → Kept s
Reach-Kept start = record {
  guarded = λ h. absurd (ground (arith, h));
  guarded_count = λ h. cc;
  runs = λ h. cc;
  unjoined = λ h. cc;
  started = λ h. refl;
}
Reach-Kept (next r st) = step-Kept (Reach-Kept r) st

-- Once the thread has been created it can always go on.
running :
    (s : Cancelling) (p : RoutinePc)
    → s.routine ≡ p
    → p ≢ ended
    → p ≢ not_started
    → (t : Cancelling) × CancelStep s t
running s not_started q e n = absurd (n refl)
running s switching q e n = (_, switch_off q)
running s counting q e n = (_, count q)
running s testing q e n = (_, test q)
running s printing q e n = (_, print q)
running s sleeping q e n = (_, sleep q)
running s ended q e n = absurd (e refl)

goes_on :
    (s : Cancelling) (c : CancelPc)
    → s.main ≡ c
    → Kept s
    → c ≢ creating
    → (t : Cancelling) × CancelStep s t
goes_on s c q k n = running s s.routine refl (Kept.runs k) (λ z. n (sym q ∙ Kept.started k z))

some_step :
    (s : Cancelling) (c : CancelPc) → s.main ≡ c → Kept s → (t : Cancelling) × CancelStep s t
some_step s creating q k = (_, create q)
some_step s waiting q k = goes_on s waiting q k (λ h. cc)
some_step s joining q k = goes_on s joining q k (λ h. cc)
some_step s joined q k = goes_on s joined q k (λ h. cc)

-- In thread/cancel.c the thread never ends, `main` never comes back from `pthread_join`, and the program never
-- stops: a further step is always possible.
pub cancel_never_joins :
    {s : Cancelling}
    → CancelReach s
    → (s.routine ≢ ended) × (s.main ≢ joined) × ((t : Cancelling) × CancelStep s t)
cancel_never_joins {s} r =
    let k : Kept s = Reach-Kept r in (Kept.runs k, Kept.unjoined k, some_step s s.main refl k)
