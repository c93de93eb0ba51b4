-- ===== src/Signal/Tbf/Calls.antt =====
-- The calls of signal/mytbf.c, each on all its branches, and a run of many of them.
use mathlib.Core.Path.{subst}
use native.Mathlib.Nat.{zero-add}
use apue_pratice.Prelude.{
  ℕ, ◌+◌, ◌-◌, ◌<◌, ◌≡◌, refl, ap, ◌∙◌, ◌≢◌, ◌⊎◌, inl, inr, Bool, true, false, some, arith,
  get_elem?, set, length-set,
}
use apue_pratice.Prelude.Int.{ℤ, pos, negsuc}
use apue_pratice.Prelude.Outcome.{done, >>=-eq-done}
use apue_pratice.Slots.{null, live, dangling, deref}
use apue_pratice.Signal.Tbf.{
  Tbf, Library, Disposition, max_tbf, at_start, handle, mytbf_load, get_pos, init_at, mytbf_init,
  mytbf_returntoken, mytbf_fetchtoken, mytbf_destroy,
}
use apue_pratice.Slots.First.{
  nulls_none_live, nulls_length, IsFirst, first_null-IsFirst, count_live-set_null, deref-eq-done,
  deref_live, set-set, slot_held,
}
use apue_pratice.Signal.Tbf.Table.{IsValid, place}
use apue_pratice.Slots.Placed.{nulls-IsPlaced, IsPlaced-get, IsPlaced-set_null}
use apue_pratice.Signal.Tbf.Steps.{
  init-IsValid, handle-IsValid, returntoken-IsValid, fetchtoken-IsValid,
}

-- What `mytbf_init` did to a library `s` when it returns `r` and leaves `t`.
abbrev pub Initialised : Bool → ℤ → ℤ → Library → ℤ × Library → Type 0
Initialised memory cps burst s (pos i, t) =
    (memory ≡ true)
    × (get_elem? s.jobs i ≡ some null)
    × ((j : ℕ) → j < i → get_elem? s.jobs j ≢ some null)
    × (t.jobs
        ≡ set s.jobs i
            (live (record { cps = cps; burst = burst; token = pos 0; pos_field = pos i })))
    × (t.blocks ≡ s.blocks + 1)
Initialised memory cps burst s (negsuc n, t) =
    (n ≡ 0)
    × (t.jobs ≡ s.jobs)
    × ((memory ≡ false) × (t.blocks ≡ s.blocks)
        ⊎ (memory ≡ true) × (t.blocks ≡ s.blocks + 1) × ((j : ℕ) → get_elem? s.jobs j ≢ some null))

loaded_same : (s : Library) → ((mytbf_load s).jobs ≡ s.jobs) × ((mytbf_load s).blocks ≡ s.blocks)
unfolding mytbf_load
loaded_same s = ground arith

init_at-Initialised :
    (r cps burst : ℤ) (s u : Library)
    → (u.jobs ≡ s.jobs) × (u.blocks ≡ s.blocks + 1)
    → IsFirst 0 s.jobs r
    → Initialised true cps burst s (init_at r cps burst u)
unfolding init_at
init_at-Initialised (negsuc n) cps burst s u same f = (refl, same.0, inr (refl, same.1, f.1))
init_at-Initialised (pos i) cps burst s u same (n, e, free, before) =
    let e' : n ≡ i = omega arith in
    (
      refl,
      subst (λ k. get_elem? s.jobs k ≡ some null) e' free,
      λ j h. before j (omega arith),
      ap
          (λ l.
            set l i (live (record { cps = cps; burst = burst; token = pos 0; pos_field = pos i })))
          same.0,
      same.1,
    )

-- `mytbf_init` returns the first free position and puts a bucket with no token there, or returns -1
-- and leaves the table alone: because `malloc` failed, or because the table is full, and then the
-- block that `malloc` gave is lost.
pub init_result :
    (memory : Bool) (cps burst : ℤ) (s : Library)
    → Initialised memory cps burst s (mytbf_init memory cps burst s)
unfolding mytbf_init get_pos
init_result false cps burst s = let (j, b) = loaded_same s in (refl, j, inl (refl, b))
init_result true cps burst s =
    let (j, b) = loaded_same s in
    init_at-Initialised _ cps burst s _ (j, ap (λ n. n + 1) b) (rw j (first_null-IsFirst 0 s.jobs))

-- One call, or one alarm between two calls.
pub data Step (s : Library) : Library → Type 0 where
  init : (memory : Bool) (cps burst : ℤ) → Step s (mytbf_init memory cps burst s).1
  give : (id n r : ℤ) {t : Library} → mytbf_returntoken id n s ≡ done (r, t) → Step s t
  fetch : (k : ℕ) (id n r : ℤ) {t : Library} → mytbf_fetchtoken k id n s ≡ done (r, t) → Step s t
  destroy : (id r : ℤ) {t : Library} → mytbf_destroy id s ≡ done (r, t) → Step s t
  alarm_comes : {t : Library} → handle s ≡ done t → Step s t

pub data Reach (a : Disposition) : Library → Type 0 where
  start : Reach a (at_start a)
  next : {s t : Library} → Reach a s → Step s t → Reach a t

-- The block of a position is freed and its pointer cleared, and nothing else changes.
pub destroy_lem :
    (s : Library) (i : ℕ) (p : Tbf)
    → IsValid s
    → get_elem? s.jobs i ≡ some (live p)
    → mytbf_destroy (pos i) s
      ≡ done (pos 1, record s { jobs = set s.jobs i null; blocks = s.blocks - 1 })
unfolding mytbf_destroy
destroy_lem s i p v h = rw (
  deref_live s.jobs i h,
  IsPlaced-get place 0 i s.jobs v.placed h,
  zero-add,
  slot_held s.jobs i h,
  set-set s.jobs i dangling null,
)

destroy-IsValid :
    (id r : ℤ) (s : Library) {t : Library}
    → mytbf_destroy id s ≡ done (r, t)
    → IsValid s
    → IsValid t
unfolding mytbf_destroy
destroy-IsValid (negsuc n) r s q v = cc
destroy-IsValid (pos i) r s {t} q v =
    let (p, e, d) = >>=-eq-done (deref s.jobs (pos i)) _ q in
    let h : get_elem? s.jobs i ≡ some (live p) = deref-eq-done s.jobs i e in
    let after : Library = record s { jobs = set s.jobs i null; blocks = s.blocks - 1 } in
    let same : t ≡ after = cc (destroy_lem s i p v h) in
    rw same (record {
      size = length-set s.jobs i null ∙ v.size;
      placed = IsPlaced-set_null place 0 i s.jobs v.placed;
      owned = omega (arith, count_live-set_null s.jobs i h, v.owned);
      armed = v.armed;
    })

Step-IsValid : {s t : Library} → Step s t → IsValid s → IsValid t
Step-IsValid {s} (init memory cps burst) v = init-IsValid memory cps burst s v
Step-IsValid {s} (give id n r q) v = returntoken-IsValid id n r s q v
Step-IsValid {s} (fetch k id n r q) v = fetchtoken-IsValid k id n r s q v
Step-IsValid {s} (destroy id r q) v = destroy-IsValid id r s q v
Step-IsValid {s} (alarm_comes q) v = handle-IsValid s q v

-- In every state that calls and alarms lead to, the table has its 1024 slots, every job knows its
-- position, no slot points at a freed block, every block in the table was allocated, and the
-- library's handler is installed once the library is loaded.
pub Reach-IsValid : (a : Disposition) (s : Library) → Reach a s → IsValid s
Reach-IsValid a s r = go r
  where
    go : {t : Library} → Reach a t → IsValid t
    go start = record {
      size = nulls_length Tbf max_tbf;
      placed = nulls-IsPlaced place 0 max_tbf;
      owned = omega (arith, nulls_none_live Tbf max_tbf);
      armed = λ e. cc;
    }
    go (next r st) = Step-IsValid st (go r)
