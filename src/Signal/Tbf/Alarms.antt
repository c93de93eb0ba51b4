-- ===== src/Signal/Tbf/Alarms.antt =====
-- Alarms of signal/mytbf.c: what a job earns, and the waits that an alarm ends.
use apue_pratice.Prelude.{
  ℕ, zero, suc, ◌+◌, ◌*◌, ◌≡◌, sym, ◌∙◌, ◌≢◌, some, List, [], ◌∷◌, arith, get_elem?,
}
use apue_pratice.Prelude.Int.{pos, ◌+ℤ◌}
use apue_pratice.Prelude.Outcome.{Outcome, done, ◌>>=◌, >>=-eq-done}
use apue_pratice.Prelude.CInt.{add_int, add_int-eq}
use apue_pratice.Slots.{Slot, null, live, dangling}
use apue_pratice.Signal.Tbf.{Tbf, Library, accrue, handle, await}
use apue_pratice.Slots.First.{deref_live}

-- An alarm adds its rate to a job, and leaves the job in its slot.
pub accrue-get :
    (xs : List (Slot Tbf)) (i : ℕ) (p : Tbf) {ys : List (Slot Tbf)}
    → accrue xs ≡ done ys
    → get_elem? xs i ≡ some (live p)
    → get_elem? ys i ≡ some (live (record p { token = p.token +ℤ p.cps }))
unfolding accrue
accrue-get [] i p q h = cc
accrue-get (null ∷ xs) zero p q h = cc
accrue-get (null ∷ xs) (suc i) p q h =
    let (rest, e, d) = >>=-eq-done (accrue xs) _ q in ground (arith, accrue-get xs i p e h)
accrue-get (live t ∷ xs) zero p q h =
    let (earned, e, d) = >>=-eq-done (add_int t.token t.cps) _ q in
    let (rest, e', d') = >>=-eq-done (accrue xs) _ d in ground (arith, add_int-eq t.token t.cps e)
accrue-get (live t ∷ xs) (suc i) p q h =
    let (earned, e, d) = >>=-eq-done (add_int t.token t.cps) _ q in
    let (rest, e', d') = >>=-eq-done (accrue xs) _ d in ground (arith, accrue-get xs i p e' h)
accrue-get (dangling ∷ xs) i p q h = cc

-- `n` alarms in a row.
unfoldable pub alarms : ℕ → Library → Outcome Library
alarms zero s = done s
alarms (suc n) s = handle s >>= alarms n

-- After `n` alarms that overflow no job, a job whose tokens and rate are not negative has `n`
-- times its rate more, whatever its `burst`: the handler sets no bound.
pub alarms_earn :
    (n a c : ℕ) (s : Library) (i : ℕ) (p : Tbf) {t : Library}
    → get_elem? s.jobs i ≡ some (live p)
    → p.token ≡ pos a
    → p.cps ≡ pos c
    → alarms n s ≡ done t
    → get_elem? t.jobs i ≡ some (live (record p { token = pos (a + n * c) }))
unfolding alarms handle ◌+ℤ◌
alarms_earn zero a c s i p h ea ec q = ground arith
alarms_earn (suc n) a c s i p h ea ec q =
    let (u, e, d) = >>=-eq-done (handle s) (alarms n) q in
    let (ys, e', d') = >>=-eq-done (accrue s.jobs) _ e in
    let p' : Tbf = record p { token = p.token +ℤ p.cps } in
    ground (
      arith,
      accrue-get s.jobs i p e' h,
      alarms_earn n (a + c) c u i p' (ground (arith, accrue-get s.jobs i p e' h)) (ground arith) ec
          d,
    )

-- A wait on an empty bucket goes on after the next alarm.
pub await_empty :
    (n i : ℕ) (s : Library) (p : Tbf)
    → get_elem? s.jobs i ≡ some (live p)
    → p.token ≡ pos 0
    → await (suc n) (pos i) s ≡ (handle s >>= await n (pos i))
unfolding await
await_empty n i s p h et = rw (deref_live s.jobs i h) (ground arith)

-- The alarms that a job with an empty bucket and no rate waits for do not come.
pub await_never :
    (n i : ℕ) (s : Library) (p : Tbf)
    → get_elem? s.jobs i ≡ some (live p)
    → p.token ≡ pos 0
    → p.cps ≡ pos 0
    → (t : Library) → await n (pos i) s ≢ done t
unfolding await handle ◌+ℤ◌
await_never zero i s p h et ec t q = let q' = rw (deref_live s.jobs i h) at q in ground arith
await_never (suc n) i s p h et ec t q =
    let (u, e, d) = >>=-eq-done (handle s) (await n (pos i)) (sym (await_empty n i s p h et) ∙ q) in
    let (ys, e₂, d₂) = >>=-eq-done (accrue s.jobs) _ e in
    await_never n i u (record p { token = p.token +ℤ p.cps })
      (ground (arith, accrue-get s.jobs i p e₂ h)) (ground arith) ec t d

-- A wait on a bucket that holds something returns at once.
pub await_full :
    (n i : ℕ) (s : Library) (p : Tbf)
    → get_elem? s.jobs i ≡ some (live p)
    → p.token ≢ pos 0
    → await n (pos i) s ≡ done s
unfolding await
await_full zero i s p h ne = rw (deref_live s.jobs i h) (ground arith)
await_full (suc n) i s p h ne = rw (deref_live s.jobs i h) (ground arith)

-- A wait on an empty bucket with a positive rate ends at the first alarm.
pub await_once :
    (n i c : ℕ) (s : Library) (p : Tbf) {ys : List (Slot Tbf)}
    → get_elem? s.jobs i ≡ some (live p)
    → p.token ≡ pos 0
    → p.cps ≡ pos (suc c)
    → accrue s.jobs ≡ done ys
    → await (suc n) (pos i) s ≡ done (record s { jobs = ys; alarm = 1 })
unfolding await handle ◌+ℤ◌
await_once n i c s p {ys} h et ec q =
    rw (deref_live s.jobs i h, et, q)
      (await_full n i (record s { jobs = ys; alarm = 1 }) (record p { token = p.token +ℤ p.cps })
        (accrue-get s.jobs i p q h) (ground arith))
