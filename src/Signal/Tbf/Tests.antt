-- ===== src/Signal/Tbf/Tests.antt =====
-- Runs of the token bucket library, and its theorems at them.
use mathlib.Core.Path.{subst}
use apue_pratice.Signal.Tbf.Calls.{Initialised, init_result}
use apue_pratice.Prelude.{
  ℕ, ◌+◌, ◌*◌, ◌<◌, ◌≡◌, refl, true, false, some, ◌∷◌, arith, get_elem?, replicate,
}
use apue_pratice.Prelude.Int.{ℤ, pos, ◌+ℤ◌, ◌-ℤ◌}
use apue_pratice.Prelude.Outcome.{done, ◌>>=◌}
use apue_pratice.Prelude.CInt.{add_int, sub_int}
use apue_pratice.Slots.{null, live, dangling, first_null, count_live}
use apue_pratice.Signal.Tbf.{
  Tbf, Library, default_action, library_handler, at_start, accrue, handle, mytbf_load, free_all,
  restored, mytbf_unload, get_pos, init_at, mytbf_init, mytbf_returntoken, await, take_tokens,
  mytbf_fetchtoken, mytbf_destroy,
}
use apue_pratice.Signal.Tbf.Table.{IsValid}
use apue_pratice.Signal.Tbf.Alarms.{alarms, alarms_earn}
use apue_pratice.Signal.Tbf.Buckets.{Taken, fetch_takes, fetch_returns}
use apue_pratice.Signal.Tbf.Reuse.{fetch-return}
use apue_pratice.Signal.Tbf.Calls.{init, Reach, start, next, Reach-IsValid}

-- `job k` holds `k` tokens, earns 10 at every alarm, and keeps at most 1024.
abbrev job : ℕ → Tbf
job k = record { cps = pos 10; burst = pos 1024; token = pos k; pos_field = pos 0 }

abbrev with_job : Tbf → Library
with_job t = record {
  jobs = live t ∷ replicate 1023 null;
  inited = true;
  func = default_action;
  action = library_handler;
  alarm = 1;
  blocks = 1;
}

-- The first call of a program.
init_runs :
    mytbf_init true (pos 10) (pos 1024) (at_start default_action) ≡ (pos 0, with_job (job 0))
unfolding mytbf_init mytbf_load get_pos init_at first_null
init_runs = refl

accrue_runs : accrue (with_job (job 0)).jobs ≡ done (with_job (job 10)).jobs
unfolding accrue add_int ◌+ℤ◌
accrue_runs = refl

reached : Reach default_action (with_job (job 0))
reached =
    subst (λ (r : ℤ × Library). Reach default_action r.1) init_runs
      (next start (init true (pos 10) (pos 1024)))

Reach-IsValid_example : IsValid (with_job (job 0))
Reach-IsValid_example = Reach-IsValid default_action (with_job (job 0)) reached

init_result_test :
    Initialised true
      (pos 7)
      (pos 9)
      (with_job (job 0))
      (mytbf_init true (pos 7) (pos 9) (with_job (job 0)))
init_result_test = init_result true (pos 7) (pos 9) (with_job (job 0))

fetch_runs : mytbf_fetchtoken 0 (pos 0) (pos 4) (with_job (job 10)) ≡ done (pos 4, with_job (job 6))
unfolding mytbf_fetchtoken await take_tokens sub_int ◌-ℤ◌
fetch_runs = refl

fetch_takes_example :
    (u : Library) × (await 0 (pos 0) (with_job (job 10)) ≡ done u)
    × Taken 0 (pos 4) u (pos 4, with_job (job 6))
fetch_takes_example = fetch_takes 0 0 (pos 4) (with_job (job 10)) fetch_runs

fetch_returns_example :
    mytbf_fetchtoken 3 (pos 0) (pos 4) (with_job (job 0)) ≡ done (pos 4, with_job (job 6))
fetch_returns_example =
    fetch_returns 2 0 9 4 (with_job (job 0)) (job 0) refl refl refl (omega arith) accrue_runs

-- Two alarms.
alarms_run :
    alarms 2 (with_job (record (job 0) { burst = pos 5 }))
    ≡ done (with_job (record (job 20) { burst = pos 5 }))
unfolding alarms handle accrue add_int ◌+ℤ◌
alarms_run = refl

-- A bucket whose bound is 5 holds 20 tokens.
alarms_earn_example :
    get_elem? (with_job (record (job 20) { burst = pos 5 })).jobs 0
    ≡ some (live (record (job 0) { burst = pos 5; token = pos (0 + 2 * 10) }))
alarms_earn_example =
    alarms_earn 2 0 10 (with_job (record (job 0) { burst = pos 5 })) 0
      (record (job 0) { burst = pos 5 }) refl refl refl alarms_run

return_runs :
    mytbf_returntoken (pos 0) (pos 2000) (with_job (job 10)) ≡ done (pos 2000, with_job (job 1024))
unfolding mytbf_returntoken add_int ◌+ℤ◌
return_runs = refl

fetch-return_example :
    (mytbf_fetchtoken 0 (pos 0) (pos 4) (with_job (job 10)) >>= λ (rt : ℤ × Library).
    mytbf_returntoken (pos 0) rt.0 rt.1)
    ≡ done (pos 4, with_job (job 10))
fetch-return_example =
    fetch-return 0 0 9 4 (with_job (job 10)) (job 10) refl refl (omega arith) (omega arith)

abbrev destroyed : Library
destroyed = record (with_job (job 0)) { jobs = replicate 1024 null; blocks = 0 }

destroy_runs : mytbf_destroy (pos 0) (with_job (job 0)) ≡ done (pos 1, destroyed)
unfolding mytbf_destroy
destroy_runs = refl

abbrev unloaded : Library
unloaded = record (with_job (job 0)) {
  inited = false;
  jobs = dangling ∷ replicate 1023 null;
  blocks = 0;
}

unload_runs : mytbf_unload (with_job (job 0)) ≡ done unloaded
unfolding mytbf_unload free_all restored count_live
unload_runs = refl

one_live : 0 < count_live (with_job (job 0)).jobs
unfolding count_live
one_live = omega arith
