-- ===== src/Primes/Tests.antt =====
-- The prime programs at small numbers.
use apue_pratice.Prelude.{◌≡◌, ◌≤◌, ◌↔◌, refl, true, [], ◌∷◌, arith}
use mathlib.Core.List.{Mem}
use mathlib.Core.List.Perm
use apue_pratice.Primes.Loops.{
  IsPrime, mark_from, process_mark, thread_mark, process_mark-IsPrime, thread_mark-IsPrime,
}
use apue_pratice.Primes.Outputs.{marked, ProcessOutput-primes, ThreadOutput-primes}

-- The loop of ps/prime.c takes 4 for a prime.
four_marked : process_mark 4 ≡ true
unfolding mark_from
four_marked = refl

marks_30200 : marked thread_mark 5 30200 ≡ 30203 ∷ []
unfolding marked mark_from
marks_30200 = refl

process_mark-IsPrime_test : (process_mark 91 ≡ true) ↔ IsPrime 91
process_mark-IsPrime_test = process_mark-IsPrime 91 (omega arith)

thread_mark-IsPrime_test : (thread_mark 97 ≡ true) ↔ IsPrime 97
thread_mark-IsPrime_test = thread_mark-IsPrime 97 (omega arith)

ProcessOutput-primes_example :
    Mem 30000001 (marked process_mark 201 30000000)
    ↔ ((30000000 ≤ 30000001) × (30000001 ≤ 30000200) × IsPrime 30000001)
ProcessOutput-primes_example =
    ProcessOutput-primes (marked process_mark 201 30000000) 30000001 (Perm.refl _)

ThreadOutput-primes_test :
    Mem 30011 (marked thread_mark 201 30000) ↔ ((30000 ≤ 30011) × (30011 ≤ 30200) × IsPrime 30011)
ThreadOutput-primes_test = ThreadOutput-primes (marked thread_mark 201 30000) 30011 (Perm.refl _)
