-- ===== src/Counter/Tests.antt =====
-- The counter programs at concrete sizes.
use native.Mathlib.Decide.{ℕ_discrete}
use apue_pratice.Prelude.{
  ℕ, ◌%◌, ◌≤◌, ◌≡◌, refl, ◌⊎◌, inr, true, false, List, [], ◌∷◌, arith, replicate,
}
use apue_pratice.Prelude.Int.{pos, ◌+ℤ◌}
use apue_pratice.Counter.Model.{
  Cell, printed, Threads, take_lock, load_it, store_it, give_lock, Step, by_thread, create,
  created_all, Reach, start, next,
}
use apue_pratice.Counter.Invariant.{inside}
use apue_pratice.Counter.Refine.{counter_refines, view, Increment, Increments}
use apue_pratice.Counter.Ends.{never_stuck, reaches_its_end, steps}
use apue_pratice.Prelude.Decimal.{digits, value, atoi, print_int}
use apue_pratice.Counter.Mutex.{mutex, count, thread_count, mutex_prints}
use apue_pratice.Counter.Semaphore.{semaphore, semaphore_excludes, p_possible}
use apue_pratice.Counter.FileLock.{
  CountsTo, number_file, buf_size, read_file, write_back, flock_counts,
}

-- Two threads are created; thread 1 takes the lock and loads the counter, before thread 0 has run.
abbrev two_created : (s : Threads mutex count) × Reach mutex count 2 s
two_created = (
  _,
  next (next (next start (create refl (omega arith))) (create refl (omega arith)))
      (created_all refl),
)

abbrev one_loaded : (s : Threads mutex count) × Reach mutex count 2 s
unfolding ℕ_discrete
one_loaded =
    (_, next (next two_created.1 (by_thread 1 (take_lock (refl, refl)))) (by_thread 1 load_it))

abbrev one_stored : (s : Threads mutex count) × Step mutex count 2 one_loaded.0 s
unfolding ℕ_discrete
one_stored = (_, by_thread 1 store_it)

one_stored-counted : one_stored.0.mem ≡ 1
unfolding ℕ_discrete
one_stored-counted = refl

counter_refines_example :
    Increments 2 (view mutex count 2 one_loaded.0)
    × (one_loaded.0.mem ≡ (view mutex count 2 one_loaded.0).value % 4294967296)
    × (one_stored.0.mem ≡ (view mutex count 2 one_stored.0).value % 4294967296)
    × ((view mutex count 2 one_stored.0 ≡ view mutex count 2 one_loaded.0)
        ⊎ Increment 2 (view mutex count 2 one_loaded.0) (view mutex count 2 one_stored.0))
unfolding ℕ_discrete
counter_refines_example = counter_refines mutex count one_loaded.1 one_stored.1

never_stuck_example :
    (((m : ℕ) × (one_loaded.0.main ≡ printed m))
      ⊎ ((t : Threads mutex count) × Step mutex count 2 one_loaded.0 t))
    × (steps mutex count one_loaded.1 ≤ 14)
never_stuck_example = never_stuck mutex count one_loaded.1

-- A whole run of the program, after the two threads are created.
reaches_its_end_test :
    (t : Threads mutex count) × (m : ℕ) × Reach mutex count 2 t × (t.main ≡ printed m) × (m ≡ 2)
reaches_its_end_test = reaches_its_end mutex count two_created.1

-- A whole run of the program with its 256 threads.
abbrev whole_run :
    (t : Threads mutex count) × (m : ℕ) × Reach mutex count thread_count t
    × (t.main ≡ printed m)
    × (m ≡ 256)
whole_run = reaches_its_end mutex count start

mutex_prints_test : whole_run.1 ≡ 256
mutex_prints_test = mutex_prints whole_run.2 whole_run.3

abbrev one_in : (s : Threads semaphore count) × Reach semaphore count 2 s
unfolding ℕ_discrete
one_in = (
  _,
  next (next (next start (create refl (omega arith))) (create refl (omega arith)))
      (by_thread 1 (take_lock (p_possible 1 refl))),
)

semaphore_excludes_example :
    ((i j : ℕ) → inside (one_in.0.pcs i) ≡ true → inside (one_in.0.pcs j) ≡ true → i ≡ j)
    × ((i : ℕ) → inside (one_in.0.pcs i) ≡ true → one_in.0.held ≡ 0)
    × (((i : ℕ) → inside (one_in.0.pcs i) ≡ false) → one_in.0.held ≡ 1)
semaphore_excludes_example = semaphore_excludes one_in.1

-- A file with the text 41, and buffers that were zero before.
abbrev forty_one : List ℕ
forty_one = 52 ∷ 49 ∷ []

abbrev zeros : List ℕ
zeros = replicate 20 0

text_of_41 : CountsTo 41 forty_one
unfolding digits
text_of_41 = inr refl

abbrev file_41 : Cell
file_41 = number_file zeros refl 41 forty_one text_of_41

abbrev one_child : (s : Threads mutex file_41) × Reach mutex file_41 1 s
unfolding ℕ_discrete
one_child = (
  _,
  next
      (next
        (next (next (next start (create refl (omega arith))) (by_thread 0 (take_lock (refl, refl))))
          (by_thread 0 load_it))
        (by_thread 0 store_it))
      (by_thread 0 (give_lock (refl, refl))),
)

flock_counts_example : one_child.0.mem ≡ print_int (pos 42)
unfolding ℕ_discrete
flock_counts_example =
    flock_counts zeros refl 41 forty_one text_of_41 one_child.1 (λ i h. ground arith) (omega arith)
      (omega arith)

text_of_42 : print_int (pos 42) ≡ 52 ∷ 50 ∷ []
unfolding digits
text_of_42 = refl

-- Where a digit stood in the buffer past the text, the child counts from another number: 419 here.
garbage_counted :
    write_back (read_file buf_size (48 ∷ 48 ∷ 57 ∷ []) forty_one) forty_one ≡ 52 ∷ 50 ∷ 48 ∷ []
unfolding digits value atoi read_file ◌+ℤ◌
garbage_counted = refl
