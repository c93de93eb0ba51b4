-- ===== src/Lib.antt =====
-- A verification library for the programs of this repository, which practise the interfaces of Unix.
-- The programs are independent, but that signal/slow_cat.c is a client of signal/mytbf.c.
--
-- Parts, with the files that model them:
-- * signal/mytbf.c, a token-bucket library over SIGALRM: Signal/Tbf.antt. The static variables are the
--   record Library, each function is one function on it, and the handler `handle` runs once for each
--   alarm. `jobs` is a list of slots (Slots.antt): null, a live block, or a pointer to a freed block.
--   Signal/Tbf/Calls.antt lists the calls as a step relation, and the other files of the folder hold
--   the theorems.
-- * signal/anytimer.c, timers over SIGALRM: Signal/Timer.antt, in the same way.
-- * signal/token.c, a cat with a token for each second: Signal/Token.antt, over a list of events, each an
--   alarm or the kernel's answer to the call that the program makes.
-- * signal/slow_cat.c, a cat over the token bucket: Signal/SlowCat.antt, which calls the functions of
--   Signal/Tbf.antt.
-- * signal/cat.c, a cat whose handler of SIGALRM copies: Signal/Cat.antt.
-- * adio/select.c, adio/poll.c and adio/epoll.c, which copy several files at once with a state machine
--   for each: Adio/Pipe.antt has the pipeline that the three share, and Adio/Select.antt, Adio/Poll.antt
--   and Adio/Epoll.antt have `pipe_push` and `main` of each. Adio/Poll/Same.antt compares the first two.
-- * thread/thread_pool.c, a thread pool: Thread/Pool.antt. Its state has a program counter for each worker and
--   for the thread that calls `tp_add_task` and `tp_wait_task`; every step is one access to shared
--   state. The files of Thread/Pool/ hold the invariant and what follows from it, and
--   Thread/Pool/Close.antt has `tp_close`.
-- * fileio/mycpy.c, fileio/trunc_ln_10.c, stdio/mycpy.c, stdio/mycpy1.c and stdio/char_count.c, which
--   copy, edit or measure one file: Copy/Blocks.antt, Copy/Lines.antt and Copy/Chars.antt.
-- * stdio/print_file.c, stdio/fgets.c and stdio/line_char_count.c, which read a file by its lines:
--   Copy/Texts.antt.
-- * socket/http_client.c, which downloads a file: Http.antt and Http/Body.antt.
-- * socket/socket_udp.c, socket/socket_tcp.c and socket/udp_echo.c, programs that send and print messages:
--   Socket/Message.antt has the packed struct, Socket/Reports.antt the options and the calls before the
--   loops, Socket/Udp.antt, Socket/Tcp.antt and Socket/Echo.antt the loops of both sides.
-- * thread/mutex.c, ipc/sem_arr.c and adio/flock.c, in which many threads or processes each add one to a
--   counter under a lock: Counter/Model.antt has the step relation that the three share, over an
--   interface of a lock and one of a counter, and Counter/Mutex.antt, Counter/Semaphore.antt and
--   Counter/FileLock.antt fill these in.
-- * ipc/shm.c and adio/mmap_share.c, where one process prints a text that the other keeps writing:
--   Ipc/Shared.antt and Ipc/SharedTexts.antt, over any memory that the first may find. ipc/pipe.c and
--   ipc/msg.c, where one sends to the other: Ipc/Stream.antt and Ipc/Queue.antt.
-- * thread/cancel.c, which cancels a thread: Thread/Cancel.antt.
-- * fs/validate_passwd.c, a check of a password: Passwd.antt, where `crypt` is an argument.
-- * ps/prime.c and thread/prime.c, which look for primes: Primes/Loops.antt and Primes/Outputs.antt.
-- * fs/du.c, the disk usage of a tree: Du.antt has the tree, `du`, `du_by_glob` and `main`, where what `glob`
--   finds behind a path with characters of a pattern is an argument, and the files of
--   Du/ hold the comparison of the two sums and the loop over the units.
--
-- Conventions. Numbers are the native ones; an `int` is an integer in range, and a signed overflow is a
-- fault (Prelude/CInt.antt); the counters under a lock keep their 32 bits or stay below the largest int,
-- as their files say. A machine word is stored with the low byte first, and a text is a list of ASCII
-- codes. A call comes to a value, to undefined behaviour or to a wait that nothing ends
-- (Prelude/Outcome.antt). The kernel is an argument: a list of its answers to `read`, `write`, `select`,
-- `poll`, `epoll_wait`, `recvfrom` and `sendto`, or the number of alarms that it delivers, and each
-- theorem says what it asks of them. Loops over answers end with the list. Programs of several
-- threads or processes are step relations, in which every order of steps is possible.
--
-- The bounds: a wait for tokens or for a timer gets a number of alarms, and theorems say how many are
-- enough; the loop of adio/select.c gets a list of rounds, and Adio/Select/Progress.antt says how many
-- are enough; adio/poll.c and adio/epoll.c count their rounds themselves; stdio/mycpy1.c gets one round for
-- each byte and one more, and the loops of Copy/Texts.antt get one round for each byte. `du_by_glob` of fs/du.c
-- gets a number of times that it may leave a directory by a pattern, and what is proved of it holds for any
-- number. The step relations need no bound; Counter/Ends.antt counts the steps of the counters.
--
-- Not modelled: output to the terminal that no theorem is about, the exit of a program by a signal, `errno`
-- where it does not change the control flow, failures of `pthread` calls, of `fork` and the calls around
-- the locks, of `fputc` and of `fwrite`, and the other programs of the repository: each shows one call of
-- the system and prints its result.
pub mod Prelude
pub mod Slots
pub mod Signal
pub mod Adio
pub mod Thread
pub mod Copy
pub mod Http
pub mod Du
pub mod Counter
pub mod Socket
pub mod Primes
pub mod Passwd
pub mod Ipc
