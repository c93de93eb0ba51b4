-- ===== src/Adio/Epoll/Laws.antt =====
-- adio/epoll.c never writes: a pipeline that waits to write is registered for EPOLLOUT, and the
-- program waits for it to be reported with EPOLLIN.
use mathlib.Core.Bool.{not}
use apue_pratice.Prelude.{
  ℕ, zero, suc, ◌+◌, ◌-◌, ◌/◌, ◌<◌, ◌≡◌, refl, sym, ◌∙◌, ◌≢◌, ◌⊎◌, inl, inr, Bool, true, false,
  ◌||◌, Option, none, some, List, [], ◌∷◌, map, arith, ◌==◌, if◌then◌else◌, Bool-cases,
  Option-cases, get_elem?, set, get_elem?-set_ne, take,
}
use apue_pratice.Prelude.Int.{pos, eqb_ℤ}
use apue_pratice.Prelude.Outcome.{Outcome, done, ◌>>=◌, >>=-eq-done}
use apue_pratice.Adio.Pipe.{
  PipeState, state_read, state_write, state_err, state_eof, Pipe, pipe_init, Transfer, failed,
  moved, read_size, finished, Exit, Files, open_all, bad_usage, minus,
}
use apue_pratice.Adio.Pipe.Copies.{read_size-zero, open_all-cons}
use apue_pratice.Adio.Epoll.{
  EpollInterest, epollin, epollout, Registration, registrations, Event, Polling, create_error,
  ctl_error, wait_error, never_ready, events_ready, Pushed, returned, exited, epoll_read,
  epoll_switch, epoll_events, push_on, epoll_push, epoll_loop, epoll_main,
}

-- What is registered for pipeline `k`.
unfoldable pub interest_of : ℕ → List Registration → Option EpollInterest
interest_of k [] = none
interest_of k (r ∷ rs) = if r.target == k then some r.interest else interest_of k rs

abbrev pub NoneFor : ℕ → List Event → Type 0
NoneFor k [] = Unit
NoneFor k (e ∷ es) = (e.target ≢ k) × NoneFor k es

-- The kernel reports input only of a descriptor that is registered for input, and a descriptor
-- once.
abbrev pub Reported : List Registration → List Event → Type 0
Reported rs [] = Unit
Reported rs (e ∷ es) =
    (e.has_in ≡ true → interest_of e.target rs ≡ some epollin)
    × NoneFor e.target es
    × Reported rs es

abbrev pub IsReport : List Registration → Polling → Type 0
IsReport rs (create_error e) = Unit
IsReport rs ctl_error = Unit
IsReport rs (wait_error e) = Unit
IsReport rs never_ready = Unit
IsReport rs (events_ready es) = Reported rs es

abbrev pub IsKernel : (List Registration → Polling) → Type 0
IsKernel k = (rs : List Registration) → IsReport rs (k rs)

abbrev pub AllKernels : List (Bool × (List Registration → Polling)) → Type 0
AllKernels [] = Unit
AllKernels (r ∷ rs) = IsKernel r.1 × AllKernels rs

registered_later : (i k : ℕ) (ps : List Pipe) → k < i → interest_of k (registrations i ps) ≡ none
unfolding interest_of registrations
registered_later i k [] h = refl
registered_later i k (p ∷ ps) h = ground (arith, registered_later (i + 1) k ps)

-- A pipeline that waits to write is registered for output.
writer_registered :
    (i n k : ℕ) (ps : List Pipe) (p : Pipe)
    → k ≡ i + n
    → get_elem? ps n ≡ some p
    → p.state ≡ state_write
    → interest_of k (registrations i ps) ≡ some epollout
unfolding interest_of registrations
writer_registered i n k [] p o h st = cc
writer_registered i zero k (q ∷ ps) p o h st = let same : q ≡ p = cc in rw (same, st) (ground arith)
writer_registered i (suc n) k (q ∷ ps) p o h st =
    ground (arith, writer_registered (i + 1) n k ps p (omega arith) h st)

-- Nothing was written, and a source at whose end the pipeline is was empty.
abbrev pub IsIdleAt : PipeState → List ℕ → Pipe → Type 0
IsIdleAt state_read b p = (p.output ≡ []) × (p.input ≡ b)
IsIdleAt state_write b p = p.output ≡ []
IsIdleAt state_err b p = p.output ≡ []
IsIdleAt state_eof b p = (p.output ≡ []) × (b ≡ [])

abbrev pub AllIdle : List (List ℕ) → List Pipe → Type 0
AllIdle [] [] = Unit
AllIdle [] (p ∷ ps) = ⊥
AllIdle (b ∷ bs) [] = ⊥
AllIdle (b ∷ bs) (p ∷ ps) = IsIdleAt p.state b p × AllIdle bs ps

epoll_read-IsIdle :
    (t : Transfer) (b : List ℕ) (p : Pipe)
    → p.state ≡ state_read
    → IsIdleAt state_read b p
    → let p' = epoll_read t p in IsIdleAt p'.state b p'
epoll_read-IsIdle failed b p e h = rw e h
epoll_read-IsIdle (moved k) b p e h = elim (Bool-cases (read_size k p.input == 0)) [
  | inl ended ↦ rw ended (h.0, sym h.1 ∙ read_size-zero k p.input (ground arith))
  | inr more ↦ rw more h.0
]

switch-IsIdle :
    (st : PipeState) (ev : Event) (b : List ℕ) (p p' : Pipe)
    → p.state ≡ st
    → (st ≡ state_write → ev.has_in ≡ false)
    → IsIdleAt st b p
    → epoll_switch st ev p ≡ done p'
    → IsIdleAt p'.state b p'
unfolding epoll_switch
switch-IsIdle state_read ev b p p' e no_in h q = elim (Bool-cases (ev.has_err || ev.has_hup)) [
  | inl failing ↦ let same : record p { state = state_err } ≡ p' = ground arith in rw (← same) h.0
  | inr fine ↦ elim (Bool-cases ev.has_in) [
    | inl now ↦
        let same : epoll_read ev.transfer p ≡ p' = ground arith in
        rw (← same) (epoll_read-IsIdle ev.transfer b p e h)
    | inr idle ↦ let same : p ≡ p' = ground arith in rw (← same) (rw e h)
  ]
]
switch-IsIdle state_write ev b p p' e no_in h q = elim (Bool-cases (ev.has_err || ev.has_hup)) [
  | inl failing ↦ let same : record p { state = state_err } ≡ p' = ground arith in rw (← same) h
  | inr fine ↦ let same : p ≡ p' = ground (arith, no_in refl) in rw (← same) (rw e h)
]
switch-IsIdle state_err ev b p p' e no_in h q = let same : p ≡ p' = cc in rw (← same) (rw e h)
switch-IsIdle state_eof ev b p p' e no_in h q = let same : p ≡ p' = cc in rw (← same) (rw e h)

AllIdle-get :
    (bs : List (List ℕ)) (ps : List Pipe) (i : ℕ) (p : Pipe)
    → AllIdle bs ps
    → get_elem? ps i ≡ some p
    → (b : List ℕ) × IsIdleAt p.state b p
      × ((p' : Pipe) → IsIdleAt p'.state b p' → AllIdle bs (set ps i p'))
AllIdle-get bs [] i p h q = cc
AllIdle-get [] (r ∷ ps) i p h q = absurd h
AllIdle-get (b ∷ bs) (r ∷ ps) zero p h q =
    let same : r ≡ p = cc in (b, rw (← same) h.0, λ p' k. (k, h.1))
AllIdle-get (b ∷ bs) (r ∷ ps) (suc i) p h q =
    let (c, idle, put_back) = AllIdle-get bs ps i p h.1 q in (c, idle, λ p' k. (h.0, put_back p' k))

-- No event that is still to come reports input of a pipeline that waits to write.
abbrev IsQuiet : List Pipe → List Event → Type 0
IsQuiet ps [] = Unit
IsQuiet ps (e ∷ es) =
    ((p : Pipe) → get_elem? ps e.target ≡ some p → p.state ≡ state_write → e.has_in ≡ false)
    × NoneFor e.target es
    × IsQuiet ps es

IsQuiet-set :
    (ps : List Pipe) (k : ℕ) (p' : Pipe) (es : List Event)
    → NoneFor k es
    → IsQuiet ps es
    → IsQuiet (set ps k p') es
IsQuiet-set ps k p' [] n h = tt
IsQuiet-set ps k p' (e ∷ es) n h = (
  λ p q. h.0 p (sym (get_elem?-set_ne ps {i = k} {j = e.target} p' (λ same. n.0 (sym same))) ∙ q),
  h.1,
  IsQuiet-set ps k p' es n.1 h.2,
)

Reported-IsQuiet :
    (ps : List Pipe) (es : List Event) → Reported (registrations 0 ps) es → IsQuiet ps es
Reported-IsQuiet ps [] h = tt
Reported-IsQuiet ps (e ∷ es) h = (
  λ p q st.
      not_reported e.has_in h.0 (writer_registered 0 e.target e.target ps p (omega arith) q st),
  h.1,
  Reported-IsQuiet ps es h.2,
)
  where
    not_reported :
        (b : Bool)
        → (b ≡ true → interest_of e.target (registrations 0 ps) ≡ some epollin)
        → interest_of e.target (registrations 0 ps) ≡ some epollout
        → b ≡ false
    not_reported false f o = refl
    not_reported true f o = cc (f refl)

events-AllIdle :
    (es : List Event) (bs : List (List ℕ)) (ps ps' : List Pipe)
    → IsQuiet ps es
    → AllIdle bs ps
    → epoll_events es ps ≡ done ps'
    → AllIdle bs ps'
unfolding epoll_events
events-AllIdle [] bs ps ps' n h q = let same : ps ≡ ps' = cc in rw (← same) h
events-AllIdle (e ∷ es) bs ps ps' n h q = elim (Option-cases (get_elem? ps e.target)) [
  | inl missing ↦ ground arith
  | inr (p, found) ↦
      let next : (epoll_switch p.state e p >>= λ (p₁ : Pipe). epoll_events es (set ps e.target p₁))
          ≡ done ps' =
        ground arith in
      let (p₁, e₁, d) = >>=-eq-done (epoll_switch p.state e p) _ next in
      let (b, idle, put_back) = AllIdle-get bs ps e.target p h found in
      events-AllIdle es bs (set ps e.target p₁) ps' (IsQuiet-set ps e.target p₁ es n.1 n.2)
        (put_back p₁ (switch-IsIdle p.state e b p p₁ refl (n.0 p found) idle e₁)) d
]

-- The pipelines with which a `pipe_push` ends.
abbrev pipes_after : Pushed → List Pipe
pipes_after (returned err ps) = ps
pipes_after (exited status ps) = ps

same-AllIdle :
    (bs : List (List ℕ)) (qs : List Pipe) (r r' : Pushed)
    → pipes_after r' ≡ qs
    → AllIdle bs qs
    → done r' ≡ done r
    → AllIdle bs (pipes_after r)
same-AllIdle bs qs r r' e h q = let same : r' ≡ r = cc in rw (← same) (rw e h)

pushed_events :
    (es : List Event) (bs : List (List ℕ)) (qs : List Pipe) (r : Pushed)
    → Reported (registrations 0 qs) es
    → AllIdle bs qs
    → (epoll_events es qs >>= λ (ps' : List Pipe). done (returned (pos 0) ps')) ≡ done r
    → AllIdle bs (pipes_after r)
pushed_events es bs qs r rep h q =
    let (ps', e, d) = >>=-eq-done (epoll_events es qs) _ q in
    same-AllIdle bs ps' r (returned (pos 0) ps') refl
      (events-AllIdle es bs qs ps' (Reported-IsQuiet qs es rep) h e) d

push_on-AllIdle :
    (m : Bool) (polling : Polling) (bs : List (List ℕ)) (qs : List Pipe) (r : Pushed)
    → IsReport (registrations 0 qs) polling
    → AllIdle bs qs
    → push_on m polling qs ≡ done r
    → AllIdle bs (pipes_after r)
unfolding push_on
push_on-AllIdle m (create_error x) bs qs r rep h q =
    same-AllIdle bs qs r (returned (minus x) qs) refl h q
push_on-AllIdle true ctl_error bs qs r rep h q = same-AllIdle bs qs r (exited 1 qs) refl h q
push_on-AllIdle true (wait_error x) bs qs r rep h q =
    same-AllIdle bs qs r (returned (minus x) qs) refl h q
push_on-AllIdle true never_ready bs qs r rep h q = cc
push_on-AllIdle true (events_ready es) bs qs r rep h q = pushed_events es bs qs r rep h q
push_on-AllIdle false ctl_error bs [] r rep h q = same-AllIdle bs [] r (exited 1 []) refl h q
push_on-AllIdle false (wait_error x) bs [] r rep h q =
    same-AllIdle bs [] r (returned (minus x) []) refl h q
push_on-AllIdle false never_ready bs [] r rep h q = cc
push_on-AllIdle false (events_ready es) bs [] r rep h q = pushed_events es bs [] r rep h q
push_on-AllIdle false ctl_error bs (p ∷ qs) r rep h q = cc
push_on-AllIdle false (wait_error x) bs (p ∷ qs) r rep h q = cc
push_on-AllIdle false never_ready bs (p ∷ qs) r rep h q = cc
push_on-AllIdle false (events_ready es) bs (p ∷ qs) r rep h q = cc

push-AllIdle :
    (memory : Bool) (k : List Registration → Polling) (bs : List (List ℕ)) (ps : List Pipe)
    (r : Pushed)
    → IsKernel k
    → AllIdle bs ps
    → epoll_push memory k ps ≡ done r
    → AllIdle bs (pipes_after r)
unfolding epoll_push
push-AllIdle memory k bs ps r honest h q =
    push_on-AllIdle memory (k (registrations 0 ps)) bs ps r (honest (registrations 0 ps)) h q

loop-AllIdle :
    (j : ℕ) (rounds : List (Bool × (List Registration → Polling))) (bs : List (List ℕ))
    (ps : List Pipe) (e : Exit)
    → AllKernels rounds
    → AllIdle bs ps
    → epoll_loop j rounds ps ≡ done e
    → AllIdle bs e.pipes
unfolding epoll_loop
loop-AllIdle zero rounds bs ps e ks h q =
    let same : record { status = 0; pipes = ps } ≡ e = cc in rw (← same) h
loop-AllIdle (suc j) [] bs ps e ks h q = cc
loop-AllIdle (suc j) ((memory, k) ∷ rounds) bs ps e ks h q =
    let (r, e₁, d) = >>=-eq-done (epoll_push memory k ps) _ q in
    go r (push-AllIdle memory k bs ps r ks.0 h e₁) d (λ qs. loop-AllIdle j rounds bs qs e ks.1)
  where
    go :
        (r : Pushed)
        → AllIdle bs (pipes_after r)
        → (let o : Outcome Exit = elim r [
          | exited status qs ↦ done (record { status = status; pipes = qs })
          | returned err qs ↦
              let rest = epoll_loop j rounds qs in
              if eqb_ℤ err (pos 0)
              then (if finished qs then done (record { status = 0; pipes = qs }) else rest)
              else done (record { status = 1; pipes = qs })
        ] in
            o)
          ≡ done e
        → ((qs : List Pipe) → AllIdle bs qs → epoll_loop j rounds qs ≡ done e → AllIdle bs e.pipes)
        → AllIdle bs e.pipes
    go (exited status qs) k d ih =
        let same : record { status = status; pipes = qs } ≡ e = cc in rw (← same) k
    go (returned err qs) k d ih = elim (Bool-cases (eqb_ℤ err (pos 0))) [
      | inr failing ↦
          let same : record { status = 1; pipes = qs } ≡ e = ground arith in rw (← same) k
      | inl fine ↦ elim (Bool-cases (finished qs)) [
        | inl ended ↦
            let same : record { status = 0; pipes = qs } ≡ e = ground arith in rw (← same) k
        | inr going ↦ ih qs k (ground arith)
      ]
    ]

opened-AllIdle :
    (fs : List Files) {ps : List Pipe}
    → open_all fs ≡ some ps
    → AllIdle (map (λ f. f.content) fs) ps
unfolding open_all pipe_init
opened-AllIdle [] {ps} q = let same : [] ≡ ps = cc in rw (← same) tt
opened-AllIdle (f ∷ fs) q =
    let (src, dst, qs, o, same) = open_all-cons f fs q in
    rw same ((refl, refl), opened-AllIdle fs o)

-- Over a kernel that reports input only of descriptors registered for input, and each descriptor
-- once, adio/epoll.c has written nothing when it exits, and no source that holds a byte was copied to
-- its end.
pub epoll_main_writes_nothing :
    (argc : ℕ) (memory : Bool) (files : List Files)
    (rounds : List (Bool × (List Registration → Polling))) (e : Exit)
    → AllKernels rounds
    → epoll_main argc memory files rounds ≡ done e
    → (e.pipes ≡ []) ⊎ AllIdle (map (λ f. f.content) (take ((argc - 1) / 2) files)) e.pipes
unfolding epoll_main
epoll_main_writes_nothing argc memory files rounds e ks q =
    let chosen = take ((argc - 1) / 2) files in
    elim (Bool-cases (bad_usage argc || not memory)) [
      | inl usage ↦
          let same : record { status = 1; pipes = [] } ≡ e = ground arith in inl (rw (← same) refl)
      | inr fine ↦ elim (Option-cases (open_all chosen)) [
        | inl unopened ↦
            let same : record { status = 1; pipes = [] } ≡ e = ground arith in
            inl (rw (← same) refl)
        | inr (ps, o) ↦
            let next : epoll_loop 20 rounds ps ≡ done e = ground arith in
            inr (
              loop-AllIdle 20 rounds (map (λ f. f.content) chosen) ps e ks (opened-AllIdle chosen o)
                next)
      ]
    ]
