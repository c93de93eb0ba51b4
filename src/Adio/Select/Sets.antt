-- ===== src/Adio/Select/Sets.antt =====
-- The sets that `pipe_push` of adio/select.c passes to `select`.
use apue_pratice.Prelude.{ℕ, ◌≤◌, ◌≡◌, true, List, [], ◌∷◌, arith}
use apue_pratice.Adio.Pipe.{PipeState, state_read, state_write, state_err, state_eof, Pipe}
use apue_pratice.Adio.Select.{FdSets, contains, bigger, register_fds, fd_sets}

-- Every descriptor of a set is at most `nfds`.
abbrev pub AllLe : ℕ → List ℕ → Type 0
AllLe n [] = Unit
AllLe n (x ∷ xs) = (x ≤ n) × AllLe n xs

AllLe-mono : (m n : ℕ) (xs : List ℕ) → m ≤ n → AllLe m xs → AllLe n xs
AllLe-mono m n [] h a = tt
AllLe-mono m n (x ∷ xs) h a = (omega arith, AllLe-mono m n xs h a.1)

abbrev pub IsBounded : FdSets → Type 0
IsBounded s = AllLe s.nfds s.reads × AllLe s.nfds s.writes × AllLe s.nfds s.excepts

register-IsBounded : (p : Pipe) (s : FdSets) → IsBounded s → IsBounded (register_fds p s)
register-IsBounded p s b = go p.state
  where
    n : ℕ
    n = bigger p.dst (bigger p.src s.nfds)

    up : (xs : List ℕ) → AllLe s.nfds xs → AllLe n xs
    up xs = AllLe-mono s.nfds n xs (ground arith)

    go : (st : PipeState) → IsBounded (register_fds (record p { state = st }) s)
    go state_read =
        ((ground arith, up s.reads b.0), up s.writes b.1, (ground arith, up s.excepts b.2))
    go state_write =
        (up s.reads b.0, (ground arith, up s.writes b.1), (ground arith, up s.excepts b.2))
    go state_err = (up s.reads b.0, up s.writes b.1, up s.excepts b.2)
    go state_eof = (up s.reads b.0, up s.writes b.1, up s.excepts b.2)

-- No descriptor that `pipe_push` hands to `select` reaches the `nfds + 1` that it hands over with
-- them.
pub fd_sets-IsBounded : (ps : List Pipe) (s : FdSets) → IsBounded s → IsBounded (fd_sets ps s)
unfolding fd_sets
fd_sets-IsBounded [] s b = b
fd_sets-IsBounded (p ∷ ps) s b = fd_sets-IsBounded ps (register_fds p s) (register-IsBounded p s b)

-- What a set contains stays in it.
fd_sets_keep :
    (ps : List Pipe) (s : FdSets) (fd : ℕ)
    → (contains s.reads fd ≡ true → contains (fd_sets ps s).reads fd ≡ true)
      × (contains s.writes fd ≡ true → contains (fd_sets ps s).writes fd ≡ true)
      × (contains s.excepts fd ≡ true → contains (fd_sets ps s).excepts fd ≡ true)
unfolding fd_sets contains
fd_sets_keep [] s fd = (λ h. h, λ h. h, λ h. h)
fd_sets_keep (p ∷ ps) s fd =
    go p.state (λ st. fd_sets_keep ps (register_fds (record p { state = st }) s) fd)
  where
    go :
        (st : PipeState)
        → ((st' : PipeState)
            → let s' = register_fds (record p { state = st' }) s in
              (contains s'.reads fd ≡ true → contains (fd_sets ps s').reads fd ≡ true)
              × (contains s'.writes fd ≡ true → contains (fd_sets ps s').writes fd ≡ true)
              × (contains s'.excepts fd ≡ true → contains (fd_sets ps s').excepts fd ≡ true))
        → let s' = register_fds (record p { state = st }) s in
          (contains s.reads fd ≡ true → contains (fd_sets ps s').reads fd ≡ true)
          × (contains s.writes fd ≡ true → contains (fd_sets ps s').writes fd ≡ true)
          × (contains s.excepts fd ≡ true → contains (fd_sets ps s').excepts fd ≡ true)
    go state_read ih = (
      λ h. (ih state_read).0 (ground arith),
      λ h. (ih state_read).1 h,
      λ h. (ih state_read).2 (ground arith),
    )
    go state_write ih = (
      λ h. (ih state_write).0 h,
      λ h. (ih state_write).1 (ground arith),
      λ h. (ih state_write).2 (ground arith),
    )
    go state_err ih = (λ h. (ih state_err).0 h, λ h. (ih state_err).1 h, λ h. (ih state_err).2 h)
    go state_eof ih = (λ h. (ih state_eof).0 h, λ h. (ih state_eof).1 h, λ h. (ih state_eof).2 h)

-- The descriptor that a pipeline waits for, in the sets that are passed to `select`.
abbrev pub WaitsIn : PipeState → Pipe → FdSets → Type 0
WaitsIn state_read p s = (contains s.reads p.src ≡ true) × (contains s.excepts p.src ≡ true)
WaitsIn state_write p s = (contains s.writes p.dst ≡ true) × (contains s.excepts p.dst ≡ true)
WaitsIn state_err p s = Unit
WaitsIn state_eof p s = Unit

abbrev pub AllWait : List Pipe → FdSets → Type 0
AllWait [] s = Unit
AllWait (p ∷ ps) s = WaitsIn p.state p s × AllWait ps s

contains_head : (x : ℕ) (xs : List ℕ) → contains (x ∷ xs) x ≡ true
unfolding contains
contains_head x xs = ground arith

registered :
    (p : Pipe) (ps : List Pipe) (s : FdSets) → WaitsIn p.state p (fd_sets ps (register_fds p s))
registered p ps s = go p.state
  where
    go :
        (st : PipeState)
        → let q : Pipe = record p { state = st } in WaitsIn st q (fd_sets ps (register_fds q s))
    go state_read = (
      (fd_sets_keep ps _ p.src).0 (contains_head p.src s.reads),
      (fd_sets_keep ps _ p.src).2 (contains_head p.src s.excepts),
    )
    go state_write = (
      (fd_sets_keep ps _ p.dst).1 (contains_head p.dst s.writes),
      (fd_sets_keep ps _ p.dst).2 (contains_head p.dst s.excepts),
    )
    go state_err = tt
    go state_eof = tt

pub fd_sets-AllWait : (ps : List Pipe) (s : FdSets) → AllWait ps (fd_sets ps s)
unfolding fd_sets
fd_sets-AllWait [] s = tt
fd_sets-AllWait (p ∷ ps) s = (registered p ps s, fd_sets-AllWait ps (register_fds p s))
