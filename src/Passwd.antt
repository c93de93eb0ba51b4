-- ===== src/Passwd.antt =====
-- fs/validate_passwd.c: the check of a password against a line of the shadow file. `crypt`, `getspnam` and
-- `getpass` are given; a text is the list of its bytes, without its NUL.
mod Tests
use native.Mathlib.Decide.{ℕ_discrete}
use mathlib.Core.Path.{ap₂}
use mathlib.Core.List.{append-nil, append_assoc}
use apue_pratice.Prelude.{
  ℕ, zero, suc, ◌+◌, ◌-◌, ◌*◌, ◌/◌, ◌%◌, ◌^◌, ◌≤◌, ◌<◌, ◌≡◌, refl, sym, ap, ◌∙◌, ◌≢◌, ◌↔◌, ◌⊎◌, inl,
  inr, Bool, true, false, ◌&&◌, ◌||◌, Option, none, some, List, [], ◌∷◌, ◌++◌, map, arith, ltb, leb,
  ◌==◌, if◌then◌else◌, Bool-cases, Option-cases, length, get_elem?, get_or, set, length-set,
  get_elem?-set_self, get_elem?-set_ne, length-append, take, drop, replicate, length-replicate,
  length-map, take-append-drop, length-take, length-drop,
}
use apue_pratice.Prelude.Int.{
  ℤ, pos, negsuc, pos_part, neg_part, ◌+ℤ◌, ◌-ℤ◌, ◌≤ℤ◌, leb_ℤ, ltb_ℤ, eqb_ℤ, int_laws, eq_of_parts,
}
use apue_pratice.Prelude.Outcome.{Outcome, done, fault, blocked, ◌>>=◌, >>=-eq-done}
use apue_pratice.Prelude.CInt.{
  fits, checked, add_int, sub_int, min_int, int_min, int_max, add_int-done, sub_int-done,
  fits_of_le, add_int-eq, sub_int-eq,
}

-- '$'
abbrev pub dollar : ℕ
dollar = 36

-- The loop of `get_salt`: `cnt` dollars were found in `front`, which are the `i` bytes before `cur`.
unfoldable pub salt_loop : ℕ → List ℕ → List ℕ → Option (List ℕ)
salt_loop cnt front [] = none
salt_loop cnt front (c ∷ cur) =
    let cnt' = if c == dollar then cnt + 1 else cnt in
    let rest = salt_loop cnt' (front ++ c ∷ []) cur in
    if cnt' == 3 then some (front ++ c ∷ []) else rest

-- `get_salt`: the bytes that are copied, without a NUL behind them; `none` is NULL.
abbrev pub get_salt : List ℕ → Option (List ℕ)
get_salt s = salt_loop 0 [] s

pub data Verdict : Type 0 where
  bad_usage : Verdict
  no_entry : Verdict
  no_password : Verdict
  validated : Verdict
  refused : Verdict

-- `strcmp(crypted, p->sp_pwdp)`, where `crypted` may be NULL.
abbrev pub compare_texts : List ℕ → List ℕ → Bool
compare_texts [] [] = true
compare_texts [] (b ∷ bs) = false
compare_texts (a ∷ rest) [] = false
compare_texts (a ∷ rest) (b ∷ bs) = (a == b) && compare_texts rest bs

abbrev pub judged : Option (List ℕ) → List ℕ → Outcome Verdict
judged none entry = fault
judged (some crypted) entry = done (if compare_texts crypted entry then validated else refused)

-- What `crypt` does with a setting of NULL is not laid down.
abbrev pub crypt_checked :
    (List ℕ → List ℕ → Option (List ℕ))
    → List ℕ
    → Option (List ℕ)
    → List ℕ
    → List ℕ
    → Outcome Verdict
crypt_checked crypt passwd none junk entry = fault
crypt_checked crypt passwd (some salt) junk entry = judged (crypt passwd (salt ++ junk)) entry

-- `main`: the entry of the user in the shadow file, and the password, where there are any; `junk` is what
-- stands behind the salt up to the next NUL.
unfoldable pub validate :
    (List ℕ → List ℕ → Option (List ℕ))
    → ℕ
    → Option (List ℕ)
    → Option (List ℕ)
    → List ℕ
    → Outcome Verdict
validate crypt argc none passwd junk = done (if ltb argc 2 then bad_usage else no_entry)
validate crypt argc (some entry) none junk = done (if ltb argc 2 then bad_usage else no_password)
validate crypt argc (some entry) (some passwd) junk =
    if ltb argc 2 then done bad_usage else crypt_checked crypt passwd (get_salt entry) junk entry

abbrev pub dollars : List ℕ → ℕ
dollars [] = 0
dollars (c ∷ cs) = if c == dollar then suc (dollars cs) else dollars cs

dollars-append : (xs ys : List ℕ) → dollars (xs ++ ys) ≡ dollars xs + dollars ys
dollars-append [] ys = omega arith
dollars-append (x ∷ xs) ys = ground (arith, dollars-append xs ys)

salt_loop-none : (cnt : ℕ) (front s : List ℕ) → cnt + dollars s < 3 → salt_loop cnt front s ≡ none
unfolding salt_loop
salt_loop-none cnt front [] h = refl
salt_loop-none cnt front (c ∷ cur) h = ground (
  arith,
  salt_loop-none cnt (front ++ c ∷ []) cur,
  salt_loop-none (cnt + 1) (front ++ c ∷ []) cur,
)

-- The loop walks over a text with too few dollars.
salt_loop-walk :
    (cnt : ℕ) (front p rest : List ℕ)
    → cnt + dollars p < 3
    → salt_loop cnt front (p ++ rest) ≡ salt_loop (cnt + dollars p) (front ++ p) rest
unfolding salt_loop
salt_loop-walk cnt front [] rest h =
    ap₂ (λ k f. salt_loop k f rest) (let e : cnt ≡ cnt + 0 = omega arith in e)
      (sym (append-nil front))
salt_loop-walk cnt front (c ∷ p) rest h = elim (ℕ_discrete c dollar) [
  | yes e ↦
      let step : salt_loop cnt front (c ∷ p ++ rest)
          ≡ salt_loop (cnt + 1) (front ++ c ∷ []) (p ++ rest) =
        ground (arith, e, h) in
      let count : cnt + 1 + dollars p ≡ cnt + dollars (c ∷ p) = ground (arith, e) in
      step
      ∙ salt_loop-walk (cnt + 1) (front ++ c ∷ []) p rest (omega (arith, h, count))
      ∙ ap₂ (λ k f. salt_loop k f rest) count (append_assoc front (c ∷ []) p)
  | no n ↦
      let step : salt_loop cnt front (c ∷ p ++ rest) ≡ salt_loop cnt (front ++ c ∷ []) (p ++ rest) =
        ground (arith, n, h) in
      let count : cnt + dollars p ≡ cnt + dollars (c ∷ p) = ground (arith, n) in
      step
      ∙ salt_loop-walk cnt (front ++ c ∷ []) p rest (omega (arith, h, count))
      ∙ ap₂ (λ k f. salt_loop k f rest) count (append_assoc front (c ∷ []) p)
]

get_salt-third :
    (p rest : List ℕ) → dollars p ≡ 2 → get_salt (p ++ dollar ∷ rest) ≡ some (p ++ dollar ∷ [])
unfolding salt_loop
get_salt-third p rest h =
    salt_loop-walk 0 [] p (dollar ∷ rest) (omega (arith, h)) ∙ ground (arith, h)

-- `get_salt` returns NULL exactly for a text with fewer than three dollars, and otherwise the text up to and
-- including its third dollar.
pub get_salt-dollars :
    (p rest : List ℕ)
    → (dollars p ≡ 2 → get_salt (p ++ dollar ∷ rest) ≡ some (p ++ dollar ∷ []))
      × (dollars rest < 3 → get_salt rest ≡ none)
get_salt-dollars p rest = (get_salt-third p rest, λ h. salt_loop-none 0 [] rest (omega (arith, h)))

compare_texts_refl : (s : List ℕ) → compare_texts s s ≡ true
compare_texts_refl [] = refl
compare_texts_refl (b ∷ bs) = ground (arith, compare_texts_refl bs)

compare_texts-eq : (s t : List ℕ) → compare_texts s t ≡ true → s ≡ t
compare_texts-eq [] [] h = refl
compare_texts-eq [] (b ∷ bs) h = cc
compare_texts-eq (a ∷ s) [] h = cc
compare_texts-eq (a ∷ s) (b ∷ t) h =
    ap₂ (λ x xs. x ∷ xs) (ground (arith, h)) (compare_texts-eq s t (ground (arith, h)))

same_hash : (p s t : List ℕ) → p ++ dollar ∷ s ≡ p ++ dollar ∷ t → s ≡ t
same_hash [] s t e = cc
same_hash (c ∷ p) s t e = same_hash p s t cc

-- Where `crypt` reads a setting up to its third dollar only and returns that and a hash: the program
-- validates a password where its hash under the setting of the entry is the hash of the password from
-- which the entry was made, as it is for that password itself, and refuses it where the two hashes differ,
-- whatever stands behind the salt in memory.
pub validate-owner :
    (crypt : List ℕ → List ℕ → Option (List ℕ)) (hash : List ℕ → List ℕ → List ℕ) (argc : ℕ)
    (p owner passwd junk : List ℕ)
    → 2 ≤ argc
    → dollars p ≡ 2
    → ((w more : List ℕ) → crypt w (p ++ dollar ∷ more) ≡ some (p ++ dollar ∷ hash w p))
    → (hash passwd p ≡ hash owner p
        → validate crypt argc (some (p ++ dollar ∷ hash owner p)) (some passwd) junk
          ≡ done validated)
      × (hash passwd p ≢ hash owner p
          → validate crypt argc (some (p ++ dollar ∷ hash owner p)) (some passwd) junk
            ≡ done refused)
unfolding validate
validate-owner crypt hash argc p owner passwd junk a d c = (
  λ e.
      verdict
      ∙ ap (λ b. done (if b then validated else refused))
          (ap (λ h. compare_texts (p ++ dollar ∷ h) (p ++ dollar ∷ hash owner p)) e
            ∙ compare_texts_refl (p ++ dollar ∷ hash owner p)),
  λ n.
      verdict
      ∙ ap (λ b. done (if b then validated else refused))
          (differ (compare_texts (p ++ dollar ∷ hash passwd p) (p ++ dollar ∷ hash owner p)) refl
            n),
)
  where
    entry : List ℕ
    entry = p ++ dollar ∷ hash owner p

    verdict :
        (if ltb argc 2
          then done bad_usage
          else crypt_checked crypt passwd (get_salt entry) junk entry)
        ≡ done (if compare_texts (p ++ dollar ∷ hash passwd p) entry then validated else refused)
    verdict =
        ground (arith, a)
        ∙ ap (λ o. crypt_checked crypt passwd o junk entry) (get_salt-third p (hash owner p) d)
        ∙ ap (λ st. judged (crypt passwd st) entry) (append_assoc p (dollar ∷ []) junk)
        ∙ ap (λ o. judged o entry) (c passwd junk)

    differ :
        (b : Bool)
        → compare_texts (p ++ dollar ∷ hash passwd p) entry ≡ b
        → hash passwd p ≢ hash owner p
        → compare_texts (p ++ dollar ∷ hash passwd p) entry ≡ false
    differ false e n = e
    differ true e n = absurd (
        n (
          same_hash p (hash passwd p) (hash owner p)
            (compare_texts-eq (p ++ dollar ∷ hash passwd p) entry e)))
