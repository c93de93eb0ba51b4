-- ===== src/Passwd/Tests.antt =====
-- The check of a password with a simple `crypt`.
use apue_pratice.Prelude.{
  ℕ, ◌≡◌, ◌≢◌, ap, refl, length, List, [], ◌∷◌, ◌++◌, Option, none, some, arith,
}
use apue_pratice.Prelude.Outcome.{done}
use apue_pratice.Passwd.{
  dollar, salt_loop, get_salt, validated, refused, validate, get_salt-dollars, validate-owner,
}

abbrev with_text : List ℕ → Option (List ℕ) → Option (List ℕ)
with_text w none = none
with_text w (some t) = some (t ++ w)

-- The length of a password, as a hash on which many passwords agree.
abbrev toy_hash : List ℕ → List ℕ → List ℕ
toy_hash w p = length w ∷ []

-- The hash of the password behind the setting up to its third dollar.
abbrev toy_crypt : List ℕ → List ℕ → Option (List ℕ)
toy_crypt w setting = with_text (toy_hash w setting) (get_salt setting)

-- "$6$ab"
abbrev setting : List ℕ
setting = 36 ∷ 54 ∷ 36 ∷ 97 ∷ 98 ∷ []

toy_crypt-setting :
    (w more : List ℕ)
    → toy_crypt w (setting ++ dollar ∷ more) ≡ some (setting ++ dollar ∷ toy_hash w setting)
toy_crypt-setting w more =
    ap (with_text (toy_hash w setting)) ((get_salt-dollars setting more).0 refl)

abbrev secret : List ℕ
secret = 115 ∷ 49 ∷ []

abbrev guess : List ℕ
guess = 115 ∷ 49 ∷ 50 ∷ []

validate-owner_example :
    (toy_hash guess setting ≡ toy_hash secret setting
      → validate toy_crypt 2
          (some (setting ++ dollar ∷ toy_hash secret setting))
          (some guess)
          (7 ∷ [])
        ≡ done validated)
    × (toy_hash guess setting ≢ toy_hash secret setting
        → validate toy_crypt 2
            (some (setting ++ dollar ∷ toy_hash secret setting))
            (some guess)
            (7 ∷ [])
          ≡ done refused)
validate-owner_example =
    validate-owner toy_crypt toy_hash 2 setting secret guess (7 ∷ []) (omega arith) refl
      toy_crypt-setting

-- A setting with four dollars is cut before its salt: "$y$j9T$ab$" becomes "$y$j9T$".
yescrypt_cut :
    get_salt (36 ∷ 121 ∷ 36 ∷ 106 ∷ 57 ∷ 84 ∷ 36 ∷ 97 ∷ 98 ∷ 36 ∷ [])
    ≡ some (36 ∷ 121 ∷ 36 ∷ 106 ∷ 57 ∷ 84 ∷ 36 ∷ [])
unfolding salt_loop
yescrypt_cut = refl
