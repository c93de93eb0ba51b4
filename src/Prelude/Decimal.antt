-- ===== src/Prelude/Decimal.antt =====
-- Numbers as decimal text, the way `%d` of printf and `atoi` treat them: a text is a list of ASCII codes.
use apue_pratice.Prelude.{
  ℕ, zero, suc, ◌+◌, ◌-◌, ◌*◌, ◌/◌, ◌%◌, ◌^◌, ◌≤◌, ◌<◌, ◌≡◌, refl, ap, ◌∙◌, Bool, true, false, ◌&&◌,
  ◌||◌, List, [], ◌∷◌, ◌++◌, arith, ltb, leb, ◌==◌, if◌then◌else◌, length, length-append,
}
use apue_pratice.Prelude.Int.{ℤ, pos, negsuc}

abbrev pub is_digit : ℕ → Bool
is_digit c = leb 48 c && leb c 57

abbrev pub all_digits : List ℕ → Bool
all_digits [] = true
all_digits (c ∷ cs) = is_digit c && all_digits cs

abbrev pub no_digits : List ℕ → Bool
no_digits [] = true
no_digits (c ∷ cs) = if is_digit c then false else no_digits cs

-- The text has no NUL in it.
abbrev pub no_nul : List ℕ → Bool
no_nul [] = true
no_nul (b ∷ bs) = if b == 0 then false else no_nul bs

-- The last `fuel` digits of `k`, without leading zeros.
unfoldable pub digits : ℕ → ℕ → List ℕ
digits zero k = []
digits (suc fuel) k =
    let rest = digits fuel (k / 10) in
    if ltb k 10 then (48 + k) ∷ [] else rest ++ (48 + k % 10) ∷ []

-- The number that the digits at the front of a text continue.
unfoldable pub value : ℕ → List ℕ → ℕ
value k [] = k
value k (c ∷ cs) = let rest = value (k * 10 + (c - 48)) cs in if is_digit c then rest else k

abbrev pub is_space : ℕ → Bool
is_space c = (c == 32) || leb 9 c && leb c 13

abbrev pub minus : ℕ → ℤ
minus zero = pos 0
minus (suc n) = negsuc n

abbrev pub signed_value : List ℕ → ℤ
signed_value [] = pos 0
signed_value (c ∷ cs) =
    if c == 45
    then minus (value 0 cs)
    else if c == 43
    then pos (value 0 cs)
    else pos (value 0 (c ∷ cs))

-- The text must stand for an int: atoi of a larger number is not defined.
unfoldable pub atoi : List ℕ → ℤ
atoi [] = pos 0
atoi (c ∷ cs) = let rest = atoi cs in if is_space c then rest else signed_value (c ∷ cs)

-- `%d`: an int has ten digits at most.
abbrev pub print_int : ℤ → List ℕ
print_int (pos k) = digits 10 k
print_int (negsuc k) = 45 ∷ digits 10 (suc k)

all_digits-append :
    (xs ys : List ℕ) → all_digits xs ≡ true → all_digits ys ≡ true → all_digits (xs ++ ys) ≡ true
all_digits-append [] ys h g = g
all_digits-append (x ∷ xs) ys h g = ground (arith, all_digits-append xs ys)

pub digits-all_digits : (fuel k : ℕ) → all_digits (digits fuel k) ≡ true
unfolding digits
digits-all_digits zero k = refl
digits-all_digits (suc fuel) k = ground (
  arith,
  digits-all_digits fuel (k / 10),
  all_digits-append (digits fuel (k / 10)) ((48 + k % 10) ∷ []),
)

value-append :
    (k : ℕ) (xs ys : List ℕ) → all_digits xs ≡ true → value k (xs ++ ys) ≡ value (value k xs) ys
unfolding value
value-append k [] ys h = refl
value-append k (x ∷ xs) ys h = ground (arith, value-append (k * 10 + (x - 48)) xs ys)

value-no_digits : (k : ℕ) (ys : List ℕ) → no_digits ys ≡ true → value k ys ≡ k
unfolding value
value-no_digits k [] h = refl
value-no_digits k (y ∷ ys) h = ground arith

value-digits : (fuel k : ℕ) → k < 10 ^ fuel → value 0 (digits fuel k) ≡ k
unfolding digits value
value-digits zero k h = omega (arith, h)
value-digits (suc fuel) k h =
    let higher : k / 10 < 10 ^ fuel = omega (arith, h) in
    ground (
      arith,
      value-digits fuel (k / 10) higher,
      value-append 0 (digits fuel (k / 10)) ((48 + k % 10) ∷ []) (digits-all_digits fuel (k / 10)),
    )

pub length-digits_le : (fuel j k : ℕ) → j ≤ k → length (digits fuel j) ≤ length (digits fuel k)
unfolding digits
length-digits_le zero j k h = omega arith
length-digits_le (suc fuel) j k h = ground (
  arith,
  length-digits_le fuel (j / 10) (k / 10),
  length-append (digits fuel (j / 10)) ((48 + j % 10) ∷ []),
  length-append (digits fuel (k / 10)) ((48 + k % 10) ∷ []),
)

pub length-digits_le_fuel : (fuel k : ℕ) → length (digits fuel k) ≤ fuel
unfolding digits
length-digits_le_fuel zero k = omega arith
length-digits_le_fuel (suc fuel) k = ground (
  arith,
  length-digits_le_fuel fuel (k / 10),
  length-append (digits fuel (k / 10)) ((48 + k % 10) ∷ []),
)

atoi-append :
    (xs ys : List ℕ)
    → all_digits xs ≡ true
    → 0 < length xs
    → atoi (xs ++ ys) ≡ pos (value 0 (xs ++ ys))
unfolding atoi
atoi-append [] ys h g = absurd (omega (arith, g))
atoi-append (x ∷ xs) ys h g = ground arith

length-digits_pos : (fuel k : ℕ) → 0 < length (digits (suc fuel) k)
unfolding digits
length-digits_pos fuel k = ground (arith, length-append (digits fuel (k / 10)) ((48 + k % 10) ∷ []))

-- `atoi` reads back what `%d` has printed, whatever follows it that has no digit.
pub atoi-print_int :
    (k : ℕ) (ys : List ℕ)
    → k < 10000000000
    → no_digits ys ≡ true
    → atoi (print_int (pos k) ++ ys) ≡ pos k
atoi-print_int k ys h n =
    atoi-append (digits 10 k) ys (digits-all_digits 10 k) (length-digits_pos 9 k)
    ∙ ap pos (
        value-append 0 (digits 10 k) ys (digits-all_digits 10 k)
        ∙ value-no_digits (value 0 (digits 10 k)) ys n
        ∙ value-digits 10 k h)

-- A text without a digit reads as 0.
pub atoi-no_digits : (ys : List ℕ) → no_digits ys ≡ true → atoi ys ≡ pos 0
unfolding atoi value
atoi-no_digits [] n = refl
atoi-no_digits (y ∷ ys) n = ground (arith, atoi-no_digits ys, value-no_digits 0 ys)

pub no_nul-append :
    (xs ys : List ℕ) → no_nul xs ≡ true → no_nul ys ≡ true → no_nul (xs ++ ys) ≡ true
no_nul-append [] ys h g = g
no_nul-append (x ∷ xs) ys h g = ground (arith, no_nul-append xs ys)

no_nul_of_digits : (xs : List ℕ) → all_digits xs ≡ true → no_nul xs ≡ true
no_nul_of_digits [] h = refl
no_nul_of_digits (x ∷ xs) h = ground (arith, no_nul_of_digits xs)

pub no_nul-digits : (fuel k : ℕ) → no_nul (digits fuel k) ≡ true
no_nul-digits fuel k = no_nul_of_digits (digits fuel k) (digits-all_digits fuel k)
