-- ===== src/Prelude/CInt.antt =====
-- The 32-bit `int` of C: integers in range, with signed overflow as undefined behaviour.
use apue_pratice.Prelude.{Bool, true, ◌≡◌, ◌&&◌, arith, if◌then◌else◌}
use apue_pratice.Prelude.Int.{ℤ, pos, negsuc, ◌+ℤ◌, ◌-ℤ◌, ◌≤ℤ◌, leb_ℤ, ltb_ℤ}
use apue_pratice.Prelude.Outcome.{Outcome, done, fault}

abbrev pub int_min : ℤ
int_min = negsuc 2147483647

abbrev pub int_max : ℤ
int_max = pos 2147483647

-- The values that an `int` can hold.
abbrev pub fits : ℤ → Bool
fits a = leb_ℤ int_min a && leb_ℤ a int_max

-- A result that an `int` cannot hold is undefined.
abbrev pub checked : ℤ → Outcome ℤ
checked a = if fits a then done a else fault

unfoldable pub add_int : ℤ → ℤ → Outcome ℤ
add_int a b = checked (a +ℤ b)

unfoldable pub sub_int : ℤ → ℤ → Outcome ℤ
sub_int a b = checked (a -ℤ b)

-- The macro MIN(x, y).
abbrev pub min_int : ℤ → ℤ → ℤ
min_int x y = if ltb_ℤ x y then x else y

pub add_int-done : (a b : ℤ) → fits (a +ℤ b) ≡ true → add_int a b ≡ done (a +ℤ b)
unfolding add_int
add_int-done a b h = rw h

pub sub_int-done : (a b : ℤ) → fits (a -ℤ b) ≡ true → sub_int a b ≡ done (a -ℤ b)
unfolding sub_int
sub_int-done a b h = rw h

pub fits_of_le : (a : ℤ) → int_min ≤ℤ a → a ≤ℤ int_max → fits a ≡ true
fits_of_le a lo hi = ground arith

pub add_int-eq : (a b : ℤ) {c : ℤ} → add_int a b ≡ done c → c ≡ a +ℤ b
unfolding add_int
add_int-eq a b h = ground arith

pub sub_int-eq : (a b : ℤ) {c : ℤ} → sub_int a b ≡ done c → c ≡ a -ℤ b
unfolding sub_int
sub_int-eq a b h = ground arith
