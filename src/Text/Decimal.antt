-- ===== src/Text/Decimal.antt =====
-- `int` and `str` of a number, against each other.
use api_to_dns.Prelude.{
  ℕ, zero, suc, ◌+◌, ◌*◌, ◌/◌, ◌%◌, ◌<◌, ◌≡◌, refl, Bool, true, false, inl, inr, [], ◌∷◌, some,
  none, ap, ◌≢◌, All, ltb, arith, Bool-cases,
}
use api_to_dns.Text.{
  negative, Text, is_digit, is_space, digits_from, signed, unsigned_part, nonnegative, int_of,
  strip, drop_while, drop_while_end, show_from, show,
}
use api_to_dns.Text.Strip.{Avoids, strip_fix}

digits_from-digit :
    (wants : Bool) (n d : ℕ) (s : Text)
    → d < 10
    → digits_from wants n ((48 + d) ∷ s) ≡ digits_from false (n * 10 + d) s
unfolding digits_from
digits_from-digit wants n d s h = ground arith

-- Reading the digits that `show_from` put before `s` leaves `n` when `s` is reached.
digits_from-show_from :
    (wants : Bool) (fuel n : ℕ) (s : Text)
    → n < fuel
    → digits_from wants 0 (show_from fuel n s) ≡ digits_from false n s
unfolding show_from
digits_from-show_from wants zero n s h = absurd (omega arith)
digits_from-show_from wants (suc fuel) n s h = ground (
  arith,
  digits_from-show_from wants fuel (n / 10) ((48 + n % 10) ∷ s),
  digits_from-digit wants 0 (n % 10) s,
  digits_from-digit false (n / 10) (n % 10) s,
)

abbrev pub IsDigits : Text → Type 0
IsDigits s = All (λ c. is_digit c ≡ true) s

show_from-IsDigits : (fuel n : ℕ) (s : Text) → IsDigits s → IsDigits (show_from fuel n s)
unfolding show_from
show_from-IsDigits zero n s h = h
show_from-IsDigits (suc fuel) n s h = elim (Bool-cases (ltb n 10)) [
  | inl last ↦ rw last (ground arith, h)
  | inr more ↦ rw more (show_from-IsDigits fuel (n / 10) ((48 + n % 10) ∷ s) (ground arith, h))
]

pub show-IsDigits : (n : ℕ) → IsDigits (show n)
unfolding show
show-IsDigits n = show_from-IsDigits (suc n) n [] tt

IsDigits-Avoids : (s : Text) → IsDigits s → Avoids is_space s
unfolding is_space
IsDigits-Avoids [] h = tt
IsDigits-Avoids (c ∷ s) h = (ground arith, IsDigits-Avoids s h.1)

pub show-Avoids : (n : ℕ) → Avoids is_space (show n)
show-Avoids n = IsDigits-Avoids (show n) (show-IsDigits n)

-- A text of digits has no sign.
unsigned_part_lem : (s : Text) → IsDigits s → unsigned_part s ≡ signed false (digits_from true 0 s)
unfolding digits_from
unsigned_part_lem [] h = refl
unsigned_part_lem (c ∷ s) h = ground arith

-- int(str(n)) == n
pub int_of-show : (n : ℕ) → int_of (show n) ≡ some (nonnegative n)
unfolding int_of show
int_of-show n = rw (strip_fix (show n) (show-Avoids n)) (
    rw (unsigned_part_lem (show n) (show-IsDigits n))
      (rw (digits_from-show_from true (suc n) n [] (omega arith)) refl))

minus-digits : (s : Text) → unsigned_part (b'-' ∷ s) ≡ signed true (digits_from true 0 s)
minus-digits s = refl

-- int(str(-n)) == -n
pub int_of-minus-show : (n : ℕ) → 0 < n → int_of (b'-' ∷ show n) ≡ some (negative n)
unfolding int_of show is_space
int_of-minus-show n h =
    rw (strip_fix (b'-' ∷ show n) (refl, show-Avoids n))
      (rw (digits_from-show_from true (suc n) n [] (omega arith)) (ground arith))

int_of_nil : int_of [] ≡ none
unfolding int_of strip drop_while_end drop_while
int_of_nil = refl

pub show-ne-nil : (n : ℕ) → show n ≢ []
show-ne-nil n e = cc (int_of-show n, ap int_of e, int_of_nil)
