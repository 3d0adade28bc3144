-- ===== src/Text.antt =====
-- Python's `str` as a list of code points, with the methods that the program calls.
-- Case mapping is that of ASCII; `int` reads ASCII digits. White space is all that `str.isspace` knows.
pub mod Equal
pub mod Strip
pub mod Split
pub mod Decimal
pub mod Affix
use Prim.Native.Char.{code}
use mathlib.Core.List.{reverse}
use api_to_dns.Prelude.{
  ℕ, zero, suc, ◌+◌, ◌*◌, ◌-◌, ◌/◌, ◌%◌, String, Bool, true, false, not, ◌&&◌, ◌||◌, Option, none,
  some, List, [], ◌∷◌, ◌++◌, map, ltb, leb, ◌==◌, if◌then◌else◌,
}

abbrev pub Text : Type 0
Text = List ℕ

-- a string literal
abbrev pub str : String → Text
str String.[] = []
str (String.◌∷◌ c s) = code c ∷ str s

-- s == t
infix 50 ◌===◌
unfoldable pub ◌===◌ : Text → Text → Bool
[] === [] = true
[] === (d ∷ t) = false
(c ∷ s) === [] = false
(c ∷ s) === (d ∷ t) = c == d && s === t

-- s in (t, …), for a collection of strings
unfoldable pub contains : List Text → Text → Bool
contains [] s = false
contains (t ∷ ts) s = s === t || contains ts s

abbrev pub is_empty : Text → Bool
is_empty [] = true
is_empty (c ∷ s) = false

-- c.isspace()
unfoldable pub is_space : ℕ → Bool
is_space c =
    (leb 9 c && leb c 13)
    || (leb 28 c && leb c 32)
    || c == 133
    || c == 160
    || c == 5760
    || (leb 8192 c && leb c 8202)
    || c == 8232
    || c == 8233
    || c == 8239
    || c == 8287
    || c == 12288

unfoldable pub drop_while : (ℕ → Bool) → Text → Text
drop_while p [] = []
drop_while p (c ∷ s) = let rest = drop_while p s in if p c then rest else c ∷ s

abbrev pub keep_end : (ℕ → Bool) → ℕ → Text → Text
keep_end p c [] = if p c then [] else c ∷ []
keep_end p c (d ∷ s) = c ∷ d ∷ s

unfoldable pub drop_while_end : (ℕ → Bool) → Text → Text
drop_while_end p [] = []
drop_while_end p (c ∷ s) = keep_end p c (drop_while_end p s)

-- s.strip()
unfoldable pub strip : Text → Text
strip s = drop_while_end is_space (drop_while is_space s)

abbrev pub is_dot : ℕ → Bool
is_dot c = c == b'.'

-- s.rstrip(".")
unfoldable pub rstrip_dot : Text → Text
rstrip_dot s = drop_while_end is_dot s

abbrev pub is_lower : ℕ → Bool
is_lower c = leb b'a' c && leb c b'z'

abbrev pub is_upper : ℕ → Bool
is_upper c = leb b'A' c && leb c b'Z'

abbrev pub is_digit : ℕ → Bool
is_digit c = leb b'0' c && leb c b'9'

unfoldable pub lower_char : ℕ → ℕ
lower_char c = if is_upper c then c + 32 else c

unfoldable pub upper_char : ℕ → ℕ
upper_char c = if is_lower c then c - 32 else c

-- s.lower()
unfoldable pub lower : Text → Text
unfolding lower_char
lower s = map lower_char s

-- s.upper()
unfoldable pub upper : Text → Text
unfolding upper_char
upper s = map upper_char s

-- s.startswith(t)
unfoldable pub starts_with : Text → Text → Bool
starts_with s [] = true
starts_with [] (d ∷ t) = false
starts_with (c ∷ s) (d ∷ t) = c == d && starts_with s t

-- s.endswith(t)
unfoldable pub ends_with : Text → Text → Bool
unfolding ◌===◌
ends_with [] t = [] === t
ends_with (c ∷ s) t = (c ∷ s) === t || ends_with s t

-- c in s, for one character
unfoldable pub has_char : ℕ → Text → Bool
has_char d [] = false
has_char d (c ∷ s) = c == d || has_char d s

-- the loop of s.split(sep), for a separator of one character
unfoldable pub split_from : ℕ → Text → Text → List Text
split_from sep word [] = reverse word ∷ []
split_from sep word (c ∷ s) =
    let closed = reverse word ∷ split_from sep [] s in
    let longer = split_from sep (c ∷ word) s in if c == sep then closed else longer

-- s.split(sep)
unfoldable pub split : ℕ → Text → List Text
unfolding split_from
split sep s = split_from sep [] s

abbrev close : Text → List Text → List Text
close [] words = words
close (c ∷ word) words = reverse (c ∷ word) ∷ words

unfoldable pub words_from : Text → Text → List Text
words_from word [] = close word []
words_from word (c ∷ s) =
    let closed = close word (words_from [] s) in
    let longer = words_from (c ∷ word) s in if is_space c then closed else longer

-- s.split()
unfoldable pub words : Text → List Text
unfolding words_from is_space
words s = words_from [] s

-- sep.join(parts)
unfoldable pub join : Text → List Text → Text
join sep [] = []
join sep (t ∷ []) = t
join sep (t ∷ u ∷ ts) = t ++ (sep ++ join sep (u ∷ ts))

-- The digits of int(s); `wants` says that a digit must follow, as at the start and after `_`.
unfoldable pub digits_from : Bool → ℕ → Text → Option ℕ
digits_from wants n [] = if wants then none else some n
digits_from wants n (c ∷ s) =
    let digit = digits_from false (n * 10 + (c - 48)) s in
    let under = digits_from true n s in
    if is_digit c then digit else if c == b'_' && not wants then under else none

-- `negative m` is -m.
pub data ℤ : Type 0 where
  nonnegative negative : ℕ → ℤ

abbrev signed : Bool → Option ℕ → Option ℤ
signed minus none = none
signed minus (some n) = some (if minus && ltb 0 n then negative n else nonnegative n)

abbrev unsigned_part : Text → Option ℤ
unsigned_part [] = none
unsigned_part (c ∷ s) =
    if c == b'-'
    then signed true (digits_from true 0 s)
    else if c == b'+'
    then signed false (digits_from true 0 s)
    else signed false (digits_from true 0 (c ∷ s))

-- int(s), with `none` for its ValueError
unfoldable pub int_of : Text → Option ℤ
unfolding strip digits_from
int_of s = unsigned_part (strip s)

unfoldable pub show_from : ℕ → ℕ → Text → Text
show_from zero n digits = digits
show_from (suc fuel) n digits =
    let more = show_from fuel (n / 10) ((48 + n % 10) ∷ digits) in
    if ltb n 10 then (48 + n % 10) ∷ digits else more

-- str(n)
unfoldable pub show : ℕ → Text
unfolding show_from
show n = show_from (suc n) n []

-- All that a run computes with.
unfoldable pub text_runs : Unit {0}
unfolding ◌===◌ contains is_space drop_while drop_while_end strip rstrip_dot lower_char upper_char
    lower upper starts_with ends_with has_char split_from split words_from words join digits_from
    int_of show_from show
text_runs = tt
