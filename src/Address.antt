-- ===== src/Address.antt =====
-- Python's `ipaddress.ip_address` and `str` of its result, as plugins and value checks use them:
-- an IPv4 address is its four octets, an IPv6 address its eight hextets with a scope id.
mod Tests
pub mod RoundTrip
use mathlib.Core.List.{reverse}
use api_to_dns.Prelude.{
  ℕ, zero, suc, ◌+◌, ◌*◌, ◌-◌, ◌/◌, ◌%◌, Bool, true, false, not, ◌&&◌, ◌||◌, Option, none, some,
  List, [], ◌∷◌, ◌++◌, map, length, every, ltb, leb, ◌==◌, if◌then◌else◌,
}
use api_to_dns.Text.{
  Text, str, is_empty, is_digit, ◌===◌, has_char, split, join, digits_from, show, show_from,
  split_from,
}

pub data Address : Type 0 where
  v4 : List ℕ → Address
  v6 : List ℕ → Option Text → Address

infixl 5 ◌>>=◌
abbrev pub ◌>>=◌ {ℓ κ} : {A : Type ℓ} {B : Type κ} → Option A → (A → Option B) → Option B
none >>= f = none
some a >>= f = f a

-- [f(x) for x in xs], where a failure ends the whole
unfoldable pub traverse {ℓ κ} :
    {A : Type ℓ} {B : Type κ} → (A → Option B) → List A → Option (List B)
traverse f [] = some []
traverse f (x ∷ xs) = let rest = traverse f xs in do y ← f x; ys ← rest; some (y ∷ ys)

abbrev pub leading_zero : Text → Bool
leading_zero [] = false
leading_zero (c ∷ s) = c == b'0'

abbrev pub in_byte : Option ℕ → Option ℕ
in_byte none = none
in_byte (some n) = if leb n 255 then some n else none

-- a decimal octet: digits only, at most three, with no leading zero, at most 255
unfoldable pub octet : Text → Option ℕ
octet s =
    if is_empty s || not (every is_digit s) || ltb 3 (length s)
    then none
    else if not (s === str "0") && leading_zero s
    then none
    else in_byte (digits_from true 0 s)

unfoldable pub ipv4 : Text → Option (List ℕ)
ipv4 s = let parts = split b'.' s in if length parts == 4 then traverse octet parts else none

unfoldable pub show_ipv4 : List ℕ → Text
show_ipv4 octets = join (str ".") (map show octets)

unfoldable pub hex_digit : ℕ → Option ℕ
hex_digit c =
    if is_digit c
    then some (c - 48)
    else if leb b'a' c && leb c b'f'
    then some (c - 87)
    else if leb b'A' c && leb c b'F'
    then some (c - 55)
    else none

unfoldable pub hex_from : ℕ → Text → Option ℕ
hex_from n [] = some n
hex_from n (c ∷ s) = do d ← hex_digit c; hex_from (n * 16 + d) s

unfoldable pub hextet : Text → Option ℕ
hextet s = if is_empty s || ltb 4 (length s) then none else hex_from 0 s

unfoldable pub hex_char : ℕ → ℕ
hex_char d = if ltb d 10 then 48 + d else 87 + d

unfoldable pub show_hex_from : ℕ → ℕ → Text → Text
show_hex_from zero n digits = digits
show_hex_from (suc fuel) n digits =
    let more = show_hex_from fuel (n / 16) (hex_char (n % 16) ∷ digits) in
    if ltb n 16 then hex_char (n % 16) ∷ digits else more

-- '%x' % n, for a hextet
unfoldable pub show_hex : ℕ → Text
show_hex n = show_hex_from 4 n []

-- The parts before and after the last one.
unfoldable pub unsnoc : List Text → Option (List Text × Text)
unsnoc [] = none
unsnoc (t ∷ []) = some ([], t)
unsnoc (t ∷ u ∷ ts) = do (front, last) ← unsnoc (u ∷ ts); some (t ∷ front, last)

unfoldable pub words_of_octets : List ℕ → List Text
words_of_octets (a ∷ b ∷ c ∷ d ∷ []) = show_hex (a * 256 + b) ∷ show_hex (c * 256 + d) ∷ []
words_of_octets octets = []

-- An IPv4-style suffix becomes two hextets.
unfoldable pub ipv4_suffix : List Text → Option (List Text)
ipv4_suffix parts = do
  (front, last) ← unsnoc parts
  if has_char b'.' last
      then (do octets ← ipv4 last; some (front ++ words_of_octets octets))
      else some parts

-- The parts before and after the first inner empty part, with whether a later one is empty too;
-- the last part is not an inner one.
unfoldable pub split_gap : List Text → List Text → Option (List Text × List Text)
split_gap before [] = none
split_gap before (t ∷ []) = none
split_gap before (t ∷ u ∷ ts) =
    let later = split_gap (t ∷ before) (u ∷ ts) in
    if is_empty t then some (reverse before, u ∷ ts) else later

unfoldable pub drop_leading_empty : List Text → Option (List Text)
drop_leading_empty ([] ∷ []) = some []
drop_leading_empty ([] ∷ t ∷ ts) = none
drop_leading_empty ts = some ts

unfoldable pub drop_trailing_empty : List Text → Option (List Text)
drop_trailing_empty ([] ∷ []) = some []
drop_trailing_empty ts = some ts

unfoldable pub has_empty : List Text → Bool
has_empty [] = false
has_empty (t ∷ ts) = is_empty t || has_empty ts

unfoldable pub zeros : ℕ → List ℕ
zeros zero = []
zeros (suc n) = 0 ∷ zeros n

-- Around a `::`: an empty first part must be the only one before it, an empty last part the only
-- one after it, and at least one hextet is left out.
unfoldable pub expand : List Text → List Text → Option (List ℕ)
expand before after = do
  hi ← drop_leading_empty before
  lo ← drop_trailing_empty after
  if has_empty lo || leb 8 (length hi + length lo) then none else do
    high ← traverse hextet hi
    low ← traverse hextet lo
    some (high ++ (zeros (8 - (length hi + length lo)) ++ low))

unfoldable pub hextets_of : List Text → Option (List ℕ)
hextets_of [] = none
hextets_of (t ∷ ts) = elim (split_gap (t ∷ []) ts) [
  | none ↦ if length (t ∷ ts) == 8 then traverse hextet (t ∷ ts) else none
  | some (before, after) ↦ expand before after
]

unfoldable pub ipv6 : Text → Option (List ℕ)
ipv6 s =
    let parts = split b':' s in
    if ltb (length parts) 3
    then none
    else do plain ← ipv4_suffix parts; if ltb 9 (length plain) then none else hextets_of plain

-- The scope id behind `%`; it is neither empty nor holds another `%`.
unfoldable pub scoped : List Text → Option (Text × Option Text)
scoped (s ∷ []) = some (s, none)
scoped (s ∷ scope ∷ []) = if is_empty scope then none else some (s, some scope)
scoped parts = none

-- ip_address(s): IPv4 first, then IPv6; `none` for its ValueError
unfoldable pub ip_address : Text → Option Address
ip_address s = elim (ipv4 s) [
  | some octets ↦ some (v4 octets)
  | none ↦ if has_char b'/' s then none else (do
    (plain, scope) ← scoped (split b'%' s)
    hextets ← ipv6 plain
    some (v6 hextets scope))
]

-- The length of the run of zeros at the head.
unfoldable pub zero_run : List ℕ → ℕ
zero_run [] = 0
zero_run (n ∷ ns) = if n == 0 then zero_run ns + 1 else 0

-- Where the first longest run of zeros starts, and its length.
unfoldable pub best_run : ℕ → List ℕ → ℕ × ℕ
best_run at [] = (at, 0)
best_run at (n ∷ ns) =
    let (start, size) = best_run (at + 1) ns in
    if leb size (zero_run (n ∷ ns)) then (at, zero_run (n ∷ ns)) else (start, size)

unfoldable pub take_hextets : ℕ → List ℕ → List Text
take_hextets zero ns = []
take_hextets (suc n) [] = []
take_hextets (suc n) (h ∷ hs) = show_hex h ∷ take_hextets n hs

unfoldable pub drop_hextets : ℕ → List ℕ → List Text
drop_hextets zero ns = map show_hex ns
drop_hextets (suc n) [] = []
drop_hextets (suc n) (h ∷ hs) = drop_hextets n hs

abbrev pub or_empty : List Text → List Text
or_empty [] = [] ∷ []
or_empty (t ∷ ts) = t ∷ ts

unfoldable pub show_ipv6 : List ℕ → Text
show_ipv6 hextets =
    let (start, size) = best_run 0 hextets in
    if ltb 1 size
    then join (str ":") (
        or_empty (take_hextets start hextets)
        ++ ([] ∷ or_empty (drop_hextets (start + size) hextets)))
    else join (str ":") (map show_hex hextets)

abbrev pub show_scope : Option Text → Text
show_scope none = []
show_scope (some scope) = b'%' ∷ scope

-- str(address)
unfoldable pub show_address : Address → Text
show_address (v4 octets) = show_ipv4 octets
show_address (v6 hextets scope) = show_ipv6 hextets ++ show_scope scope

-- All that a run of the parser or the printer computes with.
unfoldable pub address_runs : Unit {0}
unfolding traverse octet ipv4 show_ipv4 hex_digit hex_from hextet hex_char show_hex_from show_hex
    unsnoc words_of_octets ipv4_suffix split_gap drop_leading_empty drop_trailing_empty has_empty
    zeros expand hextets_of ipv6 scoped ip_address zero_run best_run take_hextets drop_hextets
    show_ipv6 show_address split split_from join has_char digits_from show show_from ◌===◌ every
address_runs = tt
