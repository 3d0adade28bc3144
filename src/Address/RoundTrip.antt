-- ===== src/Address/RoundTrip.antt =====
-- The reader of IPv4 addresses against their printer.
use api_to_dns.Prelude.{
  ℕ, zero, suc, ◌≤◌, ◌<◌, ◌≡◌, every, refl, ap, Bool, true, false, List, [], ◌∷◌, Option, none,
  some, map, length, All, ◌==◌, arith,
}
use api_to_dns.Text.{Text, split, show}
use api_to_dns.Text.Decimal.{IsDigits, show-IsDigits}
use api_to_dns.Text.Split.{Unsplit, split-join}
use api_to_dns.Address.{octet, ipv4, show_ipv4, v4, ip_address, traverse, address_runs}

is_some_of : Option ℕ → ℕ → Bool
is_some_of none n = false
is_some_of (some m) n = m == n

-- the numbers under a bound, the largest first
numbers : ℕ → List ℕ
numbers zero = []
numbers (suc n) = n ∷ numbers n

every-numbers : (p : ℕ → Bool) (n x : ℕ) → every p (numbers n) ≡ true → x < n → p x ≡ true
unfolding every numbers
every-numbers p zero x h small = absurd (omega arith)
every-numbers p (suc n) x h small = ground (arith, every-numbers p n x)

octet_table : every (λ n. is_some_of (octet (show n)) n) (numbers 256) ≡ true
unfolding every numbers is_some_of address_runs
octet_table = refl

eq_of_is_some_of : (o : Option ℕ) (n : ℕ) → is_some_of o n ≡ true → o ≡ some n
unfolding is_some_of
eq_of_is_some_of none n h = cc
eq_of_is_some_of (some m) n h = ground arith

pub octet-show : (n : ℕ) → n ≤ 255 → octet (show n) ≡ some n
octet-show n h = eq_of_is_some_of _ n (every-numbers _ 256 n octet_table (omega arith))

abbrev pub IsByte : ℕ → Type 0
IsByte n = n ≤ 255

traverse-octet-show : (ns : List ℕ) → All IsByte ns → traverse octet (map show ns) ≡ some ns
unfolding traverse
traverse-octet-show [] h = refl
traverse-octet-show (n ∷ ns) h = rw (octet-show n h.0, traverse-octet-show ns h.1)

IsDigits-Unsplit : (s : Text) → IsDigits s → Unsplit b'.' s
IsDigits-Unsplit [] h = tt
IsDigits-Unsplit (c ∷ s) h = (ground arith, IsDigits-Unsplit s h.1)

All-Unsplit-show : (ns : List ℕ) → All (Unsplit b'.') (map show ns)
All-Unsplit-show [] = tt
All-Unsplit-show (n ∷ ns) = (IsDigits-Unsplit (show n) (show-IsDigits n), All-Unsplit-show ns)

-- Four octets.
abbrev pub IsIpv4 : List ℕ → Type 0
IsIpv4 octets = (length octets ≡ 4) × All IsByte octets

length-map-show : (ns : List ℕ) → length (map show ns) ≡ length ns
length-map-show [] = refl
length-map-show (n ∷ ns) = ap suc (length-map-show ns)

ipv4-show_ipv4 : (octets : List ℕ) → IsIpv4 octets → ipv4 (show_ipv4 octets) ≡ some octets
unfolding ipv4 show_ipv4
ipv4-show_ipv4 [] h = absurd (omega arith)
ipv4-show_ipv4 (n ∷ ns) (four, bytes) =
    rw (split-join b'.' (show n) (map show ns) (All-Unsplit-show (n ∷ ns)), length-map-show ns)
      (rw (traverse-octet-show (n ∷ ns) bytes) (ground arith))

octet-IsByte : (s : Text) (n : ℕ) → octet s ≡ some n → n ≤ 255
unfolding octet
octet-IsByte s n h = ground arith

traverse-IsByte :
    (ts : List Text) (ns : List ℕ)
    → traverse octet ts ≡ some ns
    → (length ns ≡ length ts) × All IsByte ns
unfolding traverse
traverse-IsByte [] ns h = ground arith
traverse-IsByte (t ∷ ts) ns h = grind (arith, octet-IsByte t, traverse-IsByte ts)

-- What is read as an IPv4 address is four octets.
pub ip_address-IsIpv4 :
    (s : Text) (octets : List ℕ) → ip_address s ≡ some (v4 octets) → IsIpv4 octets
unfolding ip_address ipv4
ip_address-IsIpv4 s octets h = ground (arith, traverse-IsByte (split b'.' s) octets)

pub ip_address-show_ipv4 :
    (octets : List ℕ) → IsIpv4 octets → ip_address (show_ipv4 octets) ≡ some (v4 octets)
unfolding ip_address
ip_address-show_ipv4 octets h = rw (ipv4-show_ipv4 octets h, ip_address)
