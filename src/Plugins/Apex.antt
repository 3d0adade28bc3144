-- ===== src/Plugins/Apex.antt =====
-- Which record names the plugins send as the zone apex, against the names that the guard on apex
-- NS records refuses.
use mathlib.Core.List.{append_cancel_right}
use api_to_dns.Prelude.{
  ℕ, zero, suc, ◌-◌, ◌≤◌, ◌≡◌, refl, ap, ◌≢◌, ◌↔◌, ◌⊎◌, inl, true, ◌||◌, some, [], ◌∷◌, ◌++◌,
  length, length-append, arith, if◌then◌else◌,
}
use api_to_dns.Text.{Text, str, is_empty, ◌===◌, lower, lower_char, ends_with}
use api_to_dns.Text.Equal.{===_iff}
use api_to_dns.Text.Affix.{ends_with-append, eq-append_of_ends_with, length-lower}
use api_to_dns.RecordTypes.{is_apex_name}
use api_to_dns.RecordTypes.Guarded.{clean_name, NamesApex, is_apex_name_iff, is_empty_iff}
use api_to_dns.Plugins.Names.{take, or_apex, dns_relative_name}

length-take : (n : ℕ) (s : Text) → n ≤ length s → length (take n s) ≡ n
length-take zero s h = refl
length-take (suc n) [] h = absurd (omega arith)
length-take (suc n) (c ∷ s) h = ap suc (length-take n s (omega arith))

-- `lower` changes no character into `@`.
lower_char-at : (c : ℕ) → lower_char c ≡ b'@' → c ≡ b'@'
unfolding lower_char
lower_char-at c h = ground arith

-- What is left in front of a suffix, after `lower` has been applied to both.
module _ (r u t : Text) (split : lower r ≡ u ++ t) where
  front_length : length r - length t ≡ length u
  front_length = omega (arith, length-append u t, ap length split, length-lower r)

-- The front of `r` is empty or `@` exactly when that of `lower r` is.
or_apex-take_iff :
    (r u t : Text)
    → lower r ≡ u ++ t
    → (or_apex (take (length u) r) ≡ str "@") ↔ ((u ≡ []) ⊎ (u ≡ str "@"))
unfolding lower
or_apex-take_iff r [] t h = (λ e. inl refl, λ e. refl)
or_apex-take_iff [] (d ∷ u) t h = cc
or_apex-take_iff (c ∷ r) (d ∷ []) t h = ground (arith, lower_char-at c)
or_apex-take_iff (c ∷ []) (d ∷ e ∷ u) t h = cc
or_apex-take_iff (c ∷ b ∷ r) (d ∷ e ∷ u) t h = ground arith

-- The name that is sent, from the cleaned name and zone.
abbrev sent : Text → Text → Text
sent r z =
    if is_empty r || r === str "@" || lower r === lower z
    then str "@"
    else if ends_with (lower r) (lower (b'.' ∷ z))
    then or_apex (take (length r - length (b'.' ∷ z)) r)
    else r

abbrev IsSuffix : Text → Text → Type 0
IsSuffix r z = ends_with (lower r) (lower (b'.' ∷ z)) ≡ true

sent_suffix_iff :
    (r z : Text)
    → IsSuffix r z
    → (or_apex (take (length r - length (b'.' ∷ z)) r) ≡ str "@")
      ↔ ((lower r ≡ lower (b'.' ∷ z)) ⊎ (lower r ≡ b'@' ∷ lower (b'.' ∷ z)))
sent_suffix_iff r z h =
    let (u, split) = eq-append_of_ends_with (lower r) (lower (b'.' ∷ z)) h in
    let size : length r - length (b'.' ∷ z) ≡ length u = omega (
      arith,
      length-append u (lower (b'.' ∷ z)),
      ap length split,
      length-lower r,
      length-lower (b'.' ∷ z),
    ) in
    let (to, from) = or_apex-take_iff r u (lower (b'.' ∷ z)) split in
    rw size (
      ground (
        arith,
        to,
        from,
        append_cancel_right u [] (lower (b'.' ∷ z)),
        append_cancel_right u (b'@' ∷ []) (lower (b'.' ∷ z)),
      ))

lower-dot : (z : Text) → lower (b'.' ∷ z) ≡ b'.' ∷ lower z
unfolding lower
lower-dot z = refl

suffix_of_eq : (r z : Text) → lower r ≡ lower (b'.' ∷ z) → IsSuffix r z
suffix_of_eq r z e = rw e (ends_with-append [] (lower (b'.' ∷ z)))

suffix_of_at : (r z : Text) → lower r ≡ b'@' ∷ lower (b'.' ∷ z) → IsSuffix r z
suffix_of_at r z e = rw e (ends_with-append (b'@' ∷ []) (lower (b'.' ∷ z)))

sent-eq-apex_iff :
    (r z : Text)
    → z ≢ []
    → (sent r z ≡ str "@") ↔ (NamesApex r (some z) ⊎ (lower r ≡ b'@' ∷ lower (b'.' ∷ z)))
sent-eq-apex_iff r z h = ground (
  arith,
  is_empty_iff r,
  ===_iff r (str "@"),
  ===_iff (lower r) (lower z),
  sent_suffix_iff r z,
  suffix_of_eq r z,
  suffix_of_at r z,
  lower-dot z,
)

-- A plugin sends a name as the apex exactly when the guard takes it for the apex, or when it is
-- `@.` in front of the zone, which the guard lets through.
pub dns_relative_name-eq-apex_iff :
    (zone name : Text)
    → clean_name zone ≢ []
    → (dns_relative_name zone name ≡ str "@") ↔ (
        (is_apex_name name (some zone) ≡ true)
        ⊎ (lower (clean_name name) ≡ str "@." ++ lower (clean_name zone)))
unfolding dns_relative_name
dns_relative_name-eq-apex_iff zone name h = ground (
  arith,
  sent-eq-apex_iff (clean_name name) (clean_name zone) h,
  is_apex_name_iff name (some zone),
  lower-dot (clean_name zone),
)
