-- ===== src/Sets.antt =====
-- Python's sets of strings as lists that are read by membership, and `sorted`.
use mathlib.Core.List.{foldr}
use api_to_dns.Prelude.{
  ◌≡◌, refl, ap, ◌∙◌, Bool, true, false, ◌&&◌, ◌||◌, List, [], ◌∷◌, ◌++◌, ltb, ◌==◌, keep,
  if◌then◌else◌, arith,
}
use api_to_dns.Text.{Text, ◌===◌, contains}
use api_to_dns.Text.Equal.{===_iff, ===_refl}

-- s < t, by code points
unfoldable pub less : Text → Text → Bool
less s [] = false
less [] (d ∷ t) = true
less (c ∷ s) (d ∷ t) = ltb c d || (c == d && less s t)

unfoldable pub insert : Text → List Text → List Text
insert t [] = t ∷ []
insert t (u ∷ us) =
    let later = u ∷ insert t us in
    if t === u then u ∷ us else if less t u then t ∷ u ∷ us else later

-- sorted(set(ts))
unfoldable pub sorted : List Text → List Text
sorted ts = foldr insert [] ts

pub contains-insert :
    (t : Text) (us : List Text) (s : Text) → contains (insert t us) s ≡ (s === t || contains us s)
unfolding insert contains
contains-insert t [] s = refl
contains-insert t (u ∷ us) s =
    ground (arith, contains-insert t us s, ===_iff t u, ===_iff s t, ===_iff s u)

-- Sorting keeps the members.
pub contains-sorted : (ts : List Text) (s : Text) → contains (sorted ts) s ≡ contains ts s
unfolding sorted contains
contains-sorted [] s = refl
contains-sorted (t ∷ ts) s =
    contains-insert t (sorted ts) s ∙ ap (λ (b : Bool). s === t || b) (contains-sorted ts s)

pub contains-append :
    (ts us : List Text) (s : Text) → contains (ts ++ us) s ≡ (contains ts s || contains us s)
unfolding contains
contains-append [] us s = refl
contains-append (t ∷ ts) us s = ground (arith, contains-append ts us s)

pub contains-keep :
    (p : Text → Bool) (ts : List Text) (s : Text) → contains (keep p ts) s ≡ (contains ts s && p s)
unfolding contains keep
contains-keep p [] s = refl
contains-keep p (t ∷ ts) s = ground (arith, contains-keep p ts s, ===_iff s t, ap p)

-- A filter leaves nothing exactly when no member passes it.
pub keep-nil :
    (p : Text → Bool) (ts : List Text) (s : Text)
    → keep p ts ≡ []
    → contains ts s ≡ true
    → p s ≡ false
unfolding contains keep
keep-nil p [] s h k = cc
keep-nil p (t ∷ ts) s h k = ground (arith, keep-nil p ts s, ===_iff s t, ap p)

pub keep-nil_of :
    (p : Text → Bool) (ts : List Text)
    → ((s : Text) → contains ts s ≡ true → p s ≡ false)
    → keep p ts ≡ []
unfolding contains keep
keep-nil_of p [] h = refl
keep-nil_of p (t ∷ ts) h =
    ground (arith, h t, ===_refl t, keep-nil_of p ts (λ s k. h s (ground arith)))

pub sorted-nil : (ts : List Text) → sorted ts ≡ [] → ts ≡ []
unfolding contains
sorted-nil [] h = refl
sorted-nil (t ∷ ts) h = ground (arith, contains-sorted (t ∷ ts) t, ===_refl t)
