-- ===== src/Text/Equal.antt =====
-- Equality of texts, and membership in a collection of texts.
use api_to_dns.Prelude.{◌≡◌, refl, ap, Bool, true, ◌↔◌, ◌⊎◌, List, [], ◌∷◌, arith, every}
use api_to_dns.Text.{Text, ◌===◌, contains}

pub eq_of_=== : (s t : Text) → (s === t) ≡ true → s ≡ t
unfolding ◌===◌
eq_of_=== [] [] h = refl
eq_of_=== [] (d ∷ t) h = cc
eq_of_=== (c ∷ s) [] h = cc
eq_of_=== (c ∷ s) (d ∷ t) h = ground (arith, eq_of_=== s t)

pub ===_refl : (s : Text) → (s === s) ≡ true
unfolding ◌===◌
===_refl [] = refl
===_refl (c ∷ s) = ground (arith, ===_refl s)

pub ===_iff : (s t : Text) → ((s === t) ≡ true) ↔ (s ≡ t)
===_iff s t = (eq_of_=== s t, λ e. rw e (===_refl t))

pub contains_cases :
    (t : Text) (ts : List Text) (s : Text)
    → contains (t ∷ ts) s ≡ true
    → (s ≡ t) ⊎ (contains ts s ≡ true)
unfolding contains
contains_cases t ts s h = ground (arith, ===_iff s t)

-- A test that each text of a collection passes is passed by its members.
pub every-contains :
    (p : Text → Bool) (ts : List Text) (s : Text)
    → every p ts ≡ true
    → contains ts s ≡ true
    → p s ≡ true
unfolding every contains
every-contains p [] s h k = cc
every-contains p (t ∷ ts) s h k = ground (arith, ===_iff s t, ap p, every-contains p ts s)
