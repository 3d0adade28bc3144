-- ===== src/Text/Affix.antt =====
-- `endswith`: a text with a suffix is what stands in front of it, followed by it.
use api_to_dns.Prelude.{
  suc, ◌≡◌, refl, ap, ◌∙◌, inl, inr, true, [], ◌∷◌, ◌++◌, length, length-append, arith, Bool-cases,
}
use api_to_dns.Text.{Text, ◌===◌, ends_with, lower}
use api_to_dns.Text.Equal.{===_iff, ===_refl}

pub ends_with-append : (s t : Text) → ends_with (s ++ t) t ≡ true
unfolding ends_with
ends_with-append [] [] = ===_refl []
ends_with-append [] (c ∷ t) = ground (arith, ===_refl (c ∷ t))
ends_with-append (c ∷ s) t = ground (arith, ends_with-append s t)

pub eq-append_of_ends_with : (s t : Text) → ends_with s t ≡ true → (u : Text) × (s ≡ u ++ t)
unfolding ends_with
eq-append_of_ends_with [] t h = ([], (===_iff [] t).0 h)
eq-append_of_ends_with (c ∷ s) t h = elim (Bool-cases ((c ∷ s) === t)) [
  | inl same ↦ ([], (===_iff (c ∷ s) t).0 same)
  | inr other ↦
      let (u, e) = eq-append_of_ends_with s t (ground arith) in (c ∷ u, ap (λ (v : Text). c ∷ v) e)
]

nil_of_length : (u : Text) → length u ≡ 0 → u ≡ []
nil_of_length [] h = refl
nil_of_length (c ∷ u) h = absurd (omega arith)

-- A suffix as long as the text is the text.
pub eq_of_ends_with : (s t : Text) → ends_with s t ≡ true → length s ≡ length t → s ≡ t
eq_of_ends_with s t h e =
    let (u, split) = eq-append_of_ends_with s t h in
    let short = nil_of_length u (omega (arith, length-append u t, ap length split)) in
    split ∙ ap (λ (v : Text). v ++ t) short

pub length-lower : (s : Text) → length (lower s) ≡ length s
unfolding lower
length-lower [] = refl
length-lower (c ∷ s) = ap suc (length-lower s)
