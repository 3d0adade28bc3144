-- ===== src/Text/Split.antt =====
-- `split`, `split()` and `join`, against each other.
use mathlib.Core.List.{reverse, reverse_aux, reverse-reverse, append-nil}
use api_to_dns.Prelude.{
  ℕ, ◌≡◌, refl, sym, ap, ◌∙◌, ◌≢◌, inl, inr, List, [], ◌∷◌, ◌++◌, All, All-reverse_aux, ◌==◌, arith,
  Bool-cases,
}
use api_to_dns.Text.{Text, is_space, split_from, split, close, words_from, words, join}
use api_to_dns.Text.Strip.{Avoids}

abbrev pub IsToken : Text → Type 0
IsToken t = (t ≢ []) × Avoids is_space t

close-reversed :
    (r : Text) (t : Text) (ts : List Text) → reverse r ≡ t → t ≢ [] → close r ts ≡ t ∷ ts
close-reversed [] t ts e h = absurd (h (sym e))
close-reversed (c ∷ r) t ts e h = ap (λ (u : Text). u ∷ ts) e

words_from-append :
    (word t s : Text)
    → Avoids is_space t
    → words_from word (t ++ s) ≡ words_from (reverse_aux t word) s
unfolding words_from
words_from-append word [] s h = refl
words_from-append word (c ∷ t) s h = rw h.0 (words_from-append (c ∷ word) t s h.1)

-- A token and a space in front of a text are one more word.
pub words-append : (t s : Text) → IsToken t → words (t ++ b' ' ∷ s) ≡ t ∷ words s
unfolding words words_from is_space
words-append t s (h, k) =
    words_from-append [] t (b' ' ∷ s) k ∙ close-reversed (reverse t) t _ (reverse-reverse t) h

pub words_of_IsToken : (t : Text) → IsToken t → words t ≡ t ∷ []
unfolding words words_from
words_of_IsToken t (h, k) =
    ap words (sym (append-nil t))
    ∙ (words_from-append [] t [] k ∙ close-reversed (reverse t) t [] (reverse-reverse t) h)

reverse-ne-nil : (c : ℕ) (word : Text) → reverse (c ∷ word) ≢ []
reverse-ne-nil c word e = let p = sym (reverse-reverse (c ∷ word)) ∙ ap reverse e in cc p

close-All :
    (word : Text) (ts : List Text)
    → Avoids is_space word
    → All IsToken ts
    → All IsToken (close word ts)
close-All [] ts h k = k
close-All (c ∷ word) ts h k = ((reverse-ne-nil c word, All-reverse_aux _ (c ∷ word) [] h tt), k)

words_from-IsToken : (word s : Text) → Avoids is_space word → All IsToken (words_from word s)
unfolding words_from
words_from-IsToken word [] h = close-All word [] h tt
words_from-IsToken word (c ∷ s) h = elim (Bool-cases (is_space c)) [
  | inl space ↦ rw space (close-All word _ h (words_from-IsToken [] s tt))
  | inr other ↦ rw other (words_from-IsToken (c ∷ word) s (other, h))
]

-- No word is empty or holds white space.
pub words-IsToken : (s : Text) → All IsToken (words s)
unfolding words
words-IsToken s = words_from-IsToken [] s tt

module _ (sep : ℕ) where
  abbrev pub Unsplit : Text → Type 0
  Unsplit t = Avoids (λ c. c == sep) t

  split_from-append :
      (word t s : Text)
      → Unsplit t
      → split_from sep word (t ++ s) ≡ split_from sep (reverse_aux t word) s
  unfolding split_from
  split_from-append word [] s h = refl
  split_from-append word (c ∷ t) s h = rw h.0 (split_from-append (c ∷ word) t s h.1)

  split_one : (t : Text) → Unsplit t → split sep t ≡ t ∷ []
  unfolding split split_from
  split_one t h =
      ap (split sep) (sym (append-nil t))
      ∙ (split_from-append [] t [] h ∙ ap (λ (u : Text). u ∷ []) (reverse-reverse t))

  split-append : (t s : Text) → Unsplit t → split sep (t ++ sep ∷ s) ≡ t ∷ split sep s
  unfolding split split_from
  split-append t s h = split_from-append [] t (sep ∷ s) h ∙ ground (arith, reverse-reverse t)

  pub split-join :
      (t : Text) (ts : List Text)
      → All Unsplit (t ∷ ts)
      → split sep (join (sep ∷ []) (t ∷ ts)) ≡ t ∷ ts
  unfolding join
  split-join t [] h = split_one t h.0
  split-join t (u ∷ ts) h =
      split-append t _ h.0 ∙ ap (λ (us : List Text). t ∷ us) (split-join u ts h.1)
