-- ===== src/RecordTypes/Tokens.antt =====
-- Values made of tokens with single spaces between them, and how they are split.
use api_to_dns.Prelude.{ℕ, zero, suc, ◌≤◌, ◌≡◌, refl, ap, ◌∙◌, ◌≢◌, List, [], ◌∷◌, ◌++◌, arith}
use api_to_dns.Text.{Text, is_space, drop_while, drop_while_end, strip, words, show}
use api_to_dns.Text.Strip.{
  Starts, Avoids, IsStripped, strip_of, drop_while_end-append, drop_while_end_fix, drop_while_fix,
}
use api_to_dns.Text.Split.{IsToken, words-append, words_of_IsToken}
use api_to_dns.Text.Decimal.{show-ne-nil, show-Avoids, int_of-show}
use api_to_dns.Fault.{ok}
use api_to_dns.RecordTypes.Rdata.{◌⊕◌, parse_uint, take_word, drop_word, split_words}

pub IsToken-show : (n : ℕ) → IsToken (show n)
IsToken-show n = (show-ne-nil n, show-Avoids n)

-- The end is no white space, and there is one.
abbrev pub IsClosed : Text → Type 0
IsClosed s = (s ≢ []) × (drop_while_end is_space s ≡ s)

pub IsClosed-of_IsToken : (s : Text) → IsToken s → IsClosed s
IsClosed-of_IsToken s (h, k) = (h, drop_while_end_fix is_space s k)

append-ne-nil : (t : Text) (c : ℕ) (u : Text) → (t ++ c ∷ u) ≢ []
append-ne-nil [] c u e = cc
append-ne-nil (d ∷ t) c u e = cc

pub IsClosed-⊕ : (t u : Text) → IsClosed u → IsClosed (t ⊕ u)
IsClosed-⊕ t [] h = absurd (h.0 refl)
IsClosed-⊕ t (d ∷ u) h = (
  append-ne-nil t b' ' (d ∷ u),
  drop_while_end-append is_space t b' ' (d ∷ u)
      (drop_while_end-append is_space (b' ' ∷ []) d u h.1),
)

pub ⊕-IsStripped : (t u : Text) → IsToken t → IsClosed u → IsStripped (t ⊕ u)
⊕-IsStripped [] u h k = absurd (h.0 refl)
⊕-IsStripped (c ∷ t) u h k = strip_of ((c ∷ t) ⊕ u) h.1.0 (IsClosed-⊕ (c ∷ t) u k).1

pub parse_uint-show :
    (n : ℕ) (field : Text) (maximum : ℕ) → n ≤ maximum → parse_uint (show n) field maximum ≡ ok n
unfolding parse_uint
parse_uint-show n field maximum h = rw (int_of-show n, parse_uint) (ground arith)

pub parse_uint-le :
    (token field : Text) (maximum n : ℕ) → parse_uint token field maximum ≡ ok n → n ≤ maximum
unfolding parse_uint
parse_uint-le token field maximum n h = ground arith

-- Two tokens, and four.
pub words-⊕ : (t u : Text) → IsToken t → IsToken u → words (strip (t ⊕ u)) ≡ t ∷ u ∷ []
words-⊕ t u h k =
    ap words (⊕-IsStripped t u h (IsClosed-of_IsToken u k))
    ∙ (words-append t u h ∙ ap (λ (ts : List Text). t ∷ ts) (words_of_IsToken u k))

pub words-⊕⊕⊕ :
    (t u v w : Text)
    → IsToken t
    → IsToken u
    → IsToken v
    → IsToken w
    → words (strip (t ⊕ u ⊕ v ⊕ w)) ≡ t ∷ u ∷ v ∷ w ∷ []
words-⊕⊕⊕ t u v w h i j k =
    ap words
      (⊕-IsStripped t (u ⊕ v ⊕ w) h (IsClosed-⊕ u _ (IsClosed-⊕ v w (IsClosed-of_IsToken w k))))
    ∙ simp (words-append t _ h, words-append u _ i, words-append v _ j, words_of_IsToken w k)

take_word-append : (t u : Text) → Avoids is_space t → take_word (t ⊕ u) ≡ t
unfolding take_word is_space
take_word-append [] u h = refl
take_word-append (c ∷ t) u h = rw h.0 (rw (take_word-append t u h.1))

drop_word-append : (t u : Text) → Avoids is_space t → drop_word (t ⊕ u) ≡ b' ' ∷ u
unfolding drop_word is_space
drop_word-append [] u h = refl
drop_word-append (c ∷ t) u h = rw h.0 (drop_word-append t u h.1)

split_words-token :
    (n : ℕ) (t u : Text) → IsToken t → split_words (suc n) (t ⊕ u) ≡ t ∷ split_words n (b' ' ∷ u)
unfolding split_words
split_words-token n [] u h = absurd (h.0 refl)
split_words-token n (c ∷ t) u h =
    rw (drop_while_fix is_space ((c ∷ t) ⊕ u) h.1.0, split_words)
      (rw (take_word-append (c ∷ t) u h.1, drop_word-append (c ∷ t) u h.1))

split_words-space : (n : ℕ) (s : Text) → split_words n (b' ' ∷ s) ≡ split_words n s
unfolding split_words drop_while is_space
split_words-space zero s = refl
split_words-space (suc n) s = refl

split_words-rest : (v : Text) → v ≢ [] → Starts is_space v → split_words 0 v ≡ v ∷ []
unfolding split_words
split_words-rest [] h k = absurd (h refl)
split_words-rest (c ∷ v) h k = rw (drop_while_fix is_space (c ∷ v) k, split_words)

-- Two tokens and a rest.
pub split_words-⊕⊕ :
    (t u v : Text)
    → IsToken t
    → IsToken u
    → IsClosed v
    → Starts is_space v
    → split_words 2 (strip (t ⊕ u ⊕ v)) ≡ t ∷ u ∷ v ∷ []
split_words-⊕⊕ t u v h i j k =
    ap (split_words 2) (⊕-IsStripped t (u ⊕ v) h (IsClosed-⊕ u v j))
    ∙ simp (
      split_words-token 1 t _ h,
      split_words-space,
      split_words-token 0 u _ i,
      split_words-rest v j.0 k,
    )
