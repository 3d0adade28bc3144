-- ===== src/Text/Strip.antt =====
-- `strip` and `rstrip(".")`.
use mathlib.Core.Path.{subst}
use api_to_dns.Prelude.{
  ℕ, ◌≡◌, refl, ap, Bool, false, inl, inr, [], ◌∷◌, ◌++◌, All, arith, Bool-cases,
}
use api_to_dns.Text.{
  Text, keep_end, drop_while, drop_while_end, strip, rstrip_dot, is_space, is_dot, lower, upper,
  lower_char, upper_char,
}

-- The first character, if there is one, is not dropped.
abbrev pub Starts : (ℕ → Bool) → Text → Type 0
Starts p [] = Unit
Starts p (c ∷ s) = p c ≡ false

abbrev pub Avoids : (ℕ → Bool) → Text → Type 0
Avoids p s = All (λ c. p c ≡ false) s

module _ (p : ℕ → Bool) where
  pub drop_while-Starts : (s : Text) → Starts p (drop_while p s)
  unfolding drop_while
  drop_while-Starts [] = tt
  drop_while-Starts (c ∷ s) = elim (Bool-cases (p c)) [
    | inl drop ↦ rw drop (drop_while-Starts s)
    | inr stay ↦ rw stay stay
  ]

  pub drop_while_fix : (s : Text) → Starts p s → drop_while p s ≡ s
  unfolding drop_while
  drop_while_fix [] h = refl
  drop_while_fix (c ∷ s) h = rw h

  keep_end-Starts : (c : ℕ) (s : Text) → p c ≡ false → Starts p (keep_end p c s)
  keep_end-Starts c [] h = rw h h
  keep_end-Starts c (d ∷ s) h = h

  pub drop_while_end-Starts : (s : Text) → Starts p s → Starts p (drop_while_end p s)
  unfolding drop_while_end
  drop_while_end-Starts [] h = tt
  drop_while_end-Starts (c ∷ s) h = keep_end-Starts c (drop_while_end p s) h

  keep_end_idem :
      (c : ℕ) (s : Text)
      → drop_while_end p s ≡ s
      → drop_while_end p (keep_end p c s) ≡ keep_end p c s
  unfolding drop_while_end
  keep_end_idem c [] h = ground arith
  keep_end_idem c (d ∷ s) h = ap (keep_end p c) h

  pub drop_while_end_idem : (s : Text) → drop_while_end p (drop_while_end p s) ≡ drop_while_end p s
  unfolding drop_while_end
  drop_while_end_idem [] = refl
  drop_while_end_idem (c ∷ s) = keep_end_idem c (drop_while_end p s) (drop_while_end_idem s)

  pub drop_while_end_fix : (s : Text) → Avoids p s → drop_while_end p s ≡ s
  unfolding drop_while_end
  drop_while_end_fix [] h = refl
  drop_while_end_fix (c ∷ []) h = rw h.0
  drop_while_end_fix (c ∷ d ∷ s) h = rw (drop_while_end_fix (d ∷ s) h.1)

  -- What follows decides where the end is.
  pub drop_while_end-append :
      (s : Text) (d : ℕ) (t : Text)
      → drop_while_end p (d ∷ t) ≡ d ∷ t
      → drop_while_end p (s ++ d ∷ t) ≡ s ++ d ∷ t
  unfolding drop_while_end
  drop_while_end-append [] d t h = h
  drop_while_end-append (c ∷ []) d t h = rw h
  drop_while_end-append (c ∷ e ∷ s) d t h = rw (drop_while_end-append (e ∷ s) d t h)

-- The text neither begins nor ends with white space.
abbrev pub IsStripped : Text → Type 0
IsStripped s = strip s ≡ s

pub strip_of : (s : Text) → Starts is_space s → drop_while_end is_space s ≡ s → IsStripped s
unfolding strip
strip_of s h e = rw (drop_while_fix is_space s h, e)

pub strip-IsStripped : (s : Text) → IsStripped (strip s)
unfolding strip
strip-IsStripped s =
    strip_of _ (drop_while_end-Starts is_space _ (drop_while-Starts is_space s))
      (drop_while_end_idem is_space _)

pub Starts-of_IsStripped : (s : Text) → IsStripped s → Starts is_space s
unfolding strip
Starts-of_IsStripped s h =
    subst (Starts is_space) h (drop_while_end-Starts is_space _ (drop_while-Starts is_space s))

pub end_of_IsStripped : (s : Text) → IsStripped s → drop_while_end is_space s ≡ s
unfolding strip
end_of_IsStripped s h =
    subst (λ (t : Text). drop_while_end is_space t ≡ t) h
      (drop_while_end_idem is_space (drop_while is_space s))

Avoids-Starts : (s : Text) → Avoids is_space s → Starts is_space s
Avoids-Starts [] h = tt
Avoids-Starts (c ∷ s) h = h.0

pub strip_fix : (s : Text) → Avoids is_space s → IsStripped s
strip_fix s h = strip_of s (Avoids-Starts s h) (drop_while_end_fix is_space s h)

pub rstrip_dot_idem : (s : Text) → rstrip_dot (rstrip_dot s) ≡ rstrip_dot s
unfolding rstrip_dot
rstrip_dot_idem s = drop_while_end_idem is_dot s

lower_char_idem : (c : ℕ) → lower_char (lower_char c) ≡ lower_char c
unfolding lower_char
lower_char_idem c = ground arith

pub lower_idem : (s : Text) → lower (lower s) ≡ lower s
unfolding lower
lower_idem [] = refl
lower_idem (c ∷ s) = cc (lower_char_idem c, lower_idem s)

upper_char_idem : (c : ℕ) → upper_char (upper_char c) ≡ upper_char c
unfolding upper_char
upper_char_idem c = ground arith

pub upper_idem : (s : Text) → upper (upper s) ≡ upper s
unfolding upper
upper_idem [] = refl
upper_idem (c ∷ s) = cc (upper_char_idem c, upper_idem s)
