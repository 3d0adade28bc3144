-- ===== src/Plugins/Quoting.antt =====
-- `ps_single_quoted` against the rule by which PowerShell reads a single-quoted literal: any of the
-- five characters that it takes for a single quote ends the literal, unless another one follows.
use api_to_dns.Prelude.{
  ℕ, ◌≡◌, refl, ap, ◌∙◌, ◌≢◌, inl, inr, Bool, true, false, ◌&&◌, ◌||◌, Option, none, some, [], ◌∷◌,
  ◌++◌, arith, leb, ◌==◌, Bool-cases, if◌then◌else◌,
}
use mathlib.Core.List.{append_assoc, append-nil}
use api_to_dns.Text.{Text}
use api_to_dns.Text.Strip.{Starts, Avoids}
use api_to_dns.Plugins.Names.{apostrophe, double_quotes, ps_single_quoted}

-- ' and the typographic single quotes U+2018 to U+201B
abbrev pub is_typographic : ℕ → Bool
is_typographic c = leb 8216 c && leb c 8219

abbrev pub is_quote : ℕ → Bool
is_quote c = c == apostrophe || is_typographic c

abbrev pub prepend : ℕ → Option (Text × Text) → Option (Text × Text)
prepend c none = none
prepend c (some (s, rest)) = some (c ∷ s, rest)

-- What a literal stands for, and the text behind it, from the character after its first quote.
unfoldable pub read_literal : Text → Option (Text × Text)
read_literal [] = none
read_literal (c ∷ []) = if is_quote c then some ([], []) else none
read_literal (c ∷ d ∷ s) =
    let doubled = prepend c (read_literal s) in
    let plain = prepend c (read_literal (d ∷ s)) in
    if is_quote c then (if is_quote d then doubled else some ([], d ∷ s)) else plain

abbrev prepend_all : Text → Option (Text × Text) → Option (Text × Text)
prepend_all [] r = r
prepend_all (c ∷ s) r = prepend c (prepend_all s r)

prepend_all-some : (s t rest : Text) → prepend_all s (some (t, rest)) ≡ some (s ++ t, rest)
prepend_all-some [] t rest = refl
prepend_all-some (c ∷ s) t rest = ap (prepend c) (prepend_all-some s t rest)

read_literal-plain :
    (c : ℕ) (s : Text)
    → s ≢ []
    → is_quote c ≡ false
    → read_literal (c ∷ s) ≡ prepend c (read_literal s)
unfolding read_literal
read_literal-plain c [] h k = absurd (h refl)
read_literal-plain c (d ∷ s) h k = ground arith

read_literal-doubled :
    (c : ℕ) (s : Text) → is_quote c ≡ true → read_literal (c ∷ c ∷ s) ≡ prepend c (read_literal s)
unfolding read_literal
read_literal-doubled c s h = rw h

append-ne-nil : (s : Text) (d : ℕ) (t : Text) → (s ++ d ∷ t) ≢ []
append-ne-nil [] d t e = cc
append-ne-nil (c ∷ s) d t e = cc

-- Text without typographic quotes is read back, whatever follows it.
read_literal-double_quotes :
    (s : Text) (d : ℕ) (t : Text)
    → Avoids is_typographic s
    → read_literal (double_quotes s ++ d ∷ t) ≡ prepend_all s (read_literal (d ∷ t))
unfolding double_quotes
read_literal-double_quotes [] d t h = refl
read_literal-double_quotes (c ∷ s) d t h = elim (Bool-cases (c == apostrophe)) [
  | inl quote ↦ rw quote (
      read_literal-doubled c (double_quotes s ++ d ∷ t) (ground arith)
      ∙ ap (prepend c) (read_literal-double_quotes s d t h.1))
  | inr other ↦ rw other (
      read_literal-plain c (double_quotes s ++ d ∷ t) (append-ne-nil (double_quotes s) d t)
        (ground arith)
      ∙ ap (prepend c) (read_literal-double_quotes s d t h.1))
]

read_literal-end :
    (d : ℕ) (t : Text) → is_quote d ≡ true → Starts is_quote t → read_literal (d ∷ t) ≡ some ([], t)
unfolding read_literal
read_literal-end d [] h k = ground arith
read_literal-end d (e ∷ t) h k = ground arith

-- The reader starts behind the opening quote.
unfoldable pub read_quoted : Text → Option (Text × Text)
read_quoted [] = none
read_quoted (c ∷ s) = if is_quote c then read_literal s else none

double_quotes-append : (s t : Text) → double_quotes (s ++ t) ≡ double_quotes s ++ double_quotes t
unfolding double_quotes
double_quotes-append [] t = refl
double_quotes-append (c ∷ s) t = ground (arith, double_quotes-append s t)

-- What a literal whose text is `s` and whose end is `d` stands for.
read_literal-text :
    (s : Text) (d : ℕ) (rest : Text)
    → Avoids is_typographic s
    → is_quote d ≡ true
    → Starts is_quote rest
    → read_literal (double_quotes s ++ d ∷ rest) ≡ some (s, rest)
read_literal-text s d rest h q k =
    read_literal-double_quotes s d rest h
    ∙ (ap (prepend_all s) (read_literal-end d rest q k)
        ∙ (prepend_all-some s [] rest ∙ ap (λ (t : Text). some (t, rest)) (append-nil s)))

double_quotes-typographic :
    (c : ℕ) (t : Text) → is_typographic c ≡ true → double_quotes (c ∷ t) ≡ c ∷ double_quotes t
unfolding double_quotes
double_quotes-typographic c t h = ground arith

quoted_rest-Starts :
    (t : Text) → Starts is_quote t → t ≢ [] → Starts is_quote (double_quotes t ++ apostrophe ∷ [])
unfolding double_quotes
quoted_rest-Starts [] k filled = absurd (filled refl)
quoted_rest-Starts (c ∷ t) k filled = elim (Bool-cases (c == apostrophe)) [
  | inl quote ↦ rw quote k
  | inr other ↦ rw other k
]

-- where the typographic quote stands in the quoted text
quoted_split :
    (s t : Text) (c : ℕ)
    → is_typographic c ≡ true
    → double_quotes (s ++ c ∷ t) ++ apostrophe ∷ []
      ≡ double_quotes s ++ c ∷ (double_quotes t ++ apostrophe ∷ [])
quoted_split s t c h =
    ap (λ (u : Text). u ++ apostrophe ∷ [])
      (double_quotes-append s (c ∷ t)
        ∙ ap (λ (u : Text). double_quotes s ++ u) (double_quotes-typographic c t h))
    ∙ append_assoc (double_quotes s) (c ∷ double_quotes t) (apostrophe ∷ [])

-- A text without typographic quotes comes back from its literal, and what follows the literal, which
-- does not start with a quote, is left as it was.
pub read_quoted-ps_single_quoted :
    (s rest : Text)
    → Avoids is_typographic s
    → Starts is_quote rest
    → read_quoted (ps_single_quoted s ++ rest) ≡ some (s, rest)
unfolding read_quoted ps_single_quoted
read_quoted-ps_single_quoted s rest h k =
    rw (append_assoc (double_quotes s) (apostrophe ∷ []) rest)
      (read_literal-text s apostrophe rest h refl k)

-- With a typographic quote in it the literal of a text ends there: what stands behind the quote,
-- unless it is one more quote, is read as the script that follows.
pub ps_single_quoted_ends_early :
    (s t : Text) (c : ℕ)
    → Avoids is_typographic s
    → is_typographic c ≡ true
    → Starts is_quote t
    → t ≢ []
    → read_quoted (ps_single_quoted (s ++ c ∷ t)) ≡ some (s, double_quotes t ++ apostrophe ∷ [])
unfolding read_quoted ps_single_quoted
ps_single_quoted_ends_early s t c h typographic k filled =
    rw (quoted_split s t c typographic)
      (read_literal-text s c _ h (ground arith) (quoted_rest-Starts t k filled))
