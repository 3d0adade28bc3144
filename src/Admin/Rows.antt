-- ===== src/Admin/Rows.antt =====
-- The rows of the API keys and of their zones: what changes of them keep.
use mathlib.Core.Path.{subst}
use api_to_dns.Prelude.{
  ◌≡◌, refl, ap, ◌∙◌, ℕ, Bool, true, false, ◌&&◌, ◌||◌, none, some, List, [], ◌∷◌, ◌++◌, inl, inr,
  arith, All, some_of, find_first, find_first-cons, Bool-cases, ◌==◌,
}
use api_to_dns.Text.{Text, ◌===◌}
use api_to_dns.Text.Equal.{eq_of_===, ===_refl}
use api_to_dns.Api.{ApiKey}
use api_to_dns.Admin.{set_key}

module _ {A : Type 0} (p : A → Bool) where
  pub some_of-append : (xs ys : List A) → some_of p (xs ++ ys) ≡ (some_of p xs || some_of p ys)
  unfolding some_of
  some_of-append [] ys = refl
  some_of-append (x ∷ xs) ys = ground (arith, some_of-append xs ys)

  pub All-none_of : (xs : List A) → some_of p xs ≡ false → All (λ x. p x ≡ false) xs
  unfolding some_of
  All-none_of [] h = tt
  All-none_of (x ∷ xs) h = (ground arith, All-none_of xs (ground arith))

  pub find_first-none : (xs : List A) → All (λ x. p x ≡ false) xs → find_first p xs ≡ none
  unfolding find_first
  find_first-none [] h = refl
  find_first-none (x ∷ xs) h = rw (h.0) (find_first-none xs h.1)

  pub All-find_first :
      (P : A → Type 0) (xs : List A) {y : A} → All P xs → find_first p xs ≡ some y → P y
  unfolding find_first
  All-find_first P [] h e = cc
  All-find_first P (x ∷ xs) h e = elim (find_first-cons p x xs e) [
    | inl k ↦ subst P (k.1) (h.0)
    | inr k ↦ All-find_first P xs h.1 (k.1)
  ]

-- two texts in either order
pub ===_comm_false : (s t : Text) → (s === t) ≡ false → (t === s) ≡ false
===_comm_false s t h = elim (Bool-cases (t === s)) [
  | inl e ↦
      let same : t ≡ s = eq_of_=== t s e in
      let back : (s === t) ≡ true = ap (λ (u : Text). s === u) same ∙ ===_refl s in cc
  | inr e ↦ e
]

pub set_key-All :
    (P : ApiKey → Type 0) (key_id : ℕ) (f : ApiKey → ApiKey) (keys : List ApiKey)
    → ((k : ApiKey) → P k → P (f k))
    → All P keys
    → All P (set_key key_id f keys)
unfolding set_key
set_key-All P key_id f [] step h = tt
set_key-All P key_id f (k ∷ keys) step h = elim (Bool-cases (k.id == key_id)) [
  | inl e ↦ rw e (step k (h.0), set_key-All P key_id f keys step h.1)
  | inr e ↦ rw e (h.0, set_key-All P key_id f keys step h.1)
]

-- No two rows have one digest, as the constraint on the column `key` demands.
abbrev pub IsDistinct : List ApiKey → Type 0
IsDistinct [] = Unit
IsDistinct (k ∷ keys) = All (λ (j : ApiKey). (k.key === j.key) ≡ false) keys × IsDistinct keys

-- a row that is not in force for a digest
abbrev pub IsIdle : Text → ApiKey → Type 0
IsIdle key_digest k = (k.key === key_digest && k.active) ≡ false
