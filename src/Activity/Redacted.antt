-- ===== src/Activity/Redacted.antt =====
-- What redaction leaves of an event's details.
use api_to_dns.Prelude.{
  ℕ, zero, suc, ◌+◌, ◌≤◌, ◌≡◌, refl, ap, inl, inr, true, [], ◌∷◌, ◌++◌, ltb, length, take,
  length-append, length-take_le, arith, Bool-cases,
}
use api_to_dns.Text.{Text}
use api_to_dns.Activity.Redaction.{
  capped_at, Details, scalar, text, array, dict, Items, nil, cons, Fields, end, field,
  details_byte_cap, redacted, truncation_mark, key_is_sensitive, redact_details, redact_items,
  redact_fields,
}

-- No text is longer than the cap and the mark behind it, and a sensitive key has the placeholder only.
mutual
  pub IsSafe : Details → Type 0
  IsSafe (scalar s) = Unit
  IsSafe (text s) = length s ≤ details_byte_cap + length truncation_mark
  IsSafe (array items) = AreSafe items
  IsSafe (dict fields) = HasSafe fields

  pub AreSafe : Items → Type 0
  AreSafe nil = Unit
  AreSafe (cons d items) = IsSafe d × AreSafe items

  pub HasSafe : Fields → Type 0
  HasSafe end = Unit
  HasSafe (field key d fields) =
      IsSafe d × (key_is_sensitive key ≡ true → d ≡ text redacted) × HasSafe fields

-- No text is longer than the cap, and a sensitive key has the placeholder only.
mutual
  pub IsClean : Details → Type 0
  IsClean (scalar s) = Unit
  IsClean (text s) = length s ≤ details_byte_cap
  IsClean (array items) = AreClean items
  IsClean (dict fields) = HasClean fields

  pub AreClean : Items → Type 0
  AreClean nil = Unit
  AreClean (cons d items) = IsClean d × AreClean items

  pub HasClean : Fields → Type 0
  HasClean end = Unit
  HasClean (field key d fields) =
      IsClean d × (key_is_sensitive key ≡ true → d ≡ text redacted) × HasClean fields

length-capped_at : (cap : ℕ) (s : Text) → length (capped_at cap s) ≤ cap + length truncation_mark
unfolding capped_at
length-capped_at cap s = elim (Bool-cases (ltb cap (length s))) [
  | inl e ↦ rw e (omega (arith, length-append (take cap s) truncation_mark, length-take_le cap s))
  | inr e ↦ rw e (ground arith)
]

capped_at_fix : (cap : ℕ) (s : Text) → length s ≤ cap → capped_at cap s ≡ s
unfolding capped_at
capped_at_fix cap s h = ground arith

take-take : (n : ℕ) (s t : Text) → n ≤ length s → take n (take n s ++ t) ≡ take n s
take-take zero s t h = refl
take-take (suc n) [] t h = absurd (omega arith)
take-take (suc n) (c ∷ s) t h = ap (λ (u : Text). c ∷ u) (take-take n s t (omega arith))

length-take : (n : ℕ) (s : Text) → n ≤ length s → length (take n s) ≡ n
length-take zero s h = refl
length-take (suc n) [] h = absurd (omega arith)
length-take (suc n) (c ∷ s) h = ap suc (length-take n s (omega arith))

-- A text that is cut is cut in the same place again.
capped_at_long :
    (cap : ℕ) (s : Text)
    → ltb cap (length s) ≡ true
    → ltb cap (length (take cap s ++ truncation_mark)) ≡ true
capped_at_long cap s h =
    ground (arith, length-append (take cap s) truncation_mark, length-take cap s)

capped_at_idem : (cap : ℕ) (s : Text) → capped_at cap (capped_at cap s) ≡ capped_at cap s
unfolding capped_at
capped_at_idem cap s = elim (Bool-cases (ltb cap (length s))) [
  | inl e ↦
      rw (e, capped_at_long cap s e)
        (ap (λ (t : Text). t ++ truncation_mark) (take-take cap s truncation_mark (ground arith)))
  | inr e ↦ rw (e, e)
]

mutual
  unfolding IsSafe redact_details

  redact_details-IsSafe : (d : Details) → IsSafe (redact_details d)
  redact_details-IsSafe (scalar s) = tt
  redact_details-IsSafe (text s) = length-capped_at details_byte_cap s
  redact_details-IsSafe (array items) = redact_items-AreSafe items
  redact_details-IsSafe (dict fields) = redact_fields-HasSafe fields

  redact_items-AreSafe : (items : Items) → AreSafe (redact_items items)
  redact_items-AreSafe nil = tt
  redact_items-AreSafe (cons d items) = (redact_details-IsSafe d, redact_items-AreSafe items)

  redact_fields-HasSafe : (fields : Fields) → HasSafe (redact_fields fields)
  redact_fields-HasSafe end = tt
  redact_fields-HasSafe (field key d fields) = elim (Bool-cases (key_is_sensitive key)) [
    | inl e ↦ rw e (omega arith, (λ _. refl), redact_fields-HasSafe fields)
    | inr e ↦ rw e (redact_details-IsSafe d, (λ k. cc), redact_fields-HasSafe fields)
  ]

mutual
  unfolding redact_details

  redact_details_idem : (d : Details) → redact_details (redact_details d) ≡ redact_details d
  redact_details_idem (scalar s) = refl
  redact_details_idem (text s) = ap text (capped_at_idem details_byte_cap s)
  redact_details_idem (array items) = ap array (redact_items_idem items)
  redact_details_idem (dict fields) = ap dict (redact_fields_idem fields)

  redact_items_idem : (items : Items) → redact_items (redact_items items) ≡ redact_items items
  redact_items_idem nil = refl
  redact_items_idem (cons d items) = rw (redact_details_idem d, redact_items_idem items)

  redact_fields_idem :
      (fields : Fields) → redact_fields (redact_fields fields) ≡ redact_fields fields
  redact_fields_idem end = refl
  redact_fields_idem (field key d fields) = elim (Bool-cases (key_is_sensitive key)) [
    | inl e ↦ rw (e, redact_fields_idem fields)
    | inr e ↦ rw (e, redact_details_idem d, redact_fields_idem fields)
  ]

mutual
  unfolding IsClean redact_details

  redact_details_fix : (d : Details) → IsClean d → redact_details d ≡ d
  redact_details_fix (scalar s) h = refl
  redact_details_fix (text s) h = ap text (capped_at_fix details_byte_cap s h)
  redact_details_fix (array items) h = ap array (redact_items_fix items h)
  redact_details_fix (dict fields) h = ap dict (redact_fields_fix fields h)

  redact_items_fix : (items : Items) → AreClean items → redact_items items ≡ items
  redact_items_fix nil h = refl
  redact_items_fix (cons d items) h = rw (redact_details_fix d h.0, redact_items_fix items h.1)

  redact_fields_fix : (fields : Fields) → HasClean fields → redact_fields fields ≡ fields
  redact_fields_fix end h = refl
  redact_fields_fix (field key d fields) h = elim (Bool-cases (key_is_sensitive key)) [
    | inl e ↦ rw (e, redact_fields_fix fields h.2, h.1 e)
    | inr e ↦ rw (e, redact_fields_fix fields h.2, redact_details_fix d h.0)
  ]

-- Whatever the details, after redaction a sensitive key has the placeholder only, at any depth, and no
-- text is longer than the cap and the mark; a second redaction changes nothing.
pub redact_details-IsSafe_idem :
    (d : Details)
    → IsSafe (redact_details d) × (redact_details (redact_details d) ≡ redact_details d)
redact_details-IsSafe_idem d = (redact_details-IsSafe d, redact_details_idem d)

-- Details without a text above the cap, and without a sensitive key that has anything but the placeholder,
-- are left as they are.
pub redact_details-clean : (d : Details) → IsClean d → redact_details d ≡ d
redact_details-clean d h = redact_details_fix d h
