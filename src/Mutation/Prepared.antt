-- ===== src/Mutation/Prepared.antt =====
-- `prepare_mutation` of src/dns_mutation.py: what a change that was prepared holds.
use api_to_dns.Prelude.{
  ℕ, ◌≤◌, ◌≡◌, refl, sym, ap, ◌∙◌, ◌≢◌, inl, inr, Bool, true, false, not, Option, none, some, List,
  [], ◌∷◌, arith, leb, length, Bool-cases, if◌then◌else◌, ◌||◌, ◌==◌, every,
}
use api_to_dns.Text.Equal.{===_iff, every-contains}
use api_to_dns.Text.{Text, ℤ, nonnegative, negative, is_empty, strip, contains, ◌===◌, text_runs}
use api_to_dns.Fault.{ok, require, >>=-eq-ok, require-eq-ok}
use api_to_dns.RecordTypes.{
  mutable_record_types, lookup_record_types, single_value_types, max_ttl, clean_type,
  normalize_mutable_record_type, guard_mutation_allowed, validate_ttl, normalize_record_value, each,
  normalize_record_values,
}
use api_to_dns.Mutation.{PreparedMutation, list_or_empty, prepare_named, prepare_mutation}

-- Each value is the normal form of the one at its place.
abbrev pub NormalForms : Text → List Text → List Text → Type 0
NormalForms rt [] [] = Unit
NormalForms rt [] (w ∷ ws) = ⊥
NormalForms rt (v ∷ vs) [] = ⊥
NormalForms rt (v ∷ vs) (w ∷ ws) = (normalize_record_value rt v ≡ ok w) × NormalForms rt vs ws

-- The TTL is the one given, within its bounds, or the default.
abbrev pub TtlOf : Option ℤ → Bool → ℕ → Type 0
TtlOf none required n = (required ≡ false) × (n ≡ 300)
TtlOf (some (negative m)) required n = ⊥
TtlOf (some (nonnegative m)) required n = (n ≡ m) × (n ≤ max_ttl)

abbrev pub ValuesOf : Text → Option (List Text) → Bool → List Text → Type 0
ValuesOf rt values false ws = ws ≡ []
ValuesOf rt values true ws = NormalForms rt (list_or_empty values) ws × (ws ≢ [])

pub record Prepared (record_name record_type : Text) (ttl : Option ℤ) (values : Option (List Text))
    (dns_zone : Option Text) (require_values require_ttl : Bool) (p : PreparedMutation)
    : Type 0 where
  pub name : p.record_name ≡ strip record_name
  pub named : is_empty p.record_name ≡ false
  pub rtype : p.record_type ≡ clean_type record_type
  pub mutable : contains mutable_record_types p.record_type ≡ true
  pub allowed : guard_mutation_allowed p.record_name p.record_type dns_zone ≡ ok tt
  pub ttl_of : TtlOf ttl require_ttl p.ttl
  pub values_of : ValuesOf p.record_type values require_values p.values

ok-inj : {A : Type 0} {x y : A} → ok x ≡ ok y → x ≡ y
ok-inj h = cc

each-NormalForms :
    (rt : Text) (vs ws : List Text)
    → each (normalize_record_value rt) vs ≡ ok ws
    → NormalForms rt vs ws
unfolding each
each-NormalForms rt [] [] h = tt
each-NormalForms rt [] (w ∷ ws) h = let clash : [] ≡ w ∷ ws = ok-inj h in cc
each-NormalForms rt (v ∷ vs) ws h =
    let (w, first, more) = >>=-eq-ok (normalize_record_value rt v) _ h in
    let (us, rest, last) = >>=-eq-ok (each (normalize_record_value rt) vs) _ more in
    rw (← ok-inj last) (first, each-NormalForms rt vs us rest)

validate_ttl-TtlOf :
    (ttl : Option ℤ) (required : Bool) (n : ℕ)
    → validate_ttl ttl required ≡ ok n
    → TtlOf ttl required n
unfolding validate_ttl
validate_ttl-TtlOf none required n h = ground arith
validate_ttl-TtlOf (some (negative m)) required n h = ground arith
validate_ttl-TtlOf (some (nonnegative m)) required n h = ground arith

normalize_mutable_record_type-eq-ok :
    (record_type rt : Text)
    → normalize_mutable_record_type record_type ≡ ok rt
    → (rt ≡ clean_type record_type) × (contains mutable_record_types rt ≡ true)
unfolding normalize_mutable_record_type
normalize_mutable_record_type-eq-ok record_type rt h =
    elim (Bool-cases (contains mutable_record_types (clean_type record_type))) [
      | inl e ↦
          let same : clean_type record_type ≡ rt = ok-inj (rw e at h) in
          (sym same, ap (contains mutable_record_types) (sym same) ∙ e)
      | inr e ↦ ground arith
    ]

NormalForms-filled :
    (rt : Text) (vs ws : List Text) → NormalForms rt vs ws → 1 ≤ length vs → ws ≢ []
NormalForms-filled rt [] ws h k = absurd (omega arith)
NormalForms-filled rt (v ∷ vs) [] h k = absurd h
NormalForms-filled rt (v ∷ vs) (w ∷ ws) h k = λ e. cc

mutable_clean : every (λ t. clean_type t === t) mutable_record_types ≡ true
unfolding every clean_type text_runs
mutable_clean = refl

normalize_record_values-NormalForms :
    (rt : Text) (vs ws : List Text)
    → contains mutable_record_types rt ≡ true
    → normalize_record_values rt vs ≡ ok ws
    → NormalForms rt vs ws × (ws ≢ [])
unfolding normalize_record_values
normalize_record_values-NormalForms rt vs ws m h =
    let clean : clean_type rt ≡ rt =
      (===_iff (clean_type rt) rt).0
        (every-contains (λ t. clean_type t === t) mutable_record_types rt mutable_clean m) in
    let (_, known, h1) = >>=-eq-ok (require (contains lookup_record_types (clean_type rt)) _) _ h in
    let (_, some_value, h2) = >>=-eq-ok (require (leb 1 (length vs)) _) _ h1 in
    let (_, single, h3) =
      >>=-eq-ok (require (not (contains single_value_types (clean_type rt)) || length vs == 1) _) _
        h2 in
    let forms =
      each-NormalForms rt vs ws
        (ap (λ (t : Text). each (normalize_record_value t) vs) (sym clean) ∙ h3) in
    (
      forms,
      NormalForms-filled rt vs ws forms
          (ground (arith, require-eq-ok (leb 1 (length vs)) _ some_value)),
    )

values-ValuesOf :
    (rt : Text) (values : Option (List Text)) (required : Bool) (ws : List Text)
    → contains mutable_record_types rt ≡ true
    → (if required then normalize_record_values rt (list_or_empty values) else ok []) ≡ ok ws
    → ValuesOf rt values required ws
values-ValuesOf rt values false ws m h = sym (ok-inj h)
values-ValuesOf rt values true ws m h =
    normalize_record_values-NormalForms rt (list_or_empty values) ws m h

named-Prepared :
    (name record_name record_type : Text) (ttl : Option ℤ) (values : Option (List Text))
    (dns_zone : Option Text) (require_values require_ttl : Bool) (p : PreparedMutation)
    → name ≡ strip record_name
    → is_empty name ≡ false
    → prepare_named name record_type ttl values dns_zone require_values require_ttl ≡ ok p
    → Prepared record_name record_type ttl values dns_zone require_values require_ttl p
named-Prepared name record_name record_type ttl values dns_zone require_values require_ttl p same
      filled h =
    let (rt, typed, h1) = >>=-eq-ok (normalize_mutable_record_type record_type) _ h in
    let (_, passed, h2) = >>=-eq-ok (guard_mutation_allowed name rt dns_zone) _ h1 in
    let (n, timed, h3) = >>=-eq-ok (validate_ttl ttl require_ttl) _ h2 in
    let (ws, valued, h4) =
      >>=-eq-ok
        (if require_values then normalize_record_values rt (list_or_empty values) else ok []) _
        h3 in
    let (cleaned, mutable) = normalize_mutable_record_type-eq-ok record_type rt typed in
    rw (← ok-inj h4) (record {
      name = same;
      named = filled;
      rtype = cleaned;
      mutable = mutable;
      allowed = passed;
      ttl_of = validate_ttl-TtlOf ttl require_ttl n timed;
      values_of = values-ValuesOf rt values require_values ws mutable valued;
    })

-- A change that is prepared has the cleaned name, which is not empty, and the cleaned type, which is
-- one of the mutable types; the guard lets it through; its TTL is the one given, at most the
-- maximum, or 300 where it may be left out; and its values, where they are wanted, are the normal
-- forms of the values given, of which there is one at least; where they are not wanted there are none.
pub prepare_mutation-Prepared :
    (record_name record_type : Text) (ttl : Option ℤ) (values : Option (List Text))
    (dns_zone : Option Text) (require_values require_ttl : Bool) (p : PreparedMutation)
    → prepare_mutation record_name record_type ttl values dns_zone require_values require_ttl ≡ ok p
    → Prepared record_name record_type ttl values dns_zone require_values require_ttl p
unfolding prepare_mutation
prepare_mutation-Prepared record_name record_type ttl values dns_zone require_values require_ttl p
      h =
    elim (Bool-cases (is_empty (strip record_name))) [
      | inl e ↦ ground (arith, e)
      | inr e ↦
          named-Prepared (strip record_name) record_name record_type ttl values dns_zone
            require_values require_ttl p refl e (rw (e, prepare_mutation) at h)
    ]
