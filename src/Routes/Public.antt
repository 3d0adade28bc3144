-- ===== src/Routes/Public.antt =====
-- The routes of src/routes/dns_api.py: which records the holder of an API key can change.
use api_to_dns.Prelude.{◌≡◌, refl, sym, ◌⊎◌, inl, inr, true, arith, Bool-cases}
use api_to_dns.Text.{Text, contains}
use api_to_dns.Fault.{Fault, Result, ok, err, >>=-eq-ok}
use api_to_dns.RecordTypes.{public_record_types, clean_type, normalize_public_record_type}
use api_to_dns.Provider.{Client, Settings, text_or_empty}
use api_to_dns.RateLimit.{api_key_from_headers}
use api_to_dns.Api.{Tables, World, Answer, Request}
use api_to_dns.Api.Authority.{Authorised, apply_dns_mutation-Authorised}
use api_to_dns.Routes.{
  CreateRequest, ReplaceRequest, PatchRequest, DeleteQuery, Headers, Call, post, put, patch_call,
  delete_call, validate_create, validate_replace, validate_patch, create_args, replace_args,
  patch_args, delete_args, run, checked, typed, create_dns_record, replace_dns_record,
  patch_dns_record, delete_dns_record, handle,
}

abbrev pub type_of : Call → Text
type_of (post p) = p.record_type
type_of (put p) = p.record_type
type_of (patch_call p) = p.record_type
type_of (delete_call q) = q.record_type

abbrev pub arguments : Headers → Call → Request
arguments h (post p) = create_args h p
arguments h (put p) = replace_args h p
arguments h (patch_call p) = patch_args h p
arguments h (delete_call q) = delete_args h q (clean_type q.record_type)

abbrev pub IsPublic : Text → Type 0
IsPublic rt = contains public_record_types (clean_type rt) ≡ true

ok-inj : {A : Type 0} {x y : A} → ok x ≡ ok y → x ≡ y
ok-inj h = cc

normalized :
    (record_type rt : Text)
    → normalize_public_record_type record_type ≡ ok rt
    → IsPublic record_type × (clean_type record_type ≡ rt)
unfolding normalize_public_record_type
normalized record_type rt h =
    elim (Bool-cases (contains public_record_types (clean_type record_type))) [
      | inl e ↦ (e, ok-inj (rw e at h))
      | inr e ↦ ground (arith, e)
    ]

validate_create-IsPublic :
    (p : CreateRequest) {u : Unit {0}} → validate_create p ≡ ok u → IsPublic p.record_type
unfolding validate_create
validate_create-IsPublic p h =
    let (rt, typed_ok, rest) = >>=-eq-ok (normalize_public_record_type p.record_type) _ h in
    (normalized p.record_type rt typed_ok).0

validate_replace-IsPublic :
    (p : ReplaceRequest) {u : Unit {0}} → validate_replace p ≡ ok u → IsPublic p.record_type
unfolding validate_replace
validate_replace-IsPublic p h =
    let (rt, typed_ok, rest) = >>=-eq-ok (normalize_public_record_type p.record_type) _ h in
    (normalized p.record_type rt typed_ok).0

validate_patch-IsPublic :
    (p : PatchRequest) {u : Unit {0}} → validate_patch p ≡ ok u → IsPublic p.record_type
unfolding validate_patch
validate_patch-IsPublic p h =
    let (rt, typed_ok, rest) = >>=-eq-ok (normalize_public_record_type p.record_type) _ h in
    (normalized p.record_type rt typed_ok).0

Result-cases : {A : Type 0} (m : Result A) → ((e : Fault) × (m ≡ err e)) ⊎ ((a : A) × (m ≡ ok a))
Result-cases (ok a) = inr (a, refl)
Result-cases (err e) = inl (e, refl)

module _ (client : Client) (connect : Text → Settings → Result (Unit {0}))
    (digest : Text → Text) where
  -- The provider is left alone, or the call was authorised and is about a public record type.
  Confined : Tables → World client → Text → Request → Answer × World client → Type 0
  Confined db w record_type r result =
      (result.1.provider ≡ w.provider)
      ⊎ (Authorised db (digest (text_or_empty r.api_key)) r × IsPublic record_type)

  run-Confined :
      (db : Tables) (w : World client) (record_type : Text) (r : Request)
      → IsPublic record_type
      → Confined db w record_type r (run client connect digest db w r)
  unfolding Confined
  run-Confined db w record_type r public =
      elim (apply_dns_mutation-Authorised client connect digest db r w) [
        | inl e ↦ inl e
        | inr a ↦ inr (a, public)
      ]

  checked-Confined :
      (db : Tables) (w : World client) (record_type : Text) (r : Request)
      (valid : Result (Unit {0}))
      → (valid ≡ ok tt → IsPublic record_type)
      → Confined db w record_type r (checked client connect digest valid db w r)
  unfolding Confined
  checked-Confined db w record_type r (err e) h = inl refl
  checked-Confined db w record_type r (ok u) h = run-Confined db w record_type r (h refl)

  typed-Confined :
      (h : Headers) (q : DeleteQuery) (db : Tables) (w : World client) (found : Result Text)
      → ((rt : Text) → found ≡ ok rt → IsPublic q.record_type × (clean_type q.record_type ≡ rt))
      → Confined db w q.record_type
          (delete_args h q (clean_type q.record_type))
          (typed client connect digest found h q db w)
  unfolding Confined
  typed-Confined h q db w (err e) known = inl refl
  typed-Confined h q db w (ok rt) known =
      let (public, same) = known rt refl in
      rw (sym same)
        (run-Confined db w q.record_type (delete_args h q (clean_type q.record_type)) public)

  handle-Confined :
      (h : Headers) (call : Call) (db : Tables) (w : World client)
      → Confined db w (type_of call) (arguments h call) (handle client connect digest h call db w)
  unfolding handle create_dns_record replace_dns_record patch_dns_record delete_dns_record
  handle-Confined h (post p) db w =
      checked-Confined db w p.record_type (create_args h p) (validate_create p)
        (validate_create-IsPublic p)
  handle-Confined h (put p) db w =
      checked-Confined db w p.record_type (replace_args h p) (validate_replace p)
        (validate_replace-IsPublic p)
  handle-Confined h (patch_call p) db w =
      checked-Confined db w p.record_type (patch_args h p) (validate_patch p)
        (validate_patch-IsPublic p)
  handle-Confined h (delete_call q) db w =
      typed-Confined h q db w (normalize_public_record_type q.record_type)
        (normalized q.record_type)

  -- A call of the API that changes records leaves the state of the provider alone, unless its record
  -- type is one of the public ones and its key may write in its zone, whose provider is known and not
  -- disabled, and the change can be prepared.
  pub handle-IsPublic :
      (h : Headers) (call : Call) (db : Tables) (w : World client)
      → ((handle client connect digest h call db w).1.provider ≡ w.provider)
        ⊎ (Authorised db
              (digest (api_key_from_headers h.x_api_key h.authorization))
              (arguments h call)
            × IsPublic (type_of call))
  unfolding Confined
  handle-IsPublic h (post p) db w = handle-Confined h (post p) db w
  handle-IsPublic h (put p) db w = handle-Confined h (put p) db w
  handle-IsPublic h (patch_call p) db w = handle-Confined h (patch_call p) db w
  handle-IsPublic h (delete_call q) db w = handle-Confined h (delete_call q) db w
