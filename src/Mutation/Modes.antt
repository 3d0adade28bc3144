-- ===== src/Mutation/Modes.antt =====
-- What each mode of `apply_rrset_mutation` asks for, and what it leaves of a record set.
use mathlib.Core.Option
use api_to_dns.Prelude.{
  ℕ, ◌≡◌, refl, Bool, true, false, not, Option, none, some, List, [], ◌∷◌, arith, every,
}
use api_to_dns.Text.{Text, ℤ, nonnegative, ◌===◌, contains, strip, upper, text_runs}
use api_to_dns.Text.Equal.{===_iff, every-contains}
use api_to_dns.Fault.{ok}
use api_to_dns.RecordTypes.{mutable_record_types, normalize_record_values}
use api_to_dns.Provider.{RecordInfo, RecordRequest, delete_type, request_fault}
use api_to_dns.Provider.Store.{
  RecordSet, View, Shows, update, stored, normal_values, ttl_or_default, target_type,
}
use api_to_dns.Mutation.{Action, Mode, create, replace, delete, refusal, mode_request, is_nil}

abbrev pub is_there : Option RecordSet → Bool
is_there none = false
is_there (some rs) = true

-- The status code, and what stands there afterwards.
abbrev pub code_of : Mode → Option RecordSet → ℕ
code_of create none = 200
code_of create (some old) = 409
code_of replace none = 404
code_of replace (some old) = 200
code_of delete none = 404
code_of delete (some old) = 200

abbrev pub left_by : Mode → Option RecordSet → RecordSet → Option RecordSet
left_by create none new = some new
left_by create (some old) new = some old
left_by replace none new = none
left_by replace (some old) new = some new
left_by delete old new = none

abbrev pub IsMutable : Text → Type 0
IsMutable rt = contains mutable_record_types rt ≡ true

delete_self : (delete_type === delete_type) ≡ true
unfolding text_runs
delete_self = refl

mutable_clean : every (λ t. upper (strip t) === t) mutable_record_types ≡ true
unfolding every text_runs
mutable_clean = refl

mutable_no_delete : every (λ t. not (t === delete_type)) mutable_record_types ≡ true
unfolding every text_runs
mutable_no_delete = refl

delete_clean : (upper (strip delete_type) === delete_type) ≡ true
unfolding text_runs
delete_clean = refl

pub IsMutable-clean : (rt : Text) → IsMutable rt → upper (strip rt) ≡ rt
IsMutable-clean rt h =
    (===_iff (upper (strip rt)) rt).0
      (every-contains (λ t. upper (strip t) === t) mutable_record_types rt mutable_clean h)

pub not-eq-true : (b : Bool) → not b ≡ true → b ≡ false
not-eq-true b h = ground arith

pub IsMutable-ne-delete : (rt : Text) → IsMutable rt → (rt === delete_type) ≡ false
IsMutable-ne-delete rt h =
    not-eq-true (rt === delete_type)
      (every-contains (λ t. not (t === delete_type)) mutable_record_types rt mutable_no_delete h)

-- The normal forms of the values, for a mode that has values.
abbrev pub Normalises : Mode → Text → List Text → List Text → Type 0
Normalises delete rt values normal = Unit
Normalises create rt values normal = normalize_record_values rt values ≡ ok normal
Normalises replace rt values normal = normalize_record_values rt values ≡ ok normal

abbrev pub sent_values : Mode → List Text → List Text
sent_values delete normal = []
sent_values create normal = normal
sent_values replace normal = normal

abbrev pub HasValues : Mode → List Text → Type 0
HasValues delete values = Unit
HasValues create values = is_nil values ≡ false
HasValues replace values = is_nil values ≡ false

ttl_or_default-given :
    (ttl : Option ℤ)
    → ttl_or_default (some (Option.get_or ttl (nonnegative 300))) ≡ ttl_or_default ttl
ttl_or_default-given none = refl
ttl_or_default-given (some t) = refl

-- What is stored of a TTL, and of values in their normal forms.
abbrev pub new_set : Option ℤ → List Text → RecordSet
new_set ttl normal = record { ttl = ttl_or_default ttl; values = normal }

module _ (zone_name record_name rt : Text) (ttl : Option ℤ) (values : List Text) where
  abbrev pub request : Mode → RecordRequest
  request mode = mode_request mode zone_name record_name rt ttl values

  pub request-valid :
      (mode : Mode) → IsMutable rt → HasValues mode values → request_fault (request mode) ≡ none
  unfolding request_fault
  request-valid create h k = ground (arith, IsMutable-clean rt h, IsMutable-ne-delete rt h)
  request-valid replace h k = ground (arith, IsMutable-clean rt h, IsMutable-ne-delete rt h)
  request-valid delete h k = ground (arith, delete_clean, IsMutable-clean rt h)

  pub request-name : (mode : Mode) → (request mode).record_name ≡ record_name
  request-name create = refl
  request-name replace = refl
  request-name delete = refl

  -- What the request of a mode leaves at the record set it is about.
  pub request-target : (mode : Mode) → IsMutable rt → target_type (request mode) ≡ rt
  request-target create h = rw (IsMutable-ne-delete rt h)
  request-target replace h = rw (IsMutable-ne-delete rt h)
  request-target delete h = ground (arith, delete_self, IsMutable-clean rt h)

  pub request-normal :
      (mode : Mode) (normal : List Text)
      → IsMutable rt
      → Normalises mode rt values normal
      → normal_values (request mode) ≡ ok (sent_values mode normal)
  request-normal create normal h k = rw (IsMutable-ne-delete rt h) k
  request-normal replace normal h k = rw (IsMutable-ne-delete rt h) k
  request-normal delete normal h k = rw delete_self refl

  pub request-stored :
      (mode : Mode) (normal : List Text) (old : Option RecordSet)
      → IsMutable rt
      → refusal mode (is_there old) ≡ none
      → stored (request mode) (sent_values mode normal) ≡ left_by mode old (new_set ttl normal)
  request-stored create normal none h k = rw (IsMutable-ne-delete rt h, ttl_or_default-given ttl)
  request-stored create normal (some rs) h k = cc
  request-stored replace normal none h k = cc
  request-stored replace normal (some rs) h k =
      rw (IsMutable-ne-delete rt h, ttl_or_default-given ttl)
  request-stored delete normal old h k = ground (arith, delete_self)

pub Shows-is_there :
    (old : Option RecordSet) (records : List RecordInfo)
    → Shows old records
    → not (is_nil records) ≡ is_there old
Shows-is_there none [] h = refl
Shows-is_there none (r ∷ records) h = absurd h
Shows-is_there (some rs) [] h = absurd h
Shows-is_there (some rs) (r ∷ records) h = refl

-- The code of a refusal, and that of a success.
pub refusal-code :
    (mode : Mode) (old : Option RecordSet) (code : ℕ × Action)
    → refusal mode (is_there old) ≡ some code
    → code.0 ≡ code_of mode old
refusal-code create none code h = cc
refusal-code create (some rs) code h = ground arith
refusal-code replace none code h = ground arith
refusal-code replace (some rs) code h = cc
refusal-code delete none code h = ground arith
refusal-code delete (some rs) code h = cc

pub refusal-left :
    (mode : Mode) (old : Option RecordSet) (new : RecordSet) {code : ℕ × Action}
    → refusal mode (is_there old) ≡ some code
    → left_by mode old new ≡ old
refusal-left create none new h = cc
refusal-left create (some rs) new h = refl
refusal-left replace none new h = refl
refusal-left replace (some rs) new h = cc
refusal-left delete none new h = refl
refusal-left delete (some rs) new h = cc

pub success-code :
    (mode : Mode) (old : Option RecordSet)
    → refusal mode (is_there old) ≡ none
    → 200 ≡ code_of mode old
success-code create none h = refl
success-code create (some rs) h = cc
success-code replace none h = cc
success-code replace (some rs) h = refl
success-code delete none h = cc
success-code delete (some rs) h = refl

-- Writing back what stands there changes nothing.
pub update_same :
    (v : View) (owner rt other t : Text) → update v owner rt (v owner rt) other t ≡ v other t
update_same v owner rt other t = ground (arith, ===_iff other owner, ===_iff t rt)
