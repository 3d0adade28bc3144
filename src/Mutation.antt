-- ===== src/Mutation.antt =====
-- src/dns_mutation.py: changes of a record set, shared by the public API and the admin browser.
pub mod Prepared
pub mod Branches
pub mod Modes
pub mod Refinement
pub mod Patch
mod Tests
use mathlib.Core.Option
use api_to_dns.Prelude.{
  ℕ, Bool, true, false, not, ◌||◌, Option, none, some, List, [], ◌∷◌, ◌==◌, if◌then◌else◌,
}
use api_to_dns.Text.{Text, ℤ, nonnegative, negative, str, is_empty, strip, upper}
use api_to_dns.Fault
use api_to_dns.Fault.{Result, ok, err, require, record_name_required, patch_merge}
use api_to_dns.Exec.{Exec, pure, lift, ◌>>=◌}
use api_to_dns.Provider.{
  RecordInfo, RecordRequest, Client, Settings, delete_type, make_request, provider_dns_zone,
}
use api_to_dns.RecordTypes.{
  normalize_mutable_record_type, guard_mutation_allowed, validate_ttl, normalize_record_values,
}

-- `status` and `action` of an outcome
pub data Status : Type 0 where
  error success : Status

pub data Action : Type 0 where
  record_already_exists not_found deleted created updated : Action

-- DnsMutationOutcome
pub record Outcome : Type 0 where
  pub status : Status
  pub action : Action
  pub http_status : ℕ
  pub record_name : Text
  pub record_type : Text
  pub values : List Text
  pub dns_zone : Text

-- PreparedMutation
pub record PreparedMutation : Type 0 where
  pub record_name : Text
  pub record_type : Text
  pub ttl : ℕ
  pub values : List Text

abbrev pub list_or_empty : Option (List Text) → List Text
list_or_empty none = []
list_or_empty (some vs) = vs

-- The body of `prepare_mutation` from the cleaned name on.
abbrev pub prepare_named :
    Text
    → Text
    → Option ℤ
    → Option (List Text)
    → Option Text
    → Bool
    → Bool
    → Result PreparedMutation
prepare_named name record_type ttl values dns_zone require_values require_ttl =
    Fault.◌>>=◌ (normalize_mutable_record_type record_type) λ rt.
      Fault.◌>>=◌ (guard_mutation_allowed name rt dns_zone) λ _.
        Fault.◌>>=◌ (validate_ttl ttl require_ttl) λ final_ttl.
          Fault.◌>>=◌
            (if require_values then normalize_record_values rt (list_or_empty values) else ok [])
            λ final_values. ok (record {
              record_name = name;
              record_type = rt;
              ttl = final_ttl;
              values = final_values;
            })

-- arguments: record_name, record_type, ttl, values, dns_zone, require_values, require_ttl
unfoldable pub prepare_mutation :
    Text
    → Text
    → Option ℤ
    → Option (List Text)
    → Option Text
    → Bool
    → Bool
    → Result PreparedMutation
prepare_mutation record_name record_type ttl values dns_zone require_values require_ttl =
    if is_empty (strip record_name)
    then err record_name_required
    else prepare_named (strip record_name) record_type ttl values dns_zone require_values
        require_ttl

-- `not existing.values` holds for None and for the empty list
abbrev pub merge_with :
    Option ℤ → Option (List Text) → Option ℤ → Option (List Text) → Result (ℤ × List Text)
merge_with (some ttl) (some (v ∷ vs)) patch_ttl patch_values =
    ok (Option.get_or patch_ttl ttl, Option.get_or patch_values (v ∷ vs))
merge_with ttl values patch_ttl patch_values = err patch_merge

unfoldable pub merge_patch : RecordInfo → Option ℤ → Option (List Text) → Result (ℤ × List Text)
merge_patch existing patch_ttl patch_values =
    merge_with existing.ttl existing.values patch_ttl patch_values

pub data Mode : Type 0 where
  create replace delete : Mode

-- ttl or 300
abbrev pub ttl_or_default : Option ℤ → ℤ
ttl_or_default none = nonnegative 300
ttl_or_default (some (nonnegative n)) = if n == 0 then nonnegative 300 else nonnegative n
ttl_or_default (some (negative n)) = negative n

abbrev pub is_nil : {A : Type 0} → List A → Bool
is_nil [] = true
is_nil (x ∷ xs) = false

-- Why a mode is refused, with the record set there or not.
abbrev pub refusal : Mode → Bool → Option (ℕ × Action)
refusal create true = some (409, record_already_exists)
refusal create false = none
refusal replace true = none
refusal replace false = some (404, not_found)
refusal delete true = none
refusal delete false = some (404, not_found)

-- `[] if mode == "delete" else list(values)`
abbrev pub response_values : Mode → List Text → List Text
response_values delete values = []
response_values create values = values
response_values replace values = values

abbrev pub done_action : Mode → Action
done_action create = created
done_action replace = updated
done_action delete = deleted

-- the request that a mode sends: zone_name, record_name, record_type, ttl, values
abbrev pub mode_request : Mode → Text → Text → Text → Option ℤ → List Text → RecordRequest
mode_request delete zone_name record_name rt ttl values = record {
  zone_name = some zone_name;
  record_type = delete_type;
  record_name = record_name;
  ttl = some (ttl_or_default ttl);
  values = rt ∷ [];
}
mode_request mode zone_name record_name rt ttl values = record {
  zone_name = some zone_name;
  record_type = rt;
  record_name = record_name;
  ttl = some (Option.get_or ttl (nonnegative 300));
  values = values;
}

abbrev pub refused : ℕ × Action → Text → Text → List Text → Text → Outcome
refused (code, why) record_name rt values zone = record {
  status = error;
  action = why;
  http_status = code;
  record_name = record_name;
  record_type = rt;
  values = values;
  dns_zone = zone;
}

abbrev pub succeeded : Action → Text → Text → List Text → Text → Outcome
succeeded what record_name rt values zone = record {
  status = success;
  action = what;
  http_status = 200;
  record_name = record_name;
  record_type = rt;
  values = values;
  dns_zone = zone;
}

-- records[0]
abbrev pub first_record : List RecordInfo → Option RecordInfo
first_record [] = none
first_record (r ∷ records) = some r

module _ (client : Client) where
  open client use {State, get_record, create_or_update_record}

  -- bool(records)
  unfoldable pub record_exists_at_type : Settings → Text → Text → Exec State Bool
  record_exists_at_type settings record_name record_type = do
    zone ← lift (provider_dns_zone settings)
    records ← get_record record_name (some record_type) (settings (str "dns_server")) (some zone)
    pure (not (is_nil records))

  -- The request is built, which checks it, and sent.
  unfoldable pub send : Settings → Text → RecordRequest → Exec State Bool
  send settings zone request = do
    internal ← lift (make_request request)
    create_or_update_record internal (settings (str "dns_server")) (some zone)

  -- What follows the look-up in `apply_rrset_mutation`.
  unfoldable pub act_on_rrset :
      Settings → Text → Text → Text → Text → Option ℤ → List Text → Mode → Bool → Exec State Outcome
  act_on_rrset settings zone zone_name record_name rt ttl values mode exists =
      elim (refusal mode exists) [
        | some why ↦ pure (refused why record_name rt (response_values mode values) zone)
        | none ↦ (do
          sent ← send settings zone (mode_request mode zone_name record_name rt ttl values)
          pure (succeeded (done_action mode) record_name rt (response_values mode values) zone))
      ]

  -- arguments: settings, zone_name, record_name, record_type, ttl, values, mode
  unfoldable pub apply_rrset_mutation :
      Settings → Text → Text → Text → Option ℤ → List Text → Mode → Exec State Outcome
  apply_rrset_mutation settings zone_name record_name record_type ttl values mode = do
    let rt = upper (strip record_type)
    zone ← lift (provider_dns_zone settings)
    exists ← record_exists_at_type settings record_name rt
    act_on_rrset settings zone zone_name record_name rt ttl values mode exists

  -- What follows the look-up in `apply_patch_mutation`.
  unfoldable pub patch_rrset :
      Settings
      → Text
      → Text
      → Text
      → Text
      → Option ℤ
      → Option (List Text)
      → Option RecordInfo
      → Exec State Outcome
  patch_rrset settings zone zone_name record_name rt patch_ttl patch_values none =
      pure (refused (404, not_found) record_name rt (list_or_empty patch_values) zone)
  patch_rrset settings zone zone_name record_name rt patch_ttl patch_values (some existing) = do
    (final_ttl, final_values) ← lift (merge_patch existing patch_ttl patch_values)
    sent ← send settings zone (record {
      zone_name = some zone_name;
      record_type = rt;
      record_name = record_name;
      ttl = some final_ttl;
      values = final_values;
    })
    pure (succeeded updated record_name rt final_values zone)

  -- arguments: settings, zone_name, record_name, record_type, patch_ttl, patch_values
  unfoldable pub apply_patch_mutation :
      Settings → Text → Text → Text → Option ℤ → Option (List Text) → Exec State Outcome
  apply_patch_mutation settings zone_name record_name record_type patch_ttl patch_values = do
    let rt = upper (strip record_type)
    zone ← lift (provider_dns_zone settings)
    records ← get_record record_name (some rt) (settings (str "dns_server")) (some zone)
    patch_rrset settings zone zone_name record_name rt patch_ttl patch_values (first_record records)
