-- ===== src/Mutation/Patch.antt =====
-- `apply_patch_mutation` of src/dns_mutation.py over a client that is a store.
use mathlib.Core.Option
use api_to_dns.Prelude.{ℕ, ◌≡◌, false, Option, none, some, List}
use api_to_dns.Text.{Text, ℤ, str}
use api_to_dns.Fault.{Result, ok}
use api_to_dns.Provider.{RecordInfo, RecordRequest, Client, Settings, provider_dns_zone}
use api_to_dns.Provider.Store.{RecordSet, IsStore, update, ttl_or_default}
use api_to_dns.RecordTypes.{normalize_record_values}
use api_to_dns.Mutation.{Outcome, is_nil, patch_rrset}
use api_to_dns.Mutation.Modes.{IsMutable}

-- The record set that a patch leaves where this one stands, with the values' normal forms.
abbrev pub patched : Option RecordSet → Option ℤ → List Text → Option RecordSet
patched none patch_ttl normal = none
patched (some rs) patch_ttl normal =
    some (record { ttl = ttl_or_default (some (Option.get_or patch_ttl rs.ttl)); values = normal })

abbrev pub patch_code : Option RecordSet → ℕ
patch_code none = 404
patch_code (some rs) = 200

-- Values that are given are not none at all, and those that stand there are not either.
abbrev pub Filled : Option (List Text) → Type 0
Filled none = Unit
Filled (some vs) = is_nil vs ≡ false

abbrev pub SetFilled : Option RecordSet → Type 0
SetFilled none = Unit
SetFilled (some rs) = is_nil rs.values ≡ false

-- The normal forms of the values that are given, or else of those that stand there.
abbrev pub Normalises : Text → Option (List Text) → List Text → Option RecordSet → Type 0
Normalises rt patch_values normal none = Unit
Normalises rt patch_values normal (some rs) =
    normalize_record_values rt (Option.get_or patch_values rs.values) ≡ ok normal

module _ (zone_name record_name rt : Text) (ttl : ℤ) (values : List Text) where
  abbrev pub request : RecordRequest
  request = record {
    zone_name = some zone_name;
    record_type = rt;
    record_name = record_name;
    ttl = some ttl;
    values = values;
  }

module _ (client : Client) (store : IsStore client) (settings : Settings) (zone : Text)
    (domain : provider_dns_zone settings ≡ ok zone) where
  open client use {State, get_record, create_or_update_record}
  open store use {serves, owner_of, view, get-shows, put-writes}

  pub record Patches (owner rt : Text) (patch_ttl : Option ℤ) (normal : List Text) (s : State)
      (result : Result Outcome × State) : Type 0 where
    pub outcome : Outcome
    pub after : State
    pub returned : result ≡ (ok outcome, after)
    pub code : outcome.http_status ≡ patch_code (view s owner rt)
    pub written :
        (other t : Text)
        → view after other t
          ≡ update (view s) owner rt (patched (view s owner rt) patch_ttl normal) other t

  module _ (zone_name record_name rt : Text) (patch_ttl : Option ℤ)
      (patch_values : Option (List Text)) (normal : List Text) (mutable : IsMutable rt)
      (given : Filled patch_values) (served : serves (settings (str "dns_server")) zone) where
    abbrev owner : Text
    owner = owner_of zone record_name

    abbrev run : Option RecordInfo → State → Result Outcome × State
    run found =
        patch_rrset client settings zone zone_name record_name rt patch_ttl patch_values found
