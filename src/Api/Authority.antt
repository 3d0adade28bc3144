-- ===== src/Api/Authority.antt =====
-- `_apply_dns_mutation` of src/dns_api_service.py: what stands in front of the provider.
use api_to_dns.Prelude.{
  ◌≡◌, refl, ◌⊎◌, inl, inr, true, false, not, ◌&&◌, Option, none, some, List, [], ◌∷◌, arith,
  find_first-holds, Bool-cases, Option-cases,
}
use api_to_dns.Text.{Text, is_empty, ◌===◌, contains, strip}
use api_to_dns.Text.Equal.{eq_of_===}
use api_to_dns.Fault.{Fault, Result, ok, err, require, require-eq-ok, >>=-eq-ok, disabled_provider}
use api_to_dns.Provider.{Client, Settings, normalize_zone_name, provider_dns_zone, text_or_empty}
use api_to_dns.Mutation.{PreparedMutation}
use api_to_dns.Api.{
  ApiKey, ZoneConfig, AllowedZone, Tables, Access, granted, denied, Request, World, read_write,
  known_providers, get_disabled_dns_plugins, provider_of, get_api_key, find_zone, find_allowed,
  lacks_azure_settings, checked_settings, with_key, resolve_dns_api_zone, require_write_access,
  prepare_request, create_dns_client, create_dns_client_from_settings, ready, attempt, perform,
  with_api_key, apply_dns_mutation,
}

-- A key that may change the zone: it is active, the zone is configured under its normal name, it is
-- one of the zones of the key, and the key is read-write.
pub record MayWrite (db : Tables) (digest zone_name : Text) (key : ApiKey) (zone : ZoneConfig)
    : Type 0 where
  pub found : get_api_key db.keys digest ≡ some key
  pub matches : key.key ≡ digest
  pub active : key.active ≡ true
  pub zone_found : find_zone db.zones (normalize_zone_name zone_name) ≡ some zone
  pub link : AllowedZone
  pub linked : find_allowed db.allowed key.id zone.id ≡ some link
  pub access : key.access_mode ≡ read_write

-- What holds of a key, a zone and a provider that were granted.
abbrev Granted : (ApiKey → ZoneConfig → Text → Type 0) → Access → Type 0
Granted P (denied e a) = Unit
Granted P (granted key zone provider) = P key zone provider

-- The key whose digest was found, in its zone.
record Resolved (db : Tables) (zone_name : Text) (found : Option ApiKey) (key : ApiKey)
    (zone : ZoneConfig) (provider : Text) : Type 0 where
  pub is_found : found ≡ some key
  pub zone_found : find_zone db.zones (normalize_zone_name zone_name) ≡ some zone
  pub link : AllowedZone
  pub linked : find_allowed db.allowed key.id zone.id ≡ some link
  pub named : provider ≡ provider_of zone.settings

Granted-checked_settings :
    (P : ApiKey → ZoneConfig → Text → Type 0) (key : ApiKey) (canonical : Text) (zone : ZoneConfig)
    (provider : Text)
    → P key zone provider
    → Granted P (checked_settings key canonical zone provider)
Granted-checked_settings P key canonical zone provider h =
    elim (Bool-cases (lacks_azure_settings provider zone.settings)) [
      | inl e ↦ rw e tt
      | inr e ↦ rw e h
    ]

with_key-Resolved :
    (db : Tables) (zone_name : Text) (found : Option ApiKey)
    → Granted (Resolved db zone_name found) (with_key db zone_name found)
with_key-Resolved db zone_name none = tt
with_key-Resolved db zone_name (some key) = elim (Bool-cases (is_empty (strip zone_name))) [
  | inl e ↦ rw e tt
  | inr e ↦ rw e (elim (Option-cases (find_zone db.zones (normalize_zone_name zone_name))) [
    | inl none_found ↦ rw none_found tt
    | inr (zone, zone_found) ↦
        rw zone_found (elim (Option-cases (find_allowed db.allowed key.id zone.id)) [
          | inl none_linked ↦ rw none_linked tt
          | inr (link, linked) ↦ rw linked (
              Granted-checked_settings _ key (normalize_zone_name zone_name) zone
                (provider_of zone.settings)
                (record {
                  is_found = refl;
                  zone_found = zone_found;
                  link = link;
                  linked = linked;
                  named = refl;
                }))
        ])
  ])
]

get_api_key-facts :
    (keys : List ApiKey) (digest : Text) {key : ApiKey}
    → get_api_key keys digest ≡ some key
    → (key.key ≡ digest) × (key.active ≡ true)
unfolding get_api_key
get_api_key-facts keys digest {key} h =
    let both : (key.key === digest && key.active) ≡ true =
      find_first-holds (λ k. k.key === digest && k.active) keys h in
    (eq_of_=== key.key digest (ground arith), ground arith)

abbrev May : Tables → Text → Text → ApiKey → ZoneConfig → Text → Type 0
May db digest zone_name key zone provider =
    MayWrite db digest zone_name key zone × (provider ≡ provider_of zone.settings)

write_access-May :
    (db : Tables) (digest zone_name : Text) (a : Access)
    → Granted (Resolved db zone_name (get_api_key db.keys digest)) a
    → Granted (May db digest zone_name) (require_write_access a)
unfolding require_write_access
write_access-May db digest zone_name (denied e a) h = tt
write_access-May db digest zone_name (granted key zone provider) h =
    elim (Bool-cases (key.access_mode === read_write)) [
      | inl e ↦
          let (matches, active) = get_api_key-facts db.keys digest h.is_found in
          rw e (
            record {
              found = h.is_found;
              matches = matches;
              active = active;
              zone_found = h.zone_found;
              link = h.link;
              linked = h.linked;
              access = eq_of_=== key.access_mode read_write e;
            },
            h.named,
          )
      | inr e ↦ rw e tt
    ]

-- A request that has all that a change needs: the key may write, the provider is known and not
-- disabled, the zone has a domain, and the change can be prepared.
pub record Authorised (db : Tables) (digest : Text) (r : Request) : Type 0 where
  pub key : ApiKey
  pub zone : ZoneConfig
  pub may_write : MayWrite db digest (text_or_empty r.zone_name) key zone
  pub enabled : contains (get_disabled_dns_plugins db) (provider_of zone.settings) ≡ false
  pub known : contains known_providers (provider_of zone.settings) ≡ true
  pub domain : Text
  pub in_domain : provider_dns_zone zone.settings ≡ ok domain
  pub prepared : PreparedMutation
  pub is_prepared : prepare_request r r.mode domain ≡ ok prepared

Result-cases : {A : Type 0} (m : Result A) → ((e : Fault) × (m ≡ err e)) ⊎ ((a : A) × (m ≡ ok a))
Result-cases (ok a) = inr (a, refl)
Result-cases (err e) = inl (e, refl)

module _ (client : Client) (connect : Text → Settings → Result (Unit {0}))
    (digest : Text → Text) where
  connected-known :
      (db : Tables) (settings : Settings) {u : Unit {0}}
      → create_dns_client_from_settings client connect digest db settings ≡ ok u
      → contains known_providers (provider_of settings) ≡ true
  unfolding create_dns_client_from_settings create_dns_client
  connected-known db settings h = ground arith

  ready-Authorised :
      (db : Tables) (r : Request) (key : ApiKey) (zone : ZoneConfig) (provider key_digest : Text)
      (p : PreparedMutation)
      → May db key_digest (text_or_empty r.zone_name) key zone provider
      → ready client connect digest db r zone provider ≡ ok p
      → Authorised db key_digest r
  unfolding ready
  ready-Authorised db r key zone provider key_digest p (may, named) h =
      let disabled = contains (get_disabled_dns_plugins db) provider in
      let (_, passed, h1) = >>=-eq-ok (require (not disabled) (disabled_provider provider)) _ h in
      let (_, connected, h2) =
        >>=-eq-ok (create_dns_client_from_settings client connect digest db zone.settings) _ h1 in
      let (domain, in_domain, h3) = >>=-eq-ok (provider_dns_zone zone.settings) _ h2 in
      record {
        key = key;
        zone = zone;
        may_write = may;
        enabled =
            rw (← named)
              (ground (arith, require-eq-ok (not disabled) (disabled_provider provider) passed));
        known = connected-known db zone.settings connected;
        domain = domain;
        in_domain = in_domain;
        prepared = p;
        is_prepared = h3;
      }

  attempt-Authorised :
      (db : Tables) (r : Request) (key : ApiKey) (zone : ZoneConfig) (provider key_digest : Text)
      (s : client.State)
      → May db key_digest (text_or_empty r.zone_name) key zone provider
      → ((attempt client connect digest db r zone provider s).1 ≡ s) ⊎ Authorised db key_digest r
  unfolding attempt
  attempt-Authorised db r key zone provider key_digest s may =
      elim (Result-cases (ready client connect digest db r zone provider)) [
        | inl (e, failed) ↦ rw failed (inl refl)
        | inr (p, passed) ↦ inr (ready-Authorised db r key zone provider key_digest p may passed)
      ]

  perform-Authorised :
      (db : Tables) (r : Request) (key_digest : Text) (a : Access) (w : World client)
      → Granted (May db key_digest (text_or_empty r.zone_name)) a
      → ((perform client connect digest db r a w).1.provider ≡ w.provider)
        ⊎ Authorised db key_digest r
  perform-Authorised db r key_digest (denied e a) w h = inl refl
  perform-Authorised db r key_digest (granted key zone provider) w h =
      attempt-Authorised db r key zone provider key_digest w.provider h

  -- The state of the provider changes only for a request whose key is given, active, read-write and
  -- allowed in its zone, whose zone is configured with a provider that is known and not disabled,
  -- and whose change can be prepared.
  pub apply_dns_mutation-Authorised :
      (db : Tables) (r : Request) (w : World client)
      → ((apply_dns_mutation client connect digest db r w).1.provider ≡ w.provider)
        ⊎ Authorised db (digest (text_or_empty r.api_key)) r
  unfolding apply_dns_mutation resolve_dns_api_zone
  apply_dns_mutation-Authorised db r w = by_key (text_or_empty r.api_key)
    where
      by_key :
          (k : Text)
          → ((with_api_key client connect digest db r k w).1.provider ≡ w.provider)
            ⊎ Authorised db (digest k) r
      by_key [] = inl refl
      by_key (c ∷ k) = perform-Authorised db r (digest (c ∷ k)) _ w (
          write_access-May db (digest (c ∷ k)) (text_or_empty r.zone_name) _ (
            with_key-Resolved db (text_or_empty r.zone_name)
              (get_api_key db.keys (digest (c ∷ k)))))
