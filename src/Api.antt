-- ===== src/Api.antt =====
-- src/dns_api_service.py: a change of a record set for the holder of an API key. From src/http_utils.py
-- the answer for an exception, and from src/zone_service.py, src/dns_client.py and
-- src/plugins/__init__.py how a client is made. An activity event keeps its type, level, actor and
-- zone; the texts of messages are left out.
mod Resolve
pub mod Authority
pub mod Events
pub mod Served
mod Tests
unfoldable pub use Resolve.*
use api_to_dns.Prelude.{
  ℕ, Bool, true, false, not, ◌&&◌, ◌||◌, Option, none, some, List, [], ◌∷◌, ◌++◌, find_first, keep,
  map, if◌then◌else◌, ◌==◌,
}
use api_to_dns.Text.{Text, ℤ, nonnegative, str, is_empty, ◌===◌, contains, strip, lower, upper}
use api_to_dns.Fault
use api_to_dns.Fault.{
  Fault, ExceptionClass, value_error, provider_disabled, runtime_error, import_error, other, Result,
  ok, err, require, exception_class, patch_merge, unknown_provider, disabled_provider,
}
use api_to_dns.Exec.{Exec, pure, lift, ◌>>=◌, ◌>>◌}
use api_to_dns.Provider.{Client, Settings, normalize_zone_name, provider_dns_zone, text_or_empty}
use api_to_dns.Mutation.{
  Action, record_already_exists, not_found, deleted, created, updated, Outcome, PreparedMutation,
  Mode, create, replace, delete, list_or_empty, prepare_mutation, apply_rrset_mutation,
  apply_patch_mutation,
}

unfoldable pub http_exception_from_dns_error : ExceptionClass → Answer
http_exception_from_dns_error value_error = http_exception 400 (str "invalid_request")
http_exception_from_dns_error provider_disabled = http_exception 503 (str "provider_disabled")
http_exception_from_dns_error runtime_error = http_exception 502 (str "dns_provider_failed")
http_exception_from_dns_error import_error = http_exception 503 (str "dependency_unavailable")
http_exception_from_dns_error other = http_exception 500 (str "unexpected")

-- The arguments of `_apply_dns_mutation`.
pub data ApiMode : Type 0 where
  write : Mode → ApiMode
  patch : ApiMode

pub record Request : Type 0 where
  pub api_key : Option Text
  pub zone_name : Option Text
  pub record_name : Text
  pub record_type : Text
  pub ttl : Option ℤ
  pub values : List Text
  pub mode : ApiMode
  pub patch_ttl : Option ℤ
  pub patch_values : Option (List Text)

abbrev is_some : {A : Type 0} → Option A → Bool
is_some none = false
is_some (some x) = true

-- what is given to `prepare_mutation`, by the mode
abbrev pub prepare_request : Request → ApiMode → Text → Result PreparedMutation
prepare_request r (write delete) domain =
    prepare_mutation r.record_name (upper (strip r.record_type)) r.ttl
      (some (list_or_empty r.patch_values)) (some domain) false false
prepare_request r (write create) domain =
    prepare_mutation r.record_name (upper (strip r.record_type)) r.ttl (some r.values) (some domain)
      true false
prepare_request r (write replace) domain =
    prepare_mutation r.record_name (upper (strip r.record_type)) r.ttl (some r.values) (some domain)
      true true
prepare_request r patch domain =
    prepare_mutation r.record_name (upper (strip r.record_type)) r.patch_ttl
      (some (list_or_empty r.patch_values)) (some domain) (is_some r.patch_values) false

-- `x if given is not None else None`
abbrev pub if_given : {A B : Type 0} → Option A → B → Option B
if_given none x = none
if_given (some y) x = some x

abbrev pub action_event : Action → Text
action_event record_already_exists = str "dns.record_already_exists"
action_event not_found = str "dns.record_not_found"
action_event deleted = str "dns.record_deleted"
action_event created = str "dns.record_created"
action_event updated = str "dns.record_updated"

-- The outcome of a change, or none where a patch could not be merged.
abbrev pub catch_merge : {S : Type 0} → Result Outcome × S → Result (Option Outcome) × S
catch_merge (err patch_merge, s) = (ok none, s)
catch_merge (err e, s) = (err e, s)
catch_merge (ok o, s) = (ok (some o), s)

module _ (client : Client) where
  -- the events so far, and the state of the provider
  pub record World : Type 0 where
    pub events : List Event
    pub provider : client.State

-- the client of a provider, what its making raises, and the digest of a key
module _ (client : Client) (connect : Text → Settings → Result (Unit {0}))
    (digest : Text → Text) where
  open client use {State}

  unfoldable pub create_dns_client : Settings → Result (Unit {0})
  create_dns_client settings =
      if contains known_providers (provider_of settings)
      then connect (provider_of settings) settings
      else err (unknown_provider (provider_of settings))

  unfoldable pub create_dns_client_from_settings : Tables → Settings → Result (Unit {0})
  create_dns_client_from_settings db settings =
      if contains (get_disabled_dns_plugins db) (provider_of settings)
      then err (disabled_provider (provider_of settings))
      else create_dns_client settings

  -- the change, after it has been prepared
  unfoldable pub run_prepared :
      Request → ZoneConfig → ApiMode → PreparedMutation → State → Result (Option Outcome) × State
  run_prepared r zone (write mode) p s =
      (apply_rrset_mutation client zone.settings zone.zone_name p.record_name p.record_type
            (some (nonnegative p.ttl)) p.values mode
          >>= λ o. pure (some o))
        s
  run_prepared r zone patch p s = catch_merge (
      apply_patch_mutation client zone.settings zone.zone_name p.record_name p.record_type
        (if_given r.patch_ttl (nonnegative p.ttl)) (if_given r.patch_values p.values) s)

  -- the body of the `try`, up to the change
  unfoldable pub ready : Tables → Request → ZoneConfig → Text → Result PreparedMutation
  ready db r zone provider =
      Fault.◌>>=◌
        (require (not (contains (get_disabled_dns_plugins db) provider))
          (disabled_provider provider))
        λ _. Fault.◌>>=◌ (create_dns_client_from_settings db zone.settings) λ _.
          Fault.◌>>=◌ (provider_dns_zone zone.settings) λ domain. prepare_request r r.mode domain

  -- the body of the `try`, up to its answer
  unfoldable pub attempt : Tables → Request → ZoneConfig → Text → Exec State (Option Outcome)
  attempt db r zone provider = do
    prepared ← lift (ready db r zone provider)
    run_prepared r zone r.mode prepared

  -- the level of the event of an outcome
  abbrev pub outcome_level : ℕ → Level
  outcome_level code = if code == 200 then informational else warning

  -- what is answered, and the events written
  unfoldable pub finish : ApiKey → ZoneConfig → Result (Option Outcome) → Answer × List Event
  finish key zone (ok none) = (http_exception 502 (str "dns_provider_failed"), [])
  finish key zone (ok (some o)) = (
    body o.http_status o,
    event (action_event o.action) (outcome_level o.http_status) key.label zone.zone_name ∷ [],
  )
  finish key zone (err e) = (
    http_exception_from_dns_error (exception_class e),
    event (str "dns.provider_failed") failure key.label zone.zone_name ∷ [],
  )

  abbrev pub answer : Answer → List Event → World client → State → Answer × World client
  answer a new w s = (a, record { events = w.events ++ new; provider = s })

  abbrev pub perform : Tables → Request → Access → World client → Answer × World client
  perform db r (denied e a) w = answer a (e ∷ []) w w.provider
  perform db r (granted key zone provider) w =
      let (result, s) = attempt db r zone provider w.provider in
      answer (finish key zone result).0 (finish key zone result).1 w s

  abbrev pub with_api_key : Tables → Request → Text → World client → Answer × World client
  with_api_key db r [] w =
      answer (http_exception 401 (str "API key is required"))
        (event (str "dns.access_denied") warning [] [] ∷ []) w w.provider
  with_api_key db r (c ∷ key) w =
      perform db r
        (require_write_access
          (resolve_dns_api_zone db (digest (c ∷ key)) (text_or_empty r.zone_name)))
        w

  -- `_apply_dns_mutation`
  unfoldable pub apply_dns_mutation : Tables → Request → World client → Answer × World client
  apply_dns_mutation db r w = with_api_key db r (text_or_empty r.api_key) w
