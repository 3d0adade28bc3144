-- ===== src/Api/Events.antt =====
-- `_apply_dns_mutation` of src/dns_api_service.py: the activity events of a request.
use api_to_dns.Prelude.{◌≡◌, [], ◌∷◌, ◌++◌}
use api_to_dns.Text.{Text, str}
use api_to_dns.Fault.{Result, err}
use api_to_dns.Provider.{Client, Settings}
use api_to_dns.Mutation.{PreparedMutation}
use api_to_dns.Api.{
  nonnegative, patch_merge, if_given, apply_patch_mutation, ZoneConfig, Event, Answer,
  http_exception, patch, Request, World,
}

module _ (client : Client) (connect : Text → Settings → Result (Unit {0}))
    (digest : Text → Text) where
  -- The change of the record set ends in the error that the patch cannot be merged with what was read.
  abbrev pub Unmerged : Request → ZoneConfig → PreparedMutation → client.State → Type 0
  Unmerged r zone p s =
      (s' : client.State) × (apply_patch_mutation client zone.settings zone.zone_name p.record_name
          p.record_type (if_given r.patch_ttl (nonnegative p.ttl))
          (if_given r.patch_values p.values) s
        ≡ (err patch_merge, s'))

  -- One event was written; or none, for a patch that was answered with 502 since the record set that
  -- was read could not be merged with it.
  pub data Audited (r : Request) (w : World client) (result : Answer × World client) : Type 0 where
    one_event : (e : Event) → result.1.events ≡ w.events ++ e ∷ [] → Audited r w result
    no_event :
        r.mode ≡ patch
        → (zone : ZoneConfig) (p : PreparedMutation) → Unmerged r zone p w.provider
        → result.0 ≡ http_exception 502 (str "dns_provider_failed")
        → result.1.events ≡ w.events
        → Audited r w result
