-- ===== src/Api/Served.antt =====
-- `_apply_dns_mutation` of src/dns_api_service.py: a request that is let through, over a client that
-- is a store of record sets.
use api_to_dns.Prelude.{◌≡◌, some, List}
use api_to_dns.Text.{Text, nonnegative}
use api_to_dns.Fault.{Result}
use api_to_dns.Provider.{Client, Settings}
use api_to_dns.Provider.Store.{IsStore, update}
use api_to_dns.Mutation.{Outcome, PreparedMutation, Mode}
use api_to_dns.Mutation.Modes.{new_set, code_of, left_by}
use api_to_dns.Api.{Answer, body, World}

module _ (client : Client) (store : IsStore client) (connect : Text → Settings → Result (Unit {0}))
    (digest : Text → Text) where
  open client use {State}
  open store use {view, owner_of}

  -- The record set that the request is about, in the provider's zone `domain`, becomes what the mode
  -- makes of it, the others stay, and the status code says what stood there.
  pub record Served (mode : Mode) (domain : Text) (p : PreparedMutation) (normal : List Text)
      (w : World client) (result : Answer × World client) : Type 0 where
    pub outcome : Outcome
    pub answered : result.0 ≡ body outcome.http_status outcome
    pub code :
        outcome.http_status
        ≡ code_of mode (view w.provider (owner_of domain p.record_name) p.record_type)
    pub written :
        (owner rt : Text)
        → view result.1.provider owner rt
          ≡ update
              (view w.provider)
              (owner_of domain p.record_name)
              p.record_type
              (left_by mode
                (view w.provider (owner_of domain p.record_name) p.record_type)
                (new_set (some (nonnegative p.ttl)) normal))
              owner
              rt
