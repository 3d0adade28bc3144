-- ===== src/Mutation/Refinement.antt =====
-- `apply_rrset_mutation` of src/dns_mutation.py over a client that is a store of record sets.
use api_to_dns.Prelude.{◌≡◌, Bool, Option, none, some, List}
use api_to_dns.Text.{Text, ℤ, str}
use api_to_dns.Fault.{Result, ok}
use api_to_dns.Exec.{Exec}
use api_to_dns.Provider.{
  RecordRequest, Client, Settings, make_request, request_fault, provider_dns_zone,
}
use api_to_dns.Provider.Store.{RecordSet, IsStore, update}
use api_to_dns.Mutation.Modes.{IsMutable, code_of, left_by}
use api_to_dns.Mutation.{Outcome, Mode, send, act_on_rrset}

module _ (client : Client) (store : IsStore client) (settings : Settings) (zone : Text)
    (domain : provider_dns_zone settings ≡ ok zone) where
  open client use {State, get_record, create_or_update_record}
  open store use {serves, owner_of, view, get-shows, put-writes}

  pub send_lem :
      (r : RecordRequest) (s s' : State) {done : Bool}
      → request_fault r ≡ none
      → create_or_update_record r (settings (str "dns_server")) (some zone) s ≡ (ok done, s')
      → send client settings zone r s ≡ (ok done, s')
  unfolding send make_request
  send_lem r s s' valid call = rw (valid, send) call

  -- What a change of one record set does to the store `s`.
  pub record Changes (mode : Mode) (owner rt : Text) (new : RecordSet) (s : State)
      (result : Result Outcome × State) : Type 0 where
    pub outcome : Outcome
    pub after : State
    pub returned : result ≡ (ok outcome, after)
    pub code : outcome.http_status ≡ code_of mode (view s owner rt)
    pub written :
        (other t : Text)
        → view after other t ≡ update (view s) owner rt (left_by mode (view s owner rt) new) other t

  module _ (zone_name record_name rt : Text) (ttl : Option ℤ) (values : List Text)
      (normal : List Text) (mutable : IsMutable rt)
      (served : serves (settings (str "dns_server")) zone) where
    abbrev owner : Text
    owner = owner_of zone record_name

    abbrev act : Mode → Bool → Exec State Outcome
    act mode there =
        act_on_rrset client settings zone zone_name record_name rt ttl values mode there
