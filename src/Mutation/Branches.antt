-- ===== src/Mutation/Branches.antt =====
-- `apply_rrset_mutation` of src/dns_mutation.py, whatever the client.
use api_to_dns.Prelude.{
  ◌≡◌, refl, sym, ap, ◌∙◌, ◌⊎◌, inl, inr, Bool, not, Option, none, some, List, Option-cases,
}
use api_to_dns.Text.{Text, ℤ, str, strip, upper}
use api_to_dns.Fault.{Fault, ok}
use api_to_dns.Exec.{continue-eq-ok, bind-eq-ok, pure-eq-ok, pure}
use api_to_dns.Provider.{
  RecordInfo, RecordRequest, Client, Settings, make_request, checked, request_fault,
  provider_dns_zone,
}
use api_to_dns.Mutation.{
  error, success, Outcome, Mode, refusal, mode_request, is_nil, refused, done_action,
  response_values, record_exists_at_type, send, act_on_rrset, apply_rrset_mutation,
}

module _ (client : Client) (settings : Settings) where
  open client use {State, get_record, create_or_update_record}

  -- The request that was checked went to the client once, and the client returned.
  pub record Sent (zone : Text) (request : RecordRequest) (s s' : State) : Type 0 where
    pub allowed : request_fault request ≡ none
    pub reply : Bool
    pub call :
        create_or_update_record request (settings (str "dns_server")) (some zone) s ≡ (ok reply, s')

  checked-eq-ok :
      (request r : RecordRequest) (f : Option Fault)
      → checked request f ≡ ok r
      → (f ≡ none) × (request ≡ r)
  checked-eq-ok request r none h = (refl, cc)
  checked-eq-ok request r (some f) h = cc

  send-Sent :
      (zone : Text) (request : RecordRequest) (s s' : State) {b : Bool}
      → send client settings zone request s ≡ (ok b, s')
      → Sent zone request s s'
  unfolding send make_request
  send-Sent zone request s s' {b} h =
      let (r, made, sent) = continue-eq-ok (checked request (request_fault request)) _ s h in
      let (allowed, same) = checked-eq-ok request r (request_fault request) made in
      record { allowed = allowed; reply = b; call = rw same sent }

  -- The look-up, and the state it left.
  pub record Looked (zone record_name rt : Text) (s s' : State) : Type 0 where
    pub domain : provider_dns_zone settings ≡ ok zone
    pub records : List RecordInfo
    pub call :
        get_record record_name (some rt) (settings (str "dns_server")) (some zone) s
        ≡ (ok records, s')

  abbrev pub found :
      {zone record_name rt : Text} {s s' : State} → Looked zone record_name rt s s' → Bool
  found l = not (is_nil l.records)

  -- A change that returned looked the record set up once. With an error it stopped there, and the
  -- look-up found the record set (409, create) or did not (404, replace and delete); with success it
  -- sent one checked request for the mode.
  pub record Outcomes (zone_name record_name rt : Text) (ttl : Option ℤ) (values : List Text)
      (mode : Mode) (o : Outcome) (s s' : State) : Type 0 where
    pub zone : Text
    pub middle : State
    pub look : Looked zone record_name rt s middle
    pub ended :
        ((o.status ≡ error)
          × (refusal mode (found look) ≡ some (o.http_status, o.action))
          × (s' ≡ middle))
        ⊎ ((o.status ≡ success)
            × (refusal mode (found look) ≡ none)
            × (o.http_status ≡ 200)
            × (o.action ≡ done_action mode)
            × Sent zone (mode_request mode zone_name record_name rt ttl values) middle s')

  exists-Looked :
      (zone record_name rt : Text) (s middle : State) (there : Bool)
      → provider_dns_zone settings ≡ ok zone
      → record_exists_at_type client settings record_name rt s ≡ (ok there, middle)
      → (look : Looked zone record_name rt s middle) × (there ≡ found look)
  unfolding record_exists_at_type
  exists-Looked zone record_name rt s middle there domain h =
      let (records, after, call, answer) =
        bind-eq-ok (get_record record_name (some rt) (settings (str "dns_server")) (some zone)) _ s
          (rw domain at h) in
      let (same, state) = pure-eq-ok answer in
      (
        record { domain = domain; records = records; call = call ∙ (λ i. (ok records, state i)) },
        sym same,
      )

  act-ended :
      (zone zone_name record_name rt : Text) (ttl : Option ℤ) (values : List Text) (mode : Mode)
      (there : Bool) (o : Outcome) (s s' : State)
      → act_on_rrset client settings zone zone_name record_name rt ttl values mode there s
        ≡ (ok o, s')
      → ((o.status ≡ error) × (refusal mode there ≡ some (o.http_status, o.action)) × (s' ≡ s))
        ⊎ ((o.status ≡ success)
            × (refusal mode there ≡ none)
            × (o.http_status ≡ 200)
            × (o.action ≡ done_action mode)
            × Sent zone (mode_request mode zone_name record_name rt ttl values) s s')
  unfolding act_on_rrset
  act-ended zone zone_name record_name rt ttl values mode there o s s' h =
      elim (Option-cases (refusal mode there)) [
        | inr (why, refuse) ↦
            let answer : pure (refused why record_name rt (response_values mode values) zone) s
                ≡ (ok o, s') =
              rw (refuse, act_on_rrset) at h in
            let (same, state) = pure-eq-ok answer in
            inl (
              ap (λ (p : Outcome). p.status) (sym same),
              refuse ∙ ap (λ (p : Outcome). some (p.http_status, p.action)) same,
              sym state,
            )
        | inl accept ↦
            let (b, after, sent, answer) =
              bind-eq-ok
                (send client settings zone (mode_request mode zone_name record_name rt ttl values))
                _ s (rw (accept, act_on_rrset) at h) in
            let (same, state) = pure-eq-ok answer in
            let sent_then = send-Sent zone _ s after sent in
            inr (
              ap (λ (p : Outcome). p.status) (sym same),
              accept,
              ap (λ (p : Outcome). p.http_status) (sym same),
              ap (λ (p : Outcome). p.action) (sym same),
              record {
                allowed = sent_then.allowed;
                reply = sent_then.reply;
                call = sent_then.call ∙ (λ i. (ok sent_then.reply, state i));
              },
            )
      ]

  -- Whatever the client: a change that returned looked the record set up once. With an error it
  -- stopped there, and with success it sent one checked request for its mode.
  pub apply_rrset_mutation-Outcomes :
      (zone_name record_name record_type : Text) (ttl : Option ℤ) (values : List Text) (mode : Mode)
      (o : Outcome) (s s' : State)
      → apply_rrset_mutation client settings zone_name record_name record_type ttl values mode s
        ≡ (ok o, s')
      → Outcomes zone_name record_name (upper (strip record_type)) ttl values mode o s s'
  unfolding apply_rrset_mutation
  apply_rrset_mutation-Outcomes zone_name record_name record_type ttl values mode o s s' h =
      let rt = upper (strip record_type) in
      let (zone, domain, after_zone) = continue-eq-ok (provider_dns_zone settings) _ s h in
      let (there, middle, looked, after_look) =
        bind-eq-ok (record_exists_at_type client settings record_name rt) _ s after_zone in
      let (look, same) = exists-Looked zone record_name rt s middle there domain looked in
      record {
        zone = zone;
        middle = middle;
        look = look;
        ended =
            rw (← same) (
              act-ended zone zone_name record_name rt ttl values mode there o middle s' after_look);
      }
