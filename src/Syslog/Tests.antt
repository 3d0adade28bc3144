-- ===== src/Syslog/Tests.antt =====
-- The forwarder at concrete configurations, events and schedules.
use api_to_dns.Prelude.{
  map, keep, ◌≡◌, refl, true, false, none, some, List, [], ◌∷◌, All, arith, length, ◌*◌, ◌≤◌, ℕ,
}
use api_to_dns.Text.{str, nonnegative, text_runs}
use api_to_dns.Fault.{ok, err, plaintext_not_allowed}
use api_to_dns.Levels.{rank_of}
use api_to_dns.Syslog.{
  code_or, SyslogConfig, Settings, milliseconds, validate_syslog_config, sanitize_hostname,
  has_code,
}
use api_to_dns.Syslog.Message.{
  ActivityLogSnapshot, meets_minimum_level, sanitize_msg_id, replace_runs, frame_tcp, priority,
  encode_rfc5424, ascii,
}
use api_to_dns.Syslog.Forwarder.{
  send_datagram, write, open_stream, send, check_item, get_item, work_at, Forwarder, Outcome, init,
  configure, at_test, work, apply_config, resized, resize, last_items, close_sockets, close_stream,
  ensure_worker, put_event, warn_rate_limited, admit,
}
use api_to_dns.Syslog.System.{Action, configured, enqueuing, putting, working, started, act, run}
use api_to_dns.Syslog.Worker.{IsSent}
use api_to_dns.Syslog.Chosen.{WasSet, work-IsSent}
use api_to_dns.Syslog.Bounded.{IsBounded, run-IsBounded}
use api_to_dns.Syslog.Drain.{works, due, delivery, works-due}
use api_to_dns.Syslog.Pending.{IsDropped, InHand, configure-IsDropped}
use api_to_dns.Syslog.Frames.{read_frames, stream_of, read_frames-stream_of}
use api_to_dns.Syslog.Fields.{fields, version, IsMsgId, encode_rfc5424-fields}
use api_to_dns.Syslog.Valid.{IsValid, validate_syslog_config-IsValid}

abbrev settings : Settings
settings = record {
  enabled = true;
  host = str " logs.example.com ";
  port = some (nonnegative 6514);
  protocol = str "TLS";
  facility = [];
  minimum_level = str "warning";
  timeout = some (milliseconds (nonnegative 5000));
  queue_size = some (nonnegative 2);
  allow_insecure_plaintext = false;
  hostname = str "dns 1.example.com";
}

abbrev config : SyslogConfig
config = record {
  enabled = true;
  host = str "logs.example.com";
  port = 6514;
  protocol = str "tls";
  facility = str "local0";
  minimum_level = str "WARNING";
  timeout = milliseconds (nonnegative 5000);
  queue_size = 2;
  allow_insecure_plaintext = false;
  hostname = str "dns_1.example.com";
  generation = 0;
}

validated : validate_syslog_config settings ≡ ok config
unfolding validate_syslog_config sanitize_hostname has_code keep text_runs
validated = refl

plaintext_refused :
    validate_syslog_config (record settings { protocol = str "udp" }) ≡ err plaintext_not_allowed
unfolding validate_syslog_config sanitize_hostname has_code keep text_runs
plaintext_refused = refl

validate_syslog_config-IsValid_example : IsValid config
validate_syslog_config-IsValid_example = validate_syslog_config-IsValid settings validated

abbrev event : ActivityLogSnapshot
event = record {
  timestamp_iso = str "2026-01-02T03:04:05.678Z";
  level = str "ERROR";
  event_type = str "dns.provider failed";
  payload = str "{}";
}

encoded :
    encode_rfc5424 event config
    ≡ str "<131>1 2026-01-02T03:04:05.678Z dns_1.example.com api-to-dns - dns.provider_failed - {}"
unfolding encode_rfc5424 priority sanitize_hostname sanitize_msg_id replace_runs code_or keep
    text_runs
encoded = refl

framed : frame_tcp (str "hello") ≡ str "5 hello"
unfolding frame_tcp text_runs
framed = refl

abbrev network : Outcome
network = record { succeeds = true; socket = 7; now = 100 }

-- The worker is in `get` when an event arrives, and has written it after five more steps.
abbrev actions : List Action
actions =
    configured config
    ∷ enqueuing event
    ∷ putting 100 0
    ∷ working network
    ∷ working network
    ∷ working network
    ∷ working network
    ∷ working network
    ∷ []

work-IsSent_example :
    All
      (IsSent (WasSet actions) (run actions started).0.forwarder.config)
      (work network (run actions started).0.forwarder).1
work-IsSent_example = work-IsSent actions network

written :
    (work network (run actions started).0.forwarder).1
    ≡ delivery (record config { generation = 1 }) event ∷ []
unfolding run act configure apply_config resized resize last_items close_sockets close_stream
    ensure_worker admit put_event warn_rate_limited work_at get_item check_item send open_stream
    write meets_minimum_level rank_of encode_rfc5424 frame_tcp keep text_runs
written = refl

-- A datagram leaves for the old host after forwarding was switched off.
abbrev datagrams : SyslogConfig
datagrams = record config { protocol = str "udp"; allow_insecure_plaintext = true }

stale_datagram :
    (work network
      (run
        (configured datagrams
          ∷ enqueuing event
          ∷ putting 100 0
          ∷ working network
          ∷ working network
          ∷ working network
          ∷ configured (record datagrams { enabled = false })
          ∷ working network
          ∷ [])
        started).0.forwarder).1
    ≡ delivery (record datagrams { generation = 1 }) event ∷ []
unfolding run act configure apply_config resized resize last_items close_sockets close_stream
    ensure_worker admit put_event warn_rate_limited work_at get_item check_item send send_datagram
    meets_minimum_level rank_of encode_rfc5424 frame_tcp keep text_runs
stale_datagram = refl

run-IsBounded_example : IsBounded (run actions started).0.forwarder
run-IsBounded_example = run-IsBounded actions

abbrev pending : Forwarder
pending = record init {
  config = record config { generation = 1 };
  queue = some (1, event) ∷ some (0, event) ∷ none ∷ [];
  thread = at_test;
  generation = 1;
}

works-due_example :
    (n : ℕ) × (n ≤ 6 * length pending.queue)
    × ((works n network pending).0.queue ≡ [])
    × ((works n network pending).1 ≡ due pending.config pending.queue)
works-due_example = works-due pending network refl refl refl

pending_due : due pending.config pending.queue ≡ delivery pending.config event ∷ []
unfolding due
pending_due = refl

abbrev resized_config : SyslogConfig
resized_config = record config { queue_size = 5 }

abbrev queued_actions : List Action
queued_actions = configured config ∷ enqueuing event ∷ putting 100 0 ∷ []

abbrev reconfigured : Forwarder
reconfigured = configure resized_config (run queued_actions started).0.forwarder

configure-IsDropped_example :
    let s = (run queued_actions started).0 in
    All (IsDropped network reconfigured) reconfigured.queue
    × All (λ event. IsDropped network reconfigured (some event)) s.admitted
    × InHand network reconfigured s.forwarder.thread
configure-IsDropped_example =
    configure-IsDropped queued_actions resized_config network reconfigured refl

kept_but_stale :
    (configure resized_config (run queued_actions started).0.forwarder).queue ≡ some (1, event) ∷ []
unfolding run act configure apply_config resized resize last_items close_sockets close_stream
    ensure_worker admit put_event warn_rate_limited meets_minimum_level rank_of keep text_runs
kept_but_stale = refl

read_frames-stream_of_example :
    read_frames 2 (stream_of (str "5 first" ∷ str "second" ∷ []))
    ≡ some (str "5 first" ∷ str "second" ∷ [])
read_frames-stream_of_example = read_frames-stream_of (str "5 first" ∷ str "second" ∷ [])

encode_rfc5424-fields_example :
    (fields 7 (encode_rfc5424 event config) ≡ (
      version (priority event config)
          ∷ event.timestamp_iso
          ∷ map ascii (sanitize_hostname config.hostname)
          ∷ str "api-to-dns"
          ∷ str "-"
          ∷ sanitize_msg_id event.event_type
          ∷ str "-"
          ∷ [],
      event.payload,
    ))
    × (priority event config ≤ 191)
    × IsMsgId (sanitize_msg_id event.event_type)
encode_rfc5424-fields_example = encode_rfc5424-fields event config (ground arith) (omega arith)
