-- ===== src/Alerts/Tests.antt =====
-- Alerts at a concrete rule, server and event.
use mathlib.Core.Option
use api_to_dns.Prelude.{
  Bool, ◌||◌, ◌≡◌, ◌⊎◌, refl, true, false, not, none, some, List, [], ◌∷◌, ◌++◌, arith, some_of,
  map, keep,
}
use api_to_dns.Text.{Text, str, ◌===◌, contains, join, nonnegative, text_runs}
use api_to_dns.Fault.{err, insecure_smtp}
use api_to_dns.SettingsStore.Plain.{plain}
use api_to_dns.Syslog.Forwarder.{init}
use api_to_dns.Activity.Redaction.{scalar}
use api_to_dns.Activity.{
  Command, connect, ehlo, starttls, login, send_message, ActivityLog, AlertRule, Attempt,
}
use api_to_dns.Activity.Log.{Platform, Instant, Site}
use api_to_dns.Alerts.{SmtpConfig, SmtpForm, parse_csv, refuses_transport, set_smtp_config}
use api_to_dns.Alerts.Mail.{
  Mailer, send_alert_email, try_servers, issue, session, raises_on_header, has_second_line,
}
use api_to_dns.Alerts.Session.{known_transports}
use api_to_dns.Alerts.Guarded.{IsGuarded, send_alert_email-IsGuarded}
use api_to_dns.Alerts.Cooldown.{watch, with_rule, Triggers, watch-once}

abbrev platform : Platform
platform = record {
  codec = plain;
  dumps = λ d. str "{}";
  snapshot = λ row. record {
    timestamp_iso = [];
    level = row.level;
    event_type = row.event_type;
    payload = [];
  };
  isoformat = λ time. time ∷ [];
  fromisoformat = λ s. none;
}

abbrev is_starttls : Command → Bool
is_starttls starttls = true
is_starttls _ = false

abbrev mailer : Mailer
mailer = record {
  answers = λ server earlier command. server === str "b" || not (is_starttls command);
  quits = λ server commands. true;
  format_map = λ template values. some template;
  identity = [];
  details_text = λ details. [];
  alert_message = λ rule sent. rule.name;
  alert_details = λ rule attempts. scalar (str "null");
}

addresses : parse_csv (str " a@x , ,b@x") ≡ str "a@x" ∷ str "b@x" ∷ []
unfolding parse_csv keep text_runs
addresses = refl

abbrev config : SmtpConfig
config = record {
  servers = str "a" ∷ str "b" ∷ str "c" ∷ [];
  port = nonnegative 587;
  anonymous = false;
  username = str "u";
  password = str "p";
  from_address = str "f@x";
  security = str "starttls";
  timeout = nonnegative 10;
  allow_insecure_auth = false;
}

abbrev recipients : List Text
recipients = str "r@x" ∷ []

transport_known : contains known_transports config.security ≡ true
unfolding contains text_runs
transport_known = refl

send_alert_email-IsGuarded_example :
    IsGuarded mailer config recipients
      (str "s")
      (str "t")
      (send_alert_email mailer config recipients (str "s") (str "t"))
send_alert_email-IsGuarded_example =
    send_alert_email-IsGuarded mailer config recipients (str "s") (str "t") transport_known

abbrev in_config : Command
in_config = login (str "u") (str "p")

-- The first server has no STARTTLS, the second takes the message, and the third is not asked.
second_took :
    Option.map
      (map {B = List Command × Bool} (λ (a : Attempt). (a.commands, a.taken)))
      (send_alert_email mailer config recipients (str "s") (str "t"))
    ≡ some (
        (connect false (nonnegative 587) (nonnegative 10) ∷ ehlo ∷ starttls ∷ [], false)
        ∷ (
          connect false (nonnegative 587) (nonnegative 10)
              ∷ ehlo
              ∷ starttls
              ∷ ehlo
              ∷ in_config
              ∷ send_message
              ∷ [],
          true,
        )
        ∷ [])
unfolding send_alert_email try_servers issue session raises_on_header has_second_line
    refuses_transport some_of join text_runs
second_took = refl

-- A subject of two lines
two_lines : send_alert_email mailer config recipients (str "s" ++ 10 ∷ str "t") [] ≡ none
unfolding send_alert_email raises_on_header has_second_line refuses_transport some_of join text_runs
two_lines = refl

abbrev form : SmtpForm plain
form = record {
  servers = str "a";
  port = nonnegative 25;
  anonymous = false;
  username = str "u";
  password = str "p";
  from_address = str "f@x";
  security = str "none";
  timeout = nonnegative 10;
  allow_insecure_auth = false;
  preserve_password_if_blank = true;
}

cleartext_refused : set_smtp_config plain form [] ≡ err insecure_smtp
unfolding set_smtp_config refuses_transport text_runs
cleartext_refused = refl

abbrev rule : AlertRule
rule = record {
  id = 1;
  enabled = true;
  name = str "failures";
  event_type = [];
  category = [];
  minimum_level = str "WARNING";
  message_contains = [];
  email_recipients = str "r@x";
  email_subject_template = [];
  email_body_template = [];
  cooldown_minutes = 5;
  last_triggered_at = none;
}

abbrev failure : ActivityLog
failure = record {
  timestamp = 1000;
  level = str "ERROR";
  category = some (str "dns");
  event_type = str "dns.provider_failed";
  status = none;
  actor_type = none;
  actor_id = none;
  actor_label = none;
  zone_name = none;
  record_name = none;
  message = none;
  details_json = none;
  request_method = none;
  request_path = none;
  request_status_code = none;
  request_ip = none;
}

abbrev site : Site
site = record {
  settings =
      (str "smtp_servers", str "b")
      ∷ (str "smtp_from", str "f@x")
      ∷ (str "smtp_anonymous", str "yes")
      ∷ [];
  logs = [];
  rules = [];
  last_retention = none;
  forwarder = init;
  attempts = [];
}

abbrev events : List (Instant × ActivityLog)
events =
    (record { utc = 1000; monotonic = 1 }, failure)
    ∷ (record { utc = 1299; monotonic = 300 }, failure)
    ∷ []

watch-once_example :
    ((watch platform mailer events (with_rule platform mailer rule site)).attempts ≡ site.attempts)
    ⊎ Triggers platform mailer events rule site
watch-once_example = watch-once platform mailer events 1000 rule site (omega arith) (omega arith)
