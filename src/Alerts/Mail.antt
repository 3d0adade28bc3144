-- ===== src/Alerts/Mail.antt =====
-- alerting.py: send_alert_email, with what it calls on an SMTP client.
use api_to_dns.Prelude.{
  ◌==◌, ℕ, Bool, true, false, not, ◌&&◌, ◌||◌, Option, none, some, List, [], ◌∷◌, ◌++◌, some_of,
  if◌then◌else◌,
}
use api_to_dns.Text.{Text, str, ◌===◌, is_empty, join}
use api_to_dns.Activity.Redaction.{Details}
use api_to_dns.Activity.{Command, connect, ehlo, starttls, login, send_message, AlertRule, Attempt}
use api_to_dns.Alerts.{SmtpConfig, refuses_transport}

-- What the code calls: a server, which answers a command after those before it or raises, and answers
-- `quit` or raises something else than an SMTPException, str.format_map with `none` for its
-- errors, the values of the system's identity, the details of an event as text, and what the events
-- about a rule's alert say.
pub record Mailer : Type 0 where
  pub answers : Text → List Command → Command → Bool
  pub quits : Text → List Command → Bool
  pub format_map : Text → List (Text × Text) → Option Text
  pub identity : List (Text × Text)
  pub details_text : Option Text → Text
  pub alert_message : AlertRule → Bool → Text
  pub alert_details : AlertRule → List Attempt → Details

abbrev pub is_nil : List Text → Bool
is_nil [] = true
is_nil (s ∷ ss) = false

abbrev pub is_break : ℕ → Bool
is_break c = some_of (λ b. c == b) (10 ∷ 11 ∷ 12 ∷ 13 ∷ 28 ∷ 29 ∷ 30 ∷ 0x85 ∷ 0x2028 ∷ 0x2029 ∷ [])

-- len(s.splitlines()) > 1, where EmailMessage raises ValueError for a header
unfoldable pub has_second_line : Text → Bool
has_second_line [] = false
has_second_line (c ∷ []) = false
has_second_line (c ∷ d ∷ s) =
    let later = has_second_line (d ∷ s) in
    if is_break c then not (c == 13 && d == 10 && is_empty s) else later

-- The headers From, To and Subject
unfoldable pub raises_on_header : SmtpConfig → List Text → Text → Bool
raises_on_header config recipients subject =
    has_second_line config.from_address
    || has_second_line (join (str ", ") recipients)
    || has_second_line subject

abbrev pub upgrade : Bool → List Command
upgrade true = starttls ∷ ehlo ∷ []
upgrade false = []

abbrev pub sign_in : Bool → Text → Text → List Command
sign_in true username password = login username password ∷ []
sign_in false username password = []

-- What is called on a client up to `send_message`, where nothing raises
unfoldable pub session : SmtpConfig → List Command
session config =
    connect (config.security === str "ssl") config.port config.timeout
      ∷ ehlo
      ∷ upgrade (config.security === str "starttls")
    ++ (sign_in (not config.anonymous && not (is_empty config.username)) config.username
          config.password
        ++ send_message ∷ [])

module _ (m : Mailer) where
  -- The commands up to the first that raises, after some before them, and whether none did.
  unfoldable pub issue : Text → List Command → List Command → List Command × Bool
  issue server earlier [] = ([], true)
  issue server earlier (c ∷ commands) =
      let (later, done) = issue server (earlier ++ c ∷ []) commands in
      if m.answers server earlier c then (c ∷ later, done) else (c ∷ [], false)

  -- One try; a `quit` that raises something else than an SMTPException makes it fail.
  abbrev pub attempt_at : SmtpConfig → List Text → Text → Text → Text → Attempt
  attempt_at config recipients subject body server =
      let (commands, done) = issue server [] (session config) in
      record {
        server = server;
        commands = commands;
        sender = config.from_address;
        recipients = recipients;
        subject = subject;
        body = body;
        taken = done && m.quits server commands;
      }

  unfoldable pub try_servers : (Text → Attempt) → List Text → List Attempt
  try_servers attempt [] = []
  try_servers attempt (server ∷ servers) =
      let later = try_servers attempt servers in
      if (attempt server).taken then attempt server ∷ [] else attempt server ∷ later

  -- The tries, or none where the message cannot be built; it is sent if a server took it.
  unfoldable pub send_alert_email : SmtpConfig → List Text → Text → Text → Option (List Attempt)
  send_alert_email config recipients subject body =
      if is_nil config.servers
        || is_empty config.from_address
        || is_nil recipients
        || refuses_transport config.anonymous config.username config.password config.security
            config.allow_insecure_auth
      then some []
      else if raises_on_header config recipients subject
      then none
      else some (try_servers (attempt_at config recipients subject body) config.servers)

  abbrev pub is_sent : List Attempt → Bool
  is_sent attempts = some_of (λ (a : Attempt). a.taken) attempts
