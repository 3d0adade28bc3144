-- ===== src/Alerts/Session.antt =====
-- What `send_alert_email` calls on an SMTP client.
use api_to_dns.Prelude.{
  ◌≡◌, refl, inl, inr, Bool, true, false, not, ◌&&◌, ◌||◌, List, [], ◌∷◌, ◌++◌, arith, Bool-cases,
}
use api_to_dns.Text.{Text, ◌===◌, contains, is_empty, strip, lower, str, text_runs}
use api_to_dns.Text.Equal.{===_iff}
use api_to_dns.Syslog.{or_default}
use api_to_dns.Activity.{Command, connect, starttls, login, send_message}
use api_to_dns.Alerts.{SmtpConfig, refuses_transport, secure_transports}
use api_to_dns.Alerts.Mail.{Mailer, upgrade, sign_in, session, issue}

abbrev pub exposes : Bool → Command → Bool
exposes secure (login username password) = not secure
exposes secure _ = false

abbrev pub secures : Command → Bool
secures (connect ssl port timeout) = ssl
secures starttls = true
secures _ = false

-- Whether there is a login before SSL or STARTTLS, where it was not secure before.
unfoldable pub logs_in_clear : Bool → List Command → Bool
logs_in_clear secure [] = false
logs_in_clear secure (c ∷ commands) =
    exposes secure c || logs_in_clear (secure || secures c) commands

-- Whether the last command sends the message.
unfoldable pub ends_in_send : List Command → Bool
ends_in_send [] = false
ends_in_send (send_message ∷ []) = true
ends_in_send (c ∷ commands) = ends_in_send commands

abbrev pub to_send : Bool → Bool → SmtpConfig → List Command
to_send tls signs config =
    upgrade tls ++ (sign_in signs config.username config.password ++ send_message ∷ [])

to_send-clear :
    (ssl tls signs : Bool) (config : SmtpConfig)
    → (not ssl && not tls && signs) ≡ false
    → logs_in_clear (ssl || false) (to_send tls signs config) ≡ false
unfolding logs_in_clear
to_send-clear true true true config h = refl
to_send-clear true true false config h = refl
to_send-clear true false true config h = refl
to_send-clear true false false config h = refl
to_send-clear false true true config h = refl
to_send-clear false true false config h = refl
to_send-clear false false true config h = cc
to_send-clear false false false config h = refl

to_send-ends :
    (tls signs : Bool) (config : SmtpConfig) → ends_in_send (to_send tls signs config) ≡ true
unfolding ends_in_send
to_send-ends true true config = refl
to_send-ends true false config = refl
to_send-ends false true config = refl
to_send-ends false false config = refl

pub session-ends : (config : SmtpConfig) → ends_in_send (session config) ≡ true
unfolding ends_in_send session
session-ends config =
    to_send-ends (config.security === str "starttls")
      (not config.anonymous && not (is_empty config.username)) config

-- The values that the setting of the transport takes
abbrev pub known_transports : List Text
known_transports = str "none" ∷ secure_transports

none_insecure :
    (t : Text)
    → t ≡ str "none"
    → contains secure_transports (lower (strip (or_default t (str "starttls")))) ≡ false
unfolding text_runs
none_insecure t h = rw h refl

insecure :
    (t : Text)
    → contains known_transports t ≡ true
    → (t === str "ssl") ≡ false
    → (t === str "starttls") ≡ false
    → contains secure_transports (lower (strip (or_default t (str "starttls")))) ≡ false
unfolding contains
insecure t known ssl tls = none_insecure t ((===_iff t (str "none")).0 (ground arith))

pub session-clear :
    (config : SmtpConfig)
    → contains known_transports config.security ≡ true
    → refuses_transport config.anonymous config.username config.password config.security
        config.allow_insecure_auth
      ≡ false
    → is_empty (strip config.username) ≡ false
    → config.allow_insecure_auth ≡ false
    → logs_in_clear false (session config) ≡ false
unfolding logs_in_clear session refuses_transport
session-clear config known accepted named strict =
    to_send-clear (config.security === str "ssl") (config.security === str "starttls")
      (not config.anonymous && not (is_empty config.username)) config
      (elim (Bool-cases (config.security === str "ssl")) [
        | inl e ↦ ground arith
        | inr e ↦ elim (Bool-cases (config.security === str "starttls")) [
          | inl f ↦ ground arith
          | inr f ↦ ground (arith, insecure config.security known e f)
        ]
      ])

module _ (m : Mailer) (server : Text) where
  -- Whether none of the commands raises, after some before them.
  unfoldable pub answered : List Command → List Command → Bool
  answered earlier [] = true
  answered earlier (c ∷ commands) =
      m.answers server earlier c && answered (earlier ++ c ∷ []) commands

  pub issue-clear :
      (secure : Bool) (earlier commands : List Command)
      → logs_in_clear secure commands ≡ false
      → logs_in_clear secure (issue m server earlier commands).0 ≡ false
  unfolding issue logs_in_clear
  issue-clear secure earlier [] h = refl
  issue-clear secure earlier (c ∷ commands) h =
      let later = issue-clear (secure || secures c) (earlier ++ c ∷ []) commands in
      elim (Bool-cases (m.answers server earlier c)) [
        | inl e ↦ ground (arith, later)
        | inr e ↦ ground arith
      ]

  pub issue-done :
      (earlier commands : List Command)
      → (issue m server earlier commands).1 ≡ answered earlier (issue m server earlier commands).0
  unfolding issue answered
  issue-done earlier [] = refl
  issue-done earlier (c ∷ commands) =
      let later = issue-done (earlier ++ c ∷ []) commands in
      elim (Bool-cases (m.answers server earlier c)) [
        | inl e ↦ rw e (rw e later)
        | inr e ↦ rw e (rw e refl)
      ]

  pub issue-all :
      (earlier commands : List Command)
      → (issue m server earlier commands).1 ≡ true
      → (issue m server earlier commands).0 ≡ commands
  unfolding issue
  issue-all earlier [] h = refl
  issue-all earlier (c ∷ commands) h =
      let later = issue-all (earlier ++ c ∷ []) commands in
      elim (Bool-cases (m.answers server earlier c)) [
        | inl e ↦ ground (arith, later)
        | inr e ↦ ground arith
      ]
