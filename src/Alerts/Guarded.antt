-- ===== src/Alerts/Guarded.antt =====
-- What `send_alert_email` tries.
use mathlib.Core.Path.{subst}
use api_to_dns.Prelude.{
  if◌then◌else◌, ◌≡◌, refl, inl, inr, ap, ◌∙◌, Bool, true, false, ◌&&◌, ◌||◌, Option, none, some,
  List, [], ◌∷◌, ◌++◌, All, arith, Bool-cases, some_of, map,
}
use api_to_dns.Text.{Text, contains, is_empty, strip}
use api_to_dns.Activity.{Attempt}
use api_to_dns.Alerts.{SmtpConfig, refuses_transport}
use api_to_dns.Alerts.Mail.{
  Mailer, is_nil, raises_on_header, session, issue, attempt_at, try_servers, send_alert_email,
  is_sent,
}
use api_to_dns.Alerts.Session.{
  known_transports, logs_in_clear, ends_in_send, session-ends, session-clear, answered, issue-clear,
  issue-done, issue-all,
}

-- Each try but the last failed.
abbrev pub IsFailover : List Attempt → Type 0
IsFailover [] = Unit
IsFailover (a ∷ []) = Unit
IsFailover (a ∷ b ∷ rest) = (a.taken ≡ false) × IsFailover (b ∷ rest)

IsFailover-cons :
    (a : Attempt) (rest : List Attempt) → a.taken ≡ false → IsFailover rest → IsFailover (a ∷ rest)
IsFailover-cons a [] h k = tt
IsFailover-cons a (b ∷ rest) h k = (h, k)

-- What holds of both branches holds of the test.
if-All :
    (P : List Attempt → Type 0) (b : Bool) {yes no : List Attempt}
    → (b ≡ true → P yes)
    → (b ≡ false → P no)
    → P (if b then yes else no)
if-All P true h k = h refl
if-All P false h k = k refl

module _ (m : Mailer) where
  -- The tries are at the first servers, in their order; if none took the message, at all of them.
  pub record InTurn (servers : List Text) (tries : List Attempt) : Type 0 where
    pub others : List Text
    pub order : servers ≡ map (λ (a : Attempt). a.server) tries ++ others
    pub failover : IsFailover tries
    pub all : is_sent m tries ≡ false → others ≡ []

  -- One try: a server takes the message if it answers all that is called, up to the sending, and the
  -- end of the connection. A login with a user name that is not blank comes after SSL or STARTTLS,
  -- unless cleartext was opted in to.
  pub record IsTry (config : SmtpConfig) (recipients : List Text) (subject body : Text)
      (a : Attempt) : Type 0 where
    pub sender : a.sender ≡ config.from_address
    pub addressees : a.recipients ≡ recipients
    pub titled : a.subject ≡ subject
    pub says : a.body ≡ body
    pub taken : a.taken ≡ (answered m a.server [] a.commands && m.quits a.server a.commands)
    pub sends : a.taken ≡ true → ends_in_send a.commands ≡ true
    pub guarded :
        is_empty (strip config.username) ≡ false
        → config.allow_insecure_auth ≡ false
        → logs_in_clear false a.commands ≡ false

  module _ (P : Attempt → Type 0) (attempt : Text → Attempt) where
    try_servers-All :
        (servers : List Text)
        → ((server : Text) → P (attempt server))
        → All P (try_servers m attempt servers)
    unfolding try_servers
    try_servers-All [] h = tt
    try_servers-All (server ∷ servers) h =
        if-All (All P) (attempt server).taken (λ taken. (h server, tt))
          (λ failed. (h server, try_servers-All servers h))

  InTurn-taken :
      (a : Attempt) (servers : List Text) → a.taken ≡ true → InTurn (a.server ∷ servers) (a ∷ [])
  unfolding some_of
  InTurn-taken a servers h = record {
    others = servers;
    order = refl;
    failover = tt;
    all = λ none_took. ground arith;
  }

  InTurn-failed :
      (a : Attempt) (servers : List Text) (tries : List Attempt)
      → a.taken ≡ false
      → InTurn servers tries
      → InTurn (a.server ∷ servers) (a ∷ tries)
  unfolding some_of
  InTurn-failed a servers tries h t = record {
    others = t.others;
    order = ap (λ (ss : List Text). a.server ∷ ss) t.order;
    failover = IsFailover-cons a tries h t.failover;
    all = λ none_took. t.all (ground arith);
  }

  try_servers-InTurn :
      (attempt : Text → Attempt)
      → ((server : Text) → (attempt server).server ≡ server)
      → (servers : List Text) → InTurn servers (try_servers m attempt servers)
  unfolding try_servers some_of
  try_servers-InTurn attempt at [] = record {
    others = [];
    order = refl;
    failover = tt;
    all = λ none_took. refl;
  }
  try_servers-InTurn attempt at (server ∷ servers) =
      subst (λ (s : Text). InTurn (s ∷ servers) (try_servers m attempt (server ∷ servers)))
        (at server)
        (if-All (InTurn ((attempt server).server ∷ servers)) (attempt server).taken
          (InTurn-taken (attempt server) servers)
          (λ failed.
            InTurn-failed (attempt server) servers (try_servers m attempt servers) failed
              (try_servers-InTurn attempt at servers)))

  module _ (config : SmtpConfig) (recipients : List Text) (subject : Text) (body : Text) where
    -- Why nothing is tried.
    abbrev pub is_refused : Bool
    is_refused =
        is_nil config.servers
        || is_empty config.from_address
        || is_nil recipients
        || refuses_transport config.anonymous config.username config.password config.security
            config.allow_insecure_auth

    -- Nothing, an error, or tries.
    abbrev pub IsGuarded : Option (List Attempt) → Type 0
    IsGuarded none = (is_refused ≡ false) × (raises_on_header config recipients subject ≡ true)
    IsGuarded (some []) = is_refused ≡ true
    IsGuarded (some (a ∷ tries)) =
        (is_refused ≡ false)
        × (raises_on_header config recipients subject ≡ false)
        × InTurn config.servers (a ∷ tries)
        × All (IsTry config recipients subject body) (a ∷ tries)

    attempt_at-IsTry :
        contains known_transports config.security ≡ true
        → is_refused ≡ false
        → (server : Text)
        → IsTry config recipients subject body (attempt_at m config recipients subject body server)
    attempt_at-IsTry known e server = record {
      sender = refl;
      addressees = refl;
      titled = refl;
      says = refl;
      taken =
          ap (λ (done : Bool). done && m.quits server (issue m server [] (session config)).0)
            (issue-done m server [] (session config));
      sends = λ took.
          ap ends_in_send (issue-all m server [] (session config) (ground arith))
          ∙ session-ends config;
      guarded = λ named strict.
          issue-clear m server false [] (session config)
            (session-clear config known (ground arith) named strict);
    }

    tries-IsGuarded :
        (tries : List Attempt)
        → is_refused ≡ false
        → raises_on_header config recipients subject ≡ false
        → InTurn config.servers tries
        → All (IsTry config recipients subject body) tries
        → IsGuarded (some tries)
    unfolding some_of
    tries-IsGuarded [] accepted fine turn each = ground (arith, turn.order, turn.all refl)
    tries-IsGuarded (a ∷ tries) accepted fine turn each = (accepted, fine, turn, each)

    -- The transport is one of the three that the settings know. Nothing is tried exactly if there is no
    -- server, sender or recipient, or the transport is refused. Else, a sender, a recipient or a subject of
    -- more than one line is an error; without one the servers are tried in turn, with this sender, these
    -- recipients, this subject and this body, up to the first one that takes the message, or all of them. A
    -- server takes it exactly if it answers all that is called, which then ends in the sending, and the end of
    -- the connection. A login with a user name that is not blank comes after SSL or STARTTLS, or cleartext was
    -- opted in to.
    pub send_alert_email-IsGuarded :
        contains known_transports config.security ≡ true
        → IsGuarded (send_alert_email m config recipients subject body)
    unfolding send_alert_email
    send_alert_email-IsGuarded known = elim (Bool-cases is_refused) [
      | inl e ↦ rw e e
      | inr e ↦ rw e (elim (Bool-cases (raises_on_header config recipients subject)) [
        | inl f ↦ rw f (e, f)
        | inr f ↦ rw f (
            tries-IsGuarded
              (try_servers m (attempt_at m config recipients subject body) config.servers) e f
              (try_servers-InTurn (attempt_at m config recipients subject body) (λ server. refl)
                config.servers)
              (try_servers-All (IsTry config recipients subject body)
                (attempt_at m config recipients subject body) config.servers
                (attempt_at-IsTry known e)))
      ])
    ]
