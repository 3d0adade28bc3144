-- ===== src/Syslog/Fields.antt =====
-- RFC 5424 from the receiver's side: the header of a message is cut at its spaces.
use mathlib.Core.List.{append_assoc, map-append}
use api_to_dns.Prelude.{
  length-take_le, ℕ, zero, suc, ◌≤◌, ◌<◌, ◌≡◌, refl, sym, ap, ◌∙◌, inl, inr, Bool, true, false,
  List, [], ◌∷◌, ◌++◌, map, All, All-append, All-take, All-keep, All-map, arith, length, take, ◌==◌,
  if◌then◌else◌, Bool-cases,
}
use api_to_dns.Text.{◌===◌, Text, str, show, is_digit, strip, upper, lower}
use api_to_dns.Text.Strip.{Avoids}
use api_to_dns.Text.Decimal.{show-IsDigits}
use api_to_dns.Syslog.{
  SyslogConfig, or_default, nilvalue, sanitize_hostname, space_to_underscore, is_not_break, code_or,
  syslog_facility, syslog_severity,
}
use api_to_dns.Syslog.Message.{
  ActivityLogSnapshot, is_name_char, replace_runs, sanitize_msg_id, priority, ascii, encode_rfc5424,
}

-- A text up to its first space, and what follows the space.
abbrev pub cut : Text → Text × Text
cut [] = ([], [])
cut (c ∷ s) = let (field, rest) = cut s in if c == b' ' then ([], s) else (c ∷ field, rest)

-- n fields, and what follows them.
unfoldable pub fields : ℕ → Text → List Text × Text
fields zero s = ([], s)
fields (suc n) s =
    let (field, rest) = cut s in let (more, last) = fields n rest in (field ∷ more, last)

fields_zero : (s : Text) → fields 0 s ≡ ([], s)
unfolding fields
fields_zero s = refl

fields-cons :
    (n : ℕ) (s : Text) {field rest last : Text} {more : List Text}
    → cut s ≡ (field, rest)
    → fields n rest ≡ (more, last)
    → fields (suc n) s ≡ (field ∷ more, last)
unfolding fields
fields-cons n s e k = rw e (rw k)

abbrev pub is_blank : ℕ → Bool
is_blank c = c == b' '

-- A field holds no space, and all of it is ASCII.
abbrev pub IsField : Text → Type 0
IsField s = All (λ c. (is_blank c ≡ false) × (c < 128)) s

cut-append : (t s : Text) → IsField t → cut (t ++ b' ' ∷ s) ≡ (t, s)
cut-append [] s h = refl
cut-append (c ∷ t) s h = rw (h.0.0, cut-append t s h.1)

ascii_fix : (s : Text) → All (λ c. c < 128) s → map ascii s ≡ s
ascii_fix [] h = refl
ascii_fix (c ∷ s) h = rw (ascii_fix s h.1) (ground arith)

map-ascii-IsField : (s : Text) → Avoids is_blank s → IsField (map ascii s)
map-ascii-IsField [] h = tt
map-ascii-IsField (c ∷ s) h = (ground arith, map-ascii-IsField s h.1)

underscored : (s : Text) → Avoids is_blank (map space_to_underscore s)
underscored [] = tt
underscored (c ∷ s) = (ground arith, underscored s)

or_nilvalue-All : (P : ℕ → Type 0) (s : Text) → P b'-' → All P s → All P (or_default s nilvalue)
or_nilvalue-All P [] k h = (k, tt)
or_nilvalue-All P (c ∷ s) k h = h

-- A host name is one field, when it is encoded.
hostname-Avoids : (value : Text) → Avoids is_blank (sanitize_hostname value)
unfolding sanitize_hostname
hostname-Avoids value =
    or_nilvalue-All _ _ refl
      (All-take _ 255 _ (All-keep _ is_not_break _ (underscored (strip value))))

replace_runs_names :
    (within : Bool) (s : Text) → All (λ c. is_name_char c ≡ true) (replace_runs within s)
unfolding replace_runs
replace_runs_names within [] = tt
replace_runs_names within (c ∷ s) = elim (Bool-cases (is_name_char c)) [
  | inl e ↦ rw e (e, replace_runs_names false s)
  | inr e ↦ rw e (elim (Bool-cases within) [
    | inl k ↦ rw k (replace_runs_names true s)
    | inr k ↦ rw k (refl, replace_runs_names true s)
  ])
]

-- [A-Za-z0-9._-]+ with 48 characters at most
pub record IsMsgId (s : Text) : Type 0 where
  pub some_of_it : 1 ≤ length s
  pub short : length s ≤ 48
  pub names : All (λ c. is_name_char c ≡ true) s

IsMsgId-of :
    (s : Text) → All (λ c. is_name_char c ≡ true) s → IsMsgId (or_default (take 48 s) nilvalue)
IsMsgId-of [] h = record { some_of_it = omega arith; short = omega arith; names = (refl, tt) }
IsMsgId-of (c ∷ s) h = record {
  some_of_it = omega arith;
  short = omega (arith, length-take_le 47 s);
  names = All-take (λ d. is_name_char d ≡ true) 48 (c ∷ s) h;
}

sanitize_msg_id-IsMsgId : (value : Text) → IsMsgId (sanitize_msg_id value)
unfolding sanitize_msg_id
sanitize_msg_id-IsMsgId value = IsMsgId-of _ (replace_runs_names false (strip value))

name-IsField : (c : ℕ) → is_name_char c ≡ true → (is_blank c ≡ false) × (c < 128)
name-IsField c h = ground arith

digit-IsField : (c : ℕ) → is_digit c ≡ true → (is_blank c ≡ false) × (c < 128)
digit-IsField c h = ground arith

code_or-le :
    (m default : ℕ) (name : Text) (codes : List (Text × ℕ))
    → default ≤ m
    → All (λ entry. entry.1 ≤ m) codes
    → code_or default name codes ≤ m
unfolding code_or
code_or-le m default name [] d h = d
code_or-le m default name ((key, value) ∷ codes) d h = elim (Bool-cases (key === name)) [
  | inl e ↦ rw e h.0
  | inr e ↦ rw e (code_or-le m default name codes d h.1)
]

priority-le : (event : ActivityLogSnapshot) (config : SyslogConfig) → priority event config ≤ 191
unfolding priority
priority-le event config = omega (
  arith,
  code_or-le 23 16 (lower (or_default config.facility (str "local0"))) syslog_facility (omega arith)
      (omega arith),
  code_or-le 7 6 (upper event.level) syslog_severity (omega arith) (omega arith),
)

-- `<n>1`
abbrev pub version : ℕ → Text
version n = str "<" ++ (show n ++ str ">1")

version-IsField : (n : ℕ) → IsField (version n)
version-IsField n = (
  (refl, omega arith),
  All-append _ (show n) (str ">1") (All-map _ digit-IsField (show n) (show-IsDigits n))
      ((refl, omega arith), ((refl, omega arith), tt)),
)

cut_field : (t s : Text) → IsField t → cut (map ascii (t ++ b' ' ∷ s)) ≡ (t, map ascii s)
cut_field t s h =
    ap cut (
      map-append ascii t (b' ' ∷ s)
      ∙ ap (λ (u : Text). u ++ b' ' ∷ map ascii s) (ascii_fix t (All-map _ (λ c k. k.1) t h)))
    ∙ cut-append t (map ascii s) h

cut_host :
    (t s : Text) → Avoids is_blank t → cut (map ascii (t ++ b' ' ∷ s)) ≡ (map ascii t, map ascii s)
cut_host t s h =
    ap cut (map-append ascii t (b' ' ∷ s))
    ∙ cut-append (map ascii t) (map ascii s) (map-ascii-IsField t h)

dash-IsField : IsField (str "-")
dash-IsField = ((refl, omega arith), tt)

app-IsField : IsField (str "api-to-dns")
app-IsField = All-map (λ c. is_name_char c ≡ true) name-IsField (str "api-to-dns") (ground arith)

module _ (event : ActivityLogSnapshot) (config : SyslogConfig) where
  abbrev after_msg_id : Text
  after_msg_id = str " - " ++ event.payload

  abbrev after_host : Text
  after_host = str " api-to-dns - " ++ (sanitize_msg_id event.event_type ++ after_msg_id)

  abbrev after_time : Text
  after_time = str " " ++ (sanitize_hostname config.hostname ++ after_host)

  abbrev after_version : Text
  after_version = event.timestamp_iso ++ after_time

  encode_rfc5424_lem :
      encode_rfc5424 event config
      ≡ map ascii (version (priority event config) ++ b' ' ∷ after_version)
  unfolding encode_rfc5424
  encode_rfc5424_lem =
      ap (λ (t : Text). map ascii (str "<" ++ t))
        (sym (append_assoc (show (priority event config)) (str ">1") (b' ' ∷ after_version)))

  last_field :
      All (λ c. c < 128) event.payload
      → fields 1 (map ascii (str "- " ++ event.payload)) ≡ (str "-" ∷ [], event.payload)
  last_field k =
      fields-cons 0 _ (cut_field (str "-") event.payload dash-IsField)
        (fields_zero _ ∙ ap (λ (t : Text). ([], t)) (ascii_fix event.payload k))

  behind_name :
      All (λ c. c < 128) event.payload
      → fields 3 (map ascii (str "- " ++ (sanitize_msg_id event.event_type ++ after_msg_id)))
        ≡ (str "-" ∷ sanitize_msg_id event.event_type ∷ str "-" ∷ [], event.payload)
  behind_name k =
      fields-cons 2 _
        (cut_field (str "-") (sanitize_msg_id event.event_type ++ after_msg_id) dash-IsField)
        (fields-cons 1 _
          (cut_field (sanitize_msg_id event.event_type) (str "- " ++ event.payload)
            (All-map _ name-IsField _ (sanitize_msg_id-IsMsgId event.event_type).names))
          (last_field k))

  behind_time :
      All (λ c. c < 128) event.payload
      → fields 5 (map ascii (sanitize_hostname config.hostname ++ after_host)) ≡ (
        map ascii (sanitize_hostname config.hostname)
            ∷ str "api-to-dns"
            ∷ str "-"
            ∷ sanitize_msg_id event.event_type
            ∷ str "-"
            ∷ [],
        event.payload,
      )
  behind_time k =
      fields-cons 4 _
        (cut_host (sanitize_hostname config.hostname)
          (str "api-to-dns - " ++ (sanitize_msg_id event.event_type ++ after_msg_id))
          (hostname-Avoids config.hostname))
        (fields-cons 3 _
          (cut_field (str "api-to-dns")
            (str "- " ++ (sanitize_msg_id event.event_type ++ after_msg_id)) app-IsField)
          (behind_name k))

  -- If the time is one field and the payload is ASCII, as ISO times and JSON with `ensure_ascii` are: a
  -- receiver that cuts at spaces finds the seven fields of the header and behind them the payload,
  -- whatever the event type and the host name hold; the priority is at most 191, and the message's name has
  -- between 1 and 48 characters, letters, digits, dots, underscores and dashes.
  pub encode_rfc5424-fields :
      IsField event.timestamp_iso
      → All (λ c. c < 128) event.payload
      → (fields 7 (encode_rfc5424 event config) ≡ (
        version (priority event config)
            ∷ event.timestamp_iso
            ∷ map ascii (sanitize_hostname config.hostname)
            ∷ str "api-to-dns"
            ∷ str "-"
            ∷ sanitize_msg_id event.event_type
            ∷ str "-"
            ∷ [],
        event.payload,
      ))
        × (priority event config ≤ 191)
        × IsMsgId (sanitize_msg_id event.event_type)
  encode_rfc5424-fields h k = (
    ap (fields 7) encode_rfc5424_lem
        ∙ fields-cons 6 _ (cut_field (version _) after_version (version-IsField _)) (
            fields-cons 5 _
              (cut_field event.timestamp_iso (sanitize_hostname config.hostname ++ after_host) h)
              (behind_time k)),
    priority-le event config,
    sanitize_msg_id-IsMsgId event.event_type,
  )
