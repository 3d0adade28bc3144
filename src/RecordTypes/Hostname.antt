-- ===== src/RecordTypes/Hostname.antt =====
-- `_HOSTNAME_RE` and `normalize_hostname` of src/dns_record_types.py; `are_labels` also serves the
-- expression of src/hostnames.py.
use api_to_dns.Prelude.{
  ℕ, Bool, true, false, not, ◌&&◌, ◌||◌, List, [], ◌∷◌, length, every, leb, ◌==◌, if◌then◌else◌,
}
use api_to_dns.Text.{
  Text, str, is_empty, ◌===◌, is_digit, is_lower, is_upper, strip, rstrip_dot, starts_with,
  ends_with, split,
}
use api_to_dns.Fault.{Result, ok, err, invalid_hostname}

-- The label pattern of the hostname expressions: 1 to 63 letters, digits and hyphens (and
-- underscores, where the expression has them), with no hyphen at either end.
abbrev pub label_char : Bool → ℕ → Bool
label_char underscore c =
    is_upper c || is_lower c || is_digit c || c == b'-' || (underscore && c == b'_')

unfoldable pub is_label : Bool → Text → Bool
is_label underscore s =
    leb 1 (length s)
    && leb (length s) 63
    && every (label_char underscore) s
    && not (starts_with s (str "-"))
    && not (ends_with s (str "-"))

abbrev is_nil : List Text → Bool
is_nil [] = true
is_nil (t ∷ ts) = false

-- `label(\.label)*`, with a last dot where the expression ends in `\.?`.
unfoldable pub are_labels : Bool → Bool → List Text → Bool
are_labels underscore last_dot [] = false
are_labels underscore last_dot (s ∷ []) = is_label underscore s
are_labels underscore last_dot (s ∷ t ∷ ts) =
    is_label underscore s
    && ((last_dot && is_empty t && is_nil ts) || are_labels underscore last_dot (t ∷ ts))

-- `$` stands at the end, and also before a line feed that ends the text.
unfoldable pub before_last_newline : Text → Text
before_last_newline [] = []
before_last_newline (c ∷ []) = if c == 10 then [] else c ∷ []
before_last_newline (c ∷ d ∷ s) = c ∷ before_last_newline (d ∷ s)

-- _HOSTNAME_RE.match(s)
unfoldable pub hostname_re : Text → Bool
hostname_re s =
    leb (length (before_last_newline s)) 253
    && are_labels true true (split b'.' (before_last_newline s))

unfoldable pub normalize_hostname : Text → Bool → Result Text
normalize_hostname value allow_at =
    let host = rstrip_dot (strip value) in
    if allow_at && (is_empty host || host === str "@")
    then ok (str "@")
    else if is_empty host || not (hostname_re host)
    then err (invalid_hostname value)
    else ok host
