-- ===== src/Activity/Redaction.antt =====
-- activity_logging.py: what of an event's details is stored.
use api_to_dns.Prelude.{
  ℕ, Bool, ◌||◌, List, [], ◌∷◌, ◌++◌, ltb, length, take, some_of, if◌then◌else◌,
}
use api_to_dns.Text.{Text, str, starts_with, lower}

-- The details of an event. A `scalar` is None, a Boolean or a number, as it prints.
mutual
  pub data Details : Type 0 where
    scalar : Text → Details
    text : Text → Details
    array : Items → Details
    dict : Fields → Details

  pub data Items : Type 0 where
    nil : Items
    cons : Details → Items → Items

  pub data Fields : Type 0 where
    end : Fields
    field : Text → Details → Fields → Fields

abbrev pub details_byte_cap : ℕ
details_byte_cap = 4096

abbrev pub sensitive_key_fragments : List Text
sensitive_key_fragments =
    str "password"
    ∷ str "secret"
    ∷ str "token"
    ∷ str "api_key"
    ∷ str "apikey"
    ∷ str "authorization"
    ∷ str "auth"
    ∷ str "credential"
    ∷ str "client_secret"
    ∷ str "tsig"
    ∷ str "encryption_key"
    ∷ []

abbrev pub redacted : Text
redacted = str "***redacted***"

abbrev pub truncation_mark : Text
truncation_mark = str "...[truncated]"

-- t in s
unfoldable pub has_text : Text → Text → Bool
has_text t [] = starts_with [] t
has_text t (c ∷ s) = starts_with (c ∷ s) t || has_text t s

unfoldable pub key_is_sensitive : Text → Bool
key_is_sensitive key = some_of (λ fragment. has_text fragment (lower key)) sensitive_key_fragments

unfoldable pub capped_at : ℕ → Text → Text
capped_at cap s = if ltb cap (length s) then take cap s ++ truncation_mark else s

unfoldable pub capped : Text → Text
capped s = capped_at details_byte_cap s

unfoldable mutual
  unfolding capped key_is_sensitive

  pub redact_details : Details → Details
  redact_details (scalar s) = scalar s
  redact_details (text s) = text (capped s)
  redact_details (array items) = array (redact_items items)
  redact_details (dict fields) = dict (redact_fields fields)

  pub redact_items : Items → Items
  redact_items nil = nil
  redact_items (cons d items) = cons (redact_details d) (redact_items items)

  pub redact_fields : Fields → Fields
  redact_fields end = end
  redact_fields (field key d fields) =
      let kept = redact_details d in
      let rest = redact_fields fields in
      field key (if key_is_sensitive key then text redacted else kept) rest
