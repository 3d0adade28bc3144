-- ===== src/RecordTypes/Types.antt =====
-- src/dns_record_types.py: the names of the record types, and the TTL check.
-- A `str` argument that may be None is read as the empty text, as `value or ""` does.
use api_to_dns.Prelude.{ℕ, Bool, Option, none, some, List, [], ◌∷◌, ltb, if◌then◌else◌}
use api_to_dns.Text.{Text, ℤ, nonnegative, negative, str, is_empty, contains, strip, upper}
use api_to_dns.Fault.{
  Result, ok, err, ◌>>=◌, not_a_lookup_type, not_a_mutable_type, not_a_public_type, ttl_required,
  ttl_out_of_range,
}

abbrev pub lookup_record_types : List Text
lookup_record_types =
    str "A"
    ∷ str "AAAA"
    ∷ str "CNAME"
    ∷ str "TXT"
    ∷ str "MX"
    ∷ str "NS"
    ∷ str "SRV"
    ∷ str "CAA"
    ∷ str "PTR"
    ∷ str "SOA"
    ∷ []

abbrev pub public_record_types : List Text
public_record_types = str "A" ∷ str "AAAA" ∷ str "CNAME" ∷ str "TXT" ∷ []

-- the lookup types without SOA
abbrev pub mutable_record_types : List Text
mutable_record_types =
    str "A"
    ∷ str "AAAA"
    ∷ str "CNAME"
    ∷ str "TXT"
    ∷ str "MX"
    ∷ str "NS"
    ∷ str "SRV"
    ∷ str "CAA"
    ∷ str "PTR"
    ∷ []

abbrev pub max_ttl : ℕ
max_ttl = 2147483647

-- The types that `RECORD_TYPE_SPECS` gives `multiple=False`.
abbrev pub single_value_types : List Text
single_value_types = str "CNAME" ∷ str "SOA" ∷ []

-- (record_type or "").strip().upper()
unfoldable pub clean_type : Text → Text
clean_type record_type = upper (strip record_type)

unfoldable pub normalize_lookup_record_type : Option Text → Result (Option Text)
normalize_lookup_record_type none = ok none
normalize_lookup_record_type (some record_type) =
    if is_empty (strip record_type)
    then ok none
    else if contains lookup_record_types (clean_type record_type)
    then ok (some (clean_type record_type))
    else err (not_a_lookup_type record_type)

unfoldable pub normalize_mutable_record_type : Text → Result Text
normalize_mutable_record_type record_type =
    if contains mutable_record_types (clean_type record_type)
    then ok (clean_type record_type)
    else err (not_a_mutable_type record_type)

unfoldable pub normalize_public_record_type : Text → Result Text
normalize_public_record_type record_type =
    if contains public_record_types (clean_type record_type)
    then ok (clean_type record_type)
    else err (not_a_public_type record_type)

abbrev types_to_query : Option Text → List Text
types_to_query none = lookup_record_types
types_to_query (some rt) = rt ∷ []

unfoldable pub lookup_record_types_to_query : Option Text → Result (List Text)
lookup_record_types_to_query record_type = do
  normalized ← normalize_lookup_record_type record_type
  ok (types_to_query normalized)

unfoldable pub validate_ttl : Option ℤ → Bool → Result ℕ
validate_ttl none required = if required then err ttl_required else ok 300
validate_ttl (some (negative n)) required = err ttl_out_of_range
validate_ttl (some (nonnegative n)) required = if ltb max_ttl n then err ttl_out_of_range else ok n
