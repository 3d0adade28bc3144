-- ===== src/RecordTypes/Rdata.antt =====
-- src/dns_record_types.py: record values, parsed and put in their normal form.
use api_to_dns.Prelude.{
  ℕ, zero, suc, Bool, true, false, not, ◌&&◌, ◌||◌, Option, none, some, List, [], ◌∷◌, ◌++◌, length,
  every, ltb, leb, ◌==◌, if◌then◌else◌,
}
use api_to_dns.Text.{
  Text, nonnegative, negative, str, is_empty, contains, ◌===◌, is_space, is_digit, is_lower,
  is_upper, drop_while, strip, lower, starts_with, ends_with, has_char, words, int_of, show,
}
use api_to_dns.Fault.{
  Result, ok, err, ◌>>=◌, ◌>>◌, require, unsupported_type, not_an_integer, out_of_range, mx_shape,
  srv_shape, caa_shape, invalid_caa_tag, caa_value_required, empty_value, not_an_address, not_ipv4,
  not_ipv6, values_required, exactly_one_value,
}
use api_to_dns.Address.{Address, v4, v6, ip_address, show_address}
use api_to_dns.RecordTypes.Types.{clean_type, lookup_record_types, single_value_types}
use api_to_dns.RecordTypes.Hostname.{normalize_hostname}

-- the characters up to white space
unfoldable pub take_word : Text → Text
take_word [] = []
take_word (c ∷ s) = let more = c ∷ take_word s in if is_space c then [] else more

unfoldable pub drop_word : Text → Text
drop_word [] = []
drop_word (c ∷ s) = let rest = drop_word s in if is_space c then c ∷ s else rest

-- s.split(None, n): at most n words, and what follows them
unfoldable pub split_words : ℕ → Text → List Text
split_words zero s = elim (drop_while is_space s) [ [] ↦ [] | c ∷ rest ↦ (c ∷ rest) ∷ [] ]
split_words (suc n) s = elim (drop_while is_space s) [
  | [] ↦ []
  | c ∷ rest ↦ take_word (c ∷ rest) ∷ split_words n (drop_word (c ∷ rest))
]

unfoldable pub parse_uint : Text → Text → ℕ → Result ℕ
parse_uint token field maximum = elim (int_of token) [
  | none ↦ err (not_an_integer field)
  | some (negative n) ↦ err (out_of_range field maximum)
  | some (nonnegative n) ↦ if ltb maximum n then err (out_of_range field maximum) else ok n
]

abbrev pub mx_of : List Text → Result (ℕ × Text)
mx_of (p ∷ e ∷ []) = do
  priority ← parse_uint p (str "priority") 65535
  exchange ← normalize_hostname e false
  ok (priority, exchange)
mx_of parts = err mx_shape

unfoldable pub parse_mx : Text → Result (ℕ × Text)
parse_mx value = mx_of (words (strip value))

abbrev pub srv_of : List Text → Result (ℕ × ℕ × ℕ × Text)
srv_of (p ∷ w ∷ q ∷ t ∷ []) = do
  priority ← parse_uint p (str "priority") 65535
  weight ← parse_uint w (str "weight") 65535
  port ← parse_uint q (str "port") 65535
  target ← normalize_hostname t false
  ok (priority, weight, port, target)
srv_of parts = err srv_shape

unfoldable pub parse_srv : Text → Result (ℕ × ℕ × ℕ × Text)
parse_srv value = srv_of (words (strip value))

abbrev pub is_alnum : ℕ → Bool
is_alnum c = is_upper c || is_lower c || is_digit c

-- _CAA_TAG_RE.match(s), for a text that does not end in a line feed
unfoldable pub caa_tag_re : Text → Bool
caa_tag_re s = not (is_empty s) && every is_alnum s

abbrev pub quote : Text
quote = 34 ∷ []

-- A value with a space is put in quotes, unless it is.
unfoldable pub quote_spaces : Text → Text
quote_spaces s =
    if has_char b' ' s && not (starts_with s quote && ends_with s quote)
    then quote ++ (s ++ quote)
    else s

abbrev pub caa_of : List Text → Result (ℕ × Text × Text)
caa_of (f ∷ t ∷ v ∷ []) = do
  flags ← parse_uint f (str "flags") 255
  require (caa_tag_re (strip t)) (invalid_caa_tag (strip t))
  require (not (is_empty (strip v))) caa_value_required
  ok (flags, lower (strip t), quote_spaces (strip v))
caa_of parts = err caa_shape

unfoldable pub parse_caa : Text → Result (ℕ × Text × Text)
parse_caa value = caa_of (split_words 2 (strip value))

-- the address branches of `normalize_record_value`
abbrev pub address_of : Bool → Text → Text → Option Address → Result Text
address_of want_v4 value raw none = err (not_an_address raw)
address_of want_v4 value raw (some (v4 octets)) =
    if want_v4 then ok (show_address (v4 octets)) else err (not_ipv6 value)
address_of want_v4 value raw (some (v6 hextets scope)) =
    if want_v4 then err (not_ipv4 value) else ok (show_address (v6 hextets scope))

-- `f"{…} {…}"`
infixr 66 ◌⊕◌
abbrev pub ◌⊕◌ : Text → Text → Text
s ⊕ t = s ++ b' ' ∷ t

unfoldable pub mx_value : Text → Result Text
mx_value raw = do (priority, exchange) ← parse_mx raw; ok (show priority ⊕ exchange)

unfoldable pub srv_value : Text → Result Text
srv_value raw = do
  (priority, weight, port, target) ← parse_srv raw
  ok (show priority ⊕ show weight ⊕ show port ⊕ target)

unfoldable pub caa_value : Text → Result Text
caa_value raw = do (flags, tag, value) ← parse_caa raw; ok (show flags ⊕ tag ⊕ value)

-- the branches on the cleaned type, with what error messages show of the arguments
unfoldable pub value_by_type : Text → Text → Text → Text → Result Text
value_by_type record_type value rt raw =
    if rt === str "A"
    then address_of true value raw (ip_address raw)
    else if rt === str "AAAA"
    then address_of false value raw (ip_address raw)
    else if rt === str "CNAME"
    then normalize_hostname raw false
    else if rt === str "TXT"
    then ok raw
    else if rt === str "MX"
    then mx_value raw
    else if rt === str "NS"
    then normalize_hostname raw false
    else if rt === str "SRV"
    then srv_value raw
    else if rt === str "CAA"
    then caa_value raw
    else if rt === str "PTR"
    then normalize_hostname raw false
    else if rt === str "SOA"
    then ok raw
    else err (unsupported_type record_type)

unfoldable pub normalize_record_value : Text → Text → Result Text
normalize_record_value record_type value =
    if is_empty (strip value)
    then err empty_value
    else value_by_type record_type value (clean_type record_type) (strip value)

-- [f(v) for v in values]
unfoldable pub each : (Text → Result Text) → List Text → Result (List Text)
each f [] = ok []
each f (v ∷ vs) = let rest = each f vs in do w ← f v; ws ← rest; ok (w ∷ ws)

unfoldable pub normalize_record_values : Text → List Text → Result (List Text)
normalize_record_values record_type values = do
  let rt = clean_type record_type
  require (contains lookup_record_types rt) (unsupported_type record_type)
  require (leb 1 (length values)) values_required
  require (not (contains single_value_types rt) || length values == 1) (exactly_one_value rt)
  each (normalize_record_value rt) values

unfoldable pub format_mx : ℕ → Text → Result Text
format_mx priority exchange = do host ← normalize_hostname exchange false; ok (show priority ⊕ host)

unfoldable pub format_srv : ℕ → ℕ → ℕ → Text → Result Text
format_srv priority weight port target = do
  host ← normalize_hostname target false
  ok (show priority ⊕ show weight ⊕ show port ⊕ host)

unfoldable pub format_caa : ℕ → Text → Text → Result Text
format_caa flags tag value = normalize_record_value (str "CAA") (show flags ⊕ tag ⊕ value)
