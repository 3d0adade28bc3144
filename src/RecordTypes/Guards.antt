-- ===== src/RecordTypes/Guards.antt =====
-- src/dns_record_types.py: which records may be changed.
use api_to_dns.Prelude.{Bool, false, not, ◌&&◌, ◌||◌, Option, none, some, ◌∷◌, length, ◌==◌}
use api_to_dns.Text.{Text, str, is_empty, ◌===◌, strip, rstrip_dot, lower, ends_with}
use api_to_dns.Fault.{Result, ◌>>◌, require, soa_is_view_only, apex_ns, ptr_outside_reverse_zone}
use api_to_dns.RecordTypes.Types.{clean_type}

unfoldable pub is_reverse_zone : Text → Bool
is_reverse_zone dns_zone =
    let z = lower (rstrip_dot (strip dns_zone)) in
    ends_with z (str ".in-addr.arpa") || ends_with z (str ".ip6.arpa")

abbrev pub ends_at_zone : Text → Text → Bool
ends_at_zone name zone = ends_with name (b'.' ∷ zone) && length name == length (b'.' ∷ zone)

-- The last test reads `name.endswith(suffix) and name[: -len(suffix)] == ""`.
abbrev pub is_apex_of : Text → Option Text → Bool
is_apex_of name none = false
is_apex_of name (some dns_zone) =
    let zone = rstrip_dot (strip dns_zone) in
    not (is_empty zone) && (lower name === lower zone || ends_at_zone (lower name) (lower zone))

unfoldable pub is_apex_name : Text → Option Text → Bool
is_apex_name record_name dns_zone =
    let name = rstrip_dot (strip record_name) in
    is_empty name || name === str "@" || is_apex_of name dns_zone

-- `dns_zone and not is_reverse_zone(dns_zone)`
abbrev pub outside_reverse : Option Text → Bool
outside_reverse none = false
outside_reverse (some dns_zone) = not (is_empty dns_zone) && not (is_reverse_zone dns_zone)

unfoldable pub guard_mutation_allowed : Text → Text → Option Text → Result (Unit {0})
guard_mutation_allowed record_name record_type dns_zone = do
  let rt = clean_type record_type
  require (not (rt === str "SOA")) soa_is_view_only
  require (not (rt === str "NS" && is_apex_name record_name dns_zone)) apex_ns
  require (not (rt === str "PTR" && outside_reverse dns_zone)) ptr_outside_reverse_zone
