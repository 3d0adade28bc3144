-- ===== src/RecordTypes/Tests.antt =====
-- Record values and guards at concrete records.
use mathlib.Core.Option
use api_to_dns.Prelude.{◌≡◌, ◌≢◌, ◌↔◌, refl, true, false, some, [], ◌∷◌, arith, every}
use api_to_dns.Text.{str, contains, text_runs}
use api_to_dns.Text.Strip.{IsStripped}
use api_to_dns.Fault.{ok, err, apex_ns, invalid_hostname}
use api_to_dns.Address.{address_runs}
use api_to_dns.RecordTypes.Types.{clean_type}
use api_to_dns.RecordTypes.Hostname.{
  normalize_hostname, hostname_re, is_label, are_labels, before_last_newline,
}
use api_to_dns.RecordTypes.Rdata.{
  normalize_record_value, value_by_type, mx_value, parse_mx, parse_uint,
}
use api_to_dns.RecordTypes.Guards.{is_reverse_zone, is_apex_name, guard_mutation_allowed}
use api_to_dns.RecordTypes.RoundTrip.{normalize_record_value_idem, host_types}
use api_to_dns.RecordTypes.Guarded.{NamesApex, IsForward, clean_name, guard_mutation_allowed_iff}

-- ` 010  mail.example.com. ` is an MX value with a padded priority, two spaces and a last dot.
mx_run :
    normalize_record_value (str "mx") (str " 010  mail.example.com. ")
    ≡ ok (str "10 mail.example.com")
unfolding normalize_record_value clean_type value_by_type mx_value parse_mx parse_uint
    normalize_hostname hostname_re are_labels is_label before_last_newline every text_runs
    address_runs
mx_run = refl

mx_not_aaaa : clean_type (str "mx") ≢ str "AAAA"
unfolding clean_type text_runs
mx_not_aaaa = λ e. cc

mx_not_host : contains host_types (clean_type (str "mx")) ≡ false
unfolding clean_type text_runs
mx_not_host = refl

mx-IsStripped :
    contains host_types (clean_type (str "mx")) ≡ true → IsStripped (str "10 mail.example.com")
mx-IsStripped h = ground (arith, mx_not_host)

normalize_record_value_idem_example :
    normalize_record_value (str "mx") (str "10 mail.example.com") ≡ ok (str "10 mail.example.com")
normalize_record_value_idem_example =
    normalize_record_value_idem (str "mx") (str " 010  mail.example.com. ")
      (str "10 mail.example.com") mx_not_aaaa mx-IsStripped mx_run

-- A host name with a line feed in front of its last dot is let through, with the line feed.
newline_kept : normalize_hostname (b'a' ∷ 10 ∷ b'.' ∷ []) false ≡ ok (b'a' ∷ 10 ∷ [])
unfolding normalize_record_value clean_type value_by_type mx_value parse_mx parse_uint
    normalize_hostname hostname_re are_labels is_label before_last_newline every text_runs
    address_runs
newline_kept = refl

long_label :
    normalize_hostname (str "-a.example.com") false ≡ err (invalid_hostname (str "-a.example.com"))
unfolding normalize_record_value clean_type value_by_type mx_value parse_mx parse_uint
    normalize_hostname hostname_re are_labels is_label before_last_newline every text_runs
    address_runs
long_label = refl

ns_refused :
    guard_mutation_allowed (str "Example.com.") (str "ns") (some (str "example.com")) ≡ err apex_ns
unfolding guard_mutation_allowed is_apex_name is_reverse_zone clean_type text_runs
ns_refused = refl

-- The name `@.example.com` is sent as the apex, and is no apex name to the guard.
at_sign_passes :
    guard_mutation_allowed (str "@.example.com") (str "ns") (some (str "example.com")) ≡ ok tt
unfolding guard_mutation_allowed is_apex_name is_reverse_zone clean_type text_runs
at_sign_passes = refl

guard_mutation_allowed_iff_example :
    (guard_mutation_allowed (str "Example.com.") (str "ns") (some (str "example.com")) ≡ ok tt) ↔ (
      (clean_type (str "ns") ≢ str "SOA")
      × ¬ (
          (clean_type (str "ns") ≡ str "NS")
          × NamesApex
              (clean_name (str "Example.com."))
              (Option.map clean_name (some (str "example.com"))))
      × ¬ ((clean_type (str "ns") ≡ str "PTR") × IsForward (some (str "example.com"))))
guard_mutation_allowed_iff_example =
    guard_mutation_allowed_iff (str "Example.com.") (str "ns") (some (str "example.com"))
