-- ===== src/RecordTypes/Guarded.antt =====
-- `guard_mutation_allowed` and `is_apex_name` of src/dns_record_types.py against a description of
-- the changes that they are meant for.
use mathlib.Core.Option
use api_to_dns.Prelude.{◌≡◌, refl, ◌≢◌, ◌↔◌, ◌⊎◌, true, false, Option, none, some, [], ◌∷◌, arith}
use api_to_dns.Text.{Text, str, is_empty, strip, rstrip_dot, lower}
use api_to_dns.Text.Equal.{===_iff}
use api_to_dns.Text.Affix.{ends_with-append, eq_of_ends_with}
use api_to_dns.Fault.{ok}
use api_to_dns.RecordTypes.Types.{clean_type}
use api_to_dns.RecordTypes.Guards.{
  is_apex_name, ends_at_zone, is_reverse_zone, outside_reverse, guard_mutation_allowed,
}

-- The name of the zone itself, written without its last dots.
abbrev pub NamesApex : Text → Option Text → Type 0
NamesApex name none = (name ≡ []) ⊎ (name ≡ str "@")
NamesApex name (some zone) =
    (name ≡ [])
    ⊎ (name ≡ str "@")
    ⊎ ((zone ≢ []) × ((lower name ≡ lower zone) ⊎ (lower name ≡ b'.' ∷ lower zone)))

ends_at_zone_iff : (name zone : Text) → (ends_at_zone name zone ≡ true) ↔ (name ≡ b'.' ∷ zone)
ends_at_zone_iff name zone = (
  λ h. eq_of_ends_with name (b'.' ∷ zone) (ground arith) (ground arith),
  λ e. rw e (ground (arith, ends_with-append [] (b'.' ∷ zone))),
)

pub is_empty_iff : (s : Text) → (is_empty s ≡ true) ↔ (s ≡ [])
is_empty_iff [] = (λ h. refl, λ e. refl)
is_empty_iff (c ∷ s) = ground arith

abbrev pub clean_name : Text → Text
clean_name s = rstrip_dot (strip s)

-- Up to the dots at the end and white space around it, a name is an apex name exactly when it is
-- empty or `@`, or the zone's name or a dot in front of it, in any case.
pub is_apex_name_iff :
    (name : Text) (dns_zone : Option Text)
    → (is_apex_name name dns_zone ≡ true)
      ↔ NamesApex (clean_name name) (Option.map clean_name dns_zone)
unfolding is_apex_name
is_apex_name_iff name none =
    ground (arith, is_empty_iff (clean_name name), ===_iff (clean_name name) (str "@"))
is_apex_name_iff name (some dns_zone) = ground (
  arith,
  is_empty_iff (clean_name name),
  ===_iff (clean_name name) (str "@"),
  is_empty_iff (clean_name dns_zone),
  ===_iff (lower (clean_name name)) (lower (clean_name dns_zone)),
  ends_at_zone_iff (lower (clean_name name)) (lower (clean_name dns_zone)),
)

-- A zone was given, and it is not one of the reverse zones.
abbrev pub IsForward : Option Text → Type 0
IsForward none = ⊥
IsForward (some dns_zone) = (dns_zone ≢ []) × (is_reverse_zone dns_zone ≡ false)

outside_reverse_iff :
    (dns_zone : Option Text) → (outside_reverse dns_zone ≡ true) ↔ IsForward dns_zone
outside_reverse_iff none = ground arith
outside_reverse_iff (some dns_zone) = ground (arith, is_empty_iff dns_zone)

-- A change is let through exactly when its type is not SOA, it is no NS record that names the apex,
-- and it is no PTR record in a forward zone.
pub guard_mutation_allowed_iff :
    (name record_type : Text) (dns_zone : Option Text)
    → (guard_mutation_allowed name record_type dns_zone ≡ ok tt) ↔ (
        (clean_type record_type ≢ str "SOA")
        × ¬ (
            (clean_type record_type ≡ str "NS")
            × NamesApex (clean_name name) (Option.map clean_name dns_zone))
        × ¬ ((clean_type record_type ≡ str "PTR") × IsForward dns_zone))
unfolding guard_mutation_allowed
guard_mutation_allowed_iff name record_type dns_zone = ground (
  arith,
  ===_iff (clean_type record_type) (str "SOA"),
  ===_iff (clean_type record_type) (str "NS"),
  ===_iff (clean_type record_type) (str "PTR"),
  is_apex_name_iff name dns_zone,
  outside_reverse_iff dns_zone,
)
