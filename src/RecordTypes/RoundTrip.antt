-- ===== src/RecordTypes/RoundTrip.antt =====
-- `normalize_record_value` of src/dns_record_types.py, run on what it returned.
use api_to_dns.Prelude.{
  ℕ, ◌≡◌, refl, ◌≢◌, inl, inr, true, false, Option, none, some, List, [], ◌∷◌, ◌++◌, All-append,
  map, arith, Bool-cases,
}
use api_to_dns.Text.{Text, str, is_empty, is_space, contains, strip, join, show}
use api_to_dns.Text.Strip.{Avoids, IsStripped, strip_fix, strip-IsStripped}
use api_to_dns.Text.Equal.{===_iff}
use api_to_dns.Text.Decimal.{show-Avoids, show-ne-nil}
use api_to_dns.Address.{Address, v4, v6, ip_address, show_address, show_ipv4}
use api_to_dns.Address.RoundTrip.{IsIpv4, ip_address-IsIpv4, ip_address-show_ipv4}
use api_to_dns.Fault.{ok}
use api_to_dns.RecordTypes.Types.{clean_type}
use api_to_dns.RecordTypes.Hostname.{normalize_hostname}
use api_to_dns.RecordTypes.HostnameLaws.{normalize_hostname-IsHost, normalize_hostname_fix}
use api_to_dns.RecordTypes.Rdata.{
  ◌⊕◌, address_of, mx_value, srv_value, caa_value, value_by_type, normalize_record_value,
}
use api_to_dns.RecordTypes.Tokens.{IsToken-show, IsClosed-⊕, IsClosed-of_IsToken, ⊕-IsStripped}
use api_to_dns.RecordTypes.Formats.{
  IsMx, mx_value-IsMx, mx_value_fix, IsSrv, srv_value-IsSrv, srv_value_fix, IsCaa, caa_value-IsCaa,
  caa_value_fix, IsClosed-of_IsStripped,
}

⊕-filled : (t u : Text) → is_empty (t ⊕ u) ≡ false
⊕-filled [] u = refl
⊕-filled (c ∷ t) u = refl

-- A value that is neither empty nor padded.
abbrev IsClean : Text → Type 0
IsClean w = (is_empty w ≡ false) × IsStripped w

IsMx-IsClean : (w : Text) → IsMx w → IsClean w
IsMx-IsClean w m = rw m.spelled (
  ⊕-filled (show m.priority) m.exchange,
  ⊕-IsStripped (show m.priority) m.exchange (IsToken-show m.priority)
      (IsClosed-of_IsToken m.exchange m.token),
)

IsSrv-IsClean : (w : Text) → IsSrv w → IsClean w
IsSrv-IsClean w m = rw m.spelled (
  ⊕-filled (show m.priority) _,
  ⊕-IsStripped (show m.priority) _ (IsToken-show m.priority) (
      IsClosed-⊕ (show m.weight) _
        (IsClosed-⊕ (show m.port) _ (IsClosed-of_IsToken m.target m.token))),
)

IsCaa-IsClean : (w : Text) → IsCaa w → IsClean w
IsCaa-IsClean w m = rw m.spelled (
  ⊕-filled (show m.flags) _,
  ⊕-IsStripped (show m.flags) _ (IsToken-show m.flags)
      (IsClosed-⊕ m.tag _ (IsClosed-of_IsStripped m.value m.filled m.stripped)),
)

join-Avoids :
    (sep : Text) (ns : List ℕ) → Avoids is_space sep → Avoids is_space (join sep (map show ns))
unfolding join
join-Avoids sep [] h = tt
join-Avoids sep (n ∷ []) h = show-Avoids n
join-Avoids sep (n ∷ m ∷ ns) h =
    All-append _ (show n) _ (show-Avoids n) (All-append _ sep _ h (join-Avoids sep (m ∷ ns) h))

append-filled : (s t : Text) → s ≢ [] → is_empty (s ++ t) ≡ false
append-filled [] t h = absurd (h refl)
append-filled (c ∷ s) t h = refl

show_ipv4-filled : (octets : List ℕ) → IsIpv4 octets → is_empty (show_ipv4 octets) ≡ false
unfolding show_ipv4 join
show_ipv4-filled [] h = absurd (omega arith)
show_ipv4-filled (n ∷ []) h = absurd (omega arith)
show_ipv4-filled (n ∷ m ∷ ns) h = append-filled (show n) _ (show-ne-nil n)

show_ipv4-IsClean : (octets : List ℕ) → IsIpv4 octets → IsClean (show_ipv4 octets)
unfolding show_ipv4 is_space
show_ipv4-IsClean octets h =
    (show_ipv4-filled octets h, strip_fix _ (join-Avoids (str ".") octets (refl, tt)))

-- What an A record is read as, printed, is read as the same.
record IsA (w : Text) : Type 0 where
  octets : List ℕ
  spelled : w ≡ show_ipv4 octets
  valid : IsIpv4 octets

address_of-IsA :
    (value raw w : Text) (a : Option Address)
    → ip_address raw ≡ a
    → address_of true value raw a ≡ ok w
    → IsA w
unfolding show_address
address_of-IsA value raw w none r h = cc
address_of-IsA value raw w (some (v4 octets)) r h = record {
  octets = octets;
  spelled = cc;
  valid = ip_address-IsIpv4 raw octets r;
}
address_of-IsA value raw w (some (v6 hextets scope)) r h = cc

address_of_fix : (w : Text) → IsA w → address_of true w w (ip_address w) ≡ ok w
unfolding show_address
address_of_fix w a = rw a.spelled (rw (ip_address-show_ipv4 a.octets a.valid) refl)

-- The types whose values are one host name.
abbrev pub host_types : List Text
host_types = str "CNAME" ∷ str "NS" ∷ str "PTR" ∷ []

-- What one branch of `value_by_type` returns is clean, and is returned again.
abbrev Keeps : Text → Text → Text → Type 0
Keeps record_type rt w = IsClean w × (value_by_type record_type w rt w ≡ ok w)

module _ (record_type value raw w : Text) where
  keeps_address :
      address_of true value raw (ip_address raw) ≡ ok w
      → IsClean w × (address_of true w w (ip_address w) ≡ ok w)
  keeps_address h =
      let a = address_of-IsA value raw w (ip_address raw) refl h in
      (rw a.spelled (show_ipv4-IsClean a.octets a.valid), address_of_fix w a)

  keeps_host :
      normalize_hostname raw false ≡ ok w
      → IsStripped w
      → IsClean w × (normalize_hostname w false ≡ ok w)
  keeps_host h s =
      let host = (normalize_hostname-IsHost raw w h).1 in
      ((host.filled, s), normalize_hostname_fix w s host)

  keeps_mx : mx_value raw ≡ ok w → IsClean w × (mx_value w ≡ ok w)
  keeps_mx h = let m = mx_value-IsMx raw w h in (IsMx-IsClean w m, mx_value_fix w m)

  keeps_srv : srv_value raw ≡ ok w → IsClean w × (srv_value w ≡ ok w)
  keeps_srv h = let m = srv_value-IsSrv raw w h in (IsSrv-IsClean w m, srv_value_fix w m)

  keeps_caa : caa_value raw ≡ ok w → IsClean w × (caa_value w ≡ ok w)
  keeps_caa h = let m = caa_value-IsCaa raw w h in (IsCaa-IsClean w m, caa_value_fix w m)

  Keeps-branch :
      (rt : Text)
      → rt ≢ str "AAAA"
      → (contains host_types rt ≡ true → IsStripped w)
      → IsClean raw
      → value_by_type record_type value rt raw ≡ ok w
      → Keeps record_type rt w
  unfolding value_by_type contains
  Keeps-branch rt not_v6 host clean h =
      ground
        (arith, ===_iff rt (str "AAAA"), keeps_address, keeps_host, keeps_mx, keeps_srv, keeps_caa)

-- A value in normal form is its own normal form, for every type but AAAA; for CNAME, NS and PTR
-- the value must not end in white space.
pub normalize_record_value_idem :
    (record_type value w : Text)
    → clean_type record_type ≢ str "AAAA"
    → (contains host_types (clean_type record_type) ≡ true → IsStripped w)
    → normalize_record_value record_type value ≡ ok w
    → normalize_record_value record_type w ≡ ok w
unfolding normalize_record_value
normalize_record_value_idem record_type value w not_v6 host h =
    elim (Bool-cases (is_empty (strip value))) [
      | inl e ↦ ground arith
      | inr e ↦
          let ((filled, s), again) =
            Keeps-branch record_type value (strip value) w (clean_type record_type) not_v6 host
              (e, strip-IsStripped value) (rw e at h) in
          rw s (rw filled again)
    ]
