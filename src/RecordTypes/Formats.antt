-- ===== src/RecordTypes/Formats.antt =====
-- MX, SRV and CAA values in the form in which src/dns_record_types.py returns them.
use api_to_dns.Prelude.{
  ℕ, ◌≤◌, ◌≡◌, refl, inl, inr, Bool, true, false, not, ◌&&◌, List, [], ◌∷◌, ◌++◌, All, arith, every,
  Bool-cases,
}
use api_to_dns.Text.{
  Text, str, is_empty, is_space, drop_while_end, strip, lower, words, show, has_char, starts_with,
  ends_with,
}
use api_to_dns.Text.Strip.{
  Avoids, IsStripped, strip_of, drop_while_end-append, lower_idem, strip_fix, strip-IsStripped,
  Starts-of_IsStripped, end_of_IsStripped,
}
use api_to_dns.Text.Affix.{ends_with-append}
use api_to_dns.Text.Split.{IsToken, words-IsToken}
use api_to_dns.Fault.{
  ok, ◌>>=◌, >>=-eq-ok, require, require-eq-ok, invalid_caa_tag, caa_value_required,
}
use api_to_dns.RecordTypes.Hostname.{normalize_hostname}
use api_to_dns.RecordTypes.HostnameLaws.{
  IsHost, ne-nil_of_filled, normalize_hostname-IsToken, normalize_hostname_fix,
}
use api_to_dns.RecordTypes.Rdata.{
  ◌⊕◌, parse_uint, mx_of, srv_of, caa_of, split_words, parse_mx, parse_srv, parse_caa, mx_value,
  srv_value, caa_value, quote_spaces, quote, caa_tag_re, is_alnum,
}
use api_to_dns.RecordTypes.Tokens.{
  IsToken-show, IsClosed, words-⊕, words-⊕⊕⊕, split_words-⊕⊕, parse_uint-show, parse_uint-le,
}

-- A priority and a host, and their one spelling.
pub record IsMx (w : Text) : Type 0 where
  pub priority : ℕ
  pub exchange : Text
  pub spelled : w ≡ show priority ⊕ exchange
  pub fits : priority ≤ 65535
  pub token : IsToken exchange
  pub host : IsHost exchange

mx_of-IsMx :
    (ts : List Text) (w : Text)
    → All IsToken ts
    → (mx_of ts >>= λ (p : ℕ × Text). ok (show p.0 ⊕ p.1)) ≡ ok w
    → IsMx w
mx_of-IsMx (p ∷ e ∷ []) w h eq =
    let (pair, made, shown) = >>=-eq-ok (mx_of (p ∷ e ∷ [])) _ eq in
    let (n, number, rest) = >>=-eq-ok (parse_uint p (str "priority") 65535) _ made in
    let (x, named, same) = >>=-eq-ok (normalize_hostname e false) _ rest in
    let (token, host) = normalize_hostname-IsToken e x h.1.0 named in
    record {
      priority = n;
      exchange = x;
      spelled = cc;
      fits = parse_uint-le p (str "priority") 65535 n number;
      token = token;
      host = host;
    }
mx_of-IsMx [] w h eq = cc
mx_of-IsMx (p ∷ []) w h eq = cc
mx_of-IsMx (p ∷ e ∷ x ∷ ts) w h eq = cc

pub mx_value-IsMx : (raw w : Text) → mx_value raw ≡ ok w → IsMx w
unfolding mx_value parse_mx
mx_value-IsMx raw w h = mx_of-IsMx (words (strip raw)) w (words-IsToken (strip raw)) h

pub mx_value_fix : (w : Text) → IsMx w → mx_value w ≡ ok w
unfolding mx_value parse_mx
mx_value_fix w m = rw m.spelled (
    rw (words-⊕ (show m.priority) m.exchange (IsToken-show m.priority) m.token, mx_of)
      (rw (parse_uint-show m.priority (str "priority") 65535 m.fits)
        (rw (normalize_hostname_fix m.exchange (strip_fix m.exchange m.token.1) m.host) refl)))

-- A priority, a weight, a port and a host.
pub record IsSrv (w : Text) : Type 0 where
  pub priority : ℕ
  pub weight : ℕ
  pub port : ℕ
  pub target : Text
  pub spelled : w ≡ show priority ⊕ show weight ⊕ show port ⊕ target
  pub priority_fits : priority ≤ 65535
  pub weight_fits : weight ≤ 65535
  pub port_fits : port ≤ 65535
  pub token : IsToken target
  pub host : IsHost target

srv_of-IsSrv :
    (ts : List Text) (w : Text)
    → All IsToken ts
    → (srv_of ts >>= λ (p : ℕ × ℕ × ℕ × Text). ok (show p.0 ⊕ show p.1 ⊕ show p.2 ⊕ p.3)) ≡ ok w
    → IsSrv w
srv_of-IsSrv (p ∷ g ∷ q ∷ e ∷ []) w h eq =
    let (four, made, shown) = >>=-eq-ok (srv_of (p ∷ g ∷ q ∷ e ∷ [])) _ eq in
    let (a, is_a, after_a) = >>=-eq-ok (parse_uint p (str "priority") 65535) _ made in
    let (b, is_b, after_b) = >>=-eq-ok (parse_uint g (str "weight") 65535) _ after_a in
    let (c, is_c, after_c) = >>=-eq-ok (parse_uint q (str "port") 65535) _ after_b in
    let (x, named, same) = >>=-eq-ok (normalize_hostname e false) _ after_c in
    let (token, host) = normalize_hostname-IsToken e x h.1.1.1.0 named in
    record {
      priority = a;
      weight = b;
      port = c;
      target = x;
      spelled = cc;
      priority_fits = parse_uint-le p (str "priority") 65535 a is_a;
      weight_fits = parse_uint-le g (str "weight") 65535 b is_b;
      port_fits = parse_uint-le q (str "port") 65535 c is_c;
      token = token;
      host = host;
    }
srv_of-IsSrv [] w h eq = cc
srv_of-IsSrv (p ∷ []) w h eq = cc
srv_of-IsSrv (p ∷ g ∷ []) w h eq = cc
srv_of-IsSrv (p ∷ g ∷ q ∷ []) w h eq = cc
srv_of-IsSrv (p ∷ g ∷ q ∷ e ∷ x ∷ ts) w h eq = cc

pub srv_value-IsSrv : (raw w : Text) → srv_value raw ≡ ok w → IsSrv w
unfolding srv_value parse_srv
srv_value-IsSrv raw w h = srv_of-IsSrv (words (strip raw)) w (words-IsToken (strip raw)) h

pub srv_value_fix : (w : Text) → IsSrv w → srv_value w ≡ ok w
unfolding srv_value parse_srv
srv_value_fix w m = rw m.spelled (
    rw
      (
        words-⊕⊕⊕ (show m.priority) (show m.weight) (show m.port) m.target (IsToken-show m.priority)
            (IsToken-show m.weight) (IsToken-show m.port) m.token,
        srv_of,
      )
      (rw
        (
          parse_uint-show m.priority (str "priority") 65535 m.priority_fits,
          parse_uint-show m.weight (str "weight") 65535 m.weight_fits,
          parse_uint-show m.port (str "port") 65535 m.port_fits,
          normalize_hostname_fix m.target (strip_fix m.target m.token.1) m.host,
        )
        refl))

-- Flags, a tag in lower case, and a value that stays as it is.
pub record IsCaa (w : Text) : Type 0 where
  pub flags : ℕ
  pub tag : Text
  pub value : Text
  pub spelled : w ≡ show flags ⊕ tag ⊕ value
  pub fits : flags ≤ 255
  pub tag_matches : caa_tag_re tag ≡ true
  pub lowered : lower tag ≡ tag
  pub filled : is_empty value ≡ false
  pub stripped : IsStripped value
  pub quoted : quote_spaces value ≡ value

every_alnum-Avoids : (s : Text) → every is_alnum s ≡ true → Avoids is_space s
unfolding every is_space
every_alnum-Avoids [] h = tt
every_alnum-Avoids (c ∷ s) h = (ground arith, every_alnum-Avoids s (ground arith))

pub caa_tag_re-IsToken : (s : Text) → caa_tag_re s ≡ true → IsToken s
unfolding caa_tag_re
caa_tag_re-IsToken s h = (ne-nil_of_filled s (ground arith), every_alnum-Avoids s (ground arith))

every_alnum-lower : (s : Text) → every is_alnum s ≡ true → every is_alnum (lower s) ≡ true
unfolding every lower
every_alnum-lower [] h = refl
every_alnum-lower (c ∷ s) h = ground (arith, every_alnum-lower s)

caa_tag_re-lower : (s : Text) → caa_tag_re s ≡ true → caa_tag_re (lower s) ≡ true
unfolding caa_tag_re lower
caa_tag_re-lower [] h = h
caa_tag_re-lower (c ∷ s) h = every_alnum-lower (c ∷ s) (ground arith)

pub IsClosed-of_IsStripped : (s : Text) → is_empty s ≡ false → IsStripped s → IsClosed s
IsClosed-of_IsStripped s h k = (ne-nil_of_filled s h, end_of_IsStripped s k)

-- The three facts about the value of a CAA record, from those about the text that was read.
quote_spaces_idem : (s : Text) → quote_spaces (quote_spaces s) ≡ quote_spaces s
unfolding quote_spaces starts_with
quote_spaces_idem s = ground (arith, ends_with-append (34 ∷ s) quote)

quote_spaces-filled : (s : Text) → is_empty s ≡ false → is_empty (quote_spaces s) ≡ false
unfolding quote_spaces
quote_spaces-filled s h = ground arith

quoted-IsStripped : (s : Text) → IsStripped (quote ++ (s ++ quote))
unfolding drop_while_end is_space
quoted-IsStripped s =
    strip_of (34 ∷ (s ++ quote)) refl (drop_while_end-append is_space (34 ∷ s) 34 [] refl)

quote_spaces-IsStripped : (s : Text) → IsStripped s → IsStripped (quote_spaces s)
unfolding quote_spaces
quote_spaces-IsStripped s h =
    elim (Bool-cases (has_char b' ' s && not (starts_with s quote && ends_with s quote))) [
      | inl wrap ↦ rw wrap (quoted-IsStripped s)
      | inr keep ↦ rw keep h
    ]

not-eq-true : (b : Bool) → not b ≡ true → b ≡ false
not-eq-true b h = ground arith

caa_of-IsCaa :
    (ts : List Text) (w : Text)
    → (caa_of ts >>= λ (p : ℕ × Text × Text). ok (show p.0 ⊕ p.1 ⊕ p.2)) ≡ ok w
    → IsCaa w
caa_of-IsCaa (f ∷ t ∷ v ∷ []) w eq =
    let (three, made, shown) = >>=-eq-ok (caa_of (f ∷ t ∷ v ∷ [])) _ eq in
    let (n, number, after_n) = >>=-eq-ok (parse_uint f (str "flags") 255) _ made in
    let (_, tagged, after_t) =
      >>=-eq-ok (require (caa_tag_re (strip t)) (invalid_caa_tag (strip t))) _ after_n in
    let (_, there, same) =
      >>=-eq-ok (require (not (is_empty (strip v))) caa_value_required) _ after_t in
    let tag_ok = require-eq-ok _ _ tagged in
    let filled : is_empty (strip v) ≡ false =
      not-eq-true (is_empty (strip v)) (require-eq-ok _ _ there) in
    record {
      flags = n;
      tag = lower (strip t);
      value = quote_spaces (strip v);
      spelled = cc;
      fits = parse_uint-le f (str "flags") 255 n number;
      tag_matches = caa_tag_re-lower (strip t) tag_ok;
      lowered = lower_idem (strip t);
      filled = quote_spaces-filled (strip v) filled;
      stripped = quote_spaces-IsStripped (strip v) (strip-IsStripped v);
      quoted = quote_spaces_idem (strip v);
    }
caa_of-IsCaa [] w eq = cc
caa_of-IsCaa (f ∷ []) w eq = cc
caa_of-IsCaa (f ∷ t ∷ []) w eq = cc
caa_of-IsCaa (f ∷ t ∷ v ∷ x ∷ ts) w eq = cc

pub caa_value-IsCaa : (raw w : Text) → caa_value raw ≡ ok w → IsCaa w
unfolding caa_value parse_caa
caa_value-IsCaa raw w h = caa_of-IsCaa (split_words 2 (strip raw)) w h

pub caa_value_fix : (w : Text) → IsCaa w → caa_value w ≡ ok w
unfolding caa_value parse_caa
caa_value_fix w m = rw m.spelled (
    rw
      (
        split_words-⊕⊕ (show m.flags) m.tag m.value (IsToken-show m.flags)
            (caa_tag_re-IsToken m.tag m.tag_matches)
            (IsClosed-of_IsStripped m.value m.filled m.stripped)
            (Starts-of_IsStripped m.value m.stripped),
        caa_of,
      )
      (rw (parse_uint-show m.flags (str "flags") 255 m.fits)
        (ground (arith, strip_fix m.tag (caa_tag_re-IsToken m.tag m.tag_matches).1))))
