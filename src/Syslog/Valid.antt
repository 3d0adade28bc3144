-- ===== src/Syslog/Valid.antt =====
-- What `validate_syslog_config` lets through.
use mathlib.Core.Path.{subst}
use api_to_dns.Prelude.{
  ℕ, ◌≡◌, ◌≤◌, inl, inr, Bool, true, false, not, ◌&&◌, ◌||◌, Option, none, some, arith, ltb, ◌==◌,
  if◌then◌else◌, Bool-cases,
}
use api_to_dns.Text.{contains, is_empty, strip, ℤ, nonnegative, negative}
use api_to_dns.Fault.{timeout_out_of_range, ok, err, Fault, >>=-eq-ok, require-eq-ok}
use api_to_dns.Levels.{log_level_values}
use api_to_dns.Syslog.{
  SyslogConfig, Settings, Seconds, nan, milliseconds, has_code, syslog_protocols, syslog_facility,
  in_range, timeout_of, validate_syslog_config, uses_plaintext,
}

-- 0 < timeout ≤ 30 seconds, or NaN
abbrev pub IsTimeout : Seconds → Type 0
IsTimeout nan = Unit
IsTimeout (milliseconds (nonnegative n)) = (1 ≤ n) × (n ≤ 30000)
IsTimeout (milliseconds (negative n)) = ⊥

pub record IsValid (c : SyslogConfig) : Type 0 where
  pub known_protocol : contains syslog_protocols c.protocol ≡ true
  pub known_facility : has_code c.facility syslog_facility ≡ true
  pub known_level : contains log_level_values c.minimum_level ≡ true
  pub port_fits : (1 ≤ c.port) × (c.port ≤ 65535)
  pub timeout_fits : IsTimeout c.timeout
  pub queue_fits : (1 ≤ c.queue_size) × (c.queue_size ≤ 5000)
  pub host_given : c.enabled ≡ true → is_empty c.host ≡ false
  pub opted_in : c.enabled ≡ true → uses_plaintext c ≡ true → c.allow_insecure_plaintext ≡ true

in_range_bounds :
    (limit : ℕ) (fault : Fault) (value : Option ℤ) {n : ℕ}
    → in_range limit fault value ≡ ok n
    → (1 ≤ n) × (n ≤ limit)
in_range_bounds limit fault none h = cc
in_range_bounds limit fault (some (negative m)) h = cc
in_range_bounds limit fault (some (nonnegative m)) h = ground arith

ok-inj {ℓ} : {A : Type ℓ} {x y : A} → ok x ≡ ok y → x ≡ y
ok-inj h = cc

within-IsTimeout :
    (n : ℕ) {t : Seconds}
    → (if n == 0 || ltb 30000 n
        then err timeout_out_of_range
        else ok (milliseconds (nonnegative n)))
      ≡ ok t
    → IsTimeout t
within-IsTimeout n h = elim (Bool-cases (n == 0 || ltb 30000 n)) [
  | inl e ↦ let k = rw e at h in cc
  | inr e ↦ let k = rw e at h in subst IsTimeout (ok-inj k) (ground arith)
]

timeout_of-IsTimeout :
    (value : Option Seconds) {t : Seconds} → timeout_of value ≡ ok t → IsTimeout t
timeout_of-IsTimeout none h = cc
timeout_of-IsTimeout (some nan) h = subst IsTimeout (ok-inj h) tt
timeout_of-IsTimeout (some (milliseconds (negative n))) h = cc
timeout_of-IsTimeout (some (milliseconds (nonnegative n))) h = within-IsTimeout n h

not_both : (a b : Bool) → not (a && b) ≡ true → a ≡ true → b ≡ false
not_both a b h e = ground arith

opts_in : (a b c : Bool) → not (a && b && not c) ≡ true → a ≡ true → b ≡ true → c ≡ true
opts_in a b c h e k = ground arith

-- A configuration that is let through has a known protocol, facility and level, a port between 1 and
-- 65535, a timeout that is above 0 and at most 30 seconds unless it is NaN, and a queue of between 1 and
-- 5000 events; if it is enabled it has a host, and it sends plaintext only with the opt-in.
pub validate_syslog_config-IsValid :
    (s : Settings) {c : SyslogConfig} → validate_syslog_config s ≡ ok c → IsValid c
unfolding validate_syslog_config uses_plaintext
validate_syslog_config-IsValid s h =
    let (_, protocol, h) = >>=-eq-ok _ _ h in
    let (_, facility, h) = >>=-eq-ok _ _ h in
    let (_, level, h) = >>=-eq-ok _ _ h in
    let (port, port_ok, h) = >>=-eq-ok _ _ h in
    let (timeout, timeout_ok, h) = >>=-eq-ok _ _ h in
    let (queue_size, queue_ok, h) = >>=-eq-ok _ _ h in
    let (_, host, h) = >>=-eq-ok _ _ h in
    let (_, plaintext, h) = >>=-eq-ok _ _ h in
    let given = not_both s.enabled (is_empty (strip s.host)) (require-eq-ok _ _ host) in
    let opted_in = opts_in s.enabled _ s.allow_insecure_plaintext (require-eq-ok _ _ plaintext) in
    subst IsValid (ok-inj h) (record {
      known_protocol = require-eq-ok _ _ protocol;
      known_facility = require-eq-ok _ _ facility;
      known_level = require-eq-ok _ _ level;
      port_fits = in_range_bounds _ _ s.port port_ok;
      timeout_fits = timeout_of-IsTimeout s.timeout timeout_ok;
      queue_fits = in_range_bounds _ _ s.queue_size queue_ok;
      host_given = given;
      opted_in = opted_in;
    })
