-- ===== src/RateLimit/Tests.antt =====
-- Limits at concrete requests.
use api_to_dns.Prelude.{◌≡◌, refl, true, false, Option, none, some, [], ◌∷◌, keep, arith}
use api_to_dns.Text.{Text, str, text_runs}
use api_to_dns.RateLimit.{
  served, locked, Environment, Request, limits, apply_overrides, set_rule, before_colon,
  after_colon, is_dns_browser_path, match_route, match_prefix, find_rule, window_start,
  identity_hash, count_of, rate_limit_exceeded, lock_attempts,
}
use api_to_dns.RateLimit.Window.{window_key, serve_all, verdicts, serve_all-verdicts}
use api_to_dns.RateLimit.Verdict.{Limited, reaches, disabled_by, rate_limit_exceeded-Limited}

in_window : (window_start 120 60 ≡ 120) × ((window_start 130 60 ≡ 120) × Unit {0})
unfolding window_start
in_window = (refl, (refl, tt))

serve_all-verdicts_example :
    serve_all 1 60 (str "/login") (str "ip:192.0.2.1") ((120, true) ∷ (130, false) ∷ []) []
    ≡ verdicts 1 60
        (str "/login")
        (str "ip:192.0.2.1")
        (count_of (window_key 1 60 (str "/login") (str "ip:192.0.2.1") 120) [])
        ((120, true) ∷ (130, false) ∷ [])
serve_all-verdicts_example =
    serve_all-verdicts 1 60 (str "/login") (str "ip:192.0.2.1") 120
      ((120, true) ∷ (130, false) ∷ []) [] (omega arith) in_window tt

abbrev getenv : Environment
getenv name = []

abbrev verify_session : Text → Option Text
verify_session token = none

abbrev digest : Text → Text
digest key = key

abbrev login : Request
login = record {
  path = str "/login";
  session = none;
  host = some (str "192.0.2.1");
  x_api_key = none;
  authorization = none;
}

login_limited : disabled_by getenv ≡ false
unfolding text_runs
login_limited = refl

login_matched : match_route (str "/login") (limits getenv) ≡ some (str "/login", (20, 60))
unfolding match_route match_prefix find_rule is_dns_browser_path limits apply_overrides keep
    text_runs
login_matched = refl

rate_limit_exceeded-Limited_example :
    Limited
      (20, 60)
      (str "/login")
      (identity_hash verify_session digest login)
      125
      (reaches lock_attempts (locked ∷ served true ∷ []))
      []
      (rate_limit_exceeded verify_session digest getenv (locked ∷ served true ∷ []) 125 login [])
rate_limit_exceeded-Limited_example =
    rate_limit_exceeded-Limited verify_session digest getenv (locked ∷ served true ∷ []) 125 login
      [] (str "/login") (20, 60) login_limited login_matched tt

browser_search : is_dns_browser_path (str "/zones/7/records/search") ≡ true
unfolding is_dns_browser_path keep text_runs
browser_search = refl

override_read :
    limits (λ name. str "30:0")
    ≡ (str "/login", (30, 1))
      ∷ (str "/keycheck", (30, 1))
      ∷ (str "/dns-record", (30, 1))
      ∷ (str "/zones/*/records", (30, 1))
      ∷ []
unfolding limits apply_overrides set_rule before_colon after_colon text_runs
override_read = refl
