-- ===== src/RateLimit.antt =====
-- src/rate_limit.py, with api_key_from_headers of src/http_utils.py: the counters of requests in a
-- window of time. The bucket table is a list of rows. The environment, the session cookie's
-- check, SHA-256 and what the database does at each attempt are arguments.
pub mod Window
pub mod Verdict
mod Tests
use api_to_dns.Prelude.{
  ℕ, zero, suc, ◌+◌, ◌-◌, ◌%◌, Bool, true, false, not, ◌&&◌, ◌||◌, Option, none, some, List, [],
  ◌∷◌, ◌++◌, keep, length, drop, if◌then◌else◌, ◌==◌, ltb,
}
use api_to_dns.Text.{
  Text, ℤ, nonnegative, negative, str, is_empty, ◌===◌, contains, strip, lower, starts_with,
  has_char, split, int_of,
}

-- path prefix, and (max_requests, window_seconds)
abbrev pub Rule : Type 0
Rule = ℕ × ℕ

abbrev pub browser_route : Text
browser_route = str "/zones/*/records"

abbrev pub default_limits : List (Text × Rule)
default_limits =
    (str "/login", (20, 60))
    ∷ (str "/keycheck", (60, 60))
    ∷ (str "/dns-record", (180, 60))
    ∷ (browser_route, (60, 60))
    ∷ []

abbrev pub overrides : List (Text × Text)
overrides =
    (str "RATE_LIMIT_LOGIN", str "/login")
    ∷ (str "RATE_LIMIT_KEYCHECK", str "/keycheck")
    ∷ (str "RATE_LIMIT_DNS_RECORD", str "/dns-record")
    ∷ (str "RATE_LIMIT_DNS_BROWSER", browser_route)
    ∷ []

-- max(1, n)
abbrev pub at_least_one : ℤ → ℕ
at_least_one (negative n) = 1
at_least_one (nonnegative zero) = 1
at_least_one (nonnegative (suc n)) = suc n

-- raw.split(":", 1), where there is a colon
unfoldable pub before_colon : Text → Text
before_colon [] = []
before_colon (c ∷ s) = let more = c ∷ before_colon s in if c == b':' then [] else more

unfoldable pub after_colon : Text → Text
after_colon [] = []
after_colon (c ∷ s) = let rest = after_colon s in if c == b':' then s else rest

abbrev pub rule_of : Option ℤ → Option ℤ → Option Rule
rule_of (some count) (some window) = some (at_least_one count, at_least_one window)
rule_of (some count) none = none
rule_of none window = none

-- limits[path] = rule, for a path that is there
unfoldable pub set_rule : Text → Option Rule → List (Text × Rule) → List (Text × Rule)
set_rule path none limits = limits
set_rule path (some rule) [] = []
set_rule path (some rule) ((p, old) ∷ limits) =
    let rest = set_rule path (some rule) limits in
    if p === path then (p, rule) ∷ limits else (p, old) ∷ rest

abbrev pub override : Text → Text → List (Text × Rule) → List (Text × Rule)
override path raw limits =
    if is_empty raw || not (has_char b':' raw)
    then limits
    else set_rule path (rule_of (int_of (before_colon raw)) (int_of (after_colon raw))) limits

-- os.getenv(name, "")
abbrev pub Environment : Type 0
Environment = Text → Text

-- the loop over the environment's overrides
unfoldable pub apply_overrides :
    Environment → List (Text × Text) → List (Text × Rule) → List (Text × Rule)
apply_overrides getenv [] limits = limits
apply_overrides getenv ((name, path) ∷ rest) limits =
    apply_overrides getenv rest (override path (strip (getenv name)) limits)

unfoldable pub limits : Environment → List (Text × Rule)
limits getenv = apply_overrides getenv overrides default_limits

abbrev pub is_browser_parts : List Text → Bool
is_browser_parts (z ∷ i ∷ r ∷ []) = z === str "zones" && r === str "records"
is_browser_parts (z ∷ i ∷ r ∷ s ∷ []) =
    z === str "zones" && r === str "records" && s === str "search"
is_browser_parts parts = false

unfoldable pub is_dns_browser_path : Text → Bool
is_dns_browser_path path = is_browser_parts (keep (λ p. not (is_empty p)) (split b'/' path))

unfoldable pub find_rule : Text → List (Text × Rule) → Option (Text × Rule)
find_rule path [] = none
find_rule path ((p, rule) ∷ rules) =
    let rest = find_rule path rules in if p === path then some (p, rule) else rest

-- the loop over the prefixes but the synthetic one
unfoldable pub match_prefix : Text → List (Text × Rule) → Option (Text × Rule)
match_prefix path [] = none
match_prefix path ((p, rule) ∷ rules) =
    let rest = match_prefix path rules in
    if not (p === browser_route) && (path === p || starts_with path (p ++ str "/"))
    then some (p, rule)
    else rest

abbrev pub or_else : {A : Type 0} → Option A → Option A → Option A
or_else none y = y
or_else (some x) y = some x

unfoldable pub match_route : Text → List (Text × Rule) → Option (Text × Rule)
match_route path rules =
    or_else (if is_dns_browser_path path then find_rule browser_route rules else none)
      (match_prefix path rules)

-- what is read of a request
pub record Request : Type 0 where
  pub path : Text
  pub session : Option Text
  pub host : Option Text
  pub x_api_key : Option Text
  pub authorization : Option Text

abbrev pub bearer : Text
bearer = str "Bearer "

abbrev pub bearer_key : Option Text → Text
bearer_key none = []
bearer_key (some header) =
    if starts_with header bearer then strip (drop (length bearer) header) else []

-- `api_key_from_headers`, with "" for None
unfoldable pub api_key_from_headers : Option Text → Option Text → Text
api_key_from_headers none authorization = bearer_key authorization
api_key_from_headers (some []) authorization = bearer_key authorization
api_key_from_headers (some (c ∷ key)) authorization = c ∷ key

abbrev pub by_host : Option Text → Text
by_host none = str "ip:unknown"
by_host (some host) = str "ip:" ++ host

-- a row of the table
pub record Bucket : Type 0 where
  pub route_prefix : Text
  pub identity_hash : Text
  pub window_start : ℕ
  pub count : ℕ
  pub expires_at : ℕ

pub record Key : Type 0 where
  pub route : Text
  pub identity : Text
  pub start : ℕ

unfoldable pub is_at : Key → Bucket → Bool
is_at k b =
    b.route_prefix === k.route && b.identity_hash === k.identity && b.window_start == k.start

abbrev counted : Bucket → Bucket
counted b = record {
  route_prefix = b.route_prefix;
  identity_hash = b.identity_hash;
  window_start = b.window_start;
  count = suc b.count;
  expires_at = b.expires_at;
}

abbrev pub new_bucket : Key → ℕ → Bucket
new_bucket k expires = record {
  route_prefix = k.route;
  identity_hash = k.identity;
  window_start = k.start;
  count = 1;
  expires_at = expires;
}

-- INSERT … ON CONFLICT … DO UPDATE SET count = count + 1
unfoldable pub upsert : Key → ℕ → List Bucket → List Bucket
upsert k expires [] = new_bucket k expires ∷ []
upsert k expires (b ∷ bs) =
    let rest = upsert k expires bs in if is_at k b then counted b ∷ bs else b ∷ rest

-- SELECT count …, with 0 for no row
unfoldable pub count_of : Key → List Bucket → ℕ
count_of k [] = 0
count_of k (b ∷ bs) = let rest = count_of k bs in if is_at k b then b.count else rest

-- DELETE … WHERE expires_at < :now
unfoldable pub cleanup_expired : ℕ → List Bucket → List Bucket
cleanup_expired now bs = keep (λ b. not (ltb b.expires_at now)) bs

-- What the database does at an attempt: it serves it, with or without the random clean-up, it is
-- locked or busy, or it fails.
pub data Attempt : Type 0 where
  served : Bool → Attempt
  locked failed : Attempt

unfoldable pub window_start : ℕ → ℕ → ℕ
window_start now window = now - now % window

-- One attempt that is served.
unfoldable pub serve : ℕ → Rule → Text → Text → Bool → List Bucket → Bool × List Bucket
serve now (max_requests, window) route identity cleans bs =
    let start = window_start now window in
    let k : Key = record { route = route; identity = identity; start = start } in
    let after = upsert k (start + window) (if cleans then cleanup_expired now bs else bs) in
    (ltb max_requests (count_of k after), after)

-- The loop over `range(_RATE_LIMIT_DB_LOCK_ATTEMPTS)`: the attempts that are left.
unfoldable pub attempts :
    ℕ → List Attempt → ℕ → Rule → Text → Text → List Bucket → Bool × List Bucket
attempts zero db now rule route identity bs = (true, bs)
attempts (suc n) [] now rule route identity bs = (true, bs)
attempts (suc n) (a ∷ db) now rule route identity bs =
    let again = attempts n db now rule route identity bs in
    elim a [
      | served cleans ↦ serve now rule route identity cleans bs
      | locked ↦ again
      | failed ↦ (true, bs)
    ]

abbrev pub lock_attempts : ℕ
lock_attempts = 3

abbrev pub by_rule :
    Option (Text × Rule) → List Attempt → ℕ → Text → List Bucket → Bool × List Bucket
by_rule none db now identity bs = (false, bs)
by_rule (some (route, rule)) db now identity bs =
    attempts lock_attempts db now rule route identity bs

-- the user name of a session cookie, where it verifies, and the digest of a key
module _ (verify_session : Text → Option Text) (digest : Text → Text) where
  abbrev pub by_session : Option Text → Option Text → Text
  by_session none host = by_host host
  by_session (some []) host = by_host host
  by_session (some (c ∷ token)) host = elim (verify_session (c ∷ token)) [
    | none ↦ by_host host
    | some username ↦ str "session:" ++ lower (strip username)
  ]

  abbrev pub by_api_key : Text → Option Text → Text
  by_api_key [] host = by_host host
  by_api_key (c ∷ key) host = str "key:" ++ digest (c ∷ key)

  -- `_identity_hash`
  unfoldable pub identity_hash : Request → Text
  identity_hash r =
      if is_dns_browser_path r.path
      then by_session r.session r.host
      else by_api_key (api_key_from_headers r.x_api_key r.authorization) r.host

  unfoldable pub rate_limit_exceeded :
      Environment → List Attempt → ℕ → Request → List Bucket → Bool × List Bucket
  rate_limit_exceeded getenv db now r bs =
      if contains (str "1" ∷ str "true" ∷ str "yes" ∷ [])
        (lower (strip (getenv (str "API_TO_DNS_DISABLE_RATE_LIMIT"))))
      then (false, bs)
      else by_rule (match_route r.path (limits getenv)) db now (identity_hash r) bs
