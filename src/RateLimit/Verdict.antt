-- ===== src/RateLimit/Verdict.antt =====
-- `rate_limit_exceeded` of src/rate_limit.py, whatever the environment and the database do.
use api_to_dns.Prelude.{
  ℕ, zero, suc, ◌≤◌, ◌≡◌, refl, Bool, true, false, not, ◌&&◌, ◌||◌, Option, none, some, List, [],
  ◌∷◌, ◌++◌, All, arith, if◌then◌else◌,
}
use api_to_dns.Text.{
  Text, ℤ, nonnegative, negative, str, is_empty, ◌===◌, contains, strip, lower, has_char,
  starts_with, int_of,
}
use api_to_dns.RateLimit.{
  Rule, Bucket, Attempt, served, locked, failed, Environment, browser_route, default_limits,
  overrides, at_least_one, rule_of, set_rule, override, apply_overrides, limits, before_colon,
  after_colon, is_dns_browser_path, find_rule, match_prefix, match_route, or_else, Request, serve,
  attempts, lock_attempts, identity_hash, rate_limit_exceeded,
}
use api_to_dns.RateLimit.Window.{Expires, key_at, closes, Counted, serve-Counted}

abbrev pub IsRule : Text × Rule → Type 0
IsRule entry = (1 ≤ entry.1.0) × (1 ≤ entry.1.1)

abbrev OptionIs : {A : Type 0} → (A → Type 0) → Option A → Type 0
OptionIs P none = Unit
OptionIs P (some x) = P x

at_least_one_lem : (n : ℤ) → 1 ≤ at_least_one n
at_least_one_lem (negative n) = omega arith
at_least_one_lem (nonnegative zero) = omega arith
at_least_one_lem (nonnegative (suc n)) = omega arith

abbrev IsWindow : Rule → Type 0
IsWindow rule = (1 ≤ rule.0) × (1 ≤ rule.1)

rule_of-IsWindow : (count window : Option ℤ) → OptionIs IsWindow (rule_of count window)
rule_of-IsWindow (some count) (some window) = (at_least_one_lem count, at_least_one_lem window)
rule_of-IsWindow (some count) none = tt
rule_of-IsWindow none window = tt

All-if :
    (b : Bool) (xs ys : List (Text × Rule))
    → All IsRule xs
    → All IsRule ys
    → All IsRule (if b then xs else ys)
All-if true xs ys h k = h
All-if false xs ys h k = k

set_rule-IsRule :
    (path : Text) (rule : Option Rule) (rules : List (Text × Rule))
    → OptionIs IsWindow rule
    → All IsRule rules
    → All IsRule (set_rule path rule rules)
unfolding set_rule
set_rule-IsRule path none rules h k = k
set_rule-IsRule path (some rule) [] h k = tt
set_rule-IsRule path (some rule) ((p, old) ∷ rules) h k =
    All-if (p === path) ((p, rule) ∷ rules) ((p, old) ∷ set_rule path (some rule) rules) (h, k.1)
      (k.0, set_rule-IsRule path (some rule) rules h k.1)

override-IsRule :
    (path raw : Text) (rules : List (Text × Rule))
    → All IsRule rules
    → All IsRule (override path raw rules)
override-IsRule path raw rules h =
    All-if (is_empty raw || not (has_char b':' raw)) rules
      (set_rule path (rule_of (int_of (before_colon raw)) (int_of (after_colon raw))) rules) h
      (set_rule-IsRule path (rule_of (int_of (before_colon raw)) (int_of (after_colon raw))) rules
        (rule_of-IsWindow (int_of (before_colon raw)) (int_of (after_colon raw))) h)

apply_overrides-IsRule :
    (getenv : Environment) (names : List (Text × Text)) (rules : List (Text × Rule))
    → All IsRule rules
    → All IsRule (apply_overrides getenv names rules)
unfolding apply_overrides
apply_overrides-IsRule getenv [] rules h = h
apply_overrides-IsRule getenv ((name, path) ∷ names) rules h =
    apply_overrides-IsRule getenv names (override path (strip (getenv name)) rules)
      (override-IsRule path (strip (getenv name)) rules h)

-- Whatever the environment says, each limit admits a request and has a window.
pub limits-IsRule : (getenv : Environment) → All IsRule (limits getenv)
unfolding limits
limits-IsRule getenv = apply_overrides-IsRule getenv overrides default_limits (
  (omega arith, omega arith),
  ((omega arith, omega arith), ((omega arith, omega arith), ((omega arith, omega arith), tt))),
)

Option-if :
    (b : Bool) (x y : Option (Text × Rule))
    → OptionIs IsRule x
    → OptionIs IsRule y
    → OptionIs IsRule (if b then x else y)
Option-if true x y h k = h
Option-if false x y h k = k

find_rule-IsRule :
    (path : Text) (rules : List (Text × Rule))
    → All IsRule rules
    → OptionIs IsRule (find_rule path rules)
unfolding find_rule
find_rule-IsRule path [] h = tt
find_rule-IsRule path ((p, rule) ∷ rules) h =
    Option-if (p === path) (some (p, rule)) (find_rule path rules) h.0
      (find_rule-IsRule path rules h.1)

match_prefix-IsRule :
    (path : Text) (rules : List (Text × Rule))
    → All IsRule rules
    → OptionIs IsRule (match_prefix path rules)
unfolding match_prefix
match_prefix-IsRule path [] h = tt
match_prefix-IsRule path ((p, rule) ∷ rules) h =
    Option-if (not (p === browser_route) && (path === p || starts_with path (p ++ str "/")))
      (some (p, rule)) (match_prefix path rules) h.0 (match_prefix-IsRule path rules h.1)

or_else-IsRule :
    (x y : Option (Text × Rule))
    → OptionIs IsRule x
    → OptionIs IsRule y
    → OptionIs IsRule (or_else x y)
or_else-IsRule none y h k = k
or_else-IsRule (some x) y h k = h

match_route-IsRule :
    (path : Text) (rules : List (Text × Rule))
    → All IsRule rules
    → OptionIs IsRule (match_route path rules)
unfolding match_route
match_route-IsRule path rules h =
    or_else-IsRule (if is_dns_browser_path path then find_rule browser_route rules else none)
      (match_prefix path rules)
      (Option-if (is_dns_browser_path path) (find_rule browser_route rules) none
        (find_rule-IsRule browser_route rules h) tt)
      (match_prefix-IsRule path rules h)

-- The first attempt that is served before the attempts run out or one fails, and whether it cleans
-- up.
unfoldable pub reaches : ℕ → List Attempt → Option Bool
reaches zero db = none
reaches (suc n) [] = none
reaches (suc n) (served cleans ∷ db) = some cleans
reaches (suc n) (locked ∷ db) = reaches n db
reaches (suc n) (failed ∷ db) = none

module _ (now : ℕ) (rule : Rule) (route identity : Text) (bs : List Bucket) where
  abbrev by_reach : Option Bool → Bool × List Bucket
  by_reach none = (true, bs)
  by_reach (some cleans) = serve now rule route identity cleans bs

  attempts-by_reach :
      (n : ℕ) (db : List Attempt)
      → attempts n db now rule route identity bs ≡ by_reach (reaches n db)
  unfolding attempts reaches
  attempts-by_reach zero db = refl
  attempts-by_reach (suc n) [] = refl
  attempts-by_reach (suc n) (served cleans ∷ db) = refl
  attempts-by_reach (suc n) (locked ∷ db) = attempts-by_reach n db
  attempts-by_reach (suc n) (failed ∷ db) = refl

abbrev pub disabled_by : Environment → Bool
disabled_by getenv =
    contains (str "1" ∷ str "true" ∷ str "yes" ∷ [])
      (lower (strip (getenv (str "API_TO_DNS_DISABLE_RATE_LIMIT"))))

-- What the check of a limited request comes to: without an attempt that is served it is rejected
-- and nothing is counted; with one it is counted once, and rejected if that exceeds the maximum.
pub data Limited (rule : Rule) (route identity : Text) (now : ℕ) (reached : Option Bool)
    (bs : List Bucket) (result : Bool × List Bucket) : Type 0 where
  fails_closed :
      reached ≡ none → result ≡ (true, bs) → Limited rule route identity now reached bs result
  counts :
      (cleans : Bool)
      → reached ≡ some cleans
      → Counted rule.0 rule.1 route identity now bs result
      → Limited rule route identity now reached bs result

Limited-by :
    (rule : Rule) (route identity : Text) (now : ℕ) (reached : Option Bool) (bs : List Bucket)
    → 1 ≤ rule.1
    → Expires (key_at rule.0 rule.1 route identity now) (closes rule.0 rule.1 route identity now) bs
    → Limited rule route identity now reached bs (by_reach now rule route identity bs reached)
Limited-by rule route identity now none bs positive h = fails_closed refl refl
Limited-by (max_requests, window) route identity now (some cleans) bs positive h =
    counts cleans refl (serve-Counted max_requests window route identity now cleans bs positive h)

attempts-Limited :
    (rule : Rule) (route identity : Text) (now : ℕ) (db : List Attempt) (bs : List Bucket)
    → 1 ≤ rule.1
    → Expires (key_at rule.0 rule.1 route identity now) (closes rule.0 rule.1 route identity now) bs
    → Limited rule route identity now
        (reaches lock_attempts db)
        bs
        (attempts lock_attempts db now rule route identity bs)
attempts-Limited rule route identity now db bs positive h =
    rw (attempts-by_reach now rule route identity bs lock_attempts db)
      (Limited-by rule route identity now (reaches lock_attempts db) bs positive h)

rule_positive :
    (o : Option (Text × Rule)) (m : Text × Rule) → OptionIs IsRule o → o ≡ some m → IsRule m
rule_positive none m h e = cc
rule_positive (some n) m h e = rw (some-inj e) at h
  where
    some-inj : {x y : Text × Rule} → some x ≡ some y → x ≡ y
    some-inj q = cc

module _ (verify_session : Text → Option Text) (digest : Text → Text) where
  -- Where the limits are not disabled and one matches the path, and the rows of its window expire at
  -- the window's end: if no attempt is served the request is rejected and the table is unchanged;
  -- otherwise it is counted once for its route, identity and window, and is rejected exactly if the
  -- count then exceeds the maximum, and other keys whose rows have not expired keep their counts.
  pub rate_limit_exceeded-Limited :
      (getenv : Environment) (db : List Attempt) (now : ℕ) (r : Request) (bs : List Bucket)
      (route : Text) (rule : Rule)
      → disabled_by getenv ≡ false
      → match_route r.path (limits getenv) ≡ some (route, rule)
      → Expires
          (key_at rule.0 rule.1 route (identity_hash verify_session digest r) now)
          (closes rule.0 rule.1 route (identity_hash verify_session digest r) now)
          bs
      → Limited rule route
          (identity_hash verify_session digest r)
          now
          (reaches lock_attempts db)
          bs
          (rate_limit_exceeded verify_session digest getenv db now r bs)
  unfolding rate_limit_exceeded
  rate_limit_exceeded-Limited getenv db now r bs route rule enabled matched h =
      let positive =
        rule_positive (match_route r.path (limits getenv)) (route, rule)
          (match_route-IsRule r.path (limits getenv) (limits-IsRule getenv)) matched in
      rw enabled (
        rw matched (
          attempts-Limited rule route (identity_hash verify_session digest r) now db bs positive.1
            h))
