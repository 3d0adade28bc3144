-- ===== src/RateLimit/Window.antt =====
-- The counter of src/rate_limit.py for one route and identity in one window of time.
use api_to_dns.Prelude.{
  ℕ, suc, ◌+◌, ◌≤◌, ◌<◌, ◌≡◌, ◌≢◌, refl, sym, ap, ◌∙◌, inl, inr, Bool, true, false, not, List, [],
  ◌∷◌, keep, All, arith, if◌then◌else◌, ==_iff, ltb, Bool-cases,
}
use api_to_dns.Text.{Text}
use api_to_dns.Text.Equal.{===_iff, ===_refl}
use native.Mathlib.Nat.{mod-lt}
use api_to_dns.RateLimit.{
  Bucket, Key, new_bucket, is_at, counted, upsert, count_of, cleanup_expired, window_start, serve,
}

-- The row of a key expires at `e`.
abbrev pub Expires : Key → ℕ → List Bucket → Type 0
Expires k e bs = All (λ b. is_at k b ≡ true → b.expires_at ≡ e) bs

is_at-counted : (k : Key) (b : Bucket) → is_at k (counted b) ≡ is_at k b
unfolding is_at
is_at-counted k b = refl

count_of-here :
    (k : Key) (b : Bucket) (bs : List Bucket) → is_at k b ≡ true → count_of k (b ∷ bs) ≡ b.count
unfolding count_of
count_of-here k b bs e = rw e refl

count_of-there :
    (k : Key) (b : Bucket) (bs : List Bucket)
    → is_at k b ≡ false
    → count_of k (b ∷ bs) ≡ count_of k bs
unfolding count_of
count_of-there k b bs e = rw e refl

count_of-upsert :
    (k : Key) (e : ℕ) (bs : List Bucket) → count_of k (upsert k e bs) ≡ suc (count_of k bs)
unfolding upsert count_of is_at
count_of-upsert k e [] = ground (arith, ===_refl k.route, ===_refl k.identity)
count_of-upsert k e (b ∷ bs) = ground (arith, is_at-counted k b, count_of-upsert k e bs)

count_of-cleanup_expired :
    (k : Key) (e now : ℕ) (bs : List Bucket)
    → Expires k e bs
    → now ≤ e
    → count_of k (cleanup_expired now bs) ≡ count_of k bs
unfolding cleanup_expired keep count_of
count_of-cleanup_expired k e now [] h l = refl
count_of-cleanup_expired k e now (b ∷ bs) h l =
    ground (arith, h.0, count_of-cleanup_expired k e now bs h.1 l)

Expires-if :
    (b : Bool) (k : Key) (e : ℕ) (bs cs : List Bucket)
    → Expires k e bs
    → Expires k e cs
    → Expires k e (if b then bs else cs)
Expires-if true k e bs cs h l = h
Expires-if false k e bs cs h l = l

Expires-cleanup_expired :
    (k : Key) (e now : ℕ) (bs : List Bucket) → Expires k e bs → Expires k e (cleanup_expired now bs)
unfolding cleanup_expired keep
Expires-cleanup_expired k e now [] h = tt
Expires-cleanup_expired k e now (b ∷ bs) h =
    Expires-if (not (ltb b.expires_at now)) k e (b ∷ cleanup_expired now bs)
      (cleanup_expired now bs) (h.0, Expires-cleanup_expired k e now bs h.1)
      (Expires-cleanup_expired k e now bs h.1)

Expires-upsert : (k : Key) (e : ℕ) (bs : List Bucket) → Expires k e bs → Expires k e (upsert k e bs)
unfolding upsert is_at
Expires-upsert k e [] h = (λ a. refl, tt)
Expires-upsert k e (b ∷ bs) h =
    Expires-if (is_at k b) k e (counted b ∷ bs) (b ∷ upsert k e bs) (h.0, h.1)
      (h.0, Expires-upsert k e bs h.1)

is_at_both : (k l : Key) (b : Bucket) → is_at k b ≡ true → is_at l b ≡ true → k ≡ l
unfolding is_at
is_at_both k l b h g =
    let route : k.route ≡ l.route =
      ground (arith, ===_iff b.route_prefix k.route, ===_iff b.route_prefix l.route) in
    let identity : k.identity ≡ l.identity =
      ground (arith, ===_iff b.identity_hash k.identity, ===_iff b.identity_hash l.identity) in
    let start : k.start ≡ l.start =
      ground (arith, ==_iff b.window_start k.start, ==_iff b.window_start l.start) in
    λ i. record { route = route i; identity = identity i; start = start i }

is_at-new_bucket : (k : Key) (e : ℕ) → is_at k (new_bucket k e) ≡ true
unfolding is_at
is_at-new_bucket k e = ground (arith, ===_refl k.route, ===_refl k.identity)

-- a row of one key is no row of another
is_at_other : (k l : Key) (b : Bucket) → k ≢ l → is_at k b ≡ true → is_at l b ≡ false
is_at_other k l b h at = elim (Bool-cases (is_at l b)) [
  | inl e ↦ absurd (h (is_at_both k l b at e))
  | inr e ↦ e
]

-- A request does not count for another key.
count_of-upsert_other :
    (k l : Key) (e : ℕ) (bs : List Bucket) → k ≢ l → count_of l (upsert k e bs) ≡ count_of l bs
unfolding upsert
count_of-upsert_other k l e [] h =
    count_of-there l (new_bucket k e) [] (is_at_other k l (new_bucket k e) h (is_at-new_bucket k e))
count_of-upsert_other k l e (b ∷ bs) h = elim (Bool-cases (is_at k b)) [
  | inl at ↦
      let other = is_at_other k l b h at in
      rw at (
        count_of-there l (counted b) bs (is_at-counted l b ∙ other)
        ∙ sym (count_of-there l b bs other))
  | inr at ↦ rw at (elim (Bool-cases (is_at l b)) [
    | inl mine ↦ count_of-here l b (upsert k e bs) mine ∙ sym (count_of-here l b bs mine)
    | inr other ↦
        count_of-there l b (upsert k e bs) other
        ∙ (count_of-upsert_other k l e bs h ∙ sym (count_of-there l b bs other))
  ])
]

module _ (max_requests window : ℕ) (route identity : Text) where
  abbrev pub window_key : ℕ → Key
  window_key start = record { route = route; identity = identity; start = start }

  abbrev pub key_at : ℕ → Key
  key_at now = window_key (window_start now window)

  abbrev pub closes : ℕ → ℕ
  closes now = window_start now window + window

  -- The window of a time contains it.
  within : (now : ℕ) → 1 ≤ window → (window_start now window ≤ now) × (now < closes now)
  unfolding window_start
  within now positive = let small = mod-lt now positive in (omega arith, omega (arith, small))

  -- A request that is served counts once for its route, identity and window, and is rejected exactly
  -- if the count then exceeds the maximum; keys whose rows have not expired keep their counts.
  pub record Counted (now : ℕ) (bs : List Bucket) (result : Bool × List Bucket) : Type 0 where
    pub verdict : result.0 ≡ ltb max_requests (suc (count_of (key_at now) bs))
    pub count : count_of (key_at now) result.1 ≡ suc (count_of (key_at now) bs)
    pub kept : Expires (key_at now) (closes now) result.1
    pub others :
        (l : Key) (e : ℕ)
        → key_at now ≢ l
        → Expires l e bs
        → now ≤ e
        → count_of l result.1 ≡ count_of l bs

  pub serve-Counted :
      (now : ℕ) (cleans : Bool) (bs : List Bucket)
      → 1 ≤ window
      → Expires (key_at now) (closes now) bs
      → Counted now bs (serve now (max_requests, window) route identity cleans bs)
  unfolding serve
  serve-Counted now true bs positive h =
      let k = key_at now in
      let same =
        count_of-cleanup_expired k (closes now) now bs h (omega (arith, (within now positive).1)) in
      let once = count_of-upsert k (closes now) (cleanup_expired now bs) ∙ ap suc same in
      record {
        verdict = ap (ltb max_requests) once;
        count = once;
        kept = Expires-upsert k (closes now) _ (Expires-cleanup_expired k (closes now) now bs h);
        others = λ l e apart expires early.
            count_of-upsert_other k l (closes now) (cleanup_expired now bs) apart
            ∙ count_of-cleanup_expired l e now bs expires early;
      }
  serve-Counted now false bs positive h =
      let once = count_of-upsert (key_at now) (closes now) bs in
      record {
        verdict = ap (ltb max_requests) once;
        count = once;
        kept = Expires-upsert (key_at now) (closes now) bs h;
        others =
            λ l e apart expires early. count_of-upsert_other (key_at now) l (closes now) bs apart;
      }

  -- Requests at these times, each served, with or without a clean-up.
  unfoldable pub serve_all : List (ℕ × Bool) → List Bucket → List Bool
  serve_all [] bs = []
  serve_all ((now, cleans) ∷ times) bs =
      let (verdict, after) = serve now (max_requests, window) route identity cleans bs in
      verdict ∷ serve_all times after

  -- The verdicts on the requests after the first `n`.
  unfoldable pub verdicts : ℕ → List (ℕ × Bool) → List Bool
  verdicts n [] = []
  verdicts n (t ∷ times) = ltb max_requests (suc n) ∷ verdicts (suc n) times

  -- Served requests of one route and identity in one window: the first ones, up to the maximum, pass,
  -- and all later ones are rejected, whether or not rows that have expired are cleaned up. The window
  -- is not empty, and its rows expire at its end.
  pub serve_all-verdicts :
      (start : ℕ) (times : List (ℕ × Bool)) (bs : List Bucket)
      → 1 ≤ window
      → All (λ t. window_start t.0 window ≡ start) times
      → Expires (window_key start) (start + window) bs
      → serve_all times bs ≡ verdicts (count_of (window_key start) bs) times
  unfolding serve_all verdicts
  serve_all-verdicts start [] bs positive h k = refl
  serve_all-verdicts start ((now, cleans) ∷ times) bs positive h k =
      let k_now : Expires (key_at now) (closes now) bs = rw (sym h.0) at k in
      let c = serve-Counted now cleans bs positive k_now in
      let after = (serve now (max_requests, window) route identity cleans bs).1 in
      let kept : Expires (window_key start) (start + window) after = rw (h.0) at (c.kept) in
      let verdict : (serve now (max_requests, window) route identity cleans bs).0
          ≡ ltb max_requests (suc (count_of (window_key start) bs)) =
        rw (h.0) at (c.verdict) in
      let count : count_of (window_key start) after ≡ suc (count_of (window_key start) bs) =
        rw (h.0) at (c.count) in
      let rest =
        serve_all-verdicts start times after positive h.1 kept
        ∙ ap (λ (n : ℕ). verdicts n times) count in
      λ i. verdict i ∷ rest i
