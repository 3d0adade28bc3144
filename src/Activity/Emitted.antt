-- ===== src/Activity/Emitted.antt =====
-- What `emit_activity_event` stores.
use api_to_dns.Prelude.{
  if◌then◌else◌, ℕ, ◌+◌, ◌-◌, ◌≤◌, ◌≡◌, refl, ◌∙◌, inl, inr, Bool, true, false, not, ◌&&◌, Option,
  none, some, List, [], ◌∷◌, ◌++◌, keep, arith, Bool-cases, ltb, some_of,
}
use api_to_dns.Text.{text_runs, Text, str, ◌===◌, starts_with, lower, strip}
use api_to_dns.Levels.{log_category_security, security_event_prefixes}
use api_to_dns.Activity.Redaction.{Details, details_byte_cap, truncation_mark, redact_details}
use api_to_dns.Activity.{
  category_of, ActivityLog, Emission, utf8_length, byte_length, take_bytes, capped_json,
  details_to_json, normalize_category, infer_event_category, should_store_event, get_retention_days,
}
use api_to_dns.Activity.Log.{
  with_row, Platform, Instant, Site, is_expired, category_for, row_for, is_stored, store_event,
  emit_with,
}
use api_to_dns.Activity.Retention.{keep-append, run_retention_cleanup-Keeps}

byte_length-append : (s t : Text) → byte_length (s ++ t) ≡ byte_length s + byte_length t
unfolding byte_length
byte_length-append [] t = omega arith
byte_length-append (c ∷ s) t = omega (arith, byte_length-append s t)

byte_length-take_bytes : (n : ℕ) (s : Text) → byte_length (take_bytes n s) ≤ n
unfolding byte_length take_bytes
byte_length-take_bytes n [] = omega arith
byte_length-take_bytes n (c ∷ s) = elim (Bool-cases (ltb n (utf8_length c))) [
  | inl e ↦ rw e (omega arith)
  | inr e ↦ rw e (fits n (utf8_length c) _ e (byte_length-take_bytes (n - utf8_length c) s))
]
  where
    fits : (n k m : ℕ) → ltb n k ≡ false → m ≤ n - k → k + m ≤ n
    fits n k m e h = ground arith

byte_length-capped_json :
    (cap : ℕ) (s : Text) → byte_length (capped_json cap s) ≤ cap + byte_length truncation_mark
unfolding capped_json
byte_length-capped_json cap s = elim (Bool-cases (ltb cap (byte_length s))) [
  | inl e ↦ rw e (
      omega (
        arith,
        byte_length-append (take_bytes cap s) truncation_mark,
        byte_length-take_bytes cap s,
      ))
  | inr e ↦ rw e (ground arith)
]

-- The bytes of a row's details.
abbrev pub bytes_of : Option Text → ℕ
bytes_of none = 0
bytes_of (some s) = byte_length s

bytes_of-details_to_json :
    (dumps : Details → Text) (details : Option Details)
    → bytes_of (details_to_json dumps details) ≤ 4110
unfolding details_to_json byte_length
bytes_of-details_to_json dumps none = omega arith
bytes_of-details_to_json dumps (some d) =
    byte_length-capped_json details_byte_cap (dumps (redact_details d))

category_of-security :
    (s : Text)
    → some_of (starts_with s) security_event_prefixes ≡ true
    → category_of s ≡ some log_category_security
unfolding some_of starts_with
category_of-security [] h = cc
category_of-security (c ∷ s) h = rw h

security_stored :
    (level configured : Text)
    → should_store_event level configured (some log_category_security) ≡ true
unfolding should_store_event normalize_category text_runs
security_stored level configured = refl

module _ (p : Platform) (evaluate : ActivityLog → Site → Site) (now : Instant) (e : Emission) where
  open p use {codec, dumps}

  -- The row is the last one, and of the others only such are left out as are older than the retention.
  pub record Appends (site after : Site) : Type 0 where
    pub stays : ActivityLog → Bool
    pub appended : after.logs ≡ keep stays site.logs ++ row_for p now.utc e ∷ []
    pub old :
        (row : ActivityLog)
        → stays row ≡ false
        → is_expired now.utc (get_retention_days codec site.settings) row ≡ true
    pub capped : bytes_of (row_for p now.utc e).details_json ≤ 4110

  -- The three ends of `emit_activity_event`.
  pub data Emits (site : Site) : Option ActivityLog × Site → Type 0 where
    below : is_stored p e site ≡ false → Emits site (none, site)
    quiet :
        is_stored p e site ≡ true
        → (e.evaluate_alerts && not (e.event_type === str "alert.email_failed")) ≡ false
        → (after : Site) → Appends site after
        → Emits site (some (row_for p now.utc e), after)
    alerting :
        is_stored p e site ≡ true
        → e.evaluate_alerts ≡ true
        → (e.event_type === str "alert.email_failed") ≡ false
        → (after : Site) → Appends site after
        → Emits site (some (row_for p now.utc e), evaluate (row_for p now.utc e) after)

  kept_itself : (days : ℕ) → is_expired now.utc days (row_for p now.utc e) ≡ false
  unfolding row_for
  kept_itself days = ground arith

  stays_itself :
      (stays : ActivityLog → Bool) (days : ℕ)
      → (stays (row_for p now.utc e) ≡ false → is_expired now.utc days (row_for p now.utc e) ≡ true)
      → stays (row_for p now.utc e) ≡ true
  stays_itself stays days old = elim (Bool-cases (stays (row_for p now.utc e))) [
    | inl k ↦ k
    | inr k ↦ let expired = old k in let fresh = kept_itself days in cc
  ]

  keep-row :
      (stays : ActivityLog → Bool) (rows : List ActivityLog)
      → stays (row_for p now.utc e) ≡ true
      → keep stays (rows ++ row_for p now.utc e ∷ []) ≡ keep stays rows ++ row_for p now.utc e ∷ []
  unfolding keep
  keep-row stays rows h = keep-append stays rows (row_for p now.utc e ∷ []) ∙ rw h

  store_event-Appends : (site : Site) → Appends site (store_event p now e site)
  unfolding store_event with_row
  store_event-Appends site =
      let k = run_retention_cleanup-Keeps p now.utc (with_row p now e site) in
      record {
        stays = k.stays;
        appended =
            k.kept
            ∙ keep-row k.stays site.logs (
                stays_itself k.stays (get_retention_days codec site.settings)
                  (k.old (row_for p now.utc e)));
        old = k.old;
        capped = bytes_of-details_to_json dumps e.details;
      }

  -- An event that is not to be stored changes nothing. One that is stored is the last row of the log, its
  -- details take 4110 bytes at most, and of the other rows only such are gone as are older than the
  -- retention; then the alert rules are evaluated, unless that is switched off or the event is that an
  -- alert could not be delivered.
  pub emit_with-Emits : (site : Site) → Emits site (emit_with p evaluate now e site)
  unfolding emit_with
  emit_with-Emits site = elim (Bool-cases (is_stored p e site)) [
    | inl k ↦
        rw k
          (elim (Bool-cases
            (e.evaluate_alerts && not (e.event_type === str "alert.email_failed"))) [
              | inl h ↦ rw h (
                  alerting k (ground arith) (ground arith) (store_event p now e site)
                    (store_event-Appends site))
              | inr h ↦ rw h (quiet k h (store_event p now e site) (store_event-Appends site))
            ])
    | inr k ↦ rw k (below k)
  ]

  module _ (own : normalize_category e.category ≡ none)
      (prefixed : some_of (starts_with (lower (strip e.event_type))) security_event_prefixes
        ≡ true) where
    category_for-security : category_for p e ≡ some log_category_security
    unfolding category_for infer_event_category
    category_for-security = rw own (category_of-security (lower (strip e.event_type)) prefixed)

    is_stored-security : (site : Site) → is_stored p e site ≡ true
    unfolding is_stored
    is_stored-security site = rw category_for-security (security_stored _ _)

    row_for-security : (row_for p now.utc e).category ≡ some log_category_security
    unfolding row_for
    row_for-security = category_for-security

    -- An event without a category of its own, whose type begins with `auth.`, `api_key.` or `user.` up to
    -- case and white space in front, is appended to the log as a security event, whatever its level and
    -- the level that is set: it is the last row of what the alert rules are then evaluated on, if they are.
    pub emit_with-security :
        (site : Site)
        → (after : Site) × Appends site after
          × ((row_for p now.utc e).category ≡ some log_category_security)
          × (emit_with p evaluate now e site ≡ (
            some (row_for p now.utc e),
            if e.evaluate_alerts && not (e.event_type === str "alert.email_failed")
                then evaluate (row_for p now.utc e) after
                else after,
          ))
    unfolding emit_with
    emit_with-security site = (
      store_event p now e site,
      store_event-Appends site,
      row_for-security,
      elim (Bool-cases (e.evaluate_alerts && not (e.event_type === str "alert.email_failed"))) [
        | inl h ↦ rw (is_stored-security site, h)
        | inr h ↦ rw (is_stored-security site, h)
      ],
    )
