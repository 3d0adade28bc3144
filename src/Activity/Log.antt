-- ===== src/Activity/Log.antt =====
-- activity_logging.py: emit_activity_event up to the alerts, run_retention_cleanup and
-- query_activity_logs.
use api_to_dns.Prelude.{
  ℕ, ◌+◌, ◌*◌, ◌-◌, Bool, true, false, not, ◌&&◌, ◌||◌, Option, none, some, List, [], ◌∷◌, ◌++◌,
  ltb, leb, length, take, drop, keep, if◌then◌else◌,
}
use api_to_dns.Text.{Text, str, ◌===◌, is_empty}
use api_to_dns.SettingsStore.{Codec, text, Settings, set_typed_setting_by_key}
use api_to_dns.SettingsStore.Typed.{except, typed_str}
use api_to_dns.Syslog.Message.{ActivityLogSnapshot}
use api_to_dns.Syslog.Forwarder.{Forwarder, enqueue}
use api_to_dns.Activity.Redaction.{Details}
use api_to_dns.Activity.{
  ActivityLog, AlertRule, Emission, Attempt, setting_last_retention, normalize_level,
  normalize_category, infer_event_category, should_store_event, details_to_json, get_log_level,
  get_retention_days,
}

-- What the code calls: the codec of the settings, json.dumps of details, ActivityLogSnapshot.from_row,
-- and datetime's isoformat and fromisoformat, with `none` for its ValueError.
pub record Platform : Type 1 where
  pub codec : Codec
  pub dumps : Details → Text
  pub snapshot : ActivityLog → ActivityLogSnapshot
  pub isoformat : ℕ → Text
  pub fromisoformat : Text → Option ℕ

-- `utc_now()` and `time.monotonic()`. Times are seconds from datetime.min, the start of the year 1.
pub record Instant : Type 0 where
  pub utc : ℕ
  pub monotonic : ℕ

-- The tables, `_retention_state`, the forwarder, and what was tried to send.
pub record Site : Type 0 where
  pub settings : Settings
  pub logs : List ActivityLog
  pub rules : List AlertRule
  pub last_retention : Option ℕ
  pub forwarder : Forwarder
  pub attempts : List Attempt

abbrev pub or_category : Option Text → Option Text → Option Text
or_category none inferred = inferred
or_category (some category) inferred = some category

-- less than 24 hours ago
abbrev pub is_recent : ℕ → Option ℕ → Bool
is_recent now none = false
is_recent now (some last) = ltb (now - last) 86400

-- older than the days
abbrev pub is_expired : ℕ → ℕ → ActivityLog → Bool
is_expired now days row = ltb (row.timestamp + days * 86400) now

module _ (p : Platform) where
  open p use {codec, dumps, snapshot, isoformat, fromisoformat}

  -- The last clean-up that the settings know of.
  abbrev pub stored_retention : Settings → Option ℕ
  stored_retention rows =
      let stored = typed_str codec setting_last_retention rows in
      if is_empty stored then none else fromisoformat stored

  -- None where `utc_now() - timedelta(days=days)` raises OverflowError: it is before the year 1.
  unfoldable pub clean_up : ℕ → Site → Option ℕ × Site
  clean_up now site =
      let days = get_retention_days codec site.settings in
      if ltb now (days * 86400) then (none, site) else (
        some (length (keep (is_expired now days) site.logs)),
        record site {
          logs = keep (λ row. not (is_expired now days row)) site.logs;
          settings = except site.settings (
              set_typed_setting_by_key codec setting_last_retention (text (isoformat now))
                site.settings);
          last_retention = some now;
        },
      )

  unfoldable pub run_retention_cleanup : Bool → ℕ → Site → Option ℕ × Site
  unfolding clean_up
  run_retention_cleanup force now site =
      if not force && is_recent now site.last_retention
      then (some 0, site)
      else if not force && is_recent now (stored_retention site.settings)
      then (some 0, record site { last_retention = stored_retention site.settings })
      else clean_up now site

  unfoldable pub category_for : Emission → Option Text
  category_for e = or_category (normalize_category e.category) (infer_event_category e.event_type)

  unfoldable pub row_for : ℕ → Emission → ActivityLog
  unfolding category_for
  row_for now e = record {
    timestamp = now;
    level = normalize_level e.level;
    category = category_for e;
    event_type = e.event_type;
    status = e.status;
    actor_type = e.actor_type;
    actor_id = e.actor_id;
    actor_label = e.actor_label;
    zone_name = e.zone_name;
    record_name = e.record_name;
    message = e.message;
    details_json = details_to_json dumps e.details;
    request_method = e.request_method;
    request_path = e.request_path;
    request_status_code = e.request_status_code;
    request_ip = e.request_ip;
  }

  unfoldable pub is_stored : Emission → Site → Bool
  unfolding category_for
  is_stored e site =
      should_store_event (normalize_level e.level) (get_log_level codec site.settings)
        (category_for e)

  -- The row, and its copy for the remote syslog
  unfoldable pub with_row : Instant → Emission → Site → Site
  unfolding row_for
  with_row now e site =
      let row = row_for now.utc e in
      record site {
        logs = site.logs ++ row ∷ [];
        forwarder = enqueue now.monotonic (snapshot row) site.forwarder;
      }

  unfoldable pub store_event : Instant → Emission → Site → Site
  unfolding with_row
  store_event now e site = (run_retention_cleanup false now.utc (with_row now e site)).1

  -- `emit_activity_event`, with what `evaluate_alert_rules` does
  unfoldable pub emit_with :
      (ActivityLog → Site → Site) → Instant → Emission → Site → Option ActivityLog × Site
  unfolding is_stored store_event row_for
  emit_with evaluate_alert_rules now e site =
      let row = row_for now.utc e in
      let stored = store_event now e site in
      if not (is_stored e site)
      then (none, site)
      else if e.evaluate_alerts && not (e.event_type === str "alert.email_failed")
      then (some row, evaluate_alert_rules row stored)
      else (some row, stored)

-- The arguments of `query_activity_logs`; empty texts are taken for None.
pub record Query : Type 0 where
  pub event_type : Text
  pub level : Text
  pub category : Text
  pub status : Text
  pub zone_name : Text
  pub actor : Text
  pub text_query : Text
  pub start : Option ℕ
  pub end : Option ℕ

abbrev pub is_text : Text → Option Text → Bool
is_text wanted none = false
is_text wanted (some s) = s === wanted

abbrev pub is_category : Option Text → Option Text → Bool
is_category none none = true
is_category (some s) (some t) = t === s
is_category _ _ = false

abbrev pub like_pattern : Text → Text
like_pattern s = str "%" ++ (s ++ str "%")

-- ORDER BY timestamp DESC, rows of one time in the order of the table
unfoldable pub insert_by_time : ActivityLog → List ActivityLog → List ActivityLog
insert_by_time row [] = row ∷ []
insert_by_time row (other ∷ rows) =
    if leb other.timestamp row.timestamp
    then row ∷ other ∷ rows
    else other ∷ insert_by_time row rows

unfoldable pub order_by_time : List ActivityLog → List ActivityLog
order_by_time [] = []
order_by_time (row ∷ rows) = insert_by_time row (order_by_time rows)

module _ (ilike : Text → Text → Bool) where
  -- A column that is NULL is like nothing.
  abbrev pub is_like : Text → Option Text → Bool
  is_like pattern none = false
  is_like pattern (some s) = ilike s pattern

  abbrev pub from_start : Option ℕ → ℕ → Bool
  from_start none timestamp = true
  from_start (some start) timestamp = leb start timestamp

  abbrev pub to_end : Option ℕ → ℕ → Bool
  to_end none timestamp = true
  to_end (some last) timestamp = leb timestamp last

  -- All the filters.
  unfoldable pub selects : Query → ActivityLog → Bool
  selects q row =
      (is_empty q.event_type || row.event_type === q.event_type)
      && (is_empty q.level || row.level === normalize_level q.level)
      && (is_empty q.category || is_category (normalize_category (some q.category)) row.category)
      && (is_empty q.status || is_text q.status row.status)
      && (is_empty q.zone_name || is_text q.zone_name row.zone_name)
      && (is_empty q.actor
          || is_like (like_pattern q.actor) row.actor_label
          || is_like (like_pattern q.actor) row.actor_id)
      && (is_empty q.text_query
          || is_like (like_pattern q.text_query) row.message
          || is_like (like_pattern q.text_query) row.details_json
          || is_like (like_pattern q.text_query) (some row.event_type)
          || is_like (like_pattern q.text_query) row.category
          || is_like (like_pattern q.text_query) row.zone_name
          || is_like (like_pattern q.text_query) row.actor_label)
      && from_start q.start row.timestamp
      && to_end q.end row.timestamp

  -- The page, and the number of all rows that are selected.
  unfoldable pub query_activity_logs : Query → ℕ → ℕ → List ActivityLog → List ActivityLog × ℕ
  unfolding selects order_by_time
  query_activity_logs q limit offset logs =
      let all_rows = order_by_time (keep (selects q) logs) in
      (take limit (drop offset all_rows), length all_rows)
