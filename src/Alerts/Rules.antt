-- ===== src/Alerts/Rules.antt =====
-- alerting.py: evaluate_alert_rules for an event of the activity log.
use api_to_dns.Prelude.{
  ℕ, ◌*◌, ◌-◌, Bool, true, false, not, ◌&&◌, ◌||◌, Option, none, some, List, [], ◌∷◌, ◌++◌, keep,
  ltb, leb, if◌then◌else◌,
}
use api_to_dns.Text.{Text, str, ◌===◌, is_empty, lower, join}
use api_to_dns.Levels.{rank_of}
use api_to_dns.Syslog.{or_default}
use api_to_dns.Activity.Redaction.{has_text}
use api_to_dns.Activity.{
  ActivityLog, AlertRule, Attempt, Emission, normalize_level, normalize_category, text_of,
}
use api_to_dns.Activity.Log.{Platform, Instant, Site, emit_with}
use api_to_dns.Alerts.{get_smtp_config, parse_csv}
use api_to_dns.Alerts.Mail.{Mailer, send_alert_email, is_sent}

abbrev pub or_template : Text → Option Text → Text
or_template template none = template
or_template template (some rendered) = rendered

abbrev pub default_subject_template : Text
default_subject_template = str "[api-to-dns] {level}: {event_type}"

abbrev pub default_body_template : Text
default_body_template = join (10 ∷ []) (
    str "System: {system_dns_name} ({system_ip_address})"
    ∷ str "Timestamp: {timestamp}"
    ∷ str "Event: {event_type}"
    ∷ str "Level: {level}"
    ∷ str "Message: {message}"
    ∷ str "Zone Name: {zone_name}"
    ∷ str "Record: {record_name}"
    ∷ str "Details: {details}"
    ∷ [])

abbrev pub same_category : Option Text → Option Text → Bool
same_category none none = true
same_category (some s) (some t) = s === t
same_category _ _ = false

-- " ".join(filter(None, [message, details]))
unfoldable pub haystack : ActivityLog → Text
haystack row =
    join (str " ")
      (keep (λ part. not (is_empty part)) (text_of row.message ∷ text_of row.details_json ∷ []))

abbrev pub is_cooling : ℕ → ℕ → Option ℕ → Bool
is_cooling now minutes none = false
is_cooling now minutes (some last) = ltb 0 minutes && ltb (now - last) (minutes * 60)

-- All conditions of a rule but its cooldown
unfoldable pub suits : ActivityLog → AlertRule → Bool
unfolding haystack
suits row rule =
    (is_empty rule.event_type || rule.event_type === row.event_type)
    && (is_empty rule.category
        || same_category (normalize_category (some rule.category))
            (normalize_category row.category))
    && leb (rank_of (normalize_level rule.minimum_level)) (rank_of (normalize_level row.level))
    && (is_empty rule.message_contains
        || has_text (lower rule.message_contains) (lower (haystack row)))

unfoldable pub matches : ℕ → ActivityLog → AlertRule → Bool
unfolding suits
matches now row rule =
    suits row rule && not (is_cooling now rule.cooldown_minutes rule.last_triggered_at)

module _ (p : Platform) (m : Mailer) where
  unfoldable pub template_values : ActivityLog → List (Text × Text)
  template_values row =
      (str "event_type", row.event_type)
      ∷ (str "level", row.level)
      ∷ (str "category", text_of row.category)
      ∷ (str "timestamp", p.isoformat row.timestamp)
      ∷ (str "message", text_of row.message)
      ∷ (str "status", text_of row.status)
      ∷ (str "actor_type", text_of row.actor_type)
      ∷ (str "actor_label", text_of row.actor_label)
      ∷ (str "actor_id", text_of row.actor_id)
      ∷ (str "zone_name", text_of row.zone_name)
      ∷ (str "record_name", text_of row.record_name)
      ∷ (str "details", m.details_text row.details_json)
      ∷ []

  unfoldable pub render_alert_template : Text → List (Text × Text) → Text
  render_alert_template template values =
      if is_empty template then [] else or_template template (m.format_map template values)

  abbrev pub tries_for : ActivityLog → Site → AlertRule → Option (List Attempt)
  tries_for row site rule =
      let values = template_values row ++ m.identity in
      send_alert_email m (get_smtp_config p.codec site.settings) (parse_csv rule.email_recipients)
        (render_alert_template (or_default rule.email_subject_template default_subject_template)
          values)
        (render_alert_template (or_default rule.email_body_template default_body_template) values)

  -- The event that tells how the alert went.
  abbrev pub alert_event : AlertRule → List Attempt → Emission
  alert_event rule attempts = record {
    event_type = if is_sent m attempts then str "alert.email_sent" else str "alert.email_failed";
    level = if is_sent m attempts then str "INFORMATIONAL" else str "ERROR";
    category = if is_sent m attempts then some (str "alert") else none;
    status = some (if is_sent m attempts then str "success" else str "error");
    actor_type = some (str "system");
    actor_id = none;
    actor_label = some (or_default rule.name (str "alert"));
    zone_name = none;
    record_name = none;
    message = some (m.alert_message rule (is_sent m attempts));
    details = some (m.alert_details rule attempts);
    request_method = none;
    request_path = none;
    request_status_code = none;
    request_ip = none;
    evaluate_alerts = false;
  }

  abbrev pub no_alerts : ActivityLog → Site → Site
  no_alerts row site = site

  -- None where the sending raises.
  unfoldable pub tell : Instant → AlertRule → Site → Option (List Attempt) → Option Site
  tell now rule site none = none
  tell now rule site (some attempts) =
      some
        (emit_with p no_alerts now (alert_event rule attempts)
          (record site { attempts = site.attempts ++ attempts })).1

  unfoldable pub trigger : Instant → ActivityLog → AlertRule → Site → Option Site
  unfolding tell
  trigger now row rule site = tell now rule site (tries_for row site rule)

  abbrev pub go_on : (Site → List AlertRule × Site) → AlertRule → Site → List AlertRule × Site
  go_on rest rule site = let (later, last) = rest site in (rule ∷ later, last)

  -- What is raised ends the loop.
  abbrev pub resume :
      Instant
      → AlertRule
      → List AlertRule
      → (Site → List AlertRule × Site)
      → Site
      → Option Site
      → List AlertRule × Site
  resume now rule rules rest site none = (rule ∷ rules, site)
  resume now rule rules rest site (some told) =
      go_on rest (record rule { last_triggered_at = some now.utc }) told

  -- The rules after the loop, and the site with the tries and events of those that were triggered.
  unfoldable pub evaluate_rules :
      Instant → ActivityLog → List AlertRule → Site → List AlertRule × Site
  unfolding trigger matches
  evaluate_rules now row [] site = ([], site)
  evaluate_rules now row (rule ∷ rules) site =
      let rest = λ (s : Site). evaluate_rules now row rules s in
      if rule.enabled && matches now.utc row rule
      then resume now rule rules rest site (trigger now row rule site)
      else go_on rest rule site

  unfoldable pub evaluate_alert_rules : Instant → ActivityLog → Site → Site
  unfolding evaluate_rules
  evaluate_alert_rules now row site =
      let (rules, last) = evaluate_rules now row site.rules site in record last { rules = rules }

  -- The whole of `emit_activity_event`
  unfoldable pub emit_activity_event : Instant → Emission → Site → Option ActivityLog × Site
  unfolding evaluate_alert_rules
  emit_activity_event now = emit_with p (evaluate_alert_rules now) now
