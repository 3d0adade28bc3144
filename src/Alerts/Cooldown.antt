-- ===== src/Alerts/Cooldown.antt =====
-- One alert rule over a sequence of events.
use api_to_dns.Prelude.{
  none, Option-cases, ℕ, ◌*◌, ◌-◌, ◌≤◌, ◌<◌, ◌≡◌, refl, inl, inr, ap, ◌∙◌, ◌⊎◌, Bool, true, false,
  not, ◌&&◌, some, List, [], ◌∷◌, ◌++◌, All, arith, Bool-cases,
}
use api_to_dns.Activity.{Attempt, ActivityLog, AlertRule, Emission}
use api_to_dns.Activity.Log.{
  Platform, Instant, Site, emit_with, store_event, with_row, run_retention_cleanup, clean_up,
}
use api_to_dns.Alerts.Mail.{Mailer}
use api_to_dns.Alerts.Rules.{
  alert_event, tell, suits, is_cooling, matches, tries_for, no_alerts, trigger, evaluate_rules,
  evaluate_alert_rules,
}

cooling_fails :
    (enabled suited cooled : Bool) → cooled ≡ true → (enabled && (suited && not cooled)) ≡ false
cooling_fails enabled suited cooled h = ground arith

cooling :
    (now minutes last : ℕ)
    → 0 < minutes
    → now - last < minutes * 60
    → is_cooling now minutes (some last) ≡ true
cooling now minutes last c h = ground arith

module _ (p : Platform) (m : Mailer) where
  -- The rules are evaluated for each event, at its time.
  pub watch : List (Instant × ActivityLog) → Site → Site
  watch [] site = site
  watch ((now, row) ∷ events) site = watch events (evaluate_alert_rules p m now row site)

  run_retention_cleanup-attempts :
      (now : ℕ) (site : Site) → (run_retention_cleanup p false now site).1.attempts ≡ site.attempts
  unfolding run_retention_cleanup clean_up
  run_retention_cleanup-attempts now site = ground arith

  store_event-attempts :
      (now : Instant) (e : Emission) (site : Site)
      → (store_event p now e site).attempts ≡ site.attempts
  unfolding store_event with_row
  store_event-attempts now e site = run_retention_cleanup-attempts now.utc _

  emit_with-attempts :
      (now : Instant) (e : Emission) (site : Site)
      → (emit_with p (no_alerts p m) now e site).1.attempts ≡ site.attempts
  unfolding emit_with
  emit_with-attempts now e site = ground (arith, store_event-attempts now e site)

  -- The site once these tries were made.
  abbrev told : Instant → AlertRule → List Attempt → Site → Site
  told now rule tries site =
      (emit_with p (no_alerts p m) now (alert_event p m rule tries)
        (record site { attempts = site.attempts ++ tries })).1

  told-attempts :
      (now : Instant) (rule : AlertRule) (tries : List Attempt) (site : Site)
      → (told now rule tries site).attempts ≡ site.attempts ++ tries
  told-attempts now rule tries site = emit_with-attempts now _ _

  abbrev pub with_rule : AlertRule → Site → Site
  with_rule rule site = record site { rules = rule ∷ [] }

  evaluate_hit :
      (now : Instant) (row : ActivityLog) (rule : AlertRule) (site : Site) (tries : List Attempt)
      → (rule.enabled && matches now.utc row rule) ≡ true
      → tries_for p m row (with_rule rule site) rule ≡ some tries
      → evaluate_alert_rules p m now row (with_rule rule site)
        ≡ with_rule
            (record rule { last_triggered_at = some now.utc })
            (told now rule tries (with_rule rule site))
  unfolding evaluate_alert_rules evaluate_rules trigger tell
  evaluate_hit now row rule site tries h e = rw (h, e) refl

  evaluate_raise :
      (now : Instant) (row : ActivityLog) (rule : AlertRule) (site : Site)
      → (rule.enabled && matches now.utc row rule) ≡ true
      → tries_for p m row (with_rule rule site) rule ≡ none
      → evaluate_alert_rules p m now row (with_rule rule site) ≡ with_rule rule site
  unfolding evaluate_alert_rules evaluate_rules trigger tell
  evaluate_raise now row rule site h e = rw (h, e) refl

  evaluate_miss :
      (now : Instant) (row : ActivityLog) (rule : AlertRule) (site : Site)
      → (rule.enabled && matches now.utc row rule) ≡ false
      → evaluate_alert_rules p m now row (with_rule rule site) ≡ with_rule rule site
  unfolding evaluate_alert_rules evaluate_rules
  evaluate_miss now row rule site h = rw h

  cooling_misses :
      (now last : ℕ) (row : ActivityLog) (rule : AlertRule)
      → rule.last_triggered_at ≡ some last
      → 0 < rule.cooldown_minutes
      → now - last < rule.cooldown_minutes * 60
      → (rule.enabled && matches now row rule) ≡ false
  unfolding matches
  cooling_misses now last row rule e c h =
      cooling_fails rule.enabled (suits row rule)
        (is_cooling now rule.cooldown_minutes rule.last_triggered_at)
        (rw e (cooling now rule.cooldown_minutes last c h))

  -- An event in the window of the cooldown.
  abbrev pub IsWithin : ℕ → ℕ → Instant × ActivityLog → Type 0
  IsWithin first minutes (now, row) = (first ≤ now.utc) × (now.utc - first < minutes * 60)

  watch_cooling :
      (events : List (Instant × ActivityLog)) (first last : ℕ) (rule : AlertRule) (site : Site)
      → rule.last_triggered_at ≡ some last
      → 0 < rule.cooldown_minutes
      → first ≤ last
      → All (IsWithin first rule.cooldown_minutes) events
      → (watch events (with_rule rule site)).attempts ≡ site.attempts
  unfolding watch
  watch_cooling [] first last rule site e c w h = refl
  watch_cooling ((now, row) ∷ events) first last rule site e c w h =
      ap (λ (s : Site). (watch events s).attempts)
        (evaluate_miss now row rule site (cooling_misses now.utc last row rule e c (omega arith)))
      ∙ watch_cooling events first last rule site e c w h.1

  -- An event of the list that the rule matches, and whose tries are all that was tried.
  pub record Triggers (events : List (Instant × ActivityLog)) (rule : AlertRule) (site : Site)
      : Type 0 where
    pub earlier : List (Instant × ActivityLog)
    pub later : List (Instant × ActivityLog)
    pub now : Instant
    pub row : ActivityLog
    pub among : events ≡ earlier ++ (now, row) ∷ later
    pub tries : List Attempt
    pub hit : (rule.enabled && matches now.utc row rule) ≡ true
    pub sending : tries_for p m row (with_rule rule site) rule ≡ some tries
    pub tried : (watch events (with_rule rule site)).attempts ≡ site.attempts ++ tries

  Triggers-later :
      (now : Instant) (row : ActivityLog) (events : List (Instant × ActivityLog)) (rule : AlertRule)
      (site : Site)
      → evaluate_alert_rules p m now row (with_rule rule site) ≡ with_rule rule site
      → Triggers events rule site
      → Triggers ((now, row) ∷ events) rule site
  unfolding watch
  Triggers-later now row events rule site idle t = record {
    earlier = (now, row) ∷ t.earlier;
    later = t.later;
    now = t.now;
    row = t.row;
    among = ap (λ (es : List (Instant × ActivityLog)). (now, row) ∷ es) t.among;
    tries = t.tries;
    hit = t.hit;
    sending = t.sending;
    tried = ap (λ (s : Site). (watch events s).attempts) idle ∙ t.tried;
  }

  -- An event that leaves the site as it is
  idle-Triggers :
      (now : Instant) (row : ActivityLog) (events : List (Instant × ActivityLog)) (rule : AlertRule)
      (site : Site)
      → evaluate_alert_rules p m now row (with_rule rule site) ≡ with_rule rule site
      → ((watch events (with_rule rule site)).attempts ≡ site.attempts) ⊎ Triggers events rule site
      → ((watch ((now, row) ∷ events) (with_rule rule site)).attempts ≡ site.attempts)
        ⊎ Triggers ((now, row) ∷ events) rule site
  unfolding watch
  idle-Triggers now row events rule site idle (inl quiet) =
      inl (ap (λ (s : Site). (watch events s).attempts) idle ∙ quiet)
  idle-Triggers now row events rule site idle (inr t) =
      inr (Triggers-later now row events rule site idle t)

  Triggers-now :
      (now : Instant) (row : ActivityLog) (events : List (Instant × ActivityLog)) (rule : AlertRule)
      (site : Site) (tries : List Attempt) (first : ℕ)
      → 0 < rule.cooldown_minutes
      → first ≤ now.utc
      → All (IsWithin first rule.cooldown_minutes) events
      → (rule.enabled && matches now.utc row rule) ≡ true
      → tries_for p m row (with_rule rule site) rule ≡ some tries
      → Triggers ((now, row) ∷ events) rule site
  unfolding watch
  Triggers-now now row events rule site tries first c started within hit sending = record {
    earlier = [];
    later = events;
    now = now;
    row = row;
    among = refl;
    tries = tries;
    hit = hit;
    sending = sending;
    tried =
        ap (λ (s : Site). (watch events s).attempts)
          (evaluate_hit now row rule site tries hit sending)
        ∙ (watch_cooling events first now.utc (record rule { last_triggered_at = some now.utc })
              (told now rule tries (with_rule rule site)) refl c started within
            ∙ told-attempts now rule tries (with_rule rule site));
  }

  -- Over events that lie within the cooldown of a rule, alone and with its cooldown above zero, at most
  -- one triggers it: what is tried to send is nothing, or the tries for one of the events, which the rule
  -- matches.
  pub watch-once :
      (events : List (Instant × ActivityLog)) (first : ℕ) (rule : AlertRule) (site : Site)
      → 0 < rule.cooldown_minutes
      → All (IsWithin first rule.cooldown_minutes) events
      → ((watch events (with_rule rule site)).attempts ≡ site.attempts) ⊎ Triggers events rule site
  unfolding watch
  watch-once [] first rule site c h = inl refl
  watch-once ((now, row) ∷ events) first rule site c h =
      let rest = watch-once events first rule site c h.1 in
      elim (Bool-cases (rule.enabled && matches now.utc row rule)) [
        | inl hit ↦ elim (Option-cases (tries_for p m row (with_rule rule site) rule)) [
          | inl raised ↦
              idle-Triggers now row events rule site (evaluate_raise now row rule site hit raised)
                rest
          | inr (tries, sending) ↦
              inr (Triggers-now now row events rule site tries first c h.0.0 h.1 hit sending)
        ]
        | inr miss ↦
            idle-Triggers now row events rule site (evaluate_miss now row rule site miss) rest
      ]
