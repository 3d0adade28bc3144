-- ===== src/Admin/Allowed.antt =====
-- `api_key_update` of src/routes/api_keys.py: the zones that the keys are allowed to change after it.
use mathlib.Core.Path.{subst}
use api_to_dns.Prelude.{
  ◌≡◌, refl, ap, ◌∙◌, ℕ, Bool, true, false, not, ◌&&◌, ◌||◌, Option, none, some, List, [], ◌∷◌,
  ◌++◌, inl, inr, arith, keep, some_of, Bool-cases, Option-cases, if◌then◌else◌, ◌==◌,
}
use api_to_dns.Text.{Text}
use api_to_dns.Api.{ApiKey, ZoneConfig, AllowedZone, Tables}
use api_to_dns.Admin.{
  Db, Page, saved, redirected, failed, shown, find_key, has_zone, is_linked, link, insert_links,
  unlinked, api_key_access_mode, with_mode, with_zones, save_key, edit, api_key_update,
}
use api_to_dns.Admin.Rows.{some_of-append}

-- a selection names the zone
abbrev pub selects : List ℕ → ℕ → Bool
selects zone_ids zone_id = some_of (λ n. n == zone_id) zone_ids

-- a zone that exists is selected twice
unfoldable pub repeats : List ZoneConfig → List ℕ → Bool
repeats zones [] = false
repeats zones (n ∷ zone_ids) = has_zone n zones && selects zone_ids n || repeats zones zone_ids

module _ (zones : List ZoneConfig) (key_id : ℕ) where
  same_zone : (n z : ℕ) (b : Bool) → has_zone n zones ≡ b → (n == z) ≡ true → has_zone z zones ≡ b
  same_zone n z b h e =
      let same : n ≡ z = ground arith in subst (λ (m : ℕ). has_zone m zones ≡ b) same h

  with_link :
      (a : Bool) (n j z : ℕ) (s e : Bool)
      → ((n == z) ≡ true → e ≡ true)
      → ((a || ((key_id == j && n == z) || false)) || ((j == key_id) && (s && e)))
        ≡ (a || ((j == key_id) && ((n == z || s) && e)))
  with_link a n j z s e h = ground (arith, h)

  without_link :
      (a : Bool) (n j z : ℕ) (s e : Bool)
      → ((n == z) ≡ true → e ≡ false)
      → (a || ((j == key_id) && (s && e))) ≡ (a || ((j == key_id) && ((n == z || s) && e)))
  without_link a n j z s e h = ground (arith, h)

  -- The links after the loop: those from before, and the zones that are selected and exist.
  is_linked-insert_links :
      (zone_ids : List ℕ) (allowed after : List AllowedZone) (j z : ℕ)
      → insert_links key_id zone_ids zones allowed ≡ some after
      → is_linked j z after
        ≡ (is_linked j z allowed || ((j == key_id) && (selects zone_ids z && has_zone z zones)))
  unfolding insert_links some_of
  is_linked-insert_links [] allowed after j z h =
      let same : allowed ≡ after = cc in
      subst
        (λ (ls : List AllowedZone).
          is_linked j z ls
          ≡ (is_linked j z allowed || ((j == key_id) && (selects [] z && has_zone z zones))))
        same (ground arith)
  is_linked-insert_links (n ∷ zone_ids) allowed after j z h = elim (Bool-cases (has_zone n zones)) [
    | inl there ↦ elim (Bool-cases (is_linked key_id n allowed)) [
      | inl twice ↦ let broken : none ≡ some after = rw (there, twice) at h in cc
      | inr once ↦
          is_linked-insert_links zone_ids (allowed ++ link key_id n ∷ []) after j z
            (rw (there, once) at h)
          ∙ (ap (λ b. b || ((j == key_id) && (selects zone_ids z && has_zone z zones)))
                (some_of-append _ allowed (link key_id n ∷ []))
              ∙ with_link (is_linked j z allowed) n j z (selects zone_ids z) (has_zone z zones)
                  (same_zone n z true there))
    ]
    | inr missing ↦
        is_linked-insert_links zone_ids allowed after j z (rw missing at h)
        ∙ without_link (is_linked j z allowed) n j z (selects zone_ids z) (has_zone z zones)
            (same_zone n z false missing)
  ]

  -- a zone that exists, is selected and is linked already
  unfoldable blocked : List AllowedZone → List ℕ → Bool
  blocked allowed zone_ids = some_of (λ n. has_zone n zones && is_linked key_id n allowed) zone_ids

  blocked-append :
      (zone_ids : List ℕ) (allowed : List AllowedZone) (n : ℕ)
      → blocked (allowed ++ link key_id n ∷ []) zone_ids ≡ true
      → (selects zone_ids n || blocked allowed zone_ids) ≡ true
  unfolding some_of blocked
  blocked-append [] allowed n h = cc
  blocked-append (m ∷ zone_ids) allowed n h = ground (
    arith,
    some_of-append (λ (l : AllowedZone). l.api_key_id == key_id && l.dns_zone_config_id == m)
        allowed (link key_id n ∷ []),
    blocked-append zone_ids allowed n,
  )

  insert_links-none :
      (zone_ids : List ℕ) (allowed : List AllowedZone)
      → insert_links key_id zone_ids zones allowed ≡ none
      → (repeats zones zone_ids || blocked allowed zone_ids) ≡ true
  unfolding insert_links some_of repeats blocked
  insert_links-none [] allowed h = cc
  insert_links-none (n ∷ zone_ids) allowed h = elim (Bool-cases (has_zone n zones)) [
    | inl there ↦ elim (Bool-cases (is_linked key_id n allowed)) [
      | inl twice ↦ rw (there, twice) (ground arith)
      | inr once ↦
          let rest =
            insert_links-none zone_ids (allowed ++ link key_id n ∷ []) (rw (there, once) at h) in
          rw (there, once) (ground (arith, rest, blocked-append zone_ids allowed n))
    ]
    | inr missing ↦
        let rest = insert_links-none zone_ids allowed (rw missing at h) in
        rw missing (ground (arith, rest))
  ]

is_linked-unlinked :
    (key_id j z : ℕ) (allowed : List AllowedZone)
    → is_linked j z (unlinked key_id allowed) ≡ (not (j == key_id) && is_linked j z allowed)
unfolding keep some_of
is_linked-unlinked key_id j z [] = ground arith
is_linked-unlinked key_id j z (l ∷ allowed) = elim (Bool-cases (l.api_key_id == key_id)) [
  | inl e ↦ rw e (is_linked-unlinked key_id j z allowed ∙ ground arith)
  | inr e ↦ rw (e, is_linked-unlinked key_id j z allowed) (ground arith)
]

not_blocked :
    (zones : List ZoneConfig) (key_id : ℕ) (allowed : List AllowedZone) (zone_ids : List ℕ)
    → blocked zones key_id (unlinked key_id allowed) zone_ids ≡ false
unfolding blocked some_of
not_blocked zones key_id allowed [] = refl
not_blocked zones key_id allowed (n ∷ zone_ids) =
    ground
      (arith, is_linked-unlinked key_id key_id n allowed, not_blocked zones key_id allowed zone_ids)

-- What a page says of the zones that are allowed before and after the form of the key was sent.
abbrev pub IsUpdated : ℕ → List ℕ → Tables → Tables → Page → Type 0
IsUpdated key_id zone_ids before after saved =
    (j z : ℕ)
    → is_linked j z after.allowed ≡ (
        if j == key_id
        then selects zone_ids z && has_zone z before.zones
        else is_linked j z before.allowed)
IsUpdated key_id zone_ids before after failed =
    (repeats before.zones zone_ids ≡ true)
    × ((j z : ℕ)
        → is_linked j z after.allowed ≡ (not (j == key_id) && is_linked j z before.allowed))
IsUpdated key_id zone_ids before after redirected = after ≡ before
IsUpdated key_id zone_ids before after (shown p) = after ≡ before

module _ (user : Text) (key_id : ℕ) (label : Text) (db : Db) where
  save_key-IsUpdated :
      (zone_ids : List ℕ) (access_mode : Text)
      → let (page, after) = save_key user key_id label zone_ids access_mode db in
        IsUpdated key_id zone_ids db.tables after.tables page
  unfolding save_key
  save_key-IsUpdated zone_ids access_mode =
      let before = db.tables in
      let kept = unlinked key_id before.allowed in
      elim (Option-cases (insert_links key_id zone_ids before.zones kept)) [
        | inl none_left ↦ rw none_left (
          ground (
            arith,
            insert_links-none before.zones key_id zone_ids kept none_left,
            not_blocked before.zones key_id before.allowed zone_ids,
          ),
          λ j z. is_linked-unlinked key_id j z before.allowed,
        )
        | inr (after, made) ↦ rw made (λ j z.
            is_linked-insert_links before.zones key_id zone_ids kept after j z made
            ∙ by_key (j == key_id) (is_linked j z before.allowed)
                (selects zone_ids z && has_zone z before.zones)
                (is_linked-unlinked key_id j z before.allowed))
      ]
    where
      by_key : {k : Bool} (b a s : Bool) → k ≡ (not b && a) → (k || (b && s)) ≡ (if b then s else a)
      by_key b a s h = ground (arith, h)

  -- After the form of a key was saved, the key is allowed to change exactly the zones that are selected
  -- and exist, and the other keys are allowed what they were. A form that is rejected changes nothing. The
  -- only failure is on a zone that exists and is selected twice: then the key is left without any zone.
  pub api_key_update-IsUpdated :
      (zone_ids : List ℕ) (access_mode : Option Text)
      → let (page, after) = api_key_update user key_id label zone_ids access_mode db in
        IsUpdated key_id zone_ids db.tables after.tables page
  unfolding api_key_update
  api_key_update-IsUpdated zone_ids access_mode = by_row (find_key key_id db.tables.keys)
    where
      by_mode :
          (ids : List ℕ) (mode : Option Text)
          → let (page, after) =
              with_mode mode db (λ m. with_zones ids db (save_key user key_id label ids m db)) in
            IsUpdated key_id ids db.tables after.tables page
      by_mode ids none = refl
      by_mode [] (some m) = refl
      by_mode (n ∷ ids) (some m) = save_key-IsUpdated (n ∷ ids) m

      by_row :
          (row : Option ApiKey)
          → let (page, after) = edit user key_id label zone_ids access_mode db row in
            IsUpdated key_id zone_ids db.tables after.tables page
      by_row none = refl
      by_row (some row) = by_mode zone_ids (api_key_access_mode access_mode row.access_mode)
