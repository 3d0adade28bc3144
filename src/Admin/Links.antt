-- ===== src/Admin/Links.antt =====
-- src/routes/api_keys.py and src/routes/zones.py: which zones the keys are linked to, over the requests.
use api_to_dns.Prelude.{
  ◌≡◌, refl, ◌∙◌, ℕ, true, false, ◌&&◌, Option, none, some, List, [], ◌∷◌, ◌++◌, inl, inr, arith,
  All, All-map, All-keep, some_of, Bool-cases, Option-cases, ◌==◌,
}
use api_to_dns.Text.{Text, ◌===◌}
use api_to_dns.Fault.{Result, ok, err}
use api_to_dns.Provider.{Settings}
use api_to_dns.Api.{ApiKey, ZoneConfig, AllowedZone, Tables, Event, find_allowed}
use api_to_dns.Admin.Forms.{Form, build_zone_config_from_form}
use api_to_dns.Admin.{
  Db, set_key, find_key, zone_at, has_zone, linked, insert_links, deactivated, edited, new_key,
  new_zone, read_only, api_key_access_mode, options, deactivate, revoke_api_key, save_key, edit,
  api_key_update, add_key, create_api_key_route, zone_create, save_zone, update_zone, zone_update,
  remove_zone, zone_delete, Request, revoke, save, update, create_zone, update_zone_form,
  delete_zone, handle, run,
}
use api_to_dns.Admin.Backed.{
  has_key, IsBacked, IsLinked, find_key-has_key, has_key-set_key, has_zone-set_settings,
  All-unzoned, insert_links-All, has_key-append,
}
use api_to_dns.Admin.Kept.{with_mode-with_zones, zone_create-add_zone}
use api_to_dns.Admin.Rows.{some_of-append, find_first-none}

module _ (user : Text) where
  abbrev Keeps : Db → Type 0
  Keeps db = IsLinked db.tables

  -- The first commit keeps the links backed, and so does the second one.
  linked-Keeps :
      (first : Tables) (e : Event) (db : Db) (key_id : ℕ) (zone_ids : List ℕ)
      → has_key key_id first.keys ≡ true
      → IsLinked first
      → Keeps (linked first e db (insert_links key_id zone_ids first.zones first.allowed)).1
  linked-Keeps first e db key_id zone_ids k h =
      elim (Option-cases (insert_links key_id zone_ids first.zones first.allowed)) [
        | inl none_left ↦ rw none_left h
        | inr (after, made) ↦
            rw made (insert_links-All first.keys first.zones key_id zone_ids first.allowed k h made)
      ]

  edit-Keeps :
      (key_id : ℕ) (label : Text) (zone_ids : List ℕ) (access_mode : Option Text) (db : Db)
      → Keeps db
      → Keeps (edit user key_id label zone_ids access_mode db (find_key key_id db.tables.keys)).1
  unfolding save_key
  edit-Keeps key_id label zone_ids access_mode db h =
      elim (Option-cases (find_key key_id db.tables.keys)) [
        | inl gone ↦ rw gone h
        | inr (row, found) ↦ rw found (
            with_mode-with_zones Keeps (api_key_access_mode access_mode row.access_mode) zone_ids db
              (λ m. save_key user key_id label zone_ids m db) h
              (λ m. saved_links m (find_key-has_key key_id db.tables.keys found)))
      ]
    where
      saved_links :
          (m : Text)
          → has_key key_id db.tables.keys ≡ true
          → Keeps (save_key user key_id label zone_ids m db).1
      saved_links m k =
          let same : (n : ℕ)
              → has_key n (set_key key_id (edited label m) db.tables.keys)
                ≡ has_key n db.tables.keys =
            λ n. has_key-set_key n key_id (edited label m) db.tables.keys (λ k. refl) in
          linked-Keeps _ _ db key_id zone_ids (same key_id ∙ k) (
            All-keep _ _ db.tables.allowed (
              All-map _
                (λ l b. record { by_key = same l.api_key_id ∙ b.by_key; by_zone = b.by_zone })
                db.tables.allowed h))

  -- a key is added, and its links
  add_key-Keeps :
      (new_id : ℕ) (key_digest label : Text) (zone_ids : List ℕ) (access_mode : Text) (db : Db)
      → Keeps db
      → Keeps (add_key user new_id key_digest label zone_ids access_mode db).1
  unfolding add_key
  add_key-Keeps new_id key_digest label zone_ids access_mode db h =
      let keys = db.tables.keys in
      let new = new_key new_id label key_digest access_mode in
      elim (Bool-cases (some_of (λ (k : ApiKey). k.key === key_digest) keys)) [
        | inl e ↦ rw e h
        | inr e ↦ rw e (
            linked-Keeps (record db.tables { keys = keys ++ new ∷ [] }) _ db new_id zone_ids
              (has_key-append new keys)
              (All-map _
                (λ l b. record {
                  by_key = some_of-append _ keys (new ∷ []) ∙ rw (b.by_key) refl;
                  by_zone = b.by_zone;
                })
                db.tables.allowed h))
      ]

  zone_create-Keeps :
      (new_id : ℕ) (zone_name : Text) (form : Form) (db : Db)
      → Keeps db
      → Keeps (zone_create user new_id zone_name form db).1
  zone_create-Keeps new_id zone_name form db h =
      zone_create-add_zone IsLinked user new_id zone_name form db h (λ canonical cfg.
        All-map _
          (λ l b. record {
            by_key = b.by_key;
            by_zone =
                some_of-append _ db.tables.zones (new_zone new_id canonical cfg ∷ [])
                ∙ rw (b.by_zone) refl;
          })
          db.tables.allowed h)

  save_zone-Keeps :
      (row : ZoneConfig) (db : Db) (cfg : Result Settings)
      → Keeps db
      → Keeps (save_zone user row db cfg).1
  save_zone-Keeps row db (err e) h = h
  save_zone-Keeps row db (ok cfg) h =
      All-map _
        (λ l b. record {
          by_key = b.by_key;
          by_zone =
              has_zone-set_settings l.dns_zone_config_id row.id cfg db.tables.zones ∙ b.by_zone;
        })
        db.tables.allowed h

  update_zone-Keeps :
      (form : Form) (db : Db) (row : Option ZoneConfig)
      → Keeps db
      → Keeps (update_zone user form db row).1
  update_zone-Keeps form db none h = h
  update_zone-Keeps form db (some row) h =
      save_zone-Keeps row db (build_zone_config_from_form form row.settings (options db.tables)) h

  remove_zone-Keeps :
      (zone_id : ℕ) (db : Db) (row : Option ZoneConfig)
      → Keeps db
      → Keeps (remove_zone user zone_id db row).1
  remove_zone-Keeps zone_id db none h = h
  remove_zone-Keeps zone_id db (some row) h =
      All-unzoned db.tables.keys db.tables.zones zone_id db.tables.allowed h

  deactivate-Keeps :
      (key_id : ℕ) (db : Db) (row : Option ApiKey)
      → Keeps db
      → Keeps (deactivate user key_id db row).1
  deactivate-Keeps key_id db none h = h
  deactivate-Keeps key_id db (some row) h =
      All-map _
        (λ l b. record {
          by_key =
              has_key-set_key l.api_key_id key_id deactivated db.tables.keys (λ k. refl) ∙ b.by_key;
          by_zone = b.by_zone;
        })
        db.tables.allowed h

  handle-IsLinked : (r : Request) (db : Db) → Keeps db → Keeps (handle user r db).1
  unfolding handle revoke_api_key create_api_key_route api_key_update zone_update zone_delete
  handle-IsLinked (revoke key_id) db h =
      deactivate-Keeps key_id db (find_key key_id db.tables.keys) h
  handle-IsLinked (save new_id key_digest label zone_ids (some key_id) access_mode) db h =
      edit-Keeps key_id label zone_ids access_mode db h
  handle-IsLinked (save new_id key_digest label zone_ids none access_mode) db h =
      with_mode-with_zones Keeps (api_key_access_mode access_mode read_only) zone_ids db
        (λ m. add_key user new_id key_digest label zone_ids m db) h
        (λ m. add_key-Keeps new_id key_digest label zone_ids m db h)
  handle-IsLinked (update key_id label zone_ids access_mode) db h =
      edit-Keeps key_id label zone_ids access_mode db h
  handle-IsLinked (create_zone new_id zone_name form) db h =
      zone_create-Keeps new_id zone_name form db h
  handle-IsLinked (update_zone_form zone_id form) db h =
      update_zone-Keeps form db (zone_at zone_id db.tables.zones) h
  handle-IsLinked (delete_zone zone_id) db h =
      remove_zone-Keeps zone_id db (zone_at zone_id db.tables.zones) h

pub run-IsLinked :
    (rs : List (Text × Request)) (db : Db) → IsLinked db.tables → IsLinked (run rs db).tables
unfolding run
run-IsLinked [] db h = h
run-IsLinked ((user, r) ∷ rs) db h =
    run-IsLinked rs (handle user r db).1 (handle-IsLinked user r db h)

find_allowed-IsBacked :
    (keys : List ApiKey) (zones : List ZoneConfig) (allowed : List AllowedZone) (key_id zone_id : ℕ)
    → has_zone zone_id zones ≡ false
    → All (IsBacked keys zones) allowed
    → find_allowed allowed key_id zone_id ≡ none
find_allowed-IsBacked keys zones allowed key_id zone_id free h =
    find_first-none _ allowed (All-map _ (λ l b. elsewhere l b.by_zone) allowed h)
  where
    elsewhere :
        (l : AllowedZone)
        → has_zone l.dns_zone_config_id zones ≡ true
        → (l.api_key_id == key_id && l.dns_zone_config_id == zone_id) ≡ false
    elsewhere l there = elim (Bool-cases (l.dns_zone_config_id == zone_id)) [
      | inl e ↦
          let same : l.dns_zone_config_id ≡ zone_id = ground arith in
          let found : has_zone zone_id zones ≡ true = rw (← same) there in cc
      | inr e ↦ ground arith
    ]

zone_create-allowed :
    (user : Text) (new_id : ℕ) (zone_name : Text) (form : Form) (db : Db)
    → (zone_create user new_id zone_name form db).1.tables.allowed ≡ db.tables.allowed
zone_create-allowed user new_id zone_name form db =
    zone_create-add_zone (λ t. t.allowed ≡ db.tables.allowed) user new_id zone_name form db refl
      (λ canonical cfg. refl)

-- From tables in which the links name rows that exist, whatever requests the pages of keys and zones get,
-- also if zones are deleted in between and their primary keys are given out again: the links name rows
-- that exist, and a zone that is then created with a free primary key is allowed to no key.
pub zone_create-run :
    (rs : List (Text × Request)) (user : Text) (new_id : ℕ) (zone_name : Text) (form : Form)
    (db : Db)
    → IsLinked db.tables
    → has_zone new_id (run rs db).tables.zones ≡ false
    → let after = (zone_create user new_id zone_name form (run rs db)).1.tables in
      IsLinked after × ((key_id : ℕ) → find_allowed after.allowed key_id new_id ≡ none)
zone_create-run rs user new_id zone_name form db h free =
    let before = run rs db in
    let backed : IsLinked before.tables = run-IsLinked rs db h in
    (
      zone_create-Keeps user new_id zone_name form before backed,
      λ key_id. rw (zone_create-allowed user new_id zone_name form before) (
          find_allowed-IsBacked before.tables.keys before.tables.zones before.tables.allowed key_id
            new_id free backed),
    )
