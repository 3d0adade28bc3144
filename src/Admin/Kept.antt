-- ===== src/Admin/Kept.antt =====
-- What the requests of src/routes/api_keys.py and src/routes/zones.py keep of the rows of the API keys.
use api_to_dns.Prelude.{
  ◌≡◌, refl, ℕ, false, Option, none, some, List, [], ◌∷◌, ◌++◌, inl, inr, some_of, Bool-cases,
}
use api_to_dns.Text.{Text, is_empty, ◌===◌}
use api_to_dns.Fault.{Result, ok, err}
use api_to_dns.Provider.{Settings, normalize_zone_name}
use api_to_dns.Api.{ApiKey, Tables, Event, AllowedZone, ZoneConfig}
use api_to_dns.Admin.Forms.{Form, no_settings, build_zone_config_from_form}
use api_to_dns.Admin.{
  Db, Answer, with_mode, with_zones, options, read_only, zone_at, find_key, set_key, deactivated,
  edited, new_key, linked, insert_links, save_key, edit, add_key, api_key_access_mode,
  revoke_api_key, deactivate, api_key_update, create_api_key_route, zone_create, add_zone,
  zone_update, update_zone, save_zone, zone_delete, remove_zone, Request, revoke, save, update,
  create_zone, update_zone_form, delete_zone, handle, run,
}

-- A property of the rows that is kept where a row is edited, but neither its digest nor put into force
-- again, and where a row is added with a digest that no row has.
pub record IsStable (P : List ApiKey → Type 0) : Type 0 where
  pub edits :
      (keys : List ApiKey) (key_id : ℕ) (f : ApiKey → ApiKey)
      → ((k : ApiKey) → (f k).key ≡ k.key)
      → ((k : ApiKey) → k.active ≡ false → (f k).active ≡ false)
      → P keys
      → P (set_key key_id f keys)
  pub adds :
      (keys : List ApiKey) (k : ApiKey)
      → some_of (λ j. j.key === k.key) keys ≡ false
      → P keys
      → P (keys ++ k ∷ [])

-- The two checks in front of a change of a key.
pub with_mode-with_zones :
    (Q : Db → Type 0) (mode : Option Text) (zone_ids : List ℕ) (db : Db) (rest : Text → Answer)
    → Q db
    → ((m : Text) → Q (rest m).1)
    → Q (with_mode mode db (λ m. with_zones zone_ids db (rest m))).1
with_mode-with_zones Q none zone_ids db rest h k = h
with_mode-with_zones Q (some m) [] db rest h k = h
with_mode-with_zones Q (some m) (z ∷ zs) db rest h k = k m

-- The two checks in front of a new zone.
pub zone_create-add_zone :
    (Q : Tables → Type 0) (user : Text) (new_id : ℕ) (zone_name : Text) (form : Form) (db : Db)
    → Q db.tables
    → ((canonical : Text) (cfg : Settings)
        → Q (add_zone user new_id canonical db (ok cfg)).1.tables)
    → Q (zone_create user new_id zone_name form db).1.tables
unfolding zone_create
zone_create-add_zone Q user new_id zone_name form db h k =
    let canonical = normalize_zone_name zone_name in
    elim (Bool-cases (is_empty canonical)) [
      | inl e ↦ rw e h
      | inr e ↦
          elim (Bool-cases
            (some_of (λ (z : ZoneConfig). z.zone_name === canonical) db.tables.zones)) [
              | inl l ↦ rw (e, l) h
              | inr l ↦
                  rw (e, l)
                    (by_result canonical
                      (build_zone_config_from_form form no_settings (options db.tables)))
            ]
    ]
  where
    by_result :
        (canonical : Text) (cfg : Result Settings)
        → Q (add_zone user new_id canonical db cfg).1.tables
    by_result canonical (err e) = h
    by_result canonical (ok cfg) = k canonical cfg

module _ (P : List ApiKey → Type 0) (stable : IsStable P) (user : Text) where
  abbrev Keeps : Db → Type 0
  Keeps db = P db.tables.keys

  linked-Keeps :
      (first : Tables) (e : Event) (db : Db) (links : Option (List AllowedZone))
      → P first.keys
      → Keeps (linked first e db links).1
  linked-Keeps first e db none h = h
  linked-Keeps first e db (some allowed) h = h

  save_key-Keeps :
      (key_id : ℕ) (label : Text) (zone_ids : List ℕ) (access_mode : Text) (db : Db)
      → Keeps db
      → Keeps (save_key user key_id label zone_ids access_mode db).1
  unfolding save_key
  save_key-Keeps key_id label zone_ids access_mode db h =
      linked-Keeps _ _ db (insert_links key_id zone_ids db.tables.zones _)
        (stable.edits db.tables.keys key_id (edited label access_mode) (λ k. refl) (λ k e. e) h)

  edit-Keeps :
      (key_id : ℕ) (label : Text) (zone_ids : List ℕ) (access_mode : Option Text) (db : Db)
      (row : Option ApiKey)
      → Keeps db
      → Keeps (edit user key_id label zone_ids access_mode db row).1
  edit-Keeps key_id label zone_ids access_mode db none h = h
  edit-Keeps key_id label zone_ids access_mode db (some row) h =
      with_mode-with_zones Keeps (api_key_access_mode access_mode row.access_mode) zone_ids db
        (λ m. save_key user key_id label zone_ids m db) h
        (λ m. save_key-Keeps key_id label zone_ids m db h)

  add_key-Keeps :
      (new_id : ℕ) (key_digest label : Text) (zone_ids : List ℕ) (access_mode : Text) (db : Db)
      → Keeps db
      → Keeps (add_key user new_id key_digest label zone_ids access_mode db).1
  unfolding add_key
  add_key-Keeps new_id key_digest label zone_ids access_mode db h =
      elim (Bool-cases (some_of (λ (k : ApiKey). k.key === key_digest) db.tables.keys)) [
        | inl e ↦ rw e h
        | inr e ↦ rw e (
            linked-Keeps _ _ db (insert_links new_id zone_ids db.tables.zones db.tables.allowed)
              (stable.adds db.tables.keys (new_key new_id label key_digest access_mode) e h))
      ]

  deactivate-Keeps :
      (key_id : ℕ) (db : Db) (row : Option ApiKey)
      → Keeps db
      → Keeps (deactivate user key_id db row).1
  deactivate-Keeps key_id db none h = h
  deactivate-Keeps key_id db (some row) h =
      stable.edits db.tables.keys key_id deactivated (λ k. refl) (λ k e. refl) h

  update_zone-Keeps :
      (form : Form) (db : Db) (row : Option ZoneConfig)
      → Keeps db
      → Keeps (update_zone user form db row).1
  update_zone-Keeps form db none h = h
  update_zone-Keeps form db (some row) h =
      by_result (build_zone_config_from_form form row.settings (options db.tables))
    where
      by_result : (cfg : Result Settings) → Keeps (save_zone user row db cfg).1
      by_result (err e) = h
      by_result (ok cfg) = h

  remove_zone-Keeps :
      (zone_id : ℕ) (db : Db) (row : Option ZoneConfig)
      → Keeps db
      → Keeps (remove_zone user zone_id db row).1
  remove_zone-Keeps zone_id db none h = h
  remove_zone-Keeps zone_id db (some row) h = h

  handle-Keeps : (r : Request) (db : Db) → Keeps db → Keeps (handle user r db).1
  unfolding handle revoke_api_key create_api_key_route api_key_update zone_update zone_delete
  handle-Keeps (revoke key_id) db h = deactivate-Keeps key_id db (find_key key_id db.tables.keys) h
  handle-Keeps (save new_id key_digest label zone_ids (some key_id) access_mode) db h =
      edit-Keeps key_id label zone_ids access_mode db (find_key key_id db.tables.keys) h
  handle-Keeps (save new_id key_digest label zone_ids none access_mode) db h =
      with_mode-with_zones Keeps (api_key_access_mode access_mode read_only) zone_ids db
        (λ m. add_key user new_id key_digest label zone_ids m db) h
        (λ m. add_key-Keeps new_id key_digest label zone_ids m db h)
  handle-Keeps (update key_id label zone_ids access_mode) db h =
      edit-Keeps key_id label zone_ids access_mode db (find_key key_id db.tables.keys) h
  handle-Keeps (create_zone new_id zone_name form) db h =
      zone_create-add_zone (λ t. P t.keys) user new_id zone_name form db h (λ canonical cfg. h)
  handle-Keeps (update_zone_form zone_id form) db h =
      update_zone-Keeps form db (zone_at zone_id db.tables.zones) h
  handle-Keeps (delete_zone zone_id) db h =
      remove_zone-Keeps zone_id db (zone_at zone_id db.tables.zones) h

pub run-IsStable :
    (P : List ApiKey → Type 0)
    → IsStable P
    → (rs : List (Text × Request)) (db : Db) → P db.tables.keys
    → P (run rs db).tables.keys
unfolding run
run-IsStable P stable [] db h = h
run-IsStable P stable ((user, r) ∷ rs) db h =
    run-IsStable P stable rs (handle user r db).1 (handle-Keeps P stable user r db h)
