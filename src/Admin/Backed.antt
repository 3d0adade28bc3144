-- ===== src/Admin/Backed.antt =====
-- The links of src/routes/api_keys.py and src/routes/zones.py, and the rows that they name.
use mathlib.Core.Path.{subst}
use api_to_dns.Prelude.{
  ◌≡◌, refl, ℕ, Bool, true, false, not, none, some, List, [], ◌∷◌, ◌++◌, inl, inr, arith, All,
  All-append, keep, some_of, find_first, find_first-cons, Bool-cases, ◌==◌,
}
use api_to_dns.Provider.{Settings}
use api_to_dns.Api.{ApiKey, ZoneConfig, AllowedZone, Tables}
use api_to_dns.Admin.{set_key, set_settings, find_key, has_zone, link, is_linked, insert_links}

abbrev pub has_key : ℕ → List ApiKey → Bool
has_key key_id keys = some_of (λ k. k.id == key_id) keys

-- The rows of a link are in the tables of keys and zones.
pub record IsBacked (keys : List ApiKey) (zones : List ZoneConfig) (l : AllowedZone) : Type 0 where
  pub by_key : has_key l.api_key_id keys ≡ true
  pub by_zone : has_zone l.dns_zone_config_id zones ≡ true

abbrev pub IsLinked : Tables → Type 0
IsLinked t = All (IsBacked t.keys t.zones) t.allowed

pub find_key-has_key :
    (key_id : ℕ) (keys : List ApiKey) {key : ApiKey}
    → find_key key_id keys ≡ some key
    → has_key key_id keys ≡ true
unfolding some_of find_first
find_key-has_key key_id [] h = cc
find_key-has_key key_id (k ∷ keys) h =
    elim (find_first-cons (λ (k : ApiKey). k.id == key_id) k keys h) [
      | inl (e, same) ↦ rw e refl
      | inr (e, rest) ↦ rw (e, find_key-has_key key_id keys rest) refl
    ]

pub has_key-set_key :
    (n key_id : ℕ) (f : ApiKey → ApiKey) (keys : List ApiKey)
    → ((k : ApiKey) → (f k).id ≡ k.id)
    → has_key n (set_key key_id f keys) ≡ has_key n keys
unfolding set_key some_of
has_key-set_key n key_id f [] same = refl
has_key-set_key n key_id f (k ∷ keys) same = elim (Bool-cases (k.id == key_id)) [
  | inl e ↦ rw (e, same k, has_key-set_key n key_id f keys same) refl
  | inr e ↦ rw (e, has_key-set_key n key_id f keys same) refl
]

pub has_zone-set_settings :
    (n zone_id : ℕ) (settings : Settings) (zones : List ZoneConfig)
    → has_zone n (set_settings zone_id settings zones) ≡ has_zone n zones
unfolding set_settings some_of
has_zone-set_settings n zone_id settings [] = refl
has_zone-set_settings n zone_id settings (z ∷ zones) = elim (Bool-cases (z.id == zone_id)) [
  | inl e ↦ rw (e, has_zone-set_settings n zone_id settings zones) refl
  | inr e ↦ rw (e, has_zone-set_settings n zone_id settings zones) refl
]

-- The other zones stay where one is removed.
has_zone-keep :
    (n zone_id : ℕ) (zones : List ZoneConfig)
    → (n == zone_id) ≡ false
    → has_zone n zones ≡ true
    → has_zone n (keep (λ z. not (z.id == zone_id)) zones) ≡ true
unfolding keep some_of
has_zone-keep n zone_id [] other h = cc
has_zone-keep n zone_id (z ∷ zones) other h = elim (Bool-cases (z.id == zone_id)) [
  | inl e ↦ rw e (has_zone-keep n zone_id zones other (ground arith))
  | inr e ↦ rw e (elim (Bool-cases (z.id == n)) [
    | inl k ↦ rw k refl
    | inr k ↦ rw (k, has_zone-keep n zone_id zones other (ground arith)) refl
  ])
]

pub All-unzoned :
    (keys : List ApiKey) (zones : List ZoneConfig) (zone_id : ℕ) (allowed : List AllowedZone)
    → All (IsBacked keys zones) allowed
    → All
        (IsBacked keys (keep (λ z. not (z.id == zone_id)) zones))
        (keep (λ l. not (l.dns_zone_config_id == zone_id)) allowed)
unfolding keep
All-unzoned keys zones zone_id [] h = tt
All-unzoned keys zones zone_id (l ∷ allowed) h =
    elim (Bool-cases (l.dns_zone_config_id == zone_id)) [
      | inl e ↦ rw e (All-unzoned keys zones zone_id allowed h.1)
      | inr e ↦ rw e (
        record {
          by_key = h.0.by_key;
          by_zone = has_zone-keep l.dns_zone_config_id zone_id zones e h.0.by_zone;
        },
        All-unzoned keys zones zone_id allowed h.1,
      )
    ]

pub insert_links-All :
    (keys : List ApiKey) (zones : List ZoneConfig) (key_id : ℕ) (zone_ids : List ℕ)
    (allowed : List AllowedZone) {after : List AllowedZone}
    → has_key key_id keys ≡ true
    → All (IsBacked keys zones) allowed
    → insert_links key_id zone_ids zones allowed ≡ some after
    → All (IsBacked keys zones) after
unfolding insert_links
insert_links-All keys zones key_id [] allowed {after} k h e =
    let same : allowed ≡ after = cc in
    subst (λ (ls : List AllowedZone). All (IsBacked keys zones) ls) same h
insert_links-All keys zones key_id (z ∷ zone_ids) allowed {after} k h e =
    elim (Bool-cases (has_zone z zones)) [
      | inl there ↦ elim (Bool-cases (is_linked key_id z allowed)) [
        | inl twice ↦ let broken : none ≡ some after = rw (there, twice) at e in cc
        | inr once ↦
            insert_links-All keys zones key_id zone_ids (allowed ++ link key_id z ∷ []) k
              (All-append _ allowed (link key_id z ∷ []) h
                (record { by_key = k; by_zone = there }, tt))
              (rw (there, once) at e)
      ]
      | inr missing ↦ insert_links-All keys zones key_id zone_ids allowed k h (rw missing at e)
    ]

pub has_key-append : (k : ApiKey) (keys : List ApiKey) → has_key k.id (keys ++ k ∷ []) ≡ true
unfolding some_of
has_key-append k [] = ground arith
has_key-append k (j ∷ keys) = ground (arith, has_key-append k keys)
