-- ===== src/Admin/Revoked.antt =====
-- src/routes/api_keys.py with src/dns_api_service.py: a key after its revocation.
use mathlib.Core.Path.{subst}
use api_to_dns.Prelude.{
  ◌≡◌, refl, ◌∙◌, ℕ, true, false, none, some, List, [], ◌∷◌, ◌++◌, inl, inr, arith, All, All-append,
  All-map, some_of, find_first, find_first-cons, Bool-cases, ◌==◌,
}
use api_to_dns.Text.{Text, ◌===◌}
use api_to_dns.Text.Equal.{eq_of_===, ===_refl}
use api_to_dns.Fault.{Result}
use api_to_dns.Provider.{Client, Settings, text_or_empty}
use api_to_dns.Api.{
  ApiKey, Tables, Request, Answer, body, http_exception, World, get_api_key, resolve_dns_api_zone,
  require_write_access, with_api_key, apply_dns_mutation,
}
use api_to_dns.Admin
use api_to_dns.Admin.{Db, find_key, set_key, deactivated, revoke_api_key, run}
use api_to_dns.Admin.Kept.{IsStable, run-IsStable}
use api_to_dns.Admin.Rows.{
  some_of-append, find_first-none, All-find_first, ===_comm_false, set_key-All, IsDistinct, IsIdle,
}

-- A digest that a row has, and that is in force in none.
record IsRevoked (key_digest : Text) (keys : List ApiKey) : Type 0 where
  pub taken : some_of (λ k. k.key === key_digest) keys ≡ true
  pub idle : All (IsIdle key_digest) keys

get_api_key-IsRevoked :
    (key_digest : Text) (keys : List ApiKey)
    → IsRevoked key_digest keys
    → get_api_key keys key_digest ≡ none
unfolding get_api_key
get_api_key-IsRevoked key_digest keys h = find_first-none _ keys h.idle

some_of-set_key :
    (key_digest : Text) (key_id : ℕ) (f : ApiKey → ApiKey) (keys : List ApiKey)
    → ((k : ApiKey) → (f k).key ≡ k.key)
    → some_of (λ k. k.key === key_digest) (set_key key_id f keys)
      ≡ some_of (λ k. k.key === key_digest) keys
unfolding set_key some_of
some_of-set_key key_digest key_id f [] same = refl
some_of-set_key key_digest key_id f (k ∷ keys) same = elim (Bool-cases (k.id == key_id)) [
  | inl e ↦ rw (e, same k, some_of-set_key key_digest key_id f keys same)
  | inr e ↦ rw (e, some_of-set_key key_digest key_id f keys same)
]

-- The first row with the key is switched off; no other row has its digest.
set_key-IsIdle :
    (key_id : ℕ) (keys : List ApiKey) {key : ApiKey}
    → IsDistinct keys
    → find_key key_id keys ≡ some key
    → All (IsIdle key.key) (set_key key_id deactivated keys)
unfolding set_key find_first
set_key-IsIdle key_id [] d h = tt
set_key-IsIdle key_id (k ∷ keys) {key} (apart, d) h =
    elim (find_first-cons (λ (k : ApiKey). k.id == key_id) k keys h) [
      | inl (e, same) ↦
          let others : All (IsIdle key.key) keys =
            subst (λ (j : ApiKey). All (IsIdle j.key) keys) same
              (All-map _ (λ j a. apart-IsIdle k j a) keys apart) in
          rw e (
            off-IsIdle k key.key,
            set_key-All (IsIdle key.key) key_id deactivated keys (λ j i. off-IsIdle j key.key)
                others,
          )
      | inr (e, rest) ↦ rw e (
        other-IsIdle k key
            (All-find_first _ (λ (j : ApiKey). (k.key === j.key) ≡ false) keys apart rest),
        set_key-IsIdle key_id keys d rest,
      )
    ]
  where
    off-IsIdle : (k : ApiKey) (t : Text) → IsIdle t (deactivated k)
    off-IsIdle k t = ground arith

    apart-IsIdle : (k j : ApiKey) → (k.key === j.key) ≡ false → IsIdle k.key j
    apart-IsIdle k j a = rw (===_comm_false k.key j.key a) refl

    other-IsIdle : (k j : ApiKey) → (k.key === j.key) ≡ false → IsIdle j.key k
    other-IsIdle k j a = rw a refl

set_key-IsDistinct :
    (keys : List ApiKey) (key_id : ℕ) (f : ApiKey → ApiKey)
    → ((k : ApiKey) → (f k).key ≡ k.key)
    → IsDistinct keys
    → IsDistinct (set_key key_id f keys)
unfolding set_key
set_key-IsDistinct [] key_id f same h = tt
set_key-IsDistinct (k ∷ keys) key_id f same (apart, d) =
    let rest : All (λ (j : ApiKey). (k.key === j.key) ≡ false) (set_key key_id f keys) =
      set_key-All _ key_id f keys (λ j e. rw (same j) e) apart in
    elim (Bool-cases (k.id == key_id)) [
      | inl e ↦ rw (e, same k) (rest, set_key-IsDistinct keys key_id f same d)
      | inr e ↦ rw e (rest, set_key-IsDistinct keys key_id f same d)
    ]

append-IsDistinct :
    (keys : List ApiKey) (k : ApiKey)
    → some_of (λ j. j.key === k.key) keys ≡ false
    → IsDistinct keys
    → IsDistinct (keys ++ k ∷ [])
unfolding some_of
append-IsDistinct [] k new h = (tt, tt)
append-IsDistinct (j ∷ keys) k new (apart, d) =
    (All-append _ keys (k ∷ []) apart (ground arith, tt), append-IsDistinct keys k (ground arith) d)

IsDistinct-IsStable : IsStable IsDistinct
IsDistinct-IsStable = record {
  edits = λ keys key_id f same off h. set_key-IsDistinct keys key_id f same h;
  adds = λ keys k new h. append-IsDistinct keys k new h;
}

module _ (key_digest : Text) where
  still-IsIdle :
      (f : ApiKey → ApiKey)
      → ((k : ApiKey) → (f k).key ≡ k.key)
      → ((k : ApiKey) → k.active ≡ false → (f k).active ≡ false)
      → (k : ApiKey) → IsIdle key_digest k
      → IsIdle key_digest (f k)
  still-IsIdle f same off k h = elim (Bool-cases k.active) [
    | inl e ↦ let other : (k.key === key_digest) ≡ false = ground arith in rw (same k, other) refl
    | inr e ↦ rw (off k e) (ground arith)
  ]

  -- a new digest is not the one that a row has
  new-other :
      (keys : List ApiKey) (t : Text)
      → some_of (λ (k : ApiKey). k.key === key_digest) keys ≡ true
      → some_of (λ (k : ApiKey). k.key === t) keys ≡ false
      → (t === key_digest) ≡ false
  new-other keys t taken new = elim (Bool-cases (t === key_digest)) [
    | inl e ↦
        let same : t ≡ key_digest = eq_of_=== t key_digest e in
        let found : some_of (λ (k : ApiKey). k.key === t) keys ≡ true = rw same taken in cc
    | inr e ↦ e
  ]

  IsRevoked-IsStable : IsStable (IsRevoked key_digest)
  IsRevoked-IsStable = record {
    edits = λ keys key_id f same off h. record {
      taken = some_of-set_key key_digest key_id f keys same ∙ h.taken;
      idle = set_key-All _ key_id f keys (still-IsIdle f same off) h.idle;
    };
    adds = λ keys k new h. record {
      taken = some_of-append _ keys (k ∷ []) ∙ rw (h.taken) refl;
      idle = All-append _ keys (k ∷ []) h.idle (rw (new-other keys k.key h.taken new) refl, tt);
    };
  }

find_key-some_of :
    (key_id : ℕ) (keys : List ApiKey) {key : ApiKey}
    → find_key key_id keys ≡ some key
    → some_of (λ (k : ApiKey). k.key === key.key) keys ≡ true
unfolding some_of find_first
find_key-some_of key_id [] h = cc
find_key-some_of key_id (k ∷ keys) {key} h =
    elim (find_first-cons (λ (k : ApiKey). k.id == key_id) k keys h) [
      | inl (e, same) ↦
          let here : (k.key === key.key) ≡ true =
            subst (λ (j : ApiKey). (k.key === j.key) ≡ true) same (===_refl k.key) in
          rw here refl
      | inr (e, rest) ↦ ground (arith, find_key-some_of key_id keys rest)
    ]

revoke_api_key-IsRevoked :
    (user : Text) (key_id : ℕ) (db : Db) {key : ApiKey}
    → IsDistinct db.tables.keys
    → find_key key_id db.tables.keys ≡ some key
    → IsRevoked key.key (revoke_api_key user key_id db).1.tables.keys
unfolding revoke_api_key
revoke_api_key-IsRevoked user key_id db {key} d h = rw h (record {
  taken =
      some_of-set_key key.key key_id deactivated db.tables.keys (λ k. refl)
      ∙ find_key-some_of key_id db.tables.keys h;
  idle = set_key-IsIdle key_id db.tables.keys d h;
})

-- the status code of an answer
abbrev pub status_of : Answer → ℕ
status_of (body code o) = code
status_of (http_exception code e) = code

module _ (client : Client) (connect : Text → Settings → Result (Unit {0}))
    (digest : Text → Text) where
  with_api_key-none :
      (db : Tables) (r : Request) (api_key : Text) (w : World client)
      → get_api_key db.keys (digest api_key) ≡ none
      → (status_of (with_api_key client connect digest db r api_key w).0 ≡ 401)
        × ((with_api_key client connect digest db r api_key w).1.provider ≡ w.provider)
  unfolding resolve_dns_api_zone require_write_access
  with_api_key-none db r [] w h = (refl, refl)
  with_api_key-none db r (c ∷ s) w h = rw h (refl, refl)

  -- No two keys have one digest at first. Whatever requests the pages of keys and zones get before a key
  -- is revoked and after it, a change with that key is answered with 401 and leaves the provider alone.
  pub apply_dns_mutation-revoke_api_key :
      (before after : List (Text × Admin.Request)) (user : Text) (key_id : ℕ) (db : Db)
      {key : ApiKey} (r : Request) (w : World client)
      → IsDistinct db.tables.keys
      → find_key key_id (run before db).tables.keys ≡ some key
      → digest (text_or_empty r.api_key) ≡ key.key
      → let revoked = (revoke_api_key user key_id (run before db)).1 in
        let (answer, world) =
          apply_dns_mutation client connect digest (run after revoked).tables r w in
        (status_of answer ≡ 401) × (world.provider ≡ w.provider)
  unfolding apply_dns_mutation
  apply_dns_mutation-revoke_api_key before after user key_id db {key} r w d h k =
      let revoked : IsRevoked key.key _ =
        run-IsStable (IsRevoked key.key) (IsRevoked-IsStable key.key) after
          (revoke_api_key user key_id (run before db)).1
          (revoke_api_key-IsRevoked user key_id (run before db)
            (run-IsStable IsDistinct IsDistinct-IsStable before db d) h) in
      with_api_key-none (run after (revoke_api_key user key_id (run before db)).1).tables r
        (text_or_empty r.api_key) w (rw k (get_api_key-IsRevoked key.key _ revoked))
