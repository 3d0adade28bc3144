-- ===== src/Provider/Store.antt =====
-- What the service expects of a client: it is a store of record sets, one for each owner name and
-- record type, that its two methods read and write. There is one in memory.
use api_to_dns.RecordTypes.{mutable_record_types, normalize_record_values}
use api_to_dns.Prelude.{
  ap, false, zero, suc, ◌≡◌, refl, Bool, true, ◌&&◌, Option, none, some, List, [], ◌∷◌,
  if◌then◌else◌,
}
use api_to_dns.Text.{Text, ℤ, nonnegative, negative, str, ◌===◌, contains, lower, strip, upper}
use api_to_dns.Fault.{Result, ok, err, raised, value_error}
use api_to_dns.Plugins.Names.{dns_relative_name}
use api_to_dns.Provider.{
  RecordInfo, RecordRequest, Client, delete_type, request_fault, text_or_empty,
}

-- The TTL and the values of a record set.
pub record RecordSet : Type 0 where
  pub ttl : ℤ
  pub values : List Text

-- Owner names, relative to the zone, and types.
abbrev pub View : Type 0
View = Text → Text → Option RecordSet

-- What `get_record` answers where this record set stands.
abbrev pub Shows : Option RecordSet → List RecordInfo → Type 0
Shows none [] = Unit
Shows none (r ∷ records) = ⊥
Shows (some rs) [] = ⊥
Shows (some rs) (r ∷ records) = (r.ttl ≡ some rs.ttl) × (r.values ≡ some rs.values)

abbrev pub first_text : List Text → Text
first_text [] = []
first_text (t ∷ ts) = t

-- The type that a request is about: for a synthetic DELETE, its first value.
abbrev pub target_type : RecordRequest → Text
target_type r =
    if r.record_type === delete_type then upper (strip (first_text r.values)) else r.record_type

-- `payload.ttl or 300`
abbrev pub ttl_or_default : Option ℤ → ℤ
ttl_or_default none = nonnegative 300
ttl_or_default (some (nonnegative zero)) = nonnegative 300
ttl_or_default (some (nonnegative (suc n))) = nonnegative (suc n)
ttl_or_default (some (negative n)) = negative n

-- The values of a request, which a client brings into their normal forms again.
abbrev pub normal_values : RecordRequest → Result (List Text)
normal_values r =
    if r.record_type === delete_type then ok [] else normalize_record_values r.record_type r.values

-- What a request leaves there, with the normal forms of its values.
abbrev pub stored : RecordRequest → List Text → Option RecordSet
stored r values =
    if r.record_type === delete_type
    then none
    else some (record { ttl = ttl_or_default r.ttl; values = values })

abbrev pub update : View → Text → Text → Option RecordSet → View
update v name rt new other t = if other === name && t === rt then new else v other t

-- The contract. A client serves some servers and zones: some need a server, others refuse one. It may
-- compare names as it likes, by `owner_of` a zone and a name. A mutable type is read and written; TTL 0
-- becomes the default, and values that have no normal form may be refused.
pub record IsStore (client : Client) : Type 1 where
  pub serves : Option Text → Text → Type 0
  pub owner_of : Text → Text → Text
  pub view : client.State → View
  pub get-shows :
      (name rt : Text) (server : Option Text) (zone : Text) (s : client.State)
      → serves server zone
      → contains mutable_record_types rt ≡ true
      → (records : List RecordInfo) × (s' : client.State) × (client.get_record name
            (some rt)
            server
            (some zone)
            s
          ≡ (ok records, s'))
        × Shows (view s (owner_of zone name) rt) records
        × (view s' ≡ view s)
  pub put-writes :
      (r : RecordRequest) (server : Option Text) (zone : Text) (values : List Text)
      (s : client.State)
      → serves server zone
      → request_fault r ≡ none
      → contains mutable_record_types (target_type r) ≡ true
      → normal_values r ≡ ok values
      → (done : Bool) × (s' : client.State) × (client.create_or_update_record r server (some zone) s
          ≡ (ok done, s'))
        × (view s'
            ≡ update (view s) (owner_of zone r.record_name) (target_type r) (stored r values))

abbrev pub shown : Text → Text → Option RecordSet → List RecordInfo
shown name rt none = []
shown name rt (some rs) =
    record { record_name = name; record_type = rt; ttl = some rs.ttl; values = some rs.values } ∷ []

abbrev pub find_in : View → Text → Text → Option Text → List RecordInfo
find_in v name owner none = []
find_in v name owner (some rt) = shown name rt (v owner rt)

abbrev pub is_set : Option RecordSet → Bool
is_set none = false
is_set (some rs) = true

-- Names are compared without case.
abbrev pub owner_in : Text → Text → Text
owner_in zone name = lower (dns_relative_name zone name)

-- The same as BIND's client does, with a DNS server in memory.
abbrev pub no_server : {A : Type 0} → View → Result A × View
no_server s = (err (raised value_error (str "DNS server host is required")), s)

abbrev pub put_values : RecordRequest → Text → Result (List Text) → View → Result Bool × View
put_values r owner (err e) s = (err e, s)
put_values r owner (ok values) s =
    (ok (is_set (s owner (target_type r))), update s owner (target_type r) (stored r values))

abbrev pub memory_get :
    Text → Option Text → Option Text → Text → View → Result (List RecordInfo) × View
memory_get name rt none zone s = no_server s
memory_get name rt (some []) zone s = no_server s
memory_get name rt (some (c ∷ server)) zone s = (ok (find_in s name (owner_in zone name) rt), s)

abbrev pub memory_put : RecordRequest → Option Text → Text → View → Result Bool × View
memory_put r none zone s = no_server s
memory_put r (some []) zone s = no_server s
memory_put r (some (c ∷ server)) zone s =
    put_values r (owner_in zone r.record_name) (normal_values r) s

-- A client like that of src/plugins/bind.py, on a DNS server that keeps its record sets in memory.
abbrev pub memory : Client
memory = record {
  State = View;
  get_record = λ name rt server zone s. memory_get name rt server (text_or_empty zone) s;
  create_or_update_record = λ r server zone s. memory_put r server (text_or_empty zone) s;
}

pub shown-Shows : (name rt : Text) (rs : Option RecordSet) → Shows rs (shown name rt rs)
shown-Shows name rt none = tt
shown-Shows name rt (some rs) = (refl, refl)

abbrev pub HasServer : Option Text → Text → Type 0
HasServer none zone = ⊥
HasServer (some []) zone = ⊥
HasServer (some (c ∷ server)) zone = Unit

pub memory-get :
    (name rt : Text) (server : Option Text) (zone : Text) (s : View)
    → HasServer server zone
    → memory_get name (some rt) server zone s ≡ (ok (shown name rt (s (owner_in zone name) rt)), s)
memory-get name rt none zone s h = absurd h
memory-get name rt (some []) zone s h = absurd h
memory-get name rt (some (c ∷ server)) zone s h = refl

pub memory-put :
    (r : RecordRequest) (server : Option Text) (zone : Text) (values : List Text) (s : View)
    → HasServer server zone
    → normal_values r ≡ ok values
    → memory_put r server zone s ≡ put_values r (owner_in zone r.record_name) (ok values) s
memory-put r none zone values s h e = absurd h
memory-put r (some []) zone values s h e = absurd h
memory-put r (some (c ∷ server)) zone values s h e =
    ap (λ (m : Result (List Text)). put_values r (owner_in zone r.record_name) m s) e

abbrev pub memory-IsStore : IsStore memory
memory-IsStore = record {
  serves = HasServer;
  owner_of = owner_in;
  view = λ s. s;
  get-shows = λ name rt server zone s h m. (
    shown name rt (s (owner_in zone name) rt),
    s,
    memory-get name rt server zone s h,
    shown-Shows name rt (s (owner_in zone name) rt),
    refl,
  );
  put-writes = λ r server zone values s h f m e. (
    is_set (s (owner_in zone r.record_name) (target_type r)),
    _,
    memory-put r server zone values s h e,
    refl,
  );
}
