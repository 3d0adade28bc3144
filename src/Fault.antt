-- ===== src/Fault.antt =====
-- Exceptions as values. Each `raise` of a ValueError in dns_record_types.py, dns_mutation.py,
-- zone_service.py, schemas/dns.py, remote_syslog.py and
-- settings_store.py is a constructor, with the values that its message shows; so is the KeyError of
-- `require_spec`.
use api_to_dns.Prelude.{ℕ, ◌≡◌, refl, Bool, true, false}
use api_to_dns.Text.{Text}

-- The classes that `http_exception_from_dns_error` tells apart.
pub data ExceptionClass : Type 0 where
  value_error provider_disabled runtime_error import_error other : ExceptionClass

pub data Fault : Type 0 where
  record_name_required : Fault
  not_a_lookup_type not_a_mutable_type not_a_public_type unsupported_type : Text → Fault
  ttl_required ttl_out_of_range : Fault
  invalid_hostname : Text → Fault
  not_an_integer : Text → Fault
  out_of_range : Text → ℕ → Fault
  mx_shape srv_shape caa_shape : Fault
  invalid_caa_tag : Text → Fault
  caa_value_required : Fault
  soa_is_view_only apex_ns ptr_outside_reverse_zone : Fault
  empty_value : Fault
  not_an_address not_ipv4 not_ipv6 : Text → Fault
  values_required : Fault
  exactly_one_value : Text → Fault
  dns_zone_required : Fault
  patch_is_empty : Fault
  delete_target_required : Fault
  delete_target_type : Text → Fault
  patch_merge : Fault
  unknown_provider : Text → Fault
  disabled_provider : Text → Fault
  unknown_protocol port_out_of_range timeout_not_positive timeout_out_of_range : Fault
  unsupported_facility unsupported_level : Text → Fault
  queue_size_out_of_range host_required plaintext_not_allowed : Fault
  invalid_setting unregistered_setting : Text → Fault
  insecure_smtp : Fault
  -- what a provider's client raises, by its class
  raised : ExceptionClass → Text → Fault

pub data Result {ℓ} (A : Type ℓ) : Type ℓ where
  ok : A → Result A
  err : Fault → Result A

infixl 5 ◌>>=◌ ◌>>◌
abbrev pub ◌>>=◌ {ℓ κ} : {A : Type ℓ} {B : Type κ} → Result A → (A → Result B) → Result B
err fault >>= next = err fault
ok x >>= next = next x

abbrev pub ◌>>◌ {ℓ} : {B : Type ℓ} → Result (Unit {0}) → Result B → Result B
first >> second = first >>= λ _. second

-- if not test: raise e
abbrev pub require : Bool → Fault → Result (Unit {0})
require false fault = err fault
require true fault = ok tt

-- `PatchMergeError` is a ValueError too.
unfoldable pub exception_class : Fault → ExceptionClass
exception_class (disabled_provider p) = provider_disabled
exception_class (raised c m) = c
exception_class (unregistered_setting key) = other
exception_class f = value_error

-- Inversion of a successful chain.
pub >>=-eq-ok {ℓ κ} :
    {A : Type ℓ} {B : Type κ} (first : Result A) (next : A → Result B) {last : B}
    → first >>= next ≡ ok last
    → (x : A) × (first ≡ ok x) × (next x ≡ ok last)
>>=-eq-ok (err fault) next h = cc
>>=-eq-ok (ok x) next h = (x, refl, h)

pub require-eq-ok : (b : Bool) (e : Fault) {u : Unit {0}} → require b e ≡ ok u → b ≡ true
require-eq-ok true e h = refl
require-eq-ok false e h = cc
