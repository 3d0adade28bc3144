-- ===== src/Routes.antt =====
-- src/routes/dns_api.py and the public schemas of src/schemas/dns.py: the routes of the API that
-- change records. A body that its schema refuses is answered with 422 before the route runs.
pub mod Public
mod Tests
use api_to_dns.Prelude.{ℕ, Bool, true, false, not, Option, none, some, List, [], ◌∷◌}
use api_to_dns.Text.{Text, ℤ, str}
use api_to_dns.Fault.{Fault, Result, ok, err, ◌>>=◌, ◌>>◌, require, values_required, patch_is_empty}
use api_to_dns.RecordTypes.{normalize_public_record_type}
use api_to_dns.Provider.{Client, Settings}
use api_to_dns.Mutation.{create, replace, delete, is_nil}
use api_to_dns.RateLimit.{api_key_from_headers}
use api_to_dns.Api.{
  Tables, World, Answer, http_exception, Request, write, patch, apply_dns_mutation,
}

-- DnsRecordCreateRequest
pub record CreateRequest : Type 0 where
  pub zone_name : Option Text
  pub record_type : Text
  pub record_name : Text
  pub ttl : Option ℤ
  pub values : List Text

-- DnsRecordReplaceRequest
pub record ReplaceRequest : Type 0 where
  pub zone_name : Option Text
  pub record_type : Text
  pub record_name : Text
  pub ttl : ℤ
  pub values : List Text

-- DnsRecordPatchRequest
pub record PatchRequest : Type 0 where
  pub zone_name : Option Text
  pub record_type : Text
  pub record_name : Text
  pub ttl : Option ℤ
  pub values : Option (List Text)

-- the query of DELETE
pub record DeleteQuery : Type 0 where
  pub zone_name : Text
  pub record_name : Text
  pub record_type : Text

unfoldable pub validate_create : CreateRequest → Result (Unit {0})
validate_create p = do
  _ ← normalize_public_record_type p.record_type
  require (not (is_nil p.values)) values_required

unfoldable pub validate_replace : ReplaceRequest → Result (Unit {0})
validate_replace p = do
  _ ← normalize_public_record_type p.record_type
  require (not (is_nil p.values)) values_required

-- the two tests of a patch, on its TTL and its values
abbrev pub patch_fields : Option ℤ → Option (List Text) → Result (Unit {0})
patch_fields none none = err patch_is_empty
patch_fields ttl (some []) = err values_required
patch_fields ttl values = ok tt

unfoldable pub validate_patch : PatchRequest → Result (Unit {0})
validate_patch p = do _ ← normalize_public_record_type p.record_type; patch_fields p.ttl p.values

-- The headers X-API-Key and Authorization.
pub record Headers : Type 0 where
  pub x_api_key : Option Text
  pub authorization : Option Text

abbrev pub key_of : Headers → Option Text
key_of h = some (api_key_from_headers h.x_api_key h.authorization)

pub data Call : Type 0 where
  post : CreateRequest → Call
  put : ReplaceRequest → Call
  patch_call : PatchRequest → Call
  delete_call : DeleteQuery → Call

abbrev pub create_args : Headers → CreateRequest → Request
create_args h p = record {
  api_key = key_of h;
  zone_name = p.zone_name;
  record_name = p.record_name;
  record_type = p.record_type;
  ttl = p.ttl;
  values = p.values;
  mode = write create;
  patch_ttl = none;
  patch_values = none;
}

abbrev pub replace_args : Headers → ReplaceRequest → Request
replace_args h p = record {
  api_key = key_of h;
  zone_name = p.zone_name;
  record_name = p.record_name;
  record_type = p.record_type;
  ttl = some p.ttl;
  values = p.values;
  mode = write replace;
  patch_ttl = none;
  patch_values = none;
}

abbrev pub patch_args : Headers → PatchRequest → Request
patch_args h p = record {
  api_key = key_of h;
  zone_name = p.zone_name;
  record_name = p.record_name;
  record_type = p.record_type;
  ttl = none;
  values = [];
  mode = patch;
  patch_ttl = p.ttl;
  patch_values = p.values;
}

abbrev pub delete_args : Headers → DeleteQuery → Text → Request
delete_args h q normalized_type = record {
  api_key = key_of h;
  zone_name = some q.zone_name;
  record_name = q.record_name;
  record_type = normalized_type;
  ttl = none;
  values = [];
  mode = write delete;
  patch_ttl = none;
  patch_values = none;
}

abbrev unprocessable : Answer
unprocessable = http_exception 422 (str "detail")

module _ (client : Client) (connect : Text → Settings → Result (Unit {0}))
    (digest : Text → Text) where
  abbrev pub run : Tables → World client → Request → Answer × World client
  run db w r = apply_dns_mutation client connect digest db r w

  -- the route, after its schema
  abbrev pub checked : Result (Unit {0}) → Tables → World client → Request → Answer × World client
  checked (err e) db w r = (unprocessable, w)
  checked (ok u) db w r = run db w r

  unfoldable pub create_dns_record :
      Headers → CreateRequest → Tables → World client → Answer × World client
  create_dns_record h p db w = checked (validate_create p) db w (create_args h p)

  unfoldable pub replace_dns_record :
      Headers → ReplaceRequest → Tables → World client → Answer × World client
  replace_dns_record h p db w = checked (validate_replace p) db w (replace_args h p)

  unfoldable pub patch_dns_record :
      Headers → PatchRequest → Tables → World client → Answer × World client
  patch_dns_record h p db w = checked (validate_patch p) db w (patch_args h p)

  abbrev pub typed :
      Result Text → Headers → DeleteQuery → Tables → World client → Answer × World client
  typed (err e) h q db w = (http_exception 400 (str "invalid_request"), w)
  typed (ok rt) h q db w = run db w (delete_args h q rt)

  unfoldable pub delete_dns_record :
      Headers → DeleteQuery → Tables → World client → Answer × World client
  delete_dns_record h q db w = typed (normalize_public_record_type q.record_type) h q db w

  unfoldable pub handle : Headers → Call → Tables → World client → Answer × World client
  handle h (post p) db w = create_dns_record h p db w
  handle h (put p) db w = replace_dns_record h p db w
  handle h (patch_call p) db w = patch_dns_record h p db w
  handle h (delete_call q) db w = delete_dns_record h q db w
