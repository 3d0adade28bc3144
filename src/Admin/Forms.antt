-- ===== src/Admin/Forms.antt =====
-- `build_zone_config_from_form` of src/zone_service.py, with the fields of the provider plugins of
-- src/plugins. A form and a configuration are read by name; labels and help texts are left out.
use api_to_dns.Prelude.{
  Bool, true, false, not, ◌&&◌, Option, none, some, List, [], ◌∷◌, find_first, keep, if◌then◌else◌,
}
use api_to_dns.Text.{Text, str, is_empty, ◌===◌, contains, strip, lower}
use api_to_dns.Fault.{Result, ok, err, unknown_provider, disabled_provider}
use api_to_dns.Provider.{Settings, text_or_empty}
use api_to_dns.Api.{known_providers, or_azure}

abbrev pub Form : Type 0
Form = Text → Option Text

-- PluginField
pub record Field : Type 0 where
  pub name : Text
  pub kind : Text
  pub default : Text
  pub preserve_on_blank : Bool

-- DnsProviderPlugin
pub record Plugin : Type 0 where
  pub key : Text
  pub fields : List Field

abbrev field : Text → Bool → Text → Field
field kind preserve name = record {
  name = name;
  kind = kind;
  default = [];
  preserve_on_blank = preserve;
}

abbrev text_field : Text → Field
text_field name = field (str "text") false name

abbrev secret_field : Text → Field
secret_field name = field (str "password") true name

abbrev checkbox_field : Text → Field
checkbox_field name = field (str "checkbox") false name

abbrev pub dns_zone_domain_field : Field
dns_zone_domain_field = text_field (str "dns_zone")

abbrev pub azure : Plugin
azure = record {
  key = str "azure";
  fields =
      dns_zone_domain_field
      ∷ text_field (str "azure_tenant_id")
      ∷ text_field (str "azure_client_id")
      ∷ secret_field (str "azure_client_secret")
      ∷ text_field (str "azure_subscription_id")
      ∷ text_field (str "azure_resource_group")
      ∷ [];
}

abbrev pub bind : Plugin
bind = record {
  key = str "bind";
  fields =
      dns_zone_domain_field
      ∷ text_field (str "dns_server")
      ∷ text_field (str "dns_username")
      ∷ secret_field (str "dns_password")
      ∷ record {
        name = str "dns_tsig_algorithm";
        kind = str "text";
        default = str "hmac-sha256";
        preserve_on_blank = false;
      }
      ∷ [];
}

abbrev pub cloudflare : Plugin
cloudflare = record {
  key = str "cloudflare";
  fields =
      dns_zone_domain_field
      ∷ secret_field (str "cloudflare_api_token")
      ∷ text_field (str "cloudflare_zone_id")
      ∷ checkbox_field (str "cloudflare_proxied")
      ∷ [];
}

abbrev pub microsoft : Plugin
microsoft = record {
  key = str "microsoft";
  fields =
      dns_zone_domain_field
      ∷ text_field (str "dns_server")
      ∷ text_field (str "dns_username")
      ∷ secret_field (str "dns_password")
      ∷ checkbox_field (str "dns_winrm_ssl")
      ∷ checkbox_field (str "dns_winrm_insecure_tls")
      ∷ [];
}

-- in the order of their keys
abbrev pub get_dns_provider_options : List Plugin
get_dns_provider_options = azure ∷ bind ∷ cloudflare ∷ microsoft ∷ []

-- on the keys of the disabled plugins
unfoldable pub enabled_dns_provider_options : List Text → List Plugin
enabled_dns_provider_options disabled =
    keep (λ plugin. not (contains disabled plugin.key)) get_dns_provider_options

unfoldable pub blank_preserve_secret : Text → Text → Text
blank_preserve_secret new_val old_val = if is_empty (strip new_val) then old_val else new_val

abbrev checked_text : Option Text → Text
checked_text none = []
checked_text (some s) = str "true"

abbrev pub submitted : Form → Field → Text
submitted form f =
    if f.kind === str "checkbox"
    then checked_text (form f.name)
    else strip (text_or_empty (form f.name))

-- the value of one field, with the configuration that stands
unfoldable pub field_value : Form → Settings → Field → Text
unfolding blank_preserve_secret
field_value form existing f =
    let value = submitted form f in
    let old = text_or_empty (existing f.name) in
    if f.preserve_on_blank
    then blank_preserve_secret value old
    else if is_empty value && (not (is_empty f.default) && is_empty old)
    then f.default
    else value

-- cfg[name] = value
abbrev pub with_entry : Text → Text → Settings → Settings
with_entry name value cfg n = if n === name then some value else cfg n

unfoldable pub with_fields : Form → Settings → List Field → Settings → Settings
with_fields form existing [] cfg = cfg
with_fields form existing (f ∷ fields) cfg =
    with_fields form existing fields (with_entry f.name (field_value form existing f) cfg)

-- x or y
abbrev pub or_text : Text → Text → Text
or_text [] y = y
or_text (c ∷ x) y = c ∷ x

unfoldable pub selected_provider : Form → Settings → Text
selected_provider form existing =
    let type = str "dns_provider_type" in
    lower (strip (or_azure (or_text (text_or_empty (form type)) (text_or_empty (existing type)))))

abbrev pub no_settings : Settings
no_settings name = none

abbrev pub configured : Form → Settings → Text → Option Plugin → Result Settings
configured form existing provider none =
    if contains known_providers provider
    then err (disabled_provider provider)
    else err (unknown_provider provider)
configured form existing provider (some plugin) = ok (
    with_fields form existing plugin.fields
      (with_entry (str "dns_provider_type") provider no_settings))

-- `existing` is without entries where it is None
unfoldable pub build_zone_config_from_form : Form → Settings → List Plugin → Result Settings
build_zone_config_from_form form existing plugins =
    let provider = selected_provider form existing in
    configured form existing provider (find_first (λ plugin. plugin.key === provider) plugins)
