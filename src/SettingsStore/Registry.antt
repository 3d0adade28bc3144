-- ===== src/SettingsStore/Registry.antt =====
-- settings_registry.py: the settings, with their types and defaults. Areas and descriptions, which
-- the forms show, are left out.
use api_to_dns.Prelude.{Bool, true, false, Option, none, some, List, [], ◌∷◌, String, find_first}
use api_to_dns.Text.{Text, str, ◌===◌}

pub data ValueType : Type 0 where
  string boolean integer json : ValueType

pub record SettingSpec : Type 0 where
  pub key : Text
  pub value_type : ValueType
  pub default : Option Text
  pub sensitive : Bool

abbrev pub spec_of : String → ValueType → Option Text → Bool → SettingSpec
spec_of key value_type default sensitive = record {
  key = str key;
  value_type = value_type;
  default = default;
  sensitive = sensitive;
}

abbrev pub setting_specs : List SettingSpec
setting_specs =
    spec_of "ssl_enabled" boolean (some (str "false")) false
    ∷ spec_of "restart_required" boolean (some (str "false")) false
    ∷ spec_of "restart_reason" string (some (str "Application restart required.")) false
    ∷ spec_of "last_scheduled_restart_date" string none false
    ∷ spec_of "letsencrypt_renewal_pending_restart" boolean (some (str "false")) false
    ∷ spec_of "letsencrypt_config" json none false
    ∷ spec_of "letsencrypt_enrollment" json none false
    ∷ spec_of "letsencrypt_enrollment_progress" json none false
    ∷ spec_of "disabled_dns_plugins" json (some (str "[]")) false
    ∷ spec_of "backup_restore_progress" json none false
    ∷ spec_of "log_level" string (some (str "INFORMATIONAL")) false
    ∷ spec_of "activity_retention_days" integer (some (str "90")) false
    ∷ spec_of "last_activity_retention_cleanup" string none false
    ∷ spec_of "operational_log_file" string (some []) false
    ∷ spec_of "operational_log_max_bytes" integer (some (str "1048576")) false
    ∷ spec_of "operational_log_backup_count" integer (some (str "5")) false
    ∷ spec_of "app_dns_name" string (some []) false
    ∷ spec_of "smtp_servers" string (some []) false
    ∷ spec_of "smtp_port" integer (some (str "587")) false
    ∷ spec_of "smtp_anonymous" boolean (some (str "false")) false
    ∷ spec_of "smtp_username" string (some []) false
    ∷ spec_of "smtp_password" string (some []) true
    ∷ spec_of "smtp_from" string (some []) false
    ∷ spec_of "smtp_security" string (some (str "starttls")) false
    ∷ spec_of "smtp_timeout" integer (some (str "10")) false
    ∷ spec_of "smtp_allow_insecure_auth" boolean (some (str "false")) false
    ∷ spec_of "remote_syslog_enabled" boolean (some (str "false")) false
    ∷ spec_of "remote_syslog_host" string (some []) false
    ∷ spec_of "remote_syslog_port" integer (some (str "6514")) false
    ∷ spec_of "remote_syslog_protocol" string (some (str "tls")) false
    ∷ spec_of "remote_syslog_facility" string (some (str "local0")) false
    ∷ spec_of "remote_syslog_minimum_level" string (some (str "INFORMATIONAL")) false
    ∷ spec_of "remote_syslog_timeout" string (some (str "5.0")) false
    ∷ spec_of "remote_syslog_queue_size" integer (some (str "1000")) false
    ∷ spec_of "remote_syslog_allow_insecure_plaintext" boolean (some (str "false")) false
    ∷ spec_of "dns_provider_type" string (some (str "azure")) true
    ∷ spec_of "dns_server" string (some []) true
    ∷ spec_of "dns_zone" string (some []) false
    ∷ spec_of "dns_username" string (some []) true
    ∷ spec_of "dns_password" string (some []) true
    ∷ spec_of "dns_tsig_algorithm" string (some []) false
    ∷ spec_of "dns_winrm_ssl" string (some []) false
    ∷ spec_of "azure_tenant_id" string (some []) true
    ∷ spec_of "azure_client_id" string (some []) true
    ∷ spec_of "azure_client_secret" string (some []) true
    ∷ spec_of "azure_subscription_id" string (some []) true
    ∷ spec_of "azure_resource_group" string (some []) false
    ∷ []

-- get_spec(key)
unfoldable pub get_spec : Text → Option SettingSpec
get_spec key = find_first (λ (s : SettingSpec). s.key === key) setting_specs
