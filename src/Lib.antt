-- ===== src/Lib.antt =====
-- api-to-dns: a web service that changes records at DNS providers for the holders of API keys, with
-- an admin site for its accounts. The development models the pure core of it.
--
-- A change of a record set passes from RecordTypes (the record type, the host names and the values
-- are brought into a normal form, and guarded changes are refused) through Mutation (what stands at
-- the provider is looked up, and one request is sent) to a client of a provider (Provider). The plugins
-- turn names into names relative to the zone (Plugins). The accounts of the admin site (Users) have
-- roles (Roles), which the handlers of the accounts page check and change. Api puts the parts together:
-- the checks on an API key and its zone, the change, the answer and the activity event.
--
--   Text         Python texts as lists of code points: strip, lower and upper (ASCII), split, join,
--                int and str, which the code calls. White space is str.isspace's.
--   Address      the part of Python's ipaddress that the code calls: ip_address and str.
--   Fault        each `raise ValueError` as a constructor, and results.
--   Exec         code with a state that may raise: what was written before a raise stays written.
--   RecordTypes  src/dns_record_types.py: Types (the type lists, TTLs), Hostname, Rdata (values),
--                Guards (guard_mutation_allowed); the regular expressions are predicates on texts.
--   Provider     src/schemas/dns.py (DnsRecordInfo, DnsRecordRequest and its validator),
--                src/plugins/base.py (DnsProviderClient as a record with a state of its own),
--                src/zone_service.py (normalize_zone_name, provider_dns_zone). Provider.Store states
--                what a client owes to the service: it serves some servers and zones, compares names
--                as it likes, and stores the normal forms of values, with `payload.ttl or 300`, as all
--                four plugins do. It has a client like that of src/plugins/bind.py, in memory.
--   Mutation     src/dns_mutation.py: prepare_mutation, apply_rrset_mutation, apply_patch_mutation.
--   Plugins      src/plugins/utils.py: dns_relative_name, ps_single_quoted and the WinRM type names.
--   Sets         sorted lists of texts, for Python's sorted and sets.
--   Roles        src/rbac.py: role sets, as lists that are read by membership, and assignments.
--   Api          src/dns_api_service.py: (in Api.Resolve) _resolve_dns_api_zone, _require_dns_api_key_write_access and
--                _apply_dns_mutation, with http_exception_from_dns_error of src/http_utils.py,
--                get_api_key and create_dns_client_from_settings of src/zone_service.py and
--                src/dns_client.py. Tables are lists of rows; the World is the activity events so far
--                and the provider's state.
--   RateLimit    src/rate_limit.py, with api_key_from_headers of src/http_utils.py. The bucket table is a
--                list of rows; the retries recurse on the attempts that are left, of which there are 3,
--                as in the code, and a list says what the database does at each.
--   Levels       src/log_constants.py: the levels of events, in their order.
--   Syslog       src/remote_syslog.py: the configuration (Syslog), the message and its frame (Message),
--                and RemoteSyslogForwarder (Forwarder, and Forwarder.Queue for its queue): what happens
--                under its lock, or in one call of its queue or of a socket, is one step. System runs schedules of the steps of the worker
--                and of the threads that call enqueue, configure and stop. What the network does, the
--                clock and the numbers of sockets come with each step of the worker.
--   SettingsStore  src/settings_store.py and the specs of src/settings_registry.py (Registry) that the
--                other parts use. The settings table is a list of rows; encryption and JSON are in Codec.
--   Activity     src/activity_logging.py with the ActivityLog row of src/models.py: the levels and the
--                categories, Redaction (redact_details), and Log (emit_activity_event, the clean-up and
--                the query). A Site is the database with what the process keeps in memory. Platform has
--                JSON and the ISO text of a time; an Instant is the time of one event, in seconds from the
--                start of the year 1, before which datetime raises OverflowError; LIKE is an argument of
--                the query.
--   Alerts       src/alerting.py: the SMTP settings, Mail (send_alert_email), and Rules (the rules, and
--                their cooldowns). The servers' answers and the filling of a template are in Mailer. Each try
--                to send is written down in the Site, with what was called on the client, and an alert
--                that fails is an event of its own. EmailMessage raises on a header of two lines; what
--                else it may raise on is left out.
--   Admin        src/routes/api_keys.py and src/routes/zones.py: the handlers that change the tables of
--                keys, zones and links (Keys has those of api_keys.py); Forms is
--                build_zone_config_from_form of src/zone_service.py with the fields of the plugins. The two
--                commits of a change of a key are two steps: the first one stays where the second one
--                breaks a constraint. New primary keys and the digest of a generated key are arguments.
--   Routes       src/routes/dns_api.py: the routes that create, replace, patch and delete, with the
--                validators of src/schemas/dns.py in front.
--   Users        src/routes/settings_users.py, with load_current_user and bump_session_version of
--                src/auth.py and require_role of src/rbac.py. The database is a list of rows with a
--                log of the activity events; the row of a key is the first one that has it.
--
-- All recursion is structural: there is no fuel, and each function is total. The provider client, its
-- state and its answers are a parameter, constrained only by Provider.Store.IsStore where a theorem
-- says so. So are the making of a client by a plugin and the SHA-256 of a key. passlib's hash and
-- check, the keys of new rows, and the content of a cookie whose signature was verified are arguments.
-- Numbers are unbounded, as Python's are; TTLs may be negative where the code lets them be.
--
-- Not modelled: Unicode case mapping and digits beyond ASCII; the messages of errors beyond what they
-- name; rendering, cookies and logging; the network side of the provider plugins; and the parts of the
-- service around the core: the DNS browser, backup and certificates (zone_delete leaves out that it detaches the zone from
-- the settings of Let's Encrypt).
mod Prelude
pub mod Text
pub mod Address
pub mod Fault
pub mod RecordTypes
pub mod Plugins
pub mod Exec
pub mod Provider
pub mod Mutation
pub mod Sets
pub mod Roles
pub mod Users
pub mod Api
pub mod RateLimit
pub mod Routes
pub mod Levels
pub mod SettingsStore
pub mod Activity
pub mod Admin
pub mod Alerts
pub mod Syslog
