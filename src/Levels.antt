-- ===== src/Levels.antt =====
-- log_constants.py: the levels of the activity log, in their order, and its categories.
use api_to_dns.Prelude.{ℕ, Option, none, some, List, [], ◌∷◌, if◌then◌else◌}
use api_to_dns.Text.{Text, str, ◌===◌}

abbrev pub log_level_values : List Text
log_level_values = str "VERBOSE" ∷ str "INFORMATIONAL" ∷ str "WARNING" ∷ str "ERROR" ∷ []

-- LOG_LEVEL_ORDER.get(level)
unfoldable pub log_level_order : Text → Option ℕ
log_level_order level =
    if level === str "VERBOSE"
    then some 0
    else if level === str "INFORMATIONAL"
    then some 10
    else if level === str "WARNING"
    then some 20
    else if level === str "ERROR"
    then some 30
    else none

abbrev pub rank_or_informational : Option ℕ → ℕ
rank_or_informational none = 10
rank_or_informational (some rank) = rank

-- LOG_LEVEL_ORDER.get(level, LOG_LEVEL_ORDER[LOG_LEVEL_INFORMATIONAL])
unfoldable pub rank_of : Text → ℕ
unfolding log_level_order
rank_of level = rank_or_informational (log_level_order level)

abbrev pub log_category_security : Text
log_category_security = str "security"

abbrev pub security_event_prefixes : List Text
security_event_prefixes = str "auth." ∷ str "api_key." ∷ str "user." ∷ []
