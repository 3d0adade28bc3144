-- ===== src/Plugins/Names.antt =====
-- src/plugins/utils.py: the owner names that the plugins send to their servers, and quoting.
use api_to_dns.Prelude.{ℕ, zero, suc, ◌-◌, Bool, ◌||◌, [], ◌∷◌, ◌++◌, length, ◌==◌, if◌then◌else◌}
use api_to_dns.Text.{
  Text, str, is_empty, ◌===◌, strip, rstrip_dot, lower, upper, ends_with, has_char,
}

-- s[:n]
abbrev pub take : ℕ → Text → Text
take zero s = []
take (suc n) [] = []
take (suc n) (c ∷ s) = c ∷ take n s

-- `r[: -len(suffix)] or "@"`
abbrev pub or_apex : Text → Text
or_apex [] = str "@"
or_apex (c ∷ s) = c ∷ s

unfoldable pub dns_relative_name : Text → Text → Text
dns_relative_name zone_name record_name =
    let z = rstrip_dot (strip zone_name) in
    let r = rstrip_dot (strip record_name) in
    if is_empty r || r === str "@" || lower r === lower z
    then str "@"
    else if ends_with (lower r) (lower (b'.' ∷ z))
    then or_apex (take (length r - length (b'.' ∷ z)) r)
    else r

unfoldable pub has_dns_glob : Text → Bool
has_dns_glob record_name = has_char b'*' record_name || has_char b'?' record_name

abbrev pub apostrophe : ℕ
apostrophe = 39

-- s.replace("'", "''")
unfoldable pub double_quotes : Text → Text
double_quotes [] = []
double_quotes (c ∷ s) =
    let rest = double_quotes s in if c == apostrophe then c ∷ c ∷ rest else c ∷ rest

unfoldable pub ps_single_quoted : Text → Text
ps_single_quoted s = apostrophe ∷ (double_quotes s ++ apostrophe ∷ [])

unfoldable pub winrm_rr_type : Text → Text
winrm_rr_type upper_rr = let u = upper (strip upper_rr) in if u === str "TXT" then str "Txt" else u

unfoldable pub winrm_record_type_to_api : Text → Text
winrm_record_type_to_api ps_type =
    let t = strip ps_type in if upper t === str "TXT" || t === str "Txt" then str "TXT" else upper t
