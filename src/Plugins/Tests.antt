-- ===== src/Plugins/Tests.antt =====
-- Relative names and quoted values at concrete texts.
use api_to_dns.Prelude.{◌≡◌, ◌≢◌, ◌↔◌, ◌⊎◌, refl, true, some, [], ◌∷◌, ◌++◌}
use api_to_dns.Text.{str, lower, text_runs}
use api_to_dns.RecordTypes.{is_apex_name}
use api_to_dns.RecordTypes.Guarded.{clean_name}
use api_to_dns.Plugins.Names.{dns_relative_name, ps_single_quoted, apostrophe, double_quotes}
use api_to_dns.Plugins.Apex.{dns_relative_name-eq-apex_iff}
use api_to_dns.Plugins.Quoting.{
  read_quoted, read_quoted-ps_single_quoted, ps_single_quoted_ends_early,
}

zone_filled : clean_name (str "example.com") ≢ []
unfolding text_runs
zone_filled = λ e. cc

dns_relative_name-eq-apex_iff_example :
    (dns_relative_name (str "example.com") (str "@.Example.com") ≡ str "@") ↔ (
      (is_apex_name (str "@.Example.com") (some (str "example.com")) ≡ true)
      ⊎ (lower (clean_name (str "@.Example.com"))
          ≡ str "@." ++ lower (clean_name (str "example.com"))))
dns_relative_name-eq-apex_iff_example =
    dns_relative_name-eq-apex_iff (str "example.com") (str "@.Example.com") zone_filled

at_sign_is_apex : dns_relative_name (str "example.com") (str "@.example.com") ≡ str "@"
unfolding dns_relative_name text_runs
at_sign_is_apex = refl

read_quoted-ps_single_quoted_example :
    read_quoted (ps_single_quoted (str "it's") ++ str " -Force") ≡ some (str "it's", str " -Force")
read_quoted-ps_single_quoted_example =
    read_quoted-ps_single_quoted (str "it's") (str " -Force") (refl, (refl, (refl, (refl, tt))))
      refl

-- U+2019, and a command behind it
ps_single_quoted_ends_early_example :
    read_quoted (ps_single_quoted (str "a" ++ 8217 ∷ str ";exit"))
    ≡ some (str "a", double_quotes (str ";exit") ++ apostrophe ∷ [])
ps_single_quoted_ends_early_example =
    ps_single_quoted_ends_early (str "a") (str ";exit") 8217 (refl, tt) refl refl (λ e. cc)
