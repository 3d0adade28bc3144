-- ===== src/Address/Tests.antt =====
-- Runs of the address parser and printer.
use api_to_dns.Prelude.{◌≡◌, refl, none, some, [], ◌∷◌}
use api_to_dns.Text.{str}
use api_to_dns.Address.{v4, v6, ip_address, show_address, address_runs}

dotted : ip_address (str "192.0.2.1") ≡ some (v4 (192 ∷ 0 ∷ 2 ∷ 1 ∷ []))
unfolding address_runs
dotted = refl

leading_zero : ip_address (str "192.0.02.1") ≡ none
unfolding address_runs
leading_zero = refl

compressed :
    ip_address (str "2001:db8::1") ≡ some (v6 (8193 ∷ 3512 ∷ 0 ∷ 0 ∷ 0 ∷ 0 ∷ 0 ∷ 1 ∷ []) none)
unfolding address_runs
compressed = refl

unspecified : ip_address (str "::") ≡ some (v6 (0 ∷ 0 ∷ 0 ∷ 0 ∷ 0 ∷ 0 ∷ 0 ∷ 0 ∷ []) none)
unfolding address_runs
unspecified = refl

mapped_scoped :
    ip_address (str "::ffff:1.2.3.4%e")
    ≡ some (v6 (0 ∷ 0 ∷ 0 ∷ 0 ∷ 0 ∷ 65535 ∷ 258 ∷ 772 ∷ []) (some (str "e")))
unfolding address_runs
mapped_scoped = refl

three_colons : ip_address (str ":::") ≡ none
unfolding address_runs
three_colons = refl

unspecified_shown : show_address (v6 (0 ∷ 0 ∷ 0 ∷ 0 ∷ 0 ∷ 0 ∷ 0 ∷ 0 ∷ []) none) ≡ str "::"
unfolding address_runs
unspecified_shown = refl

longest_run : show_address (v6 (1 ∷ 0 ∷ 0 ∷ 2 ∷ 0 ∷ 0 ∷ 0 ∷ 10 ∷ []) none) ≡ str "1:0:0:2::a"
unfolding address_runs
longest_run = refl

trailing_gap : ip_address (str "1::") ≡ some (v6 (1 ∷ 0 ∷ 0 ∷ 0 ∷ 0 ∷ 0 ∷ 0 ∷ 0 ∷ []) none)
unfolding address_runs
trailing_gap = refl

trailing_run : show_address (v6 (1 ∷ 0 ∷ 0 ∷ 2 ∷ 0 ∷ 0 ∷ 0 ∷ 0 ∷ []) none) ≡ str "1:0:0:2::"
unfolding address_runs
trailing_run = refl
