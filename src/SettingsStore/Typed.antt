-- ===== src/SettingsStore/Typed.antt =====
-- The readers `_typed_bool`, `_typed_int` and `_typed_str` of the modules that keep settings. They are
-- called with keys of the registry, for which `require_spec` raises no KeyError.
use api_to_dns.Prelude.{[], Bool, false}
use api_to_dns.Text.{Text, ℤ}
use api_to_dns.Fault.{Result, ok, err, ◌>>=◌}
use api_to_dns.SettingsStore.{Codec, Settings, truth, to_int, to_str, get_typed_setting_by_key}

-- the value, or what stands in the handler of its exception
abbrev pub except {ℓ} : {A : Type ℓ} → A → Result A → A
except handler (ok x) = x
except handler (err fault) = handler

module _ (codec : Codec) where
  unfoldable pub typed_bool : Text → Settings → Bool
  unfolding get_typed_setting_by_key
  typed_bool key rows =
      except false (get_typed_setting_by_key codec key rows >>= λ v. ok (truth codec v))

  unfoldable pub typed_int : Text → ℤ → Settings → ℤ
  unfolding get_typed_setting_by_key
  typed_int key fallback rows =
      except fallback (get_typed_setting_by_key codec key rows >>= to_int codec key)

  unfoldable pub typed_str : Text → Settings → Text
  unfolding get_typed_setting_by_key
  typed_str key rows =
      except [] (get_typed_setting_by_key codec key rows >>= λ v. ok (to_str codec v))
