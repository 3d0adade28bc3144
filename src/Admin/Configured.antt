-- ===== src/Admin/Configured.antt =====
-- `build_zone_config_from_form` of src/zone_service.py: what a configuration that it returns holds.
use mathlib.Core.Path.{subst}
use api_to_dns.Prelude.{
  find_first-holds, ◌≡◌, refl, ◌∙◌, Bool, true, false, not, ◌&&◌, ◌||◌, none, some, List, [], ◌∷◌,
  inl, inr, arith, All, keep, find_first, some_of, Bool-cases, Option-cases,
}
use api_to_dns.Text.{Text, str, ◌===◌, contains, text_runs}
use api_to_dns.Text.Equal.{eq_of_===, ===_refl}
use api_to_dns.Fault.{ok, err}
use api_to_dns.Provider.{Settings}
use api_to_dns.Api.{Tables, known_providers, provider_of, get_disabled_dns_plugins}
use api_to_dns.Admin.{Fault, options}
use api_to_dns.Admin.Forms.{
  Form, Field, Plugin, get_dns_provider_options, enabled_dns_provider_options, field_value,
  with_entry, with_fields, selected_provider, no_settings, configured, build_zone_config_from_form,
}
use api_to_dns.Admin.Rows.{===_comm_false, All-find_first}

abbrev pub is_named : Text → List Field → Bool
is_named name fields = some_of (λ f. f.name === name) fields

-- no name twice
unfoldable are_distinct : List Field → Bool
are_distinct [] = true
are_distinct (f ∷ fields) = not (is_named f.name fields) && are_distinct fields

module _ (form : Form) (existing : Settings) where
  with_fields-other :
      (fields : List Field) (cfg : Settings) (name : Text)
      → is_named name fields ≡ false
      → with_fields form existing fields cfg name ≡ cfg name
  unfolding with_fields some_of
  with_fields-other [] cfg name h = refl
  with_fields-other (f ∷ fields) cfg name h =
      let first : (f.name === name) ≡ false = ground arith in
      let rest =
        with_fields-other fields (with_entry f.name (field_value form existing f) cfg) name
          (ground arith) in
      rest ∙ rw (===_comm_false f.name name first) refl

  with_fields-All :
      (fields : List Field) (cfg : Settings)
      → are_distinct fields ≡ true
      → All
          (λ f. with_fields form existing fields cfg f.name ≡ some (field_value form existing f))
          fields
  unfolding with_fields are_distinct
  with_fields-All [] cfg h = tt
  with_fields-All (f ∷ fields) cfg h = (
    with_fields-other fields (with_entry f.name (field_value form existing f) cfg) f.name
          (ground arith)
        ∙ rw (===_refl f.name) refl,
    with_fields-All fields (with_entry f.name (field_value form existing f) cfg) (ground arith),
  )

-- What holds of the four plugins.
record IsRegular (plugin : Plugin) : Type 0 where
  pub known : contains known_providers plugin.key ≡ true
  pub named :
      (s : Settings) → s (str "dns_provider_type") ≡ some plugin.key → provider_of s ≡ plugin.key
  pub distinct : are_distinct plugin.fields ≡ true
  pub apart : is_named (str "dns_provider_type") plugin.fields ≡ false
  pub listed : find_first (λ p. p.key === plugin.key) get_dns_provider_options ≡ some plugin

options-IsRegular : All IsRegular get_dns_provider_options
unfolding are_distinct some_of provider_of find_first text_runs
options-IsRegular = (
  record { known = refl; named = λ s h. rw h refl; distinct = refl; apart = refl; listed = refl },
  (
    record { known = refl; named = λ s h. rw h refl; distinct = refl; apart = refl; listed = refl },
    (
      record {
        known = refl;
        named = λ s h. rw h refl;
        distinct = refl;
        apart = refl;
        listed = refl;
      },
      (
        record {
          known = refl;
          named = λ s h. rw h refl;
          distinct = refl;
          apart = refl;
          listed = refl;
        },
        tt,
      ),
    ),
  ),
)

err-ok : {e : Fault} {cfg : Settings} → err e ≡ ok cfg → ⊥
err-ok h = cc

-- A configuration of a plugin that is not disabled, with exactly its fields.
pub record IsConfigured (form : Form) (existing : Settings) (db : Tables) (cfg : Settings)
    : Type 0 where
  pub plugin : Plugin
  pub listed :
      find_first (λ p. p.key === selected_provider form existing) get_dns_provider_options
      ≡ some plugin
  pub selected : plugin.key ≡ selected_provider form existing
  pub provider : provider_of cfg ≡ plugin.key
  pub known : contains known_providers (provider_of cfg) ≡ true
  pub enabled : contains (get_disabled_dns_plugins db) (provider_of cfg) ≡ false
  pub fields : All (λ f. cfg f.name ≡ some (field_value form existing f)) plugin.fields
  pub others :
      (name : Text)
      → (is_named name plugin.fields || (name === str "dns_provider_type")) ≡ false
      → cfg name ≡ none

enabled-IsRegular :
    (disabled : List Text) (plugins : List Plugin)
    → All IsRegular plugins
    → All
        (λ (p : Plugin). (contains disabled p.key ≡ false) × IsRegular p)
        (keep (λ p. not (contains disabled p.key)) plugins)
unfolding keep
enabled-IsRegular disabled [] h = tt
enabled-IsRegular disabled (p ∷ plugins) h = elim (Bool-cases (contains disabled p.key)) [
  | inl e ↦ rw e (enabled-IsRegular disabled plugins h.1)
  | inr e ↦ rw e ((e, h.0), enabled-IsRegular disabled plugins h.1)
]

module _ (form : Form) (existing : Settings) (db : Tables) (plugin : Plugin) where
  abbrev made : Settings
  made =
      with_fields form existing plugin.fields
        (with_entry (str "dns_provider_type") plugin.key no_settings)

  made-IsConfigured :
      IsRegular plugin
      → plugin.key ≡ selected_provider form existing
      → contains (get_disabled_dns_plugins db) plugin.key ≡ false
      → IsConfigured form existing db made
  unfolding ◌===◌
  made-IsConfigured regular selected enabled =
      let type = str "dns_provider_type" in
      let start = with_entry type plugin.key no_settings in
      let named : provider_of made ≡ plugin.key =
        regular.named made
          (with_fields-other form existing plugin.fields start type regular.apart) in
      record {
        plugin = plugin;
        listed =
            subst
              (λ (t : Text). find_first (λ p. p.key === t) get_dns_provider_options ≡ some plugin)
              selected regular.listed;
        selected = selected;
        provider = named;
        known = rw named regular.known;
        enabled = rw named enabled;
        fields = with_fields-All form existing plugin.fields start regular.distinct;
        others = λ name h.
            let other : (name === type) ≡ false = ground arith in
            with_fields-other form existing plugin.fields start name (ground arith) ∙ rw other refl;
      }

-- A form that is accepted selects one of the four plugins, which is not disabled. The configuration has a value for
-- each field of its plugin and for the provider's type, and no other: what another provider needed is
-- dropped.
pub build_zone_config_from_form-IsConfigured :
    (form : Form) (existing : Settings) (db : Tables) (cfg : Settings)
    → build_zone_config_from_form form existing (options db) ≡ ok cfg
    → IsConfigured form existing db cfg
unfolding build_zone_config_from_form enabled_dns_provider_options
build_zone_config_from_form-IsConfigured form existing db cfg h =
    let provider = selected_provider form existing in
    elim (Option-cases (find_first (λ (p : Plugin). p.key === provider) (options db))) [
      | inl e ↦
          let rejected : configured form existing provider none ≡ ok cfg = rw e at h in
          rejected_lem provider rejected
      | inr (plugin, e) ↦
          let accepted : configured form existing provider (some plugin) ≡ ok cfg = rw e at h in
          let key : plugin.key ≡ provider =
            eq_of_=== plugin.key provider
              (find_first-holds (λ (p : Plugin). p.key === provider) (options db) e) in
          let (enabled, regular) =
            All-find_first _ _ (options db)
              (enabled-IsRegular (get_disabled_dns_plugins db) get_dns_provider_options
                options-IsRegular)
              e in
          let same : made form existing db plugin ≡ cfg =
            accepted_lem plugin provider key accepted in
          subst (IsConfigured form existing db) same
            (made-IsConfigured form existing db plugin regular key enabled)
    ]
  where
    rejected_lem :
        (provider : Text)
        → configured form existing provider none ≡ ok cfg
        → IsConfigured form existing db cfg
    rejected_lem provider r = elim (Bool-cases (contains known_providers provider)) [
      | inl e ↦ absurd (err-ok (rw e at r))
      | inr e ↦ absurd (err-ok (rw e at r))
    ]

    accepted_lem :
        (plugin : Plugin) (provider : Text)
        → plugin.key ≡ provider
        → configured form existing provider (some plugin) ≡ ok cfg
        → made form existing db plugin ≡ cfg
    accepted_lem plugin provider key a =
        let at_key : configured form existing plugin.key (some plugin) ≡ ok cfg = rw key a in cc
