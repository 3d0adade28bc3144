-- ===== src/Activity/Retention.antt =====
-- What is stored, and what a clean-up removes.
use api_to_dns.Prelude.{
  Option, none, some, ltb, ◌≤◌, ◌*◌, ℕ, ◌+◌, ◌-◌, ◌<◌, ◌≡◌, refl, sym, ap, inl, inr, Bool, true,
  false, not, List, [], ◌∷◌, ◌++◌, All, length, keep, arith, Bool-cases,
}
use api_to_dns.Activity.{ActivityLog, get_retention_days}
use api_to_dns.Activity.Log.{
  Platform, Site, is_recent, is_expired, stored_retention, clean_up, run_retention_cleanup,
}

keep_all {ℓ} : {A : Type ℓ} (xs : List A) → keep (λ x. true) xs ≡ xs
unfolding keep
keep_all [] = refl
keep_all (x ∷ xs) = ap (λ ys. x ∷ ys) (keep_all xs)

module _ {ℓ} {A : Type ℓ} (f : A → Bool) where
  pub keep-append : (xs ys : List A) → keep f (xs ++ ys) ≡ keep f xs ++ keep f ys
  unfolding keep
  keep-append [] ys = refl
  keep-append (x ∷ xs) ys = elim (Bool-cases (f x)) [
    | inl e ↦ rw (e, keep-append xs ys)
    | inr e ↦ rw (e, keep-append xs ys)
  ]

  keep_counts : (xs : List A) → length (keep f xs) + length (keep (λ x. not (f x)) xs) ≡ length xs
  unfolding keep
  keep_counts [] = omega arith
  keep_counts (x ∷ xs) = elim (Bool-cases (f x)) [
    | inl e ↦ rw e (omega (arith, keep_counts xs))
    | inr e ↦ rw e (omega (arith, keep_counts xs))
  ]

  keep_none_left : (xs : List A) → All (λ x. f x ≡ false) (keep (λ x. not (f x)) xs)
  unfolding keep
  keep_none_left [] = tt
  keep_none_left (x ∷ xs) = elim (Bool-cases (f x)) [
    | inl e ↦ rw e (keep_none_left xs)
    | inr e ↦ rw e (e, keep_none_left xs)
  ]

module _ (p : Platform) where
  open p use {codec, dumps}

  -- What a forced clean-up returns: nothing, where the retention reaches behind the year 1 and it raises
  -- OverflowError; or the number of rows that it removed.
  abbrev pub IsCleaned : ℕ → ℕ → Site → Option ℕ × Site → Type 0
  IsCleaned now later site (none, after) =
      (now < get_retention_days codec site.settings * 86400) × (after ≡ site)
  IsCleaned now later site (some removed, after) =
      let days = get_retention_days codec site.settings in
      (days * 86400 ≤ now)
      × (after.logs ≡ keep (λ row. not (is_expired now days row)) site.logs)
      × All (λ row. is_expired now days row ≡ false) after.logs
      × (removed + length after.logs ≡ length site.logs)
      × (run_retention_cleanup p false later after ≡ (some 0, after))

  -- A forced clean-up removes exactly the rows that are older than the retention, counts them, and leaves
  -- the other rows in their order; an unforced one within 24 hours after it does nothing. Where the
  -- retention reaches behind the year 1, and only there, it raises and changes nothing.
  pub run_retention_cleanup-IsCleaned :
      (now later : ℕ) (site : Site)
      → later - now < 86400
      → IsCleaned now later site (run_retention_cleanup p true now site)
  unfolding run_retention_cleanup clean_up
  run_retention_cleanup-IsCleaned now later site h =
      let days = get_retention_days codec site.settings in
      elim (Bool-cases (ltb now (days * 86400))) [
        | inl e ↦ rw e (ground arith, refl)
        | inr e ↦ rw e (
          ground arith,
          refl,
          keep_none_left (is_expired now days) site.logs,
          keep_counts (is_expired now days) site.logs,
          ground arith,
        )
      ]

  -- Rows that a clean-up may leave out.
  pub record Keeps (now : ℕ) (site after : Site) : Type 0 where
    pub stays : ActivityLog → Bool
    pub kept : after.logs ≡ keep stays site.logs
    pub old :
        (row : ActivityLog)
        → stays row ≡ false
        → is_expired now (get_retention_days codec site.settings) row ≡ true

  pub run_retention_cleanup-Keeps :
      (now : ℕ) (site : Site) → Keeps now site (run_retention_cleanup p false now site).1
  unfolding run_retention_cleanup clean_up
  run_retention_cleanup-Keeps now site = elim (Bool-cases (is_recent now site.last_retention)) [
    | inl e ↦
        rw e (record { stays = λ row. true; kept = sym (keep_all site.logs); old = λ row k. cc })
    | inr e ↦ rw e (elim (Bool-cases (is_recent now (stored_retention p site.settings))) [
      | inl k ↦
          rw k (record { stays = λ row. true; kept = sym (keep_all site.logs); old = λ row h. cc })
      | inr k ↦
          let days = get_retention_days codec site.settings in
          rw k (elim (Bool-cases (ltb now (days * 86400))) [
            | inl l ↦
                rw l (record {
                  stays = λ row. true;
                  kept = sym (keep_all site.logs);
                  old = λ row h. cc;
                })
            | inr l ↦ rw l (record {
              stays = λ row. not (is_expired now days row);
              kept = refl;
              old = λ row h. ground arith;
            })
          ])
    ])
  ]
