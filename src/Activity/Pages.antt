-- ===== src/Activity/Pages.antt =====
-- The pages of the activity log.
use native.Mathlib.Nat.{zero-add, suc-add}
use api_to_dns.Prelude.{
  ℕ, zero, suc, ◌+◌, ◌*◌, ◌-◌, ◌≤◌, ◌≡◌, refl, sym, ap, ◌∙◌, inl, inr, Bool, true, List, [], ◌∷◌,
  ◌++◌, All, length, take, drop, keep, arith, if◌then◌else◌, Bool-cases,
}
use api_to_dns.Text.{Text}
use api_to_dns.Activity.{ActivityLog}
use api_to_dns.Activity.Log.{Query, selects, insert_by_time, order_by_time, query_activity_logs}

-- Newest first.
abbrev pub IsOrdered : List ActivityLog → Type 0
IsOrdered [] = Unit
IsOrdered (row ∷ []) = Unit
IsOrdered (row ∷ next ∷ rows) = (next.timestamp ≤ row.timestamp) × IsOrdered (next ∷ rows)

keep_holds {ℓ} : {A : Type ℓ} (f : A → Bool) (xs : List A) → All (λ x. f x ≡ true) (keep f xs)
unfolding keep
keep_holds f [] = tt
keep_holds f (x ∷ xs) = elim (Bool-cases (f x)) [
  | inl e ↦ rw e (e, keep_holds f xs)
  | inr e ↦ rw e (keep_holds f xs)
]

-- The number of rows that pass a test.
abbrev pub count : (ActivityLog → Bool) → List ActivityLog → ℕ
count f [] = 0
count f (row ∷ rows) = if f row then suc (count f rows) else count f rows

take-drop {ℓ} : {A : Type ℓ} (n : ℕ) (xs : List A) → take n xs ++ drop n xs ≡ xs
take-drop zero xs = refl
take-drop (suc n) [] = refl
take-drop (suc n) (x ∷ xs) = ap (λ ys. x ∷ ys) (take-drop n xs)

length-drop {ℓ} : {A : Type ℓ} (n : ℕ) (xs : List A) → length (drop n xs) ≡ length xs - n
length-drop zero xs = omega arith
length-drop (suc n) [] = omega arith
length-drop (suc n) (x ∷ xs) = omega (arith, length-drop n xs)

drop_nil {ℓ} : {A : Type ℓ} (n : ℕ) → drop {A = A} n [] ≡ []
drop_nil zero = refl
drop_nil (suc n) = refl

drop-drop {ℓ} : {A : Type ℓ} (m n : ℕ) (xs : List A) → drop m (drop n xs) ≡ drop (n + m) xs
drop-drop m zero xs = rw zero-add
drop-drop m (suc n) [] = rw (drop_nil m, drop_nil (suc n + m))
drop-drop m (suc n) (x ∷ xs) = rw (suc-add) (drop-drop m n xs)

drop_past {ℓ} : {A : Type ℓ} (n : ℕ) (xs : List A) → length xs ≤ n → drop n xs ≡ []
drop_past zero [] h = refl
drop_past zero (x ∷ xs) h = absurd (omega arith)
drop_past (suc n) [] h = refl
drop_past (suc n) (x ∷ xs) h = drop_past n xs (omega arith)

insert_by_time-IsOrdered :
    (row : ActivityLog) (rows : List ActivityLog)
    → IsOrdered rows
    → IsOrdered (insert_by_time row rows)
unfolding insert_by_time
insert_by_time-IsOrdered row [] h = tt
insert_by_time-IsOrdered row (a ∷ []) h = ground arith
insert_by_time-IsOrdered row (a ∷ b ∷ rows) h =
    ground (arith, insert_by_time-IsOrdered row (b ∷ rows) h.1)

order_by_time-IsOrdered : (rows : List ActivityLog) → IsOrdered (order_by_time rows)
unfolding order_by_time
order_by_time-IsOrdered [] = tt
order_by_time-IsOrdered (row ∷ rows) =
    insert_by_time-IsOrdered row (order_by_time rows) (order_by_time-IsOrdered rows)

count-insert_by_time :
    (f : ActivityLog → Bool) (row : ActivityLog) (rows : List ActivityLog)
    → count f (insert_by_time row rows) ≡ count f (row ∷ rows)
unfolding insert_by_time
count-insert_by_time f row [] = refl
count-insert_by_time f row (a ∷ rows) = ground (arith, count-insert_by_time f row rows)

count-order_by_time :
    (f : ActivityLog → Bool) (rows : List ActivityLog) → count f (order_by_time rows) ≡ count f rows
unfolding order_by_time
count-order_by_time f [] = refl
count-order_by_time f (row ∷ rows) =
    count-insert_by_time f row (order_by_time rows) ∙ ground (arith, count-order_by_time f rows)

length-insert_by_time :
    (row : ActivityLog) (rows : List ActivityLog)
    → length (insert_by_time row rows) ≡ suc (length rows)
unfolding insert_by_time
length-insert_by_time row [] = refl
length-insert_by_time row (a ∷ rows) = ground (arith, length-insert_by_time row rows)

length-order_by_time : (rows : List ActivityLog) → length (order_by_time rows) ≡ length rows
unfolding order_by_time
length-order_by_time [] = refl
length-order_by_time (row ∷ rows) =
    length-insert_by_time row (order_by_time rows) ∙ ap suc (length-order_by_time rows)

module _ (ilike : Text → Text → Bool) (q : Query) (logs : List ActivityLog) (limit : ℕ) where
  -- n pages from an offset on
  pub pages : ℕ → ℕ → List ActivityLog
  pages zero offset = []
  pages (suc n) offset =
      (query_activity_logs ilike q limit offset logs).0 ++ pages n (offset + limit)

  abbrev pub found : List ActivityLog
  found = order_by_time (keep (selects ilike q) logs)

  pages-drop :
      (n offset : ℕ) → length found ≤ offset + n * limit → pages n offset ≡ drop offset found
  unfolding pages query_activity_logs
  pages-drop zero offset h = sym (drop_past offset found (omega arith))
  pages-drop (suc n) offset h =
      ap (λ (rows : List ActivityLog). take limit (drop offset found) ++ rows)
        (pages-drop n (offset + limit) (grind arith))
      ∙ (ap (λ (rows : List ActivityLog). take limit (drop offset found) ++ rows)
            (sym (drop-drop limit offset found))
          ∙ take-drop limit (drop offset found))

  -- The pages of a query, as many as its total asks for, are in order, newest first; together they hold
  -- each row as often as the rows that its filters select, and the total is the number of these.
  pub pages-found :
      (n : ℕ) (f : ActivityLog → Bool)
      → (query_activity_logs ilike q limit 0 logs).1 ≤ n * limit
      → IsOrdered (pages n 0)
        × (count f (pages n 0) ≡ count f (keep (selects ilike q) logs))
        × ((query_activity_logs ilike q limit 0 logs).1 ≡ length (keep (selects ilike q) logs))
  unfolding query_activity_logs
  pages-found n f h =
      rw (pages-drop n 0 (omega arith))
        (order_by_time-IsOrdered _, count-order_by_time f _, length-order_by_time _)
