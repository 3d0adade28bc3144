-- ===== src/Users/Keys.antt =====
-- The primary key of the `user` table.
use api_to_dns.Prelude.{
  ℕ, ◌≡◌, refl, sym, ap, ◌∙◌, inl, inr, false, Option, none, some, List, [], ◌∷◌, ◌++◌, arith,
  find_first, ◌==◌, ==_iff, Bool-cases,
}
use api_to_dns.Roles.{User}
use api_to_dns.Users.{get_user, put, set_row}
use api_to_dns.Users.Rows.{IsKeyed, set_row-here, set_row-there}

-- A changed row keeps its key.
abbrev pub KeepsId : ℕ → Option User → Type 0
KeepsId i none = Unit
KeepsId i (some v) = v.id ≡ i

absent-cons :
    (j : ℕ) (u : User) (us : List User)
    → (u.id == j) ≡ false
    → get_user j us ≡ none
    → get_user j (u ∷ us) ≡ none
unfolding get_user find_first
absent-cons j u us e h = rw e h

absent-inv :
    (j : ℕ) (u : User) (us : List User)
    → get_user j (u ∷ us) ≡ none
    → ((u.id == j) ≡ false) × (get_user j us ≡ none)
unfolding get_user find_first
absent-inv j u us h = elim (Bool-cases (u.id == j)) [
  | inl e ↦ let clash : some u ≡ none = rw e at h in cc
  | inr e ↦ (e, rw e at h)
]

absent-put :
    (i j : ℕ) (new : Option User) (us : List User)
    → KeepsId i new
    → (i == j) ≡ false
    → get_user j us ≡ none
    → get_user j (put new us) ≡ none
absent-put i j none us same apart h = h
absent-put i j (some v) us same apart h = absent-cons j v us (rw same apart) h

absent-set_row :
    (i j : ℕ) (new : Option User) (us : List User)
    → KeepsId i new
    → get_user j us ≡ none
    → get_user j (set_row i new us) ≡ none
unfolding set_row
absent-set_row i j new [] same h = h
absent-set_row i j new (u ∷ us) same h =
    let (apart, rest) = absent-inv j u us h in
    elim (Bool-cases (u.id == i)) [
      | inl e ↦ rw (set_row-here i new u us e) (
          absent-put i j new us same (ap (λ (m : ℕ). m == j) (sym ((==_iff u.id i).0 e)) ∙ apart)
            rest)
      | inr e ↦
          rw (set_row-there i new u us e)
            (absent-cons j u _ apart (absent-set_row i j new us same rest))
    ]

IsKeyed-put :
    (i : ℕ) (new : Option User) (us : List User)
    → KeepsId i new
    → get_user i us ≡ none
    → IsKeyed us
    → IsKeyed (put new us)
IsKeyed-put i none us same h k = k
IsKeyed-put i (some v) us same h k = (rw same h, k)

pub IsKeyed-set_row :
    (i : ℕ) (new : Option User) (us : List User)
    → KeepsId i new
    → IsKeyed us
    → IsKeyed (set_row i new us)
unfolding set_row
IsKeyed-set_row i new [] same k = tt
IsKeyed-set_row i new (u ∷ us) same k = elim (Bool-cases (u.id == i)) [
  | inl e ↦ rw (set_row-here i new u us e) (
      IsKeyed-put i new us same (ap (λ (m : ℕ). get_user m us) (sym ((==_iff u.id i).0 e)) ∙ k.0)
        k.1)
  | inr e ↦
      rw (set_row-there i new u us e)
        (absent-set_row i u.id new us same k.0, IsKeyed-set_row i new us same k.1)
]

absent-append :
    (j : ℕ) (us : List User) (new : User)
    → (new.id == j) ≡ false
    → get_user j us ≡ none
    → get_user j (us ++ new ∷ []) ≡ none
absent-append j [] new apart h = absent-cons j new [] apart h
absent-append j (u ∷ us) new apart h =
    let (e, rest) = absent-inv j u us h in
    absent-cons j u (us ++ new ∷ []) e (absent-append j us new apart rest)

==_comm : (a b : ℕ) → (a == b) ≡ (b == a)
==_comm a b = ground arith

-- A new row under a key that is free.
pub IsKeyed-append :
    (us : List User) (new : User)
    → get_user new.id us ≡ none
    → IsKeyed us
    → IsKeyed (us ++ new ∷ [])
unfolding get_user find_first
IsKeyed-append [] new free k = (refl, tt)
IsKeyed-append (u ∷ us) new free k =
    let (apart, rest) = absent-inv new.id u us free in
    (absent-append u.id us new (==_comm new.id u.id ∙ apart) k.0, IsKeyed-append us new rest k.1)
