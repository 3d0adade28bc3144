-- ===== src/Exec.antt =====
-- Code that runs against the state of something else, a provider or a database, and may raise: what
-- was written before a raise stays written.
use api_to_dns.Prelude.{◌≡◌, refl, ap}
use api_to_dns.Fault.{Result, ok, err}

abbrev pub Exec : Type 0 → Type 0 → Type 0
Exec S A = S → Result A × S

abbrev pub pure : {S A : Type 0} → A → Exec S A
pure a s = (ok a, s)

abbrev pub lift : {S A : Type 0} → Result A → Exec S A
lift r s = (r, s)

abbrev pub continue : {S A B : Type 0} → Result A → (A → Exec S B) → Exec S B
continue (ok a) f s = f a s
continue (err e) f s = (err e, s)

infixl 5 ◌>>=◌ ◌>>◌
abbrev pub ◌>>=◌ : {S A B : Type 0} → Exec S A → (A → Exec S B) → Exec S B
◌>>=◌ m f s = continue (m s).0 f (m s).1

abbrev pub ◌>>◌ : {S A B : Type 0} → Exec S A → Exec S B → Exec S B
m >> k = m >>= λ _. k

module _ {S A B : Type 0} where
  pub continue-eq-ok :
      (r : Result A) (f : A → Exec S B) (t : S) {b : B} {s' : S}
      → continue r f t ≡ (ok b, s')
      → (a : A) × (r ≡ ok a) × (f a t ≡ (ok b, s'))
  continue-eq-ok (ok a) f t h = (a, refl, h)
  continue-eq-ok (err e) f t h = cc

  -- Inversion of a chain that returned.
  pub bind-eq-ok :
      (m : Exec S A) (f : A → Exec S B) (s : S) {b : B} {s' : S}
      → (m >>= f) s ≡ (ok b, s')
      → (a : A) × (t : S) × (m s ≡ (ok a, t)) × (f a t ≡ (ok b, s'))
  bind-eq-ok m f s h =
      let (a, e, k) = continue-eq-ok (m s).0 f (m s).1 h in (a, (m s).1, λ i. (e i, (m s).1), k)

-- Two chains that returned the same.
pub pure-eq-ok : {S A : Type 0} {a b : A} {s t : S} → pure a s ≡ (ok b, t) → (a ≡ b) × (s ≡ t)
pure-eq-ok {S} {A} h = (cc (ap (λ (p : Result A × S). p.0) h), ap (λ (p : Result A × S). p.1) h)
