-- ===== src/RecordTypes/HostnameLaws.antt =====
-- `normalize_hostname` of src/dns_record_types.py, run on what it returned.
use api_to_dns.Prelude.{ℕ, ◌≡◌, ◌≢◌, Bool, true, false, [], ◌∷◌, arith, Bool-cases, inl, inr}
use api_to_dns.Text.{Text, is_empty, is_space, is_dot, drop_while_end, keep_end, strip, rstrip_dot}
use api_to_dns.Text.Strip.{Avoids, IsStripped, strip_fix, rstrip_dot_idem}
use api_to_dns.Text.Split.{IsToken}
use api_to_dns.Fault.{ok}
use api_to_dns.RecordTypes.Hostname.{hostname_re, normalize_hostname}

-- A host name in the form that `normalize_hostname` returns.
pub record IsHost (h : Text) : Type 0 where
  pub filled : is_empty h ≡ false
  pub undotted : rstrip_dot h ≡ h
  pub matched : hostname_re h ≡ true

pub normalize_hostname-IsHost :
    (v h : Text) → normalize_hostname v false ≡ ok h → (h ≡ rstrip_dot (strip v)) × IsHost h
unfolding normalize_hostname
normalize_hostname-IsHost v h e = (
  ground arith,
  record {
    filled = ground arith;
    undotted = ground (arith, rstrip_dot_idem (strip v));
    matched = ground arith;
  },
)

pub normalize_hostname_fix :
    (h : Text) → IsStripped h → IsHost h → normalize_hostname h false ≡ ok h
unfolding normalize_hostname
normalize_hostname_fix h s i = ground arith

keep_end-Avoids :
    (p q : ℕ → Bool) (c : ℕ) (s : Text) → p c ≡ false → Avoids p s → Avoids p (keep_end q c s)
keep_end-Avoids p q c [] h k = elim (Bool-cases (q c)) [ inl e ↦ rw e tt | inr e ↦ rw e (h, tt) ]
keep_end-Avoids p q c (d ∷ s) h k = (h, k)

drop_while_end-Avoids : (p q : ℕ → Bool) (s : Text) → Avoids p s → Avoids p (drop_while_end q s)
unfolding drop_while_end
drop_while_end-Avoids p q [] h = tt
drop_while_end-Avoids p q (c ∷ s) h = keep_end-Avoids p q c _ h.0 (drop_while_end-Avoids p q s h.1)

pub ne-nil_of_filled : (s : Text) → is_empty s ≡ false → s ≢ []
ne-nil_of_filled [] h e = cc
ne-nil_of_filled (c ∷ s) h e = cc

-- From a token, the result is a token, which a second call leaves alone.
pub normalize_hostname-IsToken :
    (v h : Text) → IsToken v → normalize_hostname v false ≡ ok h → IsToken h × IsHost h
unfolding rstrip_dot
normalize_hostname-IsToken v h (_, k) e =
    let (same, host) = normalize_hostname-IsHost v h e in
    (
      (
        ne-nil_of_filled h host.filled,
        rw same (rw (strip_fix v k) (drop_while_end-Avoids is_space is_dot v k)),
      ),
      host,
    )
