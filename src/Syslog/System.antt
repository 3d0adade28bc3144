-- ===== src/Syslog/System.antt =====
-- remote_syslog.py: the forwarder among the threads that use it. A schedule says in which order their
-- steps happen. `admitted` holds what calls of `enqueue` have yet to put into the queue, and `joining`
-- says that `stop` waits for the worker.
use api_to_dns.Prelude.{ℕ, zero, suc, Bool, false, none, some, List, [], ◌∷◌, ◌++◌, if◌then◌else◌}
use api_to_dns.Syslog.{SyslogConfig}
use api_to_dns.Syslog.Message.{ActivityLogSnapshot}
use api_to_dns.Syslog.Forwarder.{
  Item, Forwarder, init, Delivery, Outcome, configure, admit, put_event, work, begin_stop, end_stop,
}

pub data Action : Type 0 where
  -- `configure`, and below a call of `stop`, if `stop` does not wait
  configured : SyslogConfig → Action
  -- the two halves of `enqueue`; the second for the n-th event that waits for it
  enqueuing : ActivityLogSnapshot → Action
  putting : ℕ → ℕ → Action
  working : Outcome → Action
  stopping stopped : Action

pub record System : Type 0 where
  pub forwarder : Forwarder
  pub admitted : List (ℕ × ActivityLogSnapshot)
  pub joining : Bool

abbrev pub started : System
started = record { forwarder = init; admitted = []; joining = false }

abbrev pub admit_item : Item → List (ℕ × ActivityLogSnapshot) → List (ℕ × ActivityLogSnapshot)
admit_item none admitted = admitted
admit_item (some item) admitted = admitted ++ item ∷ []

abbrev pub nth : ℕ → List (ℕ × ActivityLogSnapshot) → Item
nth n [] = none
nth zero (x ∷ xs) = some x
nth (suc n) (x ∷ xs) = nth n xs

abbrev pub without : ℕ → List (ℕ × ActivityLogSnapshot) → List (ℕ × ActivityLogSnapshot)
without n [] = []
without zero (x ∷ xs) = xs
without (suc n) (x ∷ xs) = x ∷ without n xs

abbrev pub put_item : ℕ → Item → Forwarder → Forwarder
put_item now none f = f
put_item now (some event) f = put_event now event f

unfoldable pub act : Action → System → System × List Delivery
act (configured config) s =
    (if s.joining then s else record s { forwarder = configure config s.forwarder }, [])
act (enqueuing event) s =
    (record s { admitted = admit_item (admit event s.forwarder) s.admitted }, [])
act (putting now n) s = (
  record s {
    forwarder = put_item now (nth n s.admitted) s.forwarder;
    admitted = without n s.admitted;
  },
  [],
)
act (working o) s = let (f, sent) = work o s.forwarder in (record s { forwarder = f }, sent)
act stopping s =
    let (f, waits) = begin_stop s.forwarder in
    (if s.joining then s else record s { forwarder = f; joining = waits }, [])
act stopped s =
    (if s.joining then record s { forwarder = end_stop s.forwarder; joining = false } else s, [])

-- A schedule from a state, with all that is delivered.
unfoldable pub run : List Action → System → System × List Delivery
run [] s = (s, [])
run (action ∷ actions) s =
    let (next, sent) = act action s in let (last, later) = run actions next in (last, sent ++ later)
