-- ===== src/Syslog/Drain.antt =====
-- The worker on its own, while the network does what it is asked for.
use native.Mathlib.Nat.{suc-add, zero-add}
use mathlib.Core.List.{append_assoc}
use api_to_dns.Prelude.{
  ℕ, zero, suc, ◌+◌, ◌*◌, ◌≤◌, ◌≡◌, refl, ap, ◌∙◌, inl, inr, true, false, ◌&&◌, Option, none, some,
  List, [], ◌∷◌, ◌++◌, arith, length, ◌==◌, if◌then◌else◌, Bool-cases, Option-cases, ==_iff,
}
use api_to_dns.Text.Equal.{===_refl}
use api_to_dns.Syslog.{SyslogConfig}
use api_to_dns.Syslog.Message.{ActivityLogSnapshot, encode_rfc5424}
use api_to_dns.Syslog.Forwarder.{
  Target, target_of, same_target, Item, at_test, Forwarder, Delivery, Outcome, is_stream, is_sock,
  sock_at, is_current, get_item, check_item, send, open_stream, write, send_datagram, work_at, work,
  udp_or,
}
use api_to_dns.Syslog.Worker.{wire}

-- n steps of the worker, all with the same outcome
unfoldable pub works : ℕ → Outcome → Forwarder → Forwarder × List Delivery
works zero o f = (f, [])
works (suc n) o f =
    let (next, sent) = work o f in let (last, later) = works n o next in (last, sent ++ later)

abbrev pub delivery : SyslogConfig → ActivityLogSnapshot → Delivery
delivery config event = record {
  event = event;
  target = target_of config;
  bytes = wire config (encode_rfc5424 event config);
}

-- What a configuration owes to the pending items, in their order: the messages of the events that were
-- admitted under it, and nothing if it is disabled.
unfoldable pub due : SyslogConfig → List Item → List Delivery
due config [] = []
due config (none ∷ queue) = due config queue
due config (some (generation, event) ∷ queue) =
    let rest = due config queue in
    if generation == config.generation && config.enabled then delivery config event ∷ rest else rest

works-add :
    (m n : ℕ) (o : Outcome) (f : Forwarder)
    → works (m + n) o f
      ≡ ((works n o (works m o f).0).0, (works m o f).1 ++ (works n o (works m o f).0).1)
unfolding works
works-add zero n o f = rw zero-add
works-add (suc m) n o f = rw (suc-add, works-add m n o (work o f).0, append_assoc)

-- At the loop's test, not told to stop, with these items pending.
abbrev pub ready : Forwarder → List Item → Forwarder
ready f queue = record f { thread = at_test; stop = false; queue = queue }

-- Some steps, six at most, serve one item.
record Serves (o : Outcome) (f : Forwarder) (item : Item) (queue : List Item) : Type 0 where
  steps : ℕ
  few : steps ≤ 6
  next : Forwarder
  served : works steps o (ready f (item ∷ queue)) ≡ (ready next queue, due f.config (item ∷ []))
  same : next.config ≡ f.config

same_target_refl : (target : Target) → same_target target target ≡ true
same_target_refl (host, port, protocol) =
    ground (arith, ===_refl host, ===_refl protocol, ==_iff port port)

is_current-same : (f : Forwarder) → f.config.enabled ≡ true → is_current f.config f ≡ true
is_current-same f e = rw (e, same_target_refl (target_of f.config)) (ground arith)

sock_at-is_sock :
    (target : Target) (addr : Option Target) (stream : Option ℕ) (sock : ℕ)
    → sock_at target addr stream ≡ some sock
    → is_sock sock stream ≡ true
sock_at-is_sock target none stream sock h = cc
sock_at-is_sock target (some addr) none sock h = ground arith
sock_at-is_sock target (some addr) (some other) sock h = ground arith

module _ (o : Outcome) (f : Forwarder) (queue : List Item) where
  serve_wake : Serves o f none queue
  unfolding works work_at get_item due
  serve_wake = record { steps = 2; few = omega arith; next = f; served = refl; same = refl }

  module _ (generation : ℕ) (event : ActivityLogSnapshot) where
    serve_stale :
        (generation == f.config.generation && f.config.enabled) ≡ false
        → Serves o f (some (generation, event)) queue
    unfolding works work_at get_item check_item due
    serve_stale e = record {
      steps = 3;
      few = omega arith;
      next = f;
      served = ground arith;
      same = refl;
    }

    module _ (succeeds : o.succeeds ≡ true) (fresh : (generation == f.config.generation) ≡ true)
        (enabled : f.config.enabled ≡ true) where
      serve_datagram : is_stream f.config ≡ false → Serves o f (some (generation, event)) queue
      unfolding works work_at get_item check_item send send_datagram due
      serve_datagram t = record {
        steps = 5;
        few = omega arith;
        next = record f { udp_sock = some (udp_or o.socket f.udp_sock) };
        served = ground (arith, ==_iff (udp_or o.socket f.udp_sock) (udp_or o.socket f.udp_sock));
        same = refl;
      }

      serve_open :
          (sock : ℕ)
          → is_stream f.config ≡ true
          → sock_at (target_of f.config) f.stream_addr f.stream_sock ≡ some sock
          → Serves o f (some (generation, event)) queue
      unfolding works work_at get_item check_item send write due
      serve_open sock t found = record {
        steps = 5;
        few = omega arith;
        next = f;
        served = ground (arith, sock_at-is_sock _ _ _ sock found);
        same = refl;
      }

      serve_closed :
          is_stream f.config ≡ true
          → sock_at (target_of f.config) f.stream_addr f.stream_sock ≡ none
          → Serves o f (some (generation, event)) queue
      unfolding works work_at get_item check_item send open_stream write due
      serve_closed t found = record {
        steps = 6;
        few = omega arith;
        next = record f { stream_sock = some o.socket; stream_addr = some (target_of f.config) };
        served = ground (arith, is_current-same f enabled, ==_iff o.socket o.socket);
        same = refl;
      }

serve_fresh :
    (o : Outcome) (f : Forwarder) (queue : List Item) (generation : ℕ) (event : ActivityLogSnapshot)
    → o.succeeds ≡ true
    → (generation == f.config.generation && f.config.enabled) ≡ true
    → Serves o f (some (generation, event)) queue
serve_fresh o f queue generation event h e = elim (Bool-cases (is_stream f.config)) [
  | inl t ↦ elim (Option-cases (sock_at (target_of f.config) f.stream_addr f.stream_sock)) [
    | inl closed ↦ serve_closed o f queue generation event h (ground arith) (ground arith) t closed
    | inr (sock, open_at) ↦
        serve_open o f queue generation event h (ground arith) (ground arith) sock t open_at
  ]
  | inr t ↦ serve_datagram o f queue generation event h (ground arith) (ground arith) t
]

serve :
    (o : Outcome) (f : Forwarder) (item : Item) (queue : List Item)
    → o.succeeds ≡ true
    → Serves o f item queue
serve o f none queue h = serve_wake o f queue
serve o f (some (generation, event)) queue h =
    elim (Bool-cases (generation == f.config.generation && f.config.enabled)) [
      | inl e ↦ serve_fresh o f queue generation event h e
      | inr e ↦ serve_stale o f queue generation event e
    ]

due-cons :
    (config : SyslogConfig) (item : Item) (queue : List Item)
    → due config (item ∷ queue) ≡ due config (item ∷ []) ++ due config queue
unfolding due
due-cons config none queue = refl
due-cons config (some (generation, event)) queue = ground arith

-- The pending items are served within some number of steps.
record Drains (o : Outcome) (f : Forwarder) (queue : List Item) : Type 0 where
  steps : ℕ
  bounded : steps ≤ 6 * length queue
  next : Forwarder
  drained : works steps o (ready f queue) ≡ (ready next [], due f.config queue)

drains : (queue : List Item) (o : Outcome) (f : Forwarder) → o.succeeds ≡ true → Drains o f queue
unfolding works due
drains [] o f h = record { steps = 0; bounded = omega arith; next = f; drained = refl }
drains (item ∷ queue) o f h =
    let first = serve o f item queue h in
    let rest = drains queue o first.next h in
    record {
      steps = first.steps + rest.steps;
      bounded = omega (arith, first.few, rest.bounded);
      next = rest.next;
      drained =
          works-add first.steps rest.steps o (ready f (item ∷ queue))
          ∙ rw (first.served, rest.drained, first.same, ← due-cons f.config item queue) refl;
    }

ready_same : (f : Forwarder) → f.thread ≡ at_test → f.stop ≡ false → f ≡ ready f f.queue
ready_same f e k = ground arith

-- With the worker at its loop's test and not told to stop, and a network that does what it is asked
-- for: after at most six steps for each pending item the queue is empty, and what was delivered is
-- exactly what the configuration owes to the items, in their order.
pub works-due :
    (f : Forwarder) (o : Outcome)
    → f.thread ≡ at_test
    → f.stop ≡ false
    → o.succeeds ≡ true
    → (n : ℕ) × (n ≤ 6 * length f.queue)
      × ((works n o f).0.queue ≡ [])
      × ((works n o f).1 ≡ due f.config f.queue)
works-due f o e k h =
    let d = drains f.queue o f h in
    let same : works d.steps o f ≡ (ready d.next [], due f.config f.queue) =
      ap (works d.steps o) (ready_same f e k) ∙ d.drained in
    (
      d.steps,
      d.bounded,
      ap (λ (r : Forwarder × List Delivery). r.0.queue) same,
      ap (λ (r : Forwarder × List Delivery). r.1) same,
    )
