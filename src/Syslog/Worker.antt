-- ===== src/Syslog/Worker.antt =====
-- The steps of the worker, each from what the one before it knows of the configuration.
use mathlib.Core.Path.{subst}
use api_to_dns.Prelude.{
  ◌||◌, ◌==◌, not, if◌then◌else◌, ℕ, ◌≤◌, ◌≡◌, refl, inl, inr, Bool, true, false, Option, none,
  some, List, [], ◌∷◌, All, arith, Bool-cases,
}
use api_to_dns.Text.{Text}
use api_to_dns.Syslog.{SyslogConfig}
use api_to_dns.Syslog.Message.{ActivityLogSnapshot, encode_rfc5424, frame_tcp}
use api_to_dns.Syslog.Forwarder.{
  target_of, Item, Thread, finished, at_test, Forwarder, Delivery, Outcome, is_stream, move, failed,
  get_item, check_item,
}
use api_to_dns.Syslog.Current.{
  Admits, Fresh, Streams, Placed, IsCurrent, moved-IsCurrent, warn_rate_limited-IsCurrent,
}

-- What goes over the wire for a message.
abbrev pub wire : SyslogConfig → Text → Text
wire config message = if is_stream config then frame_tcp message else message

module _ (P : SyslogConfig → Type 0) where
  -- A delivery is the message of an event that one of the given configurations lets through, to its
  -- destination, and over a stream that is the configuration in force.
  pub record IsSent (current : SyslogConfig) (d : Delivery) : Type 0 where
    pub config : SyslogConfig
    pub chosen : P config
    pub sent_to : d.target ≡ target_of config
    pub sent : d.bytes ≡ wire config (encode_rfc5424 d.event config)
    pub let_through : Admits config d.event
    pub not_later : config.generation ≤ current.generation
    pub in_force : is_stream config ≡ true → config ≡ current

  -- A step of the worker keeps what is known, and delivers such messages only.
  abbrev pub Steps : SyslogConfig → Forwarder × List Delivery → Type 0
  Steps current (f, sent) = IsCurrent f × All (IsSent current) sent

  pub move-Steps :
      (current : SyslogConfig) (thread : Thread) (f : Forwarder)
      → IsCurrent f
      → Placed f.config f.stream_sock thread
      → Steps current (move thread f)
  move-Steps current thread f h k = (moved-IsCurrent thread f h k, tt)

  pub failed-Steps : (o : Outcome) (f : Forwarder) → IsCurrent f → Steps f.config (failed o f)
  failed-Steps o f h = move-Steps f.config at_test _ (warn_rate_limited-IsCurrent o.now f h) tt

popped-IsCurrent :
    (item : Item) (queue : List Item) (f : Forwarder)
    → f.queue ≡ item ∷ queue
    → IsCurrent f
    → Fresh f.config item × IsCurrent (record f { queue = queue })
popped-IsCurrent item queue f e h =
    let both : All (Fresh f.config) (item ∷ queue) = subst (All (Fresh f.config)) e h.queued in
    (both.0, record { numbered = h.numbered; queued = both.1; placed = h.placed })

pub stopped_or-Placed :
    (stop : Bool) (current : SyslogConfig) (stream : Option ℕ) (thread : Thread)
    → Placed current stream thread
    → Placed current stream (if stop then finished else thread)
stopped_or-Placed true current stream thread h = tt
stopped_or-Placed false current stream thread h = h

Streams-fresh : (config : SyslogConfig) (stream : Option ℕ) → Streams config stream config none
Streams-fresh config none = tt
Streams-fresh config (some sock) = refl

module _ (P : SyslogConfig → Type 0) where
  pub get_item-Steps :
      (queue : List Item) (f : Forwarder)
      → f.queue ≡ queue
      → IsCurrent f
      → Steps P f.config (get_item queue f)
  unfolding get_item
  get_item-Steps [] f e h = move-Steps P f.config at_test f h tt
  get_item-Steps (none ∷ queue) f e h =
      move-Steps P f.config _ _ (popped-IsCurrent none queue f e h).1
        (stopped_or-Placed f.stop f.config f.stream_sock at_test tt)
  get_item-Steps (some item ∷ queue) f e h =
      let (fresh, rest) = popped-IsCurrent (some item) queue f e h in
      move-Steps P f.config _ _ rest fresh

  pub check_item-Steps :
      (generation : ℕ) (event : ActivityLogSnapshot) (f : Forwarder)
      → Fresh f.config (some (generation, event))
      → IsCurrent f
      → Steps P f.config (check_item generation event f)
  unfolding check_item
  check_item-Steps generation event f fresh h =
      elim (Bool-cases (not (generation == f.config.generation) || not f.config.enabled)) [
        | inl e ↦ rw e (move-Steps P f.config at_test f h tt)
        | inr e ↦ rw e (
            move-Steps P f.config _ f h (
              record {
                encoded = refl;
                not_later = omega arith;
                same = λ _. refl;
                let_through = fresh.1 (ground arith);
              },
              Streams-fresh f.config f.stream_sock,
            ))
      ]
