-- ===== src/Syslog/Current.antt =====
-- What a worker that is anywhere in `_run` knows of the configuration.
use api_to_dns.Text.{Text}
use api_to_dns.Prelude.{
  if◌then◌else◌, false, Bool, ltb, sym, ◌||◌, ap, not, ◌==◌, ℕ, suc, ◌≤◌, ◌≡◌, refl, inl, inr, true,
  Option, none, some, List, [], ◌∷◌, All, All-append, All-take, All-drop, All-keep, All-map, arith,
  length, ◌-◌, Bool-cases,
}
use api_to_dns.Syslog.{SyslogConfig}
use api_to_dns.Syslog.Message.{ActivityLogSnapshot, meets_minimum_level, encode_rfc5424}
use api_to_dns.Syslog.Forwarder.{
  is_stream, apply_config, is_alive, Item, Thread, absent, finished, at_test, in_get, took, sending,
  opening, writing, datagram, Forwarder, init, is_event, last_items, resize, resized, configure,
  admit, put_event, put_or, warn_rate_limited, close_stream, close_sockets, ensure_worker,
}

-- An event that the configuration lets through.
abbrev pub Admits : SyslogConfig → ActivityLogSnapshot → Type 0
Admits config event =
    (config.enabled ≡ true) × (meets_minimum_level event.level config.minimum_level ≡ true)

-- Of this generation, then admitted; of an older one, then stale.
abbrev pub Fresh : SyslogConfig → Item → Type 0
Fresh config none = Unit
Fresh config (some (generation, event)) =
    (generation ≤ config.generation) × (generation ≡ config.generation → Admits config event)

pub record Encodes (current : SyslogConfig) (event : ActivityLogSnapshot) (message : Text)
    (config : SyslogConfig) : Type 0 where
  pub encoded : message ≡ encode_rfc5424 event config
  pub not_later : config.generation ≤ current.generation
  pub same : config.generation ≡ current.generation → config ≡ current
  pub let_through : Admits config event

-- The stream is closed, or it is this socket and this configuration's.
abbrev pub Streams : SyslogConfig → Option ℕ → SyslogConfig → Option ℕ → Type 0
Streams current none config sock = Unit
Streams current (some other) config none = config ≡ current
Streams current (some other) config (some sock) = (other ≡ sock) × (config ≡ current)

abbrev pub Placed : SyslogConfig → Option ℕ → Thread → Type 0
Placed current stream (took generation event) = Fresh current (some (generation, event))
Placed current stream (sending event message config) =
    Encodes current event message config × Streams current stream config none
Placed current stream (opening again event message config) =
    Encodes current event message config × (is_stream config ≡ true)
Placed current stream (writing again sock event message config) =
    Encodes current event message config
    × Streams current stream config (some sock)
    × (is_stream config ≡ true)
Placed current stream (datagram sock event message config) =
    Encodes current event message config × (is_stream config ≡ false)
Placed current stream _ = Unit

pub record IsCurrent (f : Forwarder) : Type 0 where
  pub numbered : f.config.generation ≡ f.generation
  pub queued : All (Fresh f.config) f.queue
  pub placed : Placed f.config f.stream_sock f.thread

pub init-IsCurrent : IsCurrent init
init-IsCurrent = record { numbered = refl; queued = tt; placed = tt }

-- A change of the configuration makes all of the older ones' work stale.
module _ (old new : SyslogConfig) (later : new.generation ≡ suc old.generation) where
  pub Fresh-later : (item : Item) → Fresh old item → Fresh new item
  Fresh-later none h = tt
  Fresh-later (some (generation, event)) h = (omega arith, λ e. absurd (omega arith))

  Encodes-later :
      {event : ActivityLogSnapshot} {message : Text} {config : SyslogConfig}
      → Encodes old event message config
      → Encodes new event message config
  Encodes-later h = record {
    encoded = h.encoded;
    not_later = omega arith;
    same = λ e. absurd (omega arith);
    let_through = h.let_through;
  }

  Placed-later :
      (stream : Option ℕ) (thread : Thread) → Placed old stream thread → Placed new none thread
  Placed-later stream absent h = tt
  Placed-later stream finished h = tt
  Placed-later stream at_test h = tt
  Placed-later stream in_get h = tt
  Placed-later stream (took generation event) h = Fresh-later (some (generation, event)) h
  Placed-later stream (sending event message config) h = (Encodes-later h.0, tt)
  Placed-later stream (opening again event message config) h = (Encodes-later h.0, h.1)
  Placed-later stream (writing again sock event message config) h = (Encodes-later h.0, tt, h.2)
  Placed-later stream (datagram sock event message config) h = (Encodes-later h.0, h.1)

-- A closed stream promises nothing.
Placed-closed :
    (current : SyslogConfig) (stream : Option ℕ) (thread : Thread)
    → Placed current stream thread
    → Placed current none thread
Placed-closed current stream absent h = tt
Placed-closed current stream finished h = tt
Placed-closed current stream at_test h = tt
Placed-closed current stream in_get h = tt
Placed-closed current stream (took generation event) h = h
Placed-closed current stream (sending event message config) h = (h.0, tt)
Placed-closed current stream (opening again event message config) h = h
Placed-closed current stream (writing again sock event message config) h = (h.0, tt, h.2)
Placed-closed current stream (datagram sock event message config) h = h

module _ (P : Item → Type 0) where
  All-resize : (n : ℕ) (queue : List Item) → All P queue → All P (resize n queue)
  unfolding resize last_items
  All-resize n queue h = elim (Bool-cases (n == 0)) [
    | inl e ↦ rw e (All-take P _ _ (All-keep P is_event queue h))
    | inr e ↦ rw e (All-take P _ _ (All-drop P _ _ (All-keep P is_event queue h)))
  ]

  pub All-resized : (n : ℕ) (f : Forwarder) → All P f.queue → All P (resized n f).queue
  unfolding resized
  All-resized n f h = elim (Bool-cases (not (n == f.config.queue_size) || not (f.maxsize == n))) [
    | inl e ↦ rw e (All-resize n f.queue h)
    | inr e ↦ rw e h
  ]

pub resized-thread : (n : ℕ) (f : Forwarder) → (resized n f).thread ≡ f.thread
unfolding resized
resized-thread n f = ground arith

ensure_worker-IsCurrent : (f : Forwarder) → IsCurrent f → IsCurrent (ensure_worker f)
unfolding ensure_worker
ensure_worker-IsCurrent f h = elim (Bool-cases (is_alive f.thread)) [
  | inl e ↦ rw e h
  | inr e ↦ rw e (record { numbered = h.numbered; queued = h.queued; placed = tt })
]

apply_config-IsCurrent :
    (config : SyslogConfig) (f : Forwarder) → IsCurrent f → IsCurrent (apply_config config f)
unfolding apply_config close_sockets close_stream
apply_config-IsCurrent config f h = record {
  numbered = refl;
  queued =
      All-map (Fresh f.config)
        (Fresh-later f.config (apply_config config f).config (ap suc (sym h.numbered))) _
        (All-resized (Fresh f.config) config.queue_size f h.queued);
  placed = rw (resized-thread config.queue_size f) (
      Placed-later f.config (apply_config config f).config (ap suc (sym h.numbered)) f.stream_sock
        f.thread h.placed);
}

pub configure-IsCurrent :
    (config : SyslogConfig) (f : Forwarder) → IsCurrent f → IsCurrent (configure config f)
unfolding configure
configure-IsCurrent config f h = ensure_worker-IsCurrent _ (apply_config-IsCurrent config f h)

pub warn_rate_limited-IsCurrent :
    (now : ℕ) (f : Forwarder) → IsCurrent f → IsCurrent (warn_rate_limited now f)
unfolding warn_rate_limited
warn_rate_limited-IsCurrent now f h = elim (Bool-cases (ltb (now - f.last_warn_at) 30)) [
  | inl e ↦ rw e h
  | inr e ↦ rw e (record { numbered = h.numbered; queued = h.queued; placed = h.placed })
]

pub put_or-IsCurrent :
    (full : Forwarder) (item : Item) (f : Forwarder)
    → IsCurrent full
    → Fresh f.config item
    → IsCurrent f
    → IsCurrent (put_or full item f)
put_or-IsCurrent full item f k fresh h = elim (Bool-cases (ltb (length f.queue) f.maxsize)) [
  | inl e ↦ rw e (record {
    numbered = h.numbered;
    queued = All-append (Fresh f.config) f.queue (item ∷ []) h.queued (fresh, tt);
    placed = h.placed;
  })
  | inr e ↦ rw e k
]

pub put_event-IsCurrent :
    (now : ℕ) (event : ℕ × ActivityLogSnapshot) (f : Forwarder)
    → Fresh f.config (some event)
    → IsCurrent f
    → IsCurrent (put_event now event f)
unfolding put_event
put_event-IsCurrent now event f fresh h =
    put_or-IsCurrent _ (some event) f (warn_rate_limited-IsCurrent now f h) fresh h

admitted-Fresh :
    (config : SyslogConfig) (event : ActivityLogSnapshot) (refused : Bool)
    → (refused ≡ false → Admits config event)
    → Fresh config (if refused then none else some (config.generation, event))
admitted-Fresh config event true h = tt
admitted-Fresh config event false h = (omega arith, λ _. h refl)

-- What `enqueue` lets through is of the current generation.
pub admit-Fresh : (event : ActivityLogSnapshot) (f : Forwarder) → Fresh f.config (admit event f)
unfolding admit
admit-Fresh event f = admitted-Fresh f.config event _ (λ h. ground arith)

-- The worker at another place, with the rest as it was.
pub moved-IsCurrent :
    (thread : Thread) (f : Forwarder)
    → IsCurrent f
    → Placed f.config f.stream_sock thread
    → IsCurrent (record f { thread = thread })
moved-IsCurrent thread f h k = record { numbered = h.numbered; queued = h.queued; placed = k }

pub close_stream-IsCurrent : (f : Forwarder) → IsCurrent f → IsCurrent (close_stream f)
unfolding close_stream
close_stream-IsCurrent f h = record {
  numbered = h.numbered;
  queued = h.queued;
  placed = Placed-closed f.config f.stream_sock f.thread h.placed;
}

pub close_sockets-IsCurrent : (f : Forwarder) → IsCurrent f → IsCurrent (close_sockets f)
unfolding close_sockets close_stream
close_sockets-IsCurrent f h = record {
  numbered = h.numbered;
  queued = h.queued;
  placed = Placed-closed f.config f.stream_sock f.thread h.placed;
}
