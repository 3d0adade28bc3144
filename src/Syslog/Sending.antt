-- ===== src/Syslog/Sending.antt =====
-- The steps of the worker that connect and write, and all of its steps.
use mathlib.Core.Path.{subst}
use api_to_dns.Prelude.{
  ◌∙◌, ◌&&◌, ap, not, if◌then◌else◌, ℕ, ◌≡◌, refl, inl, inr, Bool, true, false, Option, none, some,
  arith, Bool-cases, ==_iff,
}
use api_to_dns.Text.{Text}
use api_to_dns.Syslog.{SyslogConfig}
use api_to_dns.Syslog.Message.{ActivityLogSnapshot, frame_tcp}
use api_to_dns.Syslog.Forwarder.{
  Target, target_of, same_target, Thread, absent, finished, at_test, in_get, took, sending, opening,
  writing, datagram, Forwarder, Outcome, is_stream, sock_at, write_or_open, move, is_current,
  is_sock, close_stream, send, open_stream, recover, write, send_datagram, work_at, work,
}
use api_to_dns.Syslog.Current.{
  Encodes, Streams, Placed, IsCurrent, moved-IsCurrent, close_stream-IsCurrent,
}
use api_to_dns.Syslog.Worker.{
  wire, Steps, move-Steps, failed-Steps, stopped_or-Placed, get_item-Steps, check_item-Steps,
}

-- The configuration that the worker holds.
abbrev pub Chosen : (SyslogConfig → Type 0) → Thread → Type 0
Chosen P (sending event message config) = P config
Chosen P (opening again event message config) = P config
Chosen P (writing again sock event message config) = P config
Chosen P (datagram sock event message config) = P config
Chosen P _ = Unit

is_sock-eq : (sock : ℕ) (stream : Option ℕ) → is_sock sock stream ≡ true → stream ≡ some sock
is_sock-eq sock none e = cc
is_sock-eq sock (some other) e = ap some ((==_iff other sock).0 e)

-- A write that succeeds is on the open stream, which is that of the configuration in force.
Streams-same :
    (current config : SyslogConfig) (sock : ℕ) (stream : Option ℕ)
    → Streams current stream config (some sock)
    → is_sock sock stream ≡ true
    → config ≡ current
Streams-same current config sock none h e = cc
Streams-same current config sock (some other) h e = h.1

wire_stream :
    (config : SyslogConfig) (message : Text)
    → is_stream config ≡ true
    → frame_tcp message ≡ wire config message
wire_stream config message e = rw e

wire_datagram :
    (config : SyslogConfig) (message : Text)
    → is_stream config ≡ false
    → message ≡ wire config message
wire_datagram config message e = rw e

module _ (P : SyslogConfig → Type 0) where
  module _ (event : ActivityLogSnapshot) (message : Text) (config : SyslogConfig) (f : Forwarder)
      (h : IsCurrent f) (encodes : Encodes f.config event message config) where
    write_or_open-Placed :
        (target : Target) (addr : Option Target) (stream : Option ℕ)
        → Streams f.config stream config none
        → is_stream config ≡ true
        → Placed f.config stream (write_or_open (sock_at target addr stream) event message config)
    write_or_open-Placed target none stream known t = (encodes, t)
    write_or_open-Placed target (some addr) none known t =
        elim (Bool-cases (same_target addr target)) [
          | inl e ↦ rw e (encodes, t)
          | inr e ↦ rw e (encodes, t)
        ]
    write_or_open-Placed target (some addr) (some sock) known t =
        elim (Bool-cases (same_target addr target)) [
          | inl e ↦ rw e (encodes, (refl, known), t)
          | inr e ↦ rw e (encodes, t)
        ]

    send-Steps :
        (o : Outcome)
        → Streams f.config f.stream_sock config none
        → Steps P f.config (send o event message config f)
    unfolding send
    send-Steps o known = elim (Bool-cases (is_stream config)) [
      | inl e ↦ rw e (
          move-Steps P f.config _ f h
            (write_or_open-Placed (target_of config) f.stream_addr f.stream_sock known e))
      | inr e ↦
          rw e (record { numbered = h.numbered; queued = h.queued; placed = (encodes, e) }, tt)
    ]

    is_current-same : is_current config f ≡ true → config ≡ f.config
    is_current-same e = encodes.same (ground arith)

    open_stream-Steps :
        (again : Bool) (o : Outcome)
        → is_stream config ≡ true
        → Steps P f.config (open_stream again o event message config f)
    unfolding open_stream
    open_stream-Steps again o t = elim (Bool-cases (not o.succeeds)) [
      | inl e ↦ rw e (failed-Steps P o f h)
      | inr e ↦ rw e (elim (Bool-cases (is_current config f)) [
        | inl k ↦ rw k (
          record {
            numbered = h.numbered;
            queued = h.queued;
            placed = (encodes, (refl, is_current-same k), t);
          },
          tt,
        )
        | inr k ↦ rw k (move-Steps P f.config at_test f h tt)
      ])
    ]

    reopening-Steps :
        is_stream config ≡ true
        → Steps P f.config (
            if is_current config f
            then move (opening true event message f.config) f
            else move at_test f)
    reopening-Steps t = elim (Bool-cases (is_current config f)) [
      | inl e ↦ rw e (
          move-Steps P f.config _ f h (
            subst (λ c. Encodes f.config event message c × (is_stream c ≡ true)) (is_current-same e)
              (encodes, t)))
      | inr e ↦ rw e (move-Steps P f.config at_test f h tt)
    ]

  recover-Steps :
      (sock : ℕ) (event : ActivityLogSnapshot) (message : Text) (config : SyslogConfig)
      (f : Forwarder)
      → IsCurrent f
      → Encodes f.config event message config
      → is_stream config ≡ true
      → Steps P f.config (recover sock event message config f)
  unfolding recover
  recover-Steps sock event message config f h encodes t =
      elim (Bool-cases (is_sock sock f.stream_sock)) [
        | inl e ↦ rw e (
            reopening-Steps event message config (close_stream f) (close_stream-IsCurrent f h)
              encodes t)
        | inr e ↦ rw e (reopening-Steps event message config f h encodes t)
      ]

  module _ (sock : ℕ) (o : Outcome) (event : ActivityLogSnapshot) (message : Text)
      (config : SyslogConfig) (f : Forwarder) (h : IsCurrent f)
      (encodes : Encodes f.config event message config) (chosen : P config) where
    write-Steps :
        (again : Bool)
        → Streams f.config f.stream_sock config (some sock)
        → is_stream config ≡ true
        → Steps P f.config (write again sock o event message config f)
    unfolding write
    write-Steps again known t = elim (Bool-cases (o.succeeds && is_sock sock f.stream_sock)) [
      | inl e ↦ rw e (
        moved-IsCurrent at_test f h tt,
        (
          record {
            config = config;
            chosen = chosen;
            sent_to = refl;
            sent = wire_stream config message t ∙ ap (wire config) encodes.encoded;
            let_through = encodes.let_through;
            not_later = encodes.not_later;
            in_force = λ _. Streams-same f.config config sock f.stream_sock known (ground arith);
          },
          tt,
        ),
      )
      | inr e ↦ rw e (elim (Bool-cases again) [
        | inl k ↦ rw k (failed-Steps P o f h)
        | inr k ↦ rw k (recover-Steps sock event message config f h encodes t)
      ])
    ]

    send_datagram-Steps :
        is_stream config ≡ false → Steps P f.config (send_datagram sock o event message config f)
    unfolding send_datagram
    send_datagram-Steps t = elim (Bool-cases (o.succeeds && is_sock sock f.udp_sock)) [
      | inl e ↦ rw e (
        moved-IsCurrent at_test f h tt,
        (
          record {
            config = config;
            chosen = chosen;
            sent_to = refl;
            sent = wire_datagram config message t ∙ ap (wire config) encodes.encoded;
            let_through = encodes.let_through;
            not_later = encodes.not_later;
            in_force = λ k. cc;
          },
          tt,
        ),
      )
      | inr e ↦ rw e (failed-Steps P o f h)
    ]

  work_at-Steps :
      (thread : Thread) (o : Outcome) (f : Forwarder)
      → f.thread ≡ thread
      → Placed f.config f.stream_sock thread
      → Chosen P thread
      → IsCurrent f
      → Steps P f.config (work_at thread o f)
  unfolding work_at
  work_at-Steps absent o f e p c h = (h, tt)
  work_at-Steps finished o f e p c h = (h, tt)
  work_at-Steps at_test o f e p c h =
      move-Steps P f.config _ f h (stopped_or-Placed f.stop f.config f.stream_sock in_get tt)
  work_at-Steps in_get o f e p c h = get_item-Steps P f.queue f refl h
  work_at-Steps (took generation event) o f e p c h = check_item-Steps P generation event f p h
  work_at-Steps (sending event message config) o f e p c h =
      send-Steps event message config f h p.0 o p.1
  work_at-Steps (opening again event message config) o f e p c h =
      open_stream-Steps event message config f h p.0 again o p.1
  work_at-Steps (writing again sock event message config) o f e p c h =
      write-Steps sock o event message config f h p.0 c again p.1 p.2
  work_at-Steps (datagram sock event message config) o f e p c h =
      send_datagram-Steps sock o event message config f h p.0 c p.1

  pub work-Steps :
      (o : Outcome) (f : Forwarder) → Chosen P f.thread → IsCurrent f → Steps P f.config (work o f)
  work-Steps o f c h = work_at-Steps f.thread o f refl h.placed c h
