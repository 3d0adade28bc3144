-- ===== src/Syslog/Held.antt =====
-- The configuration that the worker holds is one that was in force.
use mathlib.Core.Path.{subst}
use api_to_dns.Prelude.{
  ◌≡◌, refl, sym, ℕ, suc, inl, inr, Bool, true, false, not, ◌&&◌, ◌||◌, ◌==◌, Option, none, some,
  List, [], ◌∷◌, All, arith, Bool-cases, if◌then◌else◌,
}
use api_to_dns.Text.{Text}
use api_to_dns.Syslog.{SyslogConfig}
use api_to_dns.Syslog.Message.{ActivityLogSnapshot}
use api_to_dns.Syslog.Forwarder.{
  is_sock, Item, Thread, absent, finished, at_test, in_get, took, sending, opening, writing,
  datagram, Forwarder, Delivery, Outcome, configure, apply_config, resized, ensure_worker,
  close_sockets, close_stream, put_event, warn_rate_limited, write_or_open, get_item, check_item,
  send, open_stream, recover, write, send_datagram, work_at, begin_stop, end_stop, is_alive,
  is_current, is_sock, is_stream, move,
}
use api_to_dns.Syslog.System.{
  Action, configured, enqueuing, putting, working, stopping, stopped, System, nth, put_item, act,
  run,
}
use api_to_dns.Syslog.Sending.{Chosen}
use api_to_dns.Syslog.Schedules.{
  work_at-config, put_item-config, configure-config, begin_stop-config, end_stop-config,
}
use api_to_dns.Syslog.Current.{resized-thread}

module _ (P : SyslogConfig → Type 0) where
  pub record IsChosen (f : Forwarder) : Type 0 where
    pub in_force : P f.config
    pub held : Chosen P f.thread

  abbrev Leaves : Forwarder × List Delivery → Type 0
  Leaves result = Chosen P (result.0).thread

  if-Chosen : (b : Bool) (x y : Thread) → Chosen P x → Chosen P y → Chosen P (if b then x else y)
  if-Chosen true x y h k = h
  if-Chosen false x y h k = k

  get_item-Leaves : (queue : List Item) (f : Forwarder) → Leaves (get_item queue f)
  unfolding get_item
  get_item-Leaves [] f = tt
  get_item-Leaves (none ∷ queue) f = if-Chosen f.stop finished at_test tt tt
  get_item-Leaves (some (generation, event) ∷ queue) f = tt

  write_or_open-Chosen :
      (sock : Option ℕ) (event : ActivityLogSnapshot) (message : Text) (config : SyslogConfig)
      → P config
      → Chosen P (write_or_open sock event message config)
  write_or_open-Chosen none event message config h = h
  write_or_open-Chosen (some sock) event message config h = h

  module _ (event : ActivityLogSnapshot) (message : Text) (config : SyslogConfig) (f : Forwarder)
      (h : P f.config) where
    reopened-Leaves :
        (g : Forwarder)
        → g.config ≡ f.config
        → Leaves (
            if is_current config g
            then move (opening true event message g.config) g
            else move at_test g)
    reopened-Leaves g same = elim (Bool-cases (is_current config g)) [
      | inl e ↦ rw e (subst P (sym same) h)
      | inr e ↦ rw e tt
    ]

    recover-Leaves : (sock : ℕ) → Leaves (recover sock event message config f)
    unfolding recover close_stream
    recover-Leaves sock = elim (Bool-cases (is_sock sock f.stream_sock)) [
      | inl e ↦ rw e (reopened-Leaves (close_stream f) refl)
      | inr e ↦ rw e (reopened-Leaves f refl)
    ]

    write-Leaves :
        (again : Bool) (sock : ℕ) (o : Outcome) → Leaves (write again sock o event message config f)
    unfolding write
    write-Leaves again sock o = elim (Bool-cases (o.succeeds && is_sock sock f.stream_sock)) [
      | inl e ↦ rw e tt
      | inr e ↦
          rw e (elim (Bool-cases again) [ inl k ↦ rw k tt | inr k ↦ rw k (recover-Leaves sock) ])
    ]

    open_stream-Leaves :
        (again : Bool) (o : Outcome)
        → P config
        → Leaves (open_stream again o event message config f)
    unfolding open_stream
    open_stream-Leaves again o c = elim (Bool-cases (not o.succeeds)) [
      | inl e ↦ rw e tt
      | inr e ↦ rw e (elim (Bool-cases (is_current config f)) [ inl k ↦ rw k c | inr k ↦ rw k tt ])
    ]

    send-Leaves : (o : Outcome) → P config → Leaves (send o event message config f)
    unfolding send
    send-Leaves o c = elim (Bool-cases (is_stream config)) [
      | inl e ↦ rw e (write_or_open-Chosen _ event message config c)
      | inr e ↦ rw e c
    ]

    send_datagram-Leaves :
        (sock : ℕ) (o : Outcome) → Leaves (send_datagram sock o event message config f)
    unfolding send_datagram
    send_datagram-Leaves sock o = elim (Bool-cases (o.succeeds && is_sock sock f.udp_sock)) [
      | inl e ↦ rw e tt
      | inr e ↦ rw e tt
    ]

  check_item-Leaves :
      (generation : ℕ) (event : ActivityLogSnapshot) (f : Forwarder)
      → P f.config
      → Leaves (check_item generation event f)
  unfolding check_item
  check_item-Leaves generation event f p =
      elim (Bool-cases (not (generation == f.config.generation) || not f.config.enabled)) [
        | inl e ↦ rw e tt
        | inr e ↦ rw e p
      ]

  work_at-Leaves :
      (thread : Thread) (o : Outcome) (f : Forwarder)
      → P f.config
      → Chosen P f.thread
      → Chosen P thread
      → Leaves (work_at thread o f)
  unfolding work_at
  work_at-Leaves absent o f p h c = h
  work_at-Leaves finished o f p h c = h
  work_at-Leaves at_test o f p h c = if-Chosen f.stop finished in_get tt tt
  work_at-Leaves in_get o f p h c = get_item-Leaves f.queue f
  work_at-Leaves (took generation event) o f p h c = check_item-Leaves generation event f p
  work_at-Leaves (sending event message config) o f p h c = send-Leaves event message config f p o c
  work_at-Leaves (opening again event message config) o f p h c =
      open_stream-Leaves event message config f p again o c
  work_at-Leaves (writing again sock event message config) o f p h c =
      write-Leaves event message config f p again sock o
  work_at-Leaves (datagram sock event message config) o f p h c =
      send_datagram-Leaves event message config f p sock o

  -- `configure` leaves the worker where it is, or starts one.
  configure-Chosen :
      (config : SyslogConfig) (f : Forwarder)
      → Chosen P f.thread
      → Chosen P (configure config f).thread
  unfolding configure ensure_worker apply_config close_sockets close_stream
  configure-Chosen config f h =
      let same = resized-thread config.queue_size f in
      elim (Bool-cases (is_alive (resized config.queue_size f).thread)) [
        | inl e ↦ rw e (subst (Chosen P) (sym same) h)
        | inr e ↦ rw e tt
      ]

  put_item-thread :
      (now : ℕ) (item : Item) (f : Forwarder) → (put_item now item f).thread ≡ f.thread
  unfolding put_event warn_rate_limited
  put_item-thread now none f = refl
  put_item-thread now (some event) f = ground arith

  begin_stop-thread : (f : Forwarder) → (begin_stop f).0.thread ≡ f.thread
  unfolding begin_stop close_sockets close_stream
  begin_stop-thread f = ground arith

  end_stop-Chosen : (f : Forwarder) → Chosen P f.thread → Chosen P (end_stop f).thread
  unfolding end_stop close_sockets close_stream
  end_stop-Chosen f h = elim (Bool-cases (is_alive f.thread)) [ inl e ↦ rw e h | inr e ↦ rw e tt ]

  -- what an action may set
  abbrev pub Sets : Action → Type 0
  Sets (configured config) = (n : ℕ) → P (record config { generation = n })
  Sets _ = Unit

  if-IsChosen :
      (b : Bool) (s t : System)
      → IsChosen s.forwarder
      → IsChosen t.forwarder
      → IsChosen (if b then s else t).forwarder
  if-IsChosen true s t h k = h
  if-IsChosen false s t h k = k

  same-IsChosen :
      (f g : Forwarder) → g.config ≡ f.config → P f.config → Chosen P g.thread → IsChosen g
  same-IsChosen f g same p h = record { in_force = subst P (sym same) p; held = h }

  act-IsChosen :
      (action : Action) (s : System)
      → Sets action
      → IsChosen s.forwarder
      → IsChosen (act action s).0.forwarder
  unfolding act
  act-IsChosen (configured config) s a h = if-IsChosen s.joining s _ h (record {
    in_force = subst P (sym (configure-config config s.forwarder)) (a (suc s.forwarder.generation));
    held = configure-Chosen config s.forwarder h.held;
  })
  act-IsChosen (enqueuing event) s a h = h
  act-IsChosen (putting now n) s a h =
      let item = nth n s.admitted in
      same-IsChosen s.forwarder _ (put_item-config now item s.forwarder) h.in_force
        (subst (Chosen P) (sym (put_item-thread now item s.forwarder)) h.held)
  act-IsChosen (working o) s a h =
      same-IsChosen s.forwarder _ (work_at-config s.forwarder.thread o s.forwarder) h.in_force
        (work_at-Leaves s.forwarder.thread o s.forwarder h.in_force h.held h.held)
  act-IsChosen stopping s a h = if-IsChosen s.joining s _ h (
      same-IsChosen s.forwarder (begin_stop s.forwarder).0 (begin_stop-config s.forwarder)
        h.in_force (subst (Chosen P) (sym (begin_stop-thread s.forwarder)) h.held))
  act-IsChosen stopped s a h =
      if-IsChosen s.joining _ s
        (same-IsChosen s.forwarder (end_stop s.forwarder) (end_stop-config s.forwarder) h.in_force
          (end_stop-Chosen s.forwarder h.held))
        h

  pub run-IsChosen :
      (actions : List Action) (s : System)
      → All Sets actions
      → IsChosen s.forwarder
      → IsChosen (run actions s).0.forwarder
  unfolding run
  run-IsChosen [] s a h = h
  run-IsChosen (action ∷ actions) s a h =
      run-IsChosen actions (act action s).0 a.1 (act-IsChosen action s a.0 h)
