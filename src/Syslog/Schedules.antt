-- ===== src/Syslog/Schedules.antt =====
-- The forwarder under every schedule of its worker, of `enqueue`, `configure` and `stop`.
use mathlib.Core.Path.{subst}
use api_to_dns.Prelude.{
  if◌then◌else◌, ◌∙◌, Bool, ℕ, zero, suc, ◌≡◌, refl, sym, ap, inl, inr, true, false, none, some,
  List, [], ◌∷◌, All, All-append, All-map, arith, Bool-cases,
}
use api_to_dns.Syslog.{SyslogConfig}
use api_to_dns.Syslog.Message.{ActivityLogSnapshot}
use api_to_dns.Syslog.Forwarder.{
  is_absent, Item, Thread, absent, finished, at_test, in_get, took, sending, opening, writing,
  datagram, Forwarder, Outcome, configure, apply_config, resized, ensure_worker, close_sockets,
  close_stream, admit, put_event, warn_rate_limited, get_item, check_item, send, open_stream,
  recover, write, send_datagram, work_at, work, begin_stop, end_stop, is_alive,
}
use api_to_dns.Syslog.System.{
  Action, configured, enqueuing, putting, working, stopping, stopped, System, started, admit_item,
  nth, without, put_item, act, run,
}
use api_to_dns.Syslog.Current.{
  Fresh, Fresh-later, IsCurrent, init-IsCurrent, configure-IsCurrent, put_event-IsCurrent,
  put_or-IsCurrent, admit-Fresh, close_sockets-IsCurrent, moved-IsCurrent,
}
use api_to_dns.Syslog.Sending.{Chosen, work-Steps}

-- The events that wait for the second half of `enqueue` are known too.
pub record IsKnown (s : System) : Type 0 where
  pub current : IsCurrent s.forwarder
  pub waiting : All (λ event. Fresh s.forwarder.config (some event)) s.admitted

pub started-IsKnown : IsKnown started
started-IsKnown = record { current = init-IsCurrent; waiting = tt }

get_item-config : (queue : List Item) (f : Forwarder) → (get_item queue f).0.config ≡ f.config
unfolding get_item
get_item-config [] f = refl
get_item-config (none ∷ queue) f = refl
get_item-config (some (generation, event) ∷ queue) f = refl

pub work_at-config :
    (thread : Thread) (o : Outcome) (f : Forwarder) → (work_at thread o f).0.config ≡ f.config
unfolding work_at check_item send open_stream write recover close_stream send_datagram
    warn_rate_limited
work_at-config absent o f = refl
work_at-config finished o f = refl
work_at-config at_test o f = refl
work_at-config in_get o f = get_item-config f.queue f
work_at-config (took generation event) o f = ground arith
work_at-config (sending event message config) o f = ground arith
work_at-config (opening again event message config) o f = ground arith
work_at-config (writing again sock event message config) o f = ground arith
work_at-config (datagram sock event message config) o f = ground arith

pub put_item-config :
    (now : ℕ) (item : Item) (f : Forwarder) → (put_item now item f).config ≡ f.config
unfolding put_event warn_rate_limited
put_item-config now none f = refl
put_item-config now (some event) f = ground arith

pub configure-config :
    (config : SyslogConfig) (f : Forwarder)
    → (configure config f).config ≡ record config { generation = suc f.generation }
unfolding configure apply_config close_sockets close_stream ensure_worker
configure-config config f = ground arith

pub configure-queue :
    (config : SyslogConfig) (f : Forwarder)
    → (configure config f).queue ≡ (resized config.queue_size f).queue
unfolding configure apply_config close_sockets close_stream ensure_worker
configure-queue config f = ground arith

module _ (P : ℕ × ActivityLogSnapshot → Type 0) where
  without-All : (n : ℕ) (xs : List (ℕ × ActivityLogSnapshot)) → All P xs → All P (without n xs)
  without-All n [] h = tt
  without-All zero (x ∷ xs) h = h.1
  without-All (suc n) (x ∷ xs) h = (h.0, without-All n xs h.1)

nth-Fresh :
    (config : SyslogConfig) (n : ℕ) (xs : List (ℕ × ActivityLogSnapshot))
    → All (λ event. Fresh config (some event)) xs
    → Fresh config (nth n xs)
nth-Fresh config n [] h = tt
nth-Fresh config zero (x ∷ xs) h = h.0
nth-Fresh config (suc n) (x ∷ xs) h = nth-Fresh config n xs h.1

admit_item-Fresh :
    (config : SyslogConfig) (item : Item) (xs : List (ℕ × ActivityLogSnapshot))
    → Fresh config item
    → All (λ event. Fresh config (some event)) xs
    → All (λ event. Fresh config (some event)) (admit_item item xs)
admit_item-Fresh config none xs k h = h
admit_item-Fresh config (some event) xs k h =
    All-append (λ event. Fresh config (some event)) xs (event ∷ []) h (k, tt)

put_item-IsCurrent :
    (now : ℕ) (item : Item) (f : Forwarder)
    → Fresh f.config item
    → IsCurrent f
    → IsCurrent (put_item now item f)
put_item-IsCurrent now none f k h = h
put_item-IsCurrent now (some event) f k h = put_event-IsCurrent now event f k h

pub begin_stop-config : (f : Forwarder) → (begin_stop f).0.config ≡ f.config
unfolding begin_stop close_sockets close_stream
begin_stop-config f = ground arith

begin_stop-IsCurrent : (f : Forwarder) → IsCurrent f → IsCurrent (begin_stop f).0
unfolding begin_stop
begin_stop-IsCurrent f h = elim (Bool-cases (is_absent f.thread)) [
  | inl e ↦ rw e (close_sockets-IsCurrent f h)
  | inr e ↦ rw e (
      let waiting : IsCurrent (record f { stop = true }) = record {
        numbered = h.numbered;
        queued = h.queued;
        placed = h.placed;
      } in
      put_or-IsCurrent _ none _ waiting tt waiting)
]

pub end_stop-config : (f : Forwarder) → (end_stop f).config ≡ f.config
unfolding end_stop close_sockets close_stream
end_stop-config f = ground arith

running_again-IsCurrent : (f : Forwarder) → IsCurrent f → IsCurrent (record f { stop = false })
running_again-IsCurrent f h = record { numbered = h.numbered; queued = h.queued; placed = h.placed }

end_stop-IsCurrent : (f : Forwarder) → IsCurrent f → IsCurrent (end_stop f)
unfolding end_stop
end_stop-IsCurrent f h = elim (Bool-cases (is_alive f.thread)) [
  | inl e ↦ rw e (running_again-IsCurrent _ (close_sockets-IsCurrent f h))
  | inr e ↦
      rw e (running_again-IsCurrent _ (close_sockets-IsCurrent _ (moved-IsCurrent absent f h tt)))
]

-- A system whose configuration is another's still knows the events that wait.
same-IsKnown :
    (s : System) (f : Forwarder) (joining : Bool)
    → IsKnown s
    → f.config ≡ s.forwarder.config
    → IsCurrent f
    → IsKnown (record { forwarder = f; admitted = s.admitted; joining = joining })
same-IsKnown s f joining h e k = record {
  current = k;
  waiting = subst (λ c. All (λ event. Fresh c (some event)) s.admitted) (sym e) h.waiting;
}

choice-IsKnown : (b : Bool) (s t : System) → IsKnown s → IsKnown t → IsKnown (if b then s else t)
choice-IsKnown true s t h k = h
choice-IsKnown false s t h k = k

Chosen-Unit : (thread : Thread) → Chosen (λ c. Unit) thread
Chosen-Unit absent = tt
Chosen-Unit finished = tt
Chosen-Unit at_test = tt
Chosen-Unit in_get = tt
Chosen-Unit (took generation event) = tt
Chosen-Unit (sending event message config) = tt
Chosen-Unit (opening again event message config) = tt
Chosen-Unit (writing again sock event message config) = tt
Chosen-Unit (datagram sock event message config) = tt

-- Every action keeps what is known.
pub act-IsKnown : (action : Action) (s : System) → IsKnown s → IsKnown (act action s).0
unfolding act
act-IsKnown (configured config) s h = choice-IsKnown s.joining s _ h (record {
  current = configure-IsCurrent config s.forwarder h.current;
  waiting =
      All-map _
        (λ event.
          Fresh-later s.forwarder.config (configure config s.forwarder).config
            (ap SyslogConfig.generation (configure-config config s.forwarder)
              ∙ ap suc (sym h.current.numbered))
            (some event))
        s.admitted h.waiting;
})
act-IsKnown (enqueuing event) s h = record {
  current = h.current;
  waiting =
      admit_item-Fresh s.forwarder.config (admit event s.forwarder) s.admitted
        (admit-Fresh event s.forwarder) h.waiting;
}
act-IsKnown (putting now n) s h = record {
  current =
      put_item-IsCurrent now (nth n s.admitted) s.forwarder
        (nth-Fresh s.forwarder.config n s.admitted h.waiting) h.current;
  waiting =
      subst (λ c. All (λ event. Fresh c (some event)) (without n s.admitted))
        (sym (put_item-config now (nth n s.admitted) s.forwarder))
        (without-All (λ event. Fresh s.forwarder.config (some event)) n s.admitted h.waiting);
}
act-IsKnown (working o) s h =
    same-IsKnown s (work o s.forwarder).0 s.joining h
      (work_at-config s.forwarder.thread o s.forwarder)
      (work-Steps (λ c. Unit) o s.forwarder (Chosen-Unit s.forwarder.thread) h.current).0
act-IsKnown stopping s h = choice-IsKnown s.joining s _ h (
    same-IsKnown s (begin_stop s.forwarder).0 _ h (begin_stop-config s.forwarder)
      (begin_stop-IsCurrent s.forwarder h.current))
act-IsKnown stopped s h =
    choice-IsKnown s.joining _ s
      (same-IsKnown s (end_stop s.forwarder) false h (end_stop-config s.forwarder)
        (end_stop-IsCurrent s.forwarder h.current))
      h

pub run-IsKnown : (actions : List Action) (s : System) → IsKnown s → IsKnown (run actions s).0
unfolding run
run-IsKnown [] s h = h
run-IsKnown (action ∷ actions) s h = run-IsKnown actions (act action s).0 (act-IsKnown action s h)
