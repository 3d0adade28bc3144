-- ===== src/Syslog/Bounded.antt =====
-- The size of the queue, and what a change of the configuration does to what is pending.
use api_to_dns.Prelude.{
  length-take_le, ℕ, ◌≤◌, ◌≡◌, refl, none, some, List, [], ◌∷◌, arith, length, length-append,
}
use api_to_dns.Syslog.{SyslogConfig}
use api_to_dns.Syslog.Forwarder.{
  Item, Thread, absent, finished, at_test, in_get, took, sending, opening, writing, datagram,
  Forwarder, Outcome, at_least_one, resize, resized, configure, apply_config, ensure_worker,
  close_sockets, close_stream, put_event, warn_rate_limited, get_item, check_item, send,
  open_stream, recover, write, send_datagram, work_at, begin_stop, end_stop,
}
use api_to_dns.Syslog.System.{
  Action, configured, enqueuing, putting, working, stopping, stopped, System, started, nth,
  put_item, act, run,
}

pub record IsBounded (f : Forwarder) : Type 0 where
  pub fits : length f.queue ≤ f.maxsize
  pub sized : f.maxsize ≡ at_least_one f.config.queue_size

length-resize : (n : ℕ) (queue : List Item) → length (resize n queue) ≤ at_least_one n
unfolding resize
length-resize n queue = length-take_le _ _

configure-IsBounded :
    (config : SyslogConfig) (f : Forwarder) → IsBounded f → IsBounded (configure config f)
unfolding configure apply_config resized close_sockets close_stream ensure_worker
configure-IsBounded config f h = ground (arith, length-resize config.queue_size f.queue)

put_item-IsBounded :
    (now : ℕ) (item : Item) (f : Forwarder) → IsBounded f → IsBounded (put_item now item f)
unfolding put_event warn_rate_limited
put_item-IsBounded now none f h = h
put_item-IsBounded now (some event) f h = ground (arith, length-append f.queue (some event ∷ []))

get_item-IsBounded :
    (queue : List Item) (f : Forwarder)
    → length queue ≤ f.maxsize
    → IsBounded f
    → IsBounded (get_item queue f).0
unfolding get_item
get_item-IsBounded [] f k h = ground arith
get_item-IsBounded (none ∷ queue) f k h = ground arith
get_item-IsBounded (some (generation, event) ∷ queue) f k h = ground arith

work_at-IsBounded :
    (thread : Thread) (o : Outcome) (f : Forwarder) → IsBounded f → IsBounded (work_at thread o f).0
unfolding work_at check_item send open_stream write recover close_stream send_datagram
    warn_rate_limited
work_at-IsBounded absent o f h = h
work_at-IsBounded finished o f h = h
work_at-IsBounded at_test o f h = ground arith
work_at-IsBounded in_get o f h = get_item-IsBounded f.queue f h.fits h
work_at-IsBounded (took generation event) o f h = ground arith
work_at-IsBounded (sending event message config) o f h = ground arith
work_at-IsBounded (opening again event message config) o f h = ground arith
work_at-IsBounded (writing again sock event message config) o f h = ground arith
work_at-IsBounded (datagram sock event message config) o f h = ground arith

begin_stop-IsBounded : (f : Forwarder) → IsBounded f → IsBounded (begin_stop f).0
unfolding begin_stop close_sockets close_stream
begin_stop-IsBounded f h = ground (arith, length-append f.queue (none ∷ []))

end_stop-IsBounded : (f : Forwarder) → IsBounded f → IsBounded (end_stop f)
unfolding end_stop close_sockets close_stream
end_stop-IsBounded f h = ground arith

act-IsBounded :
    (action : Action) (s : System) → IsBounded s.forwarder → IsBounded (act action s).0.forwarder
unfolding act
act-IsBounded (configured config) s h = ground (arith, configure-IsBounded config s.forwarder h)
act-IsBounded (enqueuing event) s h = h
act-IsBounded (putting now n) s h = put_item-IsBounded now (nth n s.admitted) s.forwarder h
act-IsBounded (working o) s h = work_at-IsBounded s.forwarder.thread o s.forwarder h
act-IsBounded stopping s h = ground (arith, begin_stop-IsBounded s.forwarder h)
act-IsBounded stopped s h = ground (arith, end_stop-IsBounded s.forwarder h)

run_from-IsBounded :
    (actions : List Action) (s : System)
    → IsBounded s.forwarder
    → IsBounded (run actions s).0.forwarder
unfolding run
run_from-IsBounded [] s h = h
run_from-IsBounded (action ∷ actions) s h =
    run_from-IsBounded actions (act action s).0 (act-IsBounded action s h)

-- After any schedule the queue holds no more items than its bound, which is the queue size of the
-- configuration in force, and at least one.
pub run-IsBounded : (actions : List Action) → IsBounded (run actions started).0.forwarder
run-IsBounded actions =
    run_from-IsBounded actions started (record { fits = omega arith; sized = refl })
