-- ===== src/Syslog/Forwarder/Queue.antt =====
-- remote_syslog.py: RemoteSyslogForwarder, its state and what happens to it under the lock: the
-- configuration and the queue.
use api_to_dns.Prelude.{
  ℕ, suc, ◌-◌, Bool, true, false, not, ◌&&◌, ◌||◌, Option, none, some, List, [], ◌∷◌, ◌++◌, ltb,
  ◌==◌, length, take, drop, keep, if◌then◌else◌,
}
use api_to_dns.Text.{Text, ◌===◌}
use api_to_dns.Syslog.{SyslogConfig, default_config}
use api_to_dns.Syslog.Message.{ActivityLogSnapshot, meets_minimum_level}

-- (host, port, protocol)
abbrev pub Target : Type 0
Target = Text × ℕ × Text

abbrev pub target_of : SyslogConfig → Target
target_of config = (config.host, config.port, config.protocol)

abbrev pub same_target : Target → Target → Bool
same_target (host, port, protocol) (host', port', protocol') =
    host === host' && port == port' && protocol === protocol'

-- `none` is the wake-up that `stop` sends.
abbrev pub Item : Type 0
Item = Option (ℕ × ActivityLogSnapshot)

-- Where the worker is: no thread, returned from `_run`, at the loop's test, in `get`, with an item in
-- hand, before `_send`, connecting, or writing. `again` says that it is the second attempt.
pub data Thread : Type 0 where
  absent finished at_test in_get : Thread
  took : ℕ → ActivityLogSnapshot → Thread
  sending : ActivityLogSnapshot → Text → SyslogConfig → Thread
  opening : (again : Bool) → ActivityLogSnapshot → Text → SyslogConfig → Thread
  writing : (again : Bool) → ℕ → ActivityLogSnapshot → Text → SyslogConfig → Thread
  datagram : ℕ → ActivityLogSnapshot → Text → SyslogConfig → Thread

pub record Forwarder : Type 0 where
  pub config : SyslogConfig
  pub queue : List Item
  pub maxsize : ℕ
  pub thread : Thread
  pub stop : Bool
  pub udp_sock : Option ℕ
  pub stream_sock : Option ℕ
  pub stream_addr : Option Target
  pub last_warn_at : ℕ
  pub generation : ℕ

-- RemoteSyslogForwarder()
abbrev pub init : Forwarder
init = record {
  config = default_config;
  queue = [];
  maxsize = 1000;
  thread = absent;
  stop = false;
  udp_sock = none;
  stream_sock = none;
  stream_addr = none;
  last_warn_at = 0;
  generation = 0;
}

pub record Delivery : Type 0 where
  pub event : ActivityLogSnapshot
  pub target : Target
  pub bytes : Text

unfoldable pub warn_rate_limited : ℕ → Forwarder → Forwarder
warn_rate_limited now f =
    if ltb (now - f.last_warn_at) 30 then f else record f { last_warn_at = now }

unfoldable pub close_stream : Forwarder → Forwarder
close_stream f = record f { stream_sock = none; stream_addr = none }

unfoldable pub close_sockets : Forwarder → Forwarder
unfolding close_stream
close_sockets f = close_stream (record f { udp_sock = none })

abbrev pub is_alive : Thread → Bool
is_alive absent = false
is_alive finished = false
is_alive _ = true

unfoldable pub ensure_worker : Forwarder → Forwarder
ensure_worker f = if is_alive f.thread then f else record f { stop = false; thread = at_test }

abbrev pub is_event : Item → Bool
is_event none = false
is_event (some event) = true

-- items[-n:]
unfoldable pub last_items : ℕ → List Item → List Item
last_items n items = if n == 0 then items else drop (length items - n) items

abbrev pub at_least_one : ℕ → ℕ
at_least_one n = if ltb n 1 then 1 else n

-- The queue after a change of its bound to n.
unfoldable pub resize : ℕ → List Item → List Item
unfolding last_items
resize n queue = take (at_least_one n) (last_items n (keep is_event queue))

unfoldable pub resized : ℕ → Forwarder → Forwarder
unfolding resize
resized n f =
    if not (n == f.config.queue_size) || not (f.maxsize == n)
    then record f { queue = resize n f.queue; maxsize = at_least_one n }
    else f

-- `configure`, to the start of the worker
unfoldable pub apply_config : SyslogConfig → Forwarder → Forwarder
unfolding resized close_sockets
apply_config config f =
    let next = suc f.generation in
    let applied : SyslogConfig = record config { generation = next } in
    close_sockets (record (resized applied.queue_size f) { config = applied; generation = next })

unfoldable pub configure : SyslogConfig → Forwarder → Forwarder
unfolding apply_config ensure_worker
configure config f = ensure_worker (apply_config config f)

-- queue.put_nowait, with what it does when the queue is full
abbrev pub put_or : Forwarder → Item → Forwarder → Forwarder
put_or full item f =
    if ltb (length f.queue) f.maxsize then record f { queue = f.queue ++ item ∷ [] } else full

-- The first half of `enqueue`: what it puts, if anything.
unfoldable pub admit : ActivityLogSnapshot → Forwarder → Item
admit event f =
    if not f.config.enabled || not (meets_minimum_level event.level f.config.minimum_level)
    then none
    else some (f.config.generation, event)

-- The second half of `enqueue`.
unfoldable pub put_event : ℕ → ℕ × ActivityLogSnapshot → Forwarder → Forwarder
put_event now event f = put_or (warn_rate_limited now f) (some event) f

abbrev pub put_admitted : ℕ → Item → Forwarder → Forwarder
put_admitted now none f = f
put_admitted now (some event) f = put_event now event f

-- `enqueue`, where no other thread comes between its halves
unfoldable pub enqueue : ℕ → ActivityLogSnapshot → Forwarder → Forwarder
unfolding admit put_event
enqueue now event f = put_admitted now (admit event f) f
