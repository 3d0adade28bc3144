-- ===== src/Syslog/Forwarder.antt =====
-- remote_syslog.py: RemoteSyslogForwarder. What happens under the lock, or in one call of the queue
-- or of a socket, is one step; the worker's position in `_run` is its thread's state. An outcome says
-- what the network does, and gives the next socket's number and the clock. A write on a socket that
-- has been closed fails. `stop` waits between two steps; `configure` meanwhile is left out, as
-- `stop` is called at shutdown.
mod Queue
unfoldable pub use Queue.*
use api_to_dns.Prelude.{
  ℕ, suc, ◌-◌, Bool, true, false, not, ◌&&◌, ◌||◌, Option, none, some, List, [], ◌∷◌, ◌++◌, ltb,
  ◌==◌, length, take, drop, keep, if◌then◌else◌,
}
use api_to_dns.Text.{Text, str, ◌===◌, contains}
use api_to_dns.Syslog.{SyslogConfig, default_config}
use api_to_dns.Syslog.Message.{ActivityLogSnapshot, meets_minimum_level, encode_rfc5424, frame_tcp}

pub record Outcome : Type 0 where
  pub succeeds : Bool
  pub socket : ℕ
  pub now : ℕ

abbrev pub move : Thread → Forwarder → Forwarder × List Delivery
move thread f = (record f { thread = thread }, [])

-- `except Exception` of `_run`
abbrev pub failed : Outcome → Forwarder → Forwarder × List Delivery
failed o f = move at_test (warn_rate_limited o.now f)

unfoldable pub get_item : List Item → Forwarder → Forwarder × List Delivery
get_item [] f = move at_test f
get_item (none ∷ queue) f = move (if f.stop then finished else at_test) (record f { queue = queue })
get_item (some (generation, event) ∷ queue) f =
    move (took generation event) (record f { queue = queue })

-- From the item in hand to `_send`.
unfoldable pub check_item : ℕ → ActivityLogSnapshot → Forwarder → Forwarder × List Delivery
check_item generation event f =
    if not (generation == f.config.generation) || not f.config.enabled
    then move at_test f
    else move (sending event (encode_rfc5424 event f.config) f.config) f

abbrev pub is_stream : SyslogConfig → Bool
is_stream config = contains (str "tcp" ∷ str "tls" ∷ []) config.protocol

-- self._stream_sock if self._stream_addr == target else None
abbrev pub sock_at : Target → Option Target → Option ℕ → Option ℕ
sock_at target none sock = none
sock_at target (some addr) sock = if same_target addr target then sock else none

abbrev pub write_or_open : Option ℕ → ActivityLogSnapshot → Text → SyslogConfig → Thread
write_or_open none = opening false
write_or_open (some sock) = writing false sock

-- `_send`, to the write or the connection
abbrev pub udp_or : ℕ → Option ℕ → ℕ
udp_or socket none = socket
udp_or socket (some sock) = sock

unfoldable pub send :
    Outcome → ActivityLogSnapshot → Text → SyslogConfig → Forwarder → Forwarder × List Delivery
send o event message config f =
    if is_stream config
    then move
        (write_or_open (sock_at (target_of config) f.stream_addr f.stream_sock) event message
          config)
        f
    else move (datagram (udp_or o.socket f.udp_sock) event message config)
        (record f { udp_sock = some (udp_or o.socket f.udp_sock) })

abbrev pub is_current : SyslogConfig → Forwarder → Bool
is_current config f =
    config.generation == f.config.generation
    && f.config.enabled
    && same_target (target_of f.config) (target_of config)

-- `_open_stream` and `_install_stream`
unfoldable pub open_stream :
    Bool
    → Outcome
    → ActivityLogSnapshot
    → Text
    → SyslogConfig
    → Forwarder
    → Forwarder × List Delivery
open_stream again o event message config f =
    if not o.succeeds
    then failed o f
    else if is_current config f
    then move (writing again o.socket event message config)
        (record f { stream_sock = some o.socket; stream_addr = some (target_of config) })
    else move at_test f

abbrev pub is_sock : ℕ → Option ℕ → Bool
is_sock sock none = false
is_sock sock (some other) = other == sock

-- `except OSError` of `_send_stream`
unfoldable pub recover :
    ℕ → ActivityLogSnapshot → Text → SyslogConfig → Forwarder → Forwarder × List Delivery
unfolding close_stream
recover sock event message config f =
    let closed = if is_sock sock f.stream_sock then close_stream f else f in
    if is_current config closed
    then move (opening true event message closed.config) closed
    else move at_test closed

-- sendall
unfoldable pub write :
    Bool
    → ℕ
    → Outcome
    → ActivityLogSnapshot
    → Text
    → SyslogConfig
    → Forwarder
    → Forwarder × List Delivery
unfolding recover
write again sock o event message config f =
    if o.succeeds && is_sock sock f.stream_sock
    then (
      record f { thread = at_test },
      record { event = event; target = target_of config; bytes = frame_tcp message } ∷ [],
    )
    else if again
    then failed o f
    else recover sock event message config f

-- sendto
unfoldable pub send_datagram :
    ℕ → Outcome → ActivityLogSnapshot → Text → SyslogConfig → Forwarder → Forwarder × List Delivery
send_datagram sock o event message config f =
    if o.succeeds && is_sock sock f.udp_sock
    then (
      record f { thread = at_test },
      record { event = event; target = target_of config; bytes = message } ∷ [],
    )
    else failed o f

unfoldable pub work_at : Thread → Outcome → Forwarder → Forwarder × List Delivery
work_at absent o f = (f, [])
work_at finished o f = (f, [])
work_at at_test o f = move (if f.stop then finished else in_get) f
work_at in_get o f = get_item f.queue f
work_at (took generation event) o f = check_item generation event f
work_at (sending event message config) o f = send o event message config f
work_at (opening again event message config) o f = open_stream again o event message config f
work_at (writing again sock event message config) o f = write again sock o event message config f
work_at (datagram sock event message config) o f = send_datagram sock o event message config f

-- One step of `_run`.
abbrev pub work : Outcome → Forwarder → Forwarder × List Delivery
work o f = work_at f.thread o f

abbrev pub is_absent : Thread → Bool
is_absent absent = true
is_absent _ = false

-- the wake-up, unless the queue is full
abbrev pub wake : Forwarder → Forwarder
wake f = put_or f none f

-- `stop`, to the wait; true if it waits.
unfoldable pub begin_stop : Forwarder → Forwarder × Bool
begin_stop f =
    if is_absent f.thread then (close_sockets f, false) else (wake (record f { stop = true }), true)

-- `stop`, after the wait
unfoldable pub end_stop : Forwarder → Forwarder
end_stop f =
    let joined = if is_alive f.thread then f else record f { thread = absent } in
    record (close_sockets joined) { stop = false }
