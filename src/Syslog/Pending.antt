-- ===== src/Syslog/Pending.antt =====
-- What a change of the configuration does to the events that are pending.
use mathlib.Core.Path.{subst}
use api_to_dns.Prelude.{
  false, ◌==◌, Option, ℕ, suc, ◌≡◌, ◌<◌, refl, sym, ap, ◌∙◌, none, some, List, [], All, All-map,
  arith,
}
use api_to_dns.Syslog.{SyslogConfig}
use api_to_dns.Syslog.Forwarder.{
  Item, Thread, absent, finished, at_test, in_get, took, sending, opening, writing, datagram,
  Forwarder, Outcome, configure, work_at, check_item,
}
use api_to_dns.Syslog.System.{Action, started, run}
use api_to_dns.Syslog.Current.{Placed, Fresh, All-resized, IsCurrent}
use api_to_dns.Syslog.Schedules.{started-IsKnown, run-IsKnown, configure-config, configure-queue}

-- An item of an older configuration.
abbrev IsStale : ℕ → Item → Type 0
IsStale current none = Unit
IsStale current (some (generation, event)) = generation < current

Fresh-IsStale :
    (config : SyslogConfig) (current : ℕ)
    → current ≡ suc config.generation
    → (item : Item) → Fresh config item
    → IsStale current item
Fresh-IsStale config current e none h = tt
Fresh-IsStale config current e (some (generation, event)) h = omega arith

module _ (config : SyslogConfig) (f : Forwarder) (h : IsCurrent f) where
  configure-generation : (configure config f).config.generation ≡ suc f.config.generation
  configure-generation =
      ap SyslogConfig.generation (configure-config config f) ∙ ap suc (sym h.numbered)

  configure-IsStale :
      All (IsStale (configure config f).config.generation) (configure config f).queue
  configure-IsStale =
      subst (All (IsStale (configure config f).config.generation)) (sym (configure-queue config f))
        (All-map _ (Fresh-IsStale f.config _ configure-generation) _
          (All-resized (Fresh f.config) config.queue_size f h.queued))

-- With this item in hand, the worker goes back to its loop's test, and delivers nothing.
abbrev pub IsDropped : Outcome → Forwarder → Item → Type 0
IsDropped o g none = Unit
IsDropped o g (some (generation, event)) =
    work_at (took generation event) o g ≡ (record g { thread = at_test }, [])

abbrev pub InHand : Outcome → Forwarder → Thread → Type 0
InHand o g (took generation event) = IsDropped o g (some (generation, event))
InHand o g _ = Unit

IsStale-IsDropped :
    (o : Outcome) (g : Forwarder) (item : Item)
    → IsStale g.config.generation item
    → IsDropped o g item
unfolding work_at check_item
IsStale-IsDropped o g none h = tt
IsStale-IsDropped o g (some (generation, event)) h =
    let old : (generation == g.config.generation) ≡ false = ground arith in rw old refl

-- After any schedule, the configuration is changed. Of the events that were pending, whether in the queue,
-- in the worker's hand or between the halves of `enqueue`, the worker drops each that it then has in hand
-- while that configuration is in force: it delivers nothing, and goes back to its loop's test.
pub configure-IsDropped :
    (actions : List Action) (config : SyslogConfig) (o : Outcome) (g : Forwarder)
    → g.config ≡ (configure config (run actions started).0.forwarder).config
    → let s = (run actions started).0 in
      All (IsDropped o g) (configure config s.forwarder).queue
      × All (λ event. IsDropped o g (some event)) s.admitted
      × InHand o g s.forwarder.thread
configure-IsDropped actions config o g same =
    let s = (run actions started).0 in
    let known = run-IsKnown actions started started-IsKnown in
    let drop : (item : Item)
        → IsStale (configure config s.forwarder).config.generation item
        → IsDropped o g item =
      λ item h.
        IsStale-IsDropped o g item
          (subst (λ (c : SyslogConfig). IsStale c.generation item) (sym same) h) in
    let later : (item : Item) → Fresh s.forwarder.config item → IsDropped o g item = λ item h.
      drop item (
        Fresh-IsStale s.forwarder.config _ (configure-generation config s.forwarder known.current)
          item h) in
    (
      All-map _ drop _ (configure-IsStale config s.forwarder known.current),
      All-map _ (λ event h. later (some event) h) s.admitted known.waiting,
      in_hand s.forwarder.config s.forwarder.stream_sock s.forwarder.thread known.current.placed
          later,
    )
  where
    in_hand :
        (c : SyslogConfig) (stream : Option ℕ) (thread : Thread)
        → Placed c stream thread
        → ((item : Item) → Fresh c item → IsDropped o g item)
        → InHand o g thread
    in_hand c stream absent h k = tt
    in_hand c stream finished h k = tt
    in_hand c stream at_test h k = tt
    in_hand c stream in_get h k = tt
    in_hand c stream (took generation event) h k = k (some (generation, event)) h
    in_hand c stream (sending event message config') h k = tt
    in_hand c stream (opening again event message config') h k = tt
    in_hand c stream (writing again sock event message config') h k = tt
    in_hand c stream (datagram sock event message config') h k = tt
