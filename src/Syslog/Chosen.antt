-- ===== src/Syslog/Chosen.antt =====
-- The configurations that a schedule sets, and what the worker sends by them.
use api_to_dns.Prelude.{◌≡◌, refl, ◌⊎◌, inl, inr, List, [], ◌∷◌, All, All-map}
use api_to_dns.Syslog.{SyslogConfig}
use api_to_dns.Syslog.Forwarder.{Outcome, init, work}
use api_to_dns.Syslog.System.{
  Action, configured, enqueuing, putting, working, stopping, stopped, started, run,
}
use api_to_dns.Syslog.Worker.{IsSent}
use api_to_dns.Syslog.Sending.{work-Steps}
use api_to_dns.Syslog.Schedules.{started-IsKnown, run-IsKnown}
use api_to_dns.Syslog.Held.{Sets, run-IsChosen}

-- The configuration at the start, or one that the schedule sets, under some generation.
abbrev pub WasSet : List Action → SyslogConfig → Type 0
WasSet [] c = c ≡ init.config
WasSet (configured config ∷ actions) c =
    (c ≡ record config { generation = c.generation }) ⊎ WasSet actions c
WasSet (enqueuing event ∷ actions) c = WasSet actions c
WasSet (putting now n ∷ actions) c = WasSet actions c
WasSet (working o ∷ actions) c = WasSet actions c
WasSet (stopping ∷ actions) c = WasSet actions c
WasSet (stopped ∷ actions) c = WasSet actions c

WasSet-init : (actions : List Action) → WasSet actions init.config
WasSet-init [] = refl
WasSet-init (configured config ∷ actions) = inr (WasSet-init actions)
WasSet-init (enqueuing event ∷ actions) = WasSet-init actions
WasSet-init (putting now n ∷ actions) = WasSet-init actions
WasSet-init (working o ∷ actions) = WasSet-init actions
WasSet-init (stopping ∷ actions) = WasSet-init actions
WasSet-init (stopped ∷ actions) = WasSet-init actions

Sets-mono :
    (P Q : SyslogConfig → Type 0)
    → ((c : SyslogConfig) → P c → Q c)
    → (action : Action) → Sets P action
    → Sets Q action
Sets-mono P Q f (configured config) h = λ n. f _ (h n)
Sets-mono P Q f (enqueuing event) h = tt
Sets-mono P Q f (putting now n) h = tt
Sets-mono P Q f (working o) h = tt
Sets-mono P Q f stopping h = tt
Sets-mono P Q f stopped h = tt

All-Sets : (actions : List Action) → All (Sets (WasSet actions)) actions
All-Sets [] = tt
All-Sets (configured config ∷ actions) = (
  λ n. inl refl,
  All-map _ (Sets-mono (WasSet actions) (WasSet (configured config ∷ actions)) (λ c h. inr h))
      actions (All-Sets actions),
)
All-Sets (enqueuing event ∷ actions) = (tt, All-Sets actions)
All-Sets (putting now n ∷ actions) = (tt, All-Sets actions)
All-Sets (working o ∷ actions) = (tt, All-Sets actions)
All-Sets (stopping ∷ actions) = (tt, All-Sets actions)
All-Sets (stopped ∷ actions) = (tt, All-Sets actions)

-- After any schedule from the start, a step of the worker delivers only messages of events that a
-- configuration with forwarding enabled lets through, encoded by it and sent to its destination. That
-- is one that the schedule has set or the one at the start, and over TCP or TLS it is the configuration
-- in force.
pub work-IsSent :
    (actions : List Action) (o : Outcome)
    → let f = (run actions started).0.forwarder in
      All (IsSent (WasSet actions) f.config) (work o f).1
work-IsSent actions o =
    let P = WasSet actions in
    let chosen =
      run-IsChosen P actions started (All-Sets actions)
        (record { in_force = WasSet-init actions; held = tt }) in
    (work-Steps P o (run actions started).0.forwarder chosen.held
      (run-IsKnown actions started started-IsKnown).current).1
