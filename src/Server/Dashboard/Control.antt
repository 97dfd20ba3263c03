-- ===== src/Server/Dashboard/Control.antt =====
-- Which commands of a client the bridge carries out.
use binbot.Base.{
  ◌/◌, keep_last, ◌≡◌, refl, sym, ap, ◌∙◌, Bool, true, false, not, ◌||◌, none, some, String, List,
  [], ◌∷◌, ◌++◌, append_assoc, append-nil, if◌then◌else◌, str_eq, member, Result, ok,
}
use binbot.Core.Events.{DateTime}
use binbot.Server.Dashboard.{
  DashboardBridge, Audit, AuditText, Effect, Message, Incoming, malformed, no_object, object, sent,
  ran, logged_audit, logged_trade, notified, act, act_if, send_each, broadcast, push_audit,
  commands, is_rejected, run_command, handle_incoming, failed_command, bad_token, audit,
}

module _ {F : Type 0} where
  -- The commands among what the bridge did.
  unfoldable pub commands_run : List (Effect F) → List String
  commands_run [] = []
  commands_run (ran command ∷ effects) = command ∷ commands_run effects
  commands_run (sent client message ∷ effects) = commands_run effects
  commands_run (logged_audit payload ∷ effects) = commands_run effects
  commands_run (logged_trade trade ∷ effects) = commands_run effects
  commands_run (notified notice ∷ effects) = commands_run effects

  commands_run-append :
      (xs ys : List (Effect F)) → commands_run (xs ++ ys) ≡ commands_run xs ++ commands_run ys
  unfolding commands_run
  commands_run-append [] ys = refl
  commands_run-append (ran command ∷ xs) ys = ap (λ cs. command ∷ cs) (commands_run-append xs ys)
  commands_run-append (sent client message ∷ xs) ys = commands_run-append xs ys
  commands_run-append (logged_audit payload ∷ xs) ys = commands_run-append xs ys
  commands_run-append (logged_trade trade ∷ xs) ys = commands_run-append xs ys
  commands_run-append (notified notice ∷ xs) ys = commands_run-append xs ys

-- The commands that a message may carry out: one of the five, with the control token, which is not empty.
unfoldable pub authorised : String → Incoming → List String
authorised control_token (object (some token) (some command)) =
    if str_eq control_token "" || not (str_eq token control_token)
    then []
    else (if member command commands then command ∷ [] else [])
authorised control_token _ = []

module _ {F : Type 0} where
  -- These commands were run between two states, and the token is the same.
  abbrev Ran : List String → DashboardBridge F → DashboardBridge F → Type 0
  Ran cs b b' =
      (commands_run b'.effects ≡ commands_run b.effects ++ cs)
      × (b'.control_token ≡ b.control_token)

  Ran-sent :
      (alive : Bool) (client : String) (message : Message F) (cs : List String)
      (b b' : DashboardBridge F)
      → Ran cs b b'
      → Ran cs b (act_if alive (sent client message) b')
  unfolding commands_run
  Ran-sent true client message cs b b' h = (
    commands_run-append b'.effects (sent client message ∷ [])
        ∙ append-nil (commands_run b'.effects)
        ∙ h.0,
    h.1,
  )
  Ran-sent false client message cs b b' h = h

  Ran-logged :
      (has : Bool) (payload : Audit F) (cs : List String) (b b' : DashboardBridge F)
      → Ran cs b b'
      → Ran cs b (act_if has (logged_audit payload) b')
  unfolding commands_run
  Ran-logged true payload cs b b' h = (
    commands_run-append b'.effects (logged_audit payload ∷ [])
        ∙ append-nil (commands_run b'.effects)
        ∙ h.0,
    h.1,
  )
  Ran-logged false payload cs b b' h = h

  Ran-send_each :
      (alive : String → Bool) (message : Message F) (clients : List String) (cs : List String)
      (b b' : DashboardBridge F)
      → Ran cs b b'
      → Ran cs b (send_each alive message clients b')
  unfolding send_each
  Ran-send_each alive message [] cs b b' h = h
  Ran-send_each alive message (client ∷ clients) cs b b' h =
      Ran-send_each alive message clients cs b (act_if (alive client) (sent client message) b')
        (Ran-sent (alive client) client message cs b b' h)

  Ran-push_audit :
      (now : DateTime) (alive : String → Bool) (level source : String) (message : AuditText F)
      (cs : List String) (b b' : DashboardBridge F)
      → Ran cs b b'
      → Ran cs b (push_audit now alive level source message b')
  unfolding push_audit broadcast
  Ran-push_audit now alive level source message cs b b' h =
      let payload : Audit F = record {
        ts = now / 1000;
        level = level;
        source = source;
        message = message;
      } in
      let b1 = record b' { audit_recent = keep_last 5000 (b'.audit_recent ++ payload ∷ []) } in
      let b2 = act_if b'.has_audit_log (logged_audit payload) b1 in
      Ran-send_each alive (audit payload) b2.clients cs b b2
        (Ran-logged b'.has_audit_log payload cs b b1 h)

  Ran-dispatch :
      (now : DateTime) (alive : String → Bool) (returns known : Bool) (command : String)
      (b : DashboardBridge F)
      → let b' = act (ran command) b in
        Ran (if known then command ∷ [] else []) b (
          if known
          then (if returns
              then b'
              else push_audit now alive "error" "dashboard_bridge" (failed_command command) b')
          else b)
  unfolding commands_run
  Ran-dispatch now alive returns false command b = (sym (append-nil (commands_run b.effects)), refl)
  Ran-dispatch now alive true true command b =
      (commands_run-append b.effects (ran command ∷ []), refl)
  Ran-dispatch now alive false true command b =
      Ran-push_audit now alive "error" "dashboard_bridge" (failed_command command) (command ∷ []) b
        (act (ran command) b) (commands_run-append b.effects (ran command ∷ []), refl)

  abbrev RanIn : List String → DashboardBridge F → Result (Unit {0}) × DashboardBridge F → Type 0
  RanIn cs b x = Ran cs b x.1

  Ran-checked :
      (now : DateTime) (alive returns : String → Bool) (refused : Bool) (token command : String)
      (b : DashboardBridge F)
      → RanIn (if refused then [] else (if member command commands then command ∷ [] else [])) b (
          if refused
          then (ok tt, push_audit now alive "error" "dashboard_bridge" bad_token b)
          else (ok tt, run_command now alive returns (some command) b))
  unfolding run_command
  Ran-checked now alive returns true token command b =
      Ran-push_audit now alive "error" "dashboard_bridge" bad_token [] b b
        (sym (append-nil (commands_run b.effects)), refl)
  Ran-checked now alive returns false token command b =
      Ran-dispatch now alive (returns command) (member command commands) command b

  Ran-unnamed :
      (now : DateTime) (alive returns : String → Bool) (refused : Bool) (b : DashboardBridge F)
      → RanIn [] b (
          if refused
          then (ok tt, push_audit now alive "error" "dashboard_bridge" bad_token b)
          else (ok tt, run_command now alive returns none b))
  unfolding run_command
  Ran-unnamed now alive returns true b =
      Ran-push_audit now alive "error" "dashboard_bridge" bad_token [] b b
        (sym (append-nil (commands_run b.effects)), refl)
  Ran-unnamed now alive returns false b = (sym (append-nil (commands_run b.effects)), refl)

  Ran-handle_incoming :
      (now : DateTime) (alive returns : String → Bool) (incoming : Incoming) (b : DashboardBridge F)
      → Ran (authorised b.control_token incoming) b (handle_incoming now alive returns incoming b).1
  unfolding handle_incoming authorised
  Ran-handle_incoming now alive returns malformed b =
      (sym (append-nil (commands_run b.effects)), refl)
  Ran-handle_incoming now alive returns no_object b =
      (sym (append-nil (commands_run b.effects)), refl)
  Ran-handle_incoming now alive returns (object none none) b = Ran-unnamed now alive returns true b
  Ran-handle_incoming now alive returns (object none (some command)) b =
      Ran-checked now alive returns true "" command b
  Ran-handle_incoming now alive returns (object (some token) none) b =
      Ran-unnamed now alive returns (is_rejected b.control_token (some token)) b
  Ran-handle_incoming now alive returns (object (some token) (some command)) b =
      Ran-checked now alive returns (is_rejected b.control_token (some token)) token command b

-- A message of a client as it comes in.
pub record Arrival : Type 0 where
  pub now : DateTime
  pub alive : String → Bool
  pub returns : String → Bool
  pub incoming : Incoming

unfoldable pub all_authorised : String → List Arrival → List String
unfolding authorised
all_authorised token [] = []
all_authorised token (a ∷ arrivals) = authorised token a.incoming ++ all_authorised token arrivals

module _ {F : Type 0} where
  -- The messages that the loops of all clients take, in their order. One that raises ends its client's loop, so it is the
  -- last that is taken from that client.
  unfoldable pub listen : List Arrival → DashboardBridge F → DashboardBridge F
  unfolding handle_incoming
  listen [] b = b
  listen (a ∷ arrivals) b = listen arrivals (handle_incoming a.now a.alive a.returns a.incoming b).1

  -- Whatever the clients send, and whether or not the handlers return, exactly those of the five commands are carried out that came
  -- with the bridge's control token, in their order and once for each message; an empty control token lets none through.
  pub commands_run-listen :
      (arrivals : List Arrival) (b : DashboardBridge F)
      → commands_run (listen arrivals b).effects
        ≡ commands_run b.effects ++ all_authorised b.control_token arrivals
  unfolding listen all_authorised
  commands_run-listen [] b = sym (append-nil (commands_run b.effects))
  commands_run-listen (a ∷ arrivals) b =
      let b' = (handle_incoming a.now a.alive a.returns a.incoming b).1 in
      let h = Ran-handle_incoming a.now a.alive a.returns a.incoming b in
      let cs = authorised b.control_token a.incoming in
      commands_run-listen arrivals b'
      ∙ ap (λ token. commands_run b'.effects ++ all_authorised token arrivals) h.1
      ∙ ap (λ xs. xs ++ all_authorised b.control_token arrivals) h.0
      ∙ append_assoc (commands_run b.effects) cs (all_authorised b.control_token arrivals)
