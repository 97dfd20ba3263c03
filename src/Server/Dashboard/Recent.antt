-- ===== src/Server/Dashboard/Recent.antt =====
-- The bounds of what the bridge keeps for clients that come later.
use binbot.Base.{
  suc, ◌≤◌, sym, subst, Bool, true, false, Option, none, some, String, List, [], ◌∷◌, ◌++◌, ◌/◌,
  ◌-◌, arith, length, keep_last, length-keep_last-le, if-cases, if◌then◌else◌, String_discrete,
  member,
}
use binbot.Dict.{Dict, get, get_or, put, get-put_self, get-put_ne}
use binbot.Core.Events.{DateTime, BarEvent}
use binbot.Execution.Binance.Account.{Candle}
use binbot.Server.Dashboard.{
  DashboardBridge, Audit, AuditText, Message, audit, candle, candles_backfill, Effect, sent,
  logged_audit, act_if, send_each, broadcast, broadcast_all, push_audit,
}
use binbot.Server.Dashboard.Charts.{
  store_backfill, backfill_candles_once, add_candle, drop_first, cache_candle, candle_payload,
  push_candle, on_bar_event, wants_chart_for,
}

module _ {F : Type 0} where
  abbrev pub ChartBound : Option (List (Candle F)) → Type 0
  ChartBound none = Unit
  ChartBound (some candles) = length candles ≤ 1600

  -- At most 5000 audit lines, 2000 closed trades, and 1600 candles of a symbol.
  abbrev pub IsBounded : DashboardBridge F → Type 0
  IsBounded b =
      (length b.audit_recent ≤ 5000)
      × (length b.closed_trades_recent ≤ 2000)
      × ((symbol : String) → ChartBound (get b.candles_by_symbol symbol))

  pub act_if-IsBounded :
      (t : Bool) (e : Effect F) (b : DashboardBridge F) → IsBounded b → IsBounded (act_if t e b)
  act_if-IsBounded true e b h = h
  act_if-IsBounded false e b h = h

  send_each-IsBounded :
      (alive : String → Bool) (message : Message F) (clients : List String) (b : DashboardBridge F)
      → IsBounded b
      → IsBounded (send_each alive message clients b)
  unfolding send_each
  send_each-IsBounded alive message [] b h = h
  send_each-IsBounded alive message (client ∷ clients) b h =
      send_each-IsBounded alive message clients (act_if (alive client) (sent client message) b)
        (act_if-IsBounded (alive client) (sent client message) b h)

  pub broadcast-IsBounded :
      (alive : String → Bool) (message : Message F) (b : DashboardBridge F)
      → IsBounded b
      → IsBounded (broadcast alive message b)
  unfolding broadcast
  broadcast-IsBounded alive message b h = send_each-IsBounded alive message b.clients b h

  pub broadcast_all-IsBounded :
      (alive : String → Bool) (messages : List (Message F)) (b : DashboardBridge F)
      → IsBounded b
      → IsBounded (broadcast_all alive messages b)
  unfolding broadcast_all
  broadcast_all-IsBounded alive [] b h = h
  broadcast_all-IsBounded alive (message ∷ messages) b h =
      broadcast_all-IsBounded alive messages (broadcast alive message b)
        (broadcast-IsBounded alive message b h)

  pub push_audit-IsBounded :
      (now : DateTime) (alive : String → Bool) (level source : String) (message : AuditText F)
      (b : DashboardBridge F)
      → IsBounded b
      → IsBounded (push_audit now alive level source message b)
  unfolding push_audit
  push_audit-IsBounded now alive level source message b h =
      let payload : Audit F = record {
        ts = now / 1000;
        level = level;
        source = source;
        message = message;
      } in
      let b1 = record b { audit_recent = keep_last 5000 (b.audit_recent ++ payload ∷ []) } in
      broadcast-IsBounded alive (audit payload) (act_if b.has_audit_log (logged_audit payload) b1) (
        act_if-IsBounded b.has_audit_log (logged_audit payload) b1
          (length-keep_last-le 5000 (b.audit_recent ++ payload ∷ []), h.1, h.2))

  charts-put :
      (d : Dict (List (Candle F))) (symbol : String) (candles : List (Candle F))
      → ((s : String) → ChartBound (get d s))
      → length candles ≤ 1600
      → (s : String) → ChartBound (get (put d symbol candles) s)
  charts-put d symbol candles h k s = elim (String_discrete symbol s) [
    | yes e ↦
        subst (λ x. ChartBound (get (put d symbol candles) x)) e
          (subst ChartBound (sym (get-put_self d symbol candles)) k)
    | no n ↦ subst ChartBound (sym (get-put_ne d symbol s candles n)) (h s)
  ]

  store_backfill-IsBounded :
      (alive : String → Bool) (symbol : String) (answer : Option (List (Candle F)))
      (b : DashboardBridge F)
      → IsBounded b
      → IsBounded (store_backfill alive symbol answer b)
  store_backfill-IsBounded alive symbol none b h = h
  store_backfill-IsBounded alive symbol (some []) b h = h
  store_backfill-IsBounded alive symbol (some (c ∷ candles)) b h =
      broadcast-IsBounded alive (candles_backfill symbol (c ∷ candles)) _ (
        h.0,
        h.1,
        charts-put b.candles_by_symbol symbol (keep_last 1600 (c ∷ candles)) h.2
            (length-keep_last-le 1600 (c ∷ candles)),
      )

  backfill-IsBounded :
      (alive : String → Bool) (answer : Option (List (Candle F))) (symbol : String)
      (b : DashboardBridge F)
      → IsBounded b
      → IsBounded (backfill_candles_once alive answer symbol b)
  unfolding backfill_candles_once
  backfill-IsBounded alive answer symbol b h =
      let b1 = record b { backfilled_symbols = b.backfilled_symbols ++ symbol ∷ [] } in
      let P = λ (x : DashboardBridge F). IsBounded x in
      if-cases P (member symbol b.backfilled_symbols) b
        (if b.has_klines then store_backfill alive symbol answer b1 else b) (λ t. h)
        (λ f.
          if-cases P b.has_klines (store_backfill alive symbol answer b1) b
            (λ t. store_backfill-IsBounded alive symbol answer b1 h) (λ g. h))

  length-add_candle :
      (c : Candle F) (cache : List (Candle F)) → length (add_candle c cache) ≤ suc (length cache)
  unfolding add_candle
  length-add_candle c [] = omega arith
  length-add_candle c (last ∷ []) = ground arith
  length-add_candle c (x ∷ y ∷ cache) = omega (arith, length-add_candle c (y ∷ cache))

  length-drop_first : (xs : List (Candle F)) → length (drop_first xs) ≤ length xs - 1
  length-drop_first [] = omega arith
  length-drop_first (x ∷ xs) = omega arith

  length-cache_candle :
      (c : Candle F) (cache : List (Candle F))
      → length cache ≤ 1600
      → length (cache_candle c cache) ≤ 1600
  unfolding cache_candle
  length-cache_candle c cache h =
      ground (arith, length-add_candle c cache, length-drop_first (add_candle c cache), h)

  cached :
      (o : Option (List (Candle F)))
      → ChartBound o
      → length (elim o [ none ↦ [] | some w ↦ w ]) ≤ 1600
  cached none h = omega arith
  cached (some candles) h = h

  push_candle-IsBounded :
      (alive : String → Bool) (event : BarEvent F) (b : DashboardBridge F)
      → IsBounded b
      → IsBounded (push_candle alive event b)
  push_candle-IsBounded alive event b h =
      let c = candle_payload event in
      let cache = get_or b.candles_by_symbol event.symbol [] in
      broadcast-IsBounded alive (candle event.symbol c) _ (
        h.0,
        h.1,
        charts-put b.candles_by_symbol event.symbol (cache_candle c cache) h.2 (
            length-cache_candle c cache
              (cached (get b.candles_by_symbol event.symbol) (h.2 event.symbol))),
      )

  pub on_bar_event-IsBounded :
      (alive : String → Bool) (answer : Option (List (Candle F))) (event : BarEvent F)
      (b : DashboardBridge F)
      → IsBounded b
      → IsBounded (on_bar_event alive answer event b)
  unfolding on_bar_event
  on_bar_event-IsBounded alive answer event b h =
      let b1 = backfill_candles_once alive answer event.symbol b in
      if-cases (λ (x : DashboardBridge F). IsBounded x) (wants_chart_for event.symbol b)
        (push_candle alive event b1) b
        (λ t.
          push_candle-IsBounded alive event b1 (backfill-IsBounded alive answer event.symbol b h))
        (λ f. h)
