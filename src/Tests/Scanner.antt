-- ===== src/Tests/Scanner.antt =====
-- strategies/funding_momentum_scanner.py at concrete inputs.
use binbot.Base.{
  member, ℕ, ◌≡◌, ◌⊎◌, refl, true, false, some, String, [], ◌∷◌, ℤ, pos, negsuc, ok,
  String_discrete, ◌+ℤ◌, ◌-ℤ◌, ◌*ℤ◌,
}
use binbot.Float.Fixed.{fixed, units}
use binbot.Dict.{get, put}
use binbot.Core.Enums.{buy}
use binbot.Core.Events.{BarEvent}
use binbot.Strategies.BaseStrategy.{is_wanted}
use binbot.Strategies.Scanner.{
  Scanner, Market, occupied, prune, compute_lots, evaluate_entry, order_lots, signal, on_bar,
  dispatch_bar, dispatch_bars,
}
use binbot.Strategies.Scanner.Entry.{IsEntry, dispatch_bar-IsEntry}
use binbot.Strategies.Scanner.Pending.{signal_count, no_second_entry}

abbrev scanner : Scanner ℤ
scanner = record {
  base = record { strategy_id = "scanner"; symbols = "BTCUSDT" ∷ "ETHUSDT" ∷ []; active = true };
  params = record {
    max_open_positions = pos 2;
    margin_equity_pct = units 10;
    leverage = units 15;
    price_jump_pct = units 3;
  };
  pending_entries = ("ETHUSDT", units 7) ∷ [];
  signals = [];
}

-- A rise of 4% while the funding falls from -1 to -2.
abbrev rise : ℕ → Market ℤ
rise seconds = record {
  open_symbols = [];
  price_change_pct = some (units 4);
  funding_trend = some (negsuc 1999, negsuc 999);
  latest_price = some (units 100);
  step_size = units 1;
  equity = ok (units 1000);
  monotonic = units seconds;
  monotonic_at_entry = units seconds;
  utc_now = 9;
  correlation_id = "c1";
}

abbrev bar_of : String → BarEvent ℤ
bar_of symbol = record {
  ts = 1;
  symbol = symbol;
  timeframe_s = 60;
  open_price = units 100;
  high = units 100;
  low = units 100;
  close = units 100;
  volume = units 5;
  vwap = units 100;
}

-- Fifteen lots for BTCUSDT; ETHUSDT, pending, and a bar of another symbol bring nothing.
scan_run :
    (dispatch_bars
      ((rise 8, bar_of "ETHUSDT") ∷ (rise 9, bar_of "BTCUSDT") ∷ (rise 9, bar_of "XRPUSDT") ∷ [])
      scanner).signals
    ≡ signal scanner (rise 9) "BTCUSDT" buy (pos 15) ∷ []
unfolding dispatch_bars dispatch_bar is_wanted on_bar prune evaluate_entry order_lots compute_lots
    put String_discrete ◌+ℤ◌ ◌-ℤ◌ ◌*ℤ◌
scan_run = refl

dispatch_bar-IsEntry_example :
    let s' = (dispatch_bar (rise 9) (bar_of "BTCUSDT") scanner).1 in
    (s'.signals ≡ [])
    ⊎ (true ≡ true)
      × (member "BTCUSDT" ("BTCUSDT" ∷ "ETHUSDT" ∷ []) ≡ true)
      × (member "BTCUSDT" (occupied [] (prune [] (units 9) scanner.pending_entries)) ≡ false)
      × IsEntry (rise 9) (bar_of "BTCUSDT") scanner s'
dispatch_bar-IsEntry_example = dispatch_bar-IsEntry (rise 9) (bar_of "BTCUSDT") scanner

no_second_entry_example :
    let s' =
      dispatch_bars ((rise 8, bar_of "ETHUSDT") ∷ (rise 17, bar_of "ETHUSDT") ∷ []) scanner in
    (get s'.pending_entries "ETHUSDT" ≡ some (units 7))
    × (signal_count "ETHUSDT" s'.signals ≡ signal_count "ETHUSDT" scanner.signals)
unfolding get String_discrete ◌-ℤ◌
no_second_entry_example =
    no_second_entry "ETHUSDT" (units 7)
      ((rise 8, bar_of "ETHUSDT") ∷ (rise 17, bar_of "ETHUSDT") ∷ []) scanner refl
      ((refl, refl), ((refl, refl), tt))
