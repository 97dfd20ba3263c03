-- ===== src/Strategies/BaseStrategy.antt =====
-- strategies/base_strategy.py: which events reach a strategy.
use binbot.Base.{member, Bool, true, false, not, String, List, ◌&&◌}

pub record BaseStrategy : Type 0 where
  pub strategy_id : String
  pub symbols : List String
  pub active : Bool

abbrev pub pause : BaseStrategy → BaseStrategy
pause s = record s { active = false }

abbrev pub resume : BaseStrategy → BaseStrategy
resume s = record s { active = true }

abbrev pub is_paused : BaseStrategy → Bool
is_paused s = not s.active

-- The guard of `_dispatch_tick`, `_dispatch_bar` and `_dispatch_order_book`.
unfoldable pub is_wanted : BaseStrategy → String → Bool
is_wanted s symbol = s.active && member symbol s.symbols

-- The guard of `_dispatch_execution`, which a paused strategy still gets.
unfoldable pub is_own_fill : BaseStrategy → String → Bool
is_own_fill s symbol = member symbol s.symbols
