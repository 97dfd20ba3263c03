-- ===== src/Core/Enums.antt =====
-- core/enums.py: sides, order types, times in force and order states.
use binbot.Base.{Bool, true, false, ℤ, pos, negsuc}

pub data OrderSide : Type 0 where
  buy sell : OrderSide

-- `OrderSide.sign`
abbrev pub sign : OrderSide → ℤ
sign buy = pos 1
sign sell = negsuc 0

-- `OrderSide.opposite`
abbrev pub opposite : OrderSide → OrderSide
opposite buy = sell
opposite sell = buy

pub data OrderType : Type 0 where
  market limit stop stop_limit market_on_close : OrderType

pub data TimeInForce : Type 0 where
  day gtc ioc fok : TimeInForce

pub data OrderStatus : Type 0 where
  pending_new submitted acknowledged partially_filled filled : OrderStatus
  cancel_pending cancelled rejected expired : OrderStatus

-- `OrderStatus.is_terminal`
abbrev pub is_terminal : OrderStatus → Bool
is_terminal filled = true
is_terminal cancelled = true
is_terminal rejected = true
is_terminal expired = true
is_terminal _ = false

-- `OrderStatus.is_working`
abbrev pub is_working : OrderStatus → Bool
is_working submitted = true
is_working acknowledged = true
is_working partially_filled = true
is_working _ = false

-- `x is OrderSide.BUY`
abbrev pub is_buy : OrderSide → Bool
is_buy buy = true
is_buy sell = false
