-- ===== src/Base/Raise.antt =====
-- A Python call returns or raises. `call_failed` is an exception from outside the program, `zero_division` is
-- `ZeroDivisionError`, `key_error` is `KeyError`, `queue_full` is `asyncio.QueueFull`; `value_error` and
-- `runtime_error` are `ValueError` and `RuntimeError` with the message that the source gives.
use Prim.Native.String.{String}

pub data Error : Type 0 where
  key_error : Error
  zero_division : Error
  value_error : String → Error
  call_failed : Error
  queue_full : Error
  runtime_error : String → Error

pub data Result {ℓ} (A : Type ℓ) : Type ℓ where
  ok : A → Result A
  err : Error → Result A

infixl 5 ◌>>=◌
abbrev pub ◌>>=◌ {ℓ κ} : {A : Type ℓ} {B : Type κ} → Result A → (A → Result B) → Result B
ok a >>= f = f a
err e >>= f = err e
