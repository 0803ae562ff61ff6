-- ===== src/Floats.antt =====
-- Python's floats, as far as the sources use them: their text, reading it back, the sign test
-- and the test for no number. `float(str(x))` is `x`.
use message_broker_patterns.Base.{String, ◌≡◌, Bool, Option, some}

pub record Floats : Type 1 where
  pub Float : Type 0
  -- str(x)
  pub show : Float → String
  -- float(text); `none` is a ValueError
  pub read : String → Option Float
  -- x <= 0
  pub le_zero : Float → Bool
  -- x != x
  pub is_nan : Float → Bool
  pub read-show : (x : Float) → read (show x) ≡ some x
