-- ===== src/Sweep/Port.antt =====
-- What src/rf/sweep.c uses of the floating-point unit and of the sine tables.
use nano_vna_x.Base.{ℕ, Bool}

pub record Float : Type 1 where
  pub Num : Type 0
  pub of_int : ℕ → Num
  pub add : Num → Num → Num
  pub sub : Num → Num → Num
  pub mul : Num → Num → Num
  pub div : Num → Num → Num
  pub is_zero : Num → Bool
  -- The sine and the cosine of as many turns.
  pub sincos : Num → Num × Num
