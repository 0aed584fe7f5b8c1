-- ===== src/Base/Result.antt =====
-- The two values that a Go function returns: a value or nil, and an error or nil.
use mathlib.Core.Option.{Option, none, some}

pub record Answer (E A : Type 0) : Type 0 where
  pub value : Option A
  pub error : Option E

abbrev pub ok : {E A : Type 0} → A → Answer E A
ok a = record { value = some a; error = none }

abbrev pub err : {E A : Type 0} → E → Answer E A
err e = record { value = none; error = some e }
