-- ===== src/Base/Results.antt =====
-- Results of operations that may throw, with one error for each `throw` of the source, and chains of
-- operations that may have none.
use mathlib.Core.Bool.{Bool, true, false}
use mathlib.Core.Option.{Option, none, some}

pub data Error : Type 0 where
  insufficient_memory : Error
  reservation_too_large : Error
  reservation_freed : Error
  out_of_memory : Error
  malloc_host_failed : Error
  limit_exceeded : Error
  upstream_failed : Error
  no_memory_space : Error
  capacity_zero : Error
  size_overflow : Error
  malloc_failed : Error
  memset_failed : Error
  launch_failed : Error
  invalid_state : Error
  null_data : Error
  block_index : Error
  no_stream_pool : Error
  no_converter : Error
  wrong_type : Error
  no_table : Error
  copy_failed : Error
  needs_space : Error
  not_implemented : Error
  event_failed : Error

pub data Result {ℓ} (A : Type ℓ) : Type ℓ where
  ok : A → Result A
  err : Error → Result A

abbrev pub is_ok {ℓ} : {A : Type ℓ} → Result A → Bool
is_ok (ok a) = true
is_ok (err e) = false

infixl 5 ◌>>=◌
abbrev pub ◌>>=◌ {ℓ κ} : {A : Type ℓ} {B : Type κ} → Option A → (A → Option B) → Option B
none >>= f = none
some a >>= f = f a
