-- ===== src/DataBatch.antt =====
-- cucascade-rocm/include/cucascade/data/data_batch.hpp: a batch, its states and the views that it
-- hands out. A data representation is the number of its object (none is the null pointer), so that
-- sharing is equality of numbers; a converter's and a representation's own `clone` are arguments.
pub mod Lifecycle
pub mod Conversion
use cuda2rocm.Base.{
  ℕ, ◌+◌, ◌-◌, Bool, true, false, not, ◌&&◌, Option, none, some, ltb, if◌then◌else◌, add_word,
  Result, ok, err, invalid_state, null_data,
}

pub data BatchState : Type 0 where
  idle read_only mutable_locked : BatchState

-- A read-only or mutable view: the shared data, the space and the id.
pub record View : Type 0 where
  pub data_ref : Option ℕ
  pub space : Option ℕ
  pub batch_id : ℕ

pub record DataBatch : Type 0 where
  pub batch_id : ℕ
  pub state : BatchState
  pub data_ref : Option ℕ
  pub space : Option ℕ
  pub subscriber_count : ℕ

-- `make`
unfoldable pub make_batch : ℕ → Option ℕ → Option ℕ → DataBatch
make_batch id data_ref space = record {
  batch_id = id;
  state = idle;
  data_ref = data_ref;
  space = space;
  subscriber_count = 0;
}

-- The states from which a batch may become read-only, and mutable.
unfoldable pub may_read : BatchState → Bool
may_read idle = true
may_read read_only = false
may_read mutable_locked = true

unfoldable pub may_write : BatchState → Bool
may_write idle = true
may_write read_only = true
may_write mutable_locked = false

unfoldable pub view_of : DataBatch → View
view_of b = record { data_ref = b.data_ref; space = b.space; batch_id = b.batch_id }

unfoldable pub to_read_only : DataBatch → DataBatch × Result View
unfolding may_read view_of
to_read_only b =
    if may_read b.state
    then (record b { state = read_only }, ok (view_of b))
    else (b, err invalid_state)

unfoldable pub to_mutable : DataBatch → DataBatch × Result View
unfolding may_write view_of
to_mutable b =
    if may_write b.state
    then (record b { state = mutable_locked }, ok (view_of b))
    else (b, err invalid_state)

unfoldable pub try_to_read_only : DataBatch → DataBatch × Bool
unfolding may_read
try_to_read_only b = if may_read b.state then (record b { state = read_only }, true) else (b, false)

unfoldable pub try_to_mutable : DataBatch → DataBatch × Bool
unfolding may_write
try_to_mutable b =
    if may_write b.state then (record b { state = mutable_locked }, true) else (b, false)

unfoldable pub subscribe : DataBatch → DataBatch
subscribe b = record b { subscriber_count = add_word b.subscriber_count 1 }

unfoldable pub unsubscribe : DataBatch → DataBatch
unsubscribe b =
    if ltb 0 b.subscriber_count then record b { subscriber_count = b.subscriber_count - 1 } else b

-- `set_data` of a mutable view changes the view alone.
unfoldable pub set_data : Option ℕ → View → View
set_data new_data v = record v { data_ref = new_data }

-- `readonly_to_mutable` and `mutable_to_readonly`: the same data, space and id in the other view.
unfoldable pub convert_view : View → View
convert_view v = record { data_ref = v.data_ref; space = v.space; batch_id = v.batch_id }

-- A new batch on the data that a call returns.
abbrev pub batch_on : ℕ → Option ℕ → Result ℕ → Result DataBatch
batch_on new_id space (err e) = err e
batch_on new_id space (ok d) = ok (make_batch new_id (some d) space)

-- `clone`: a new batch on what the representation's `clone` makes of the data.
unfoldable pub clone : (ℕ → Result ℕ) → ℕ → View → Result DataBatch
clone clone_data new_id v = elim v.data_ref [
  | none ↦ err null_data
  | some d ↦ batch_on new_id v.space (clone_data d)
]

-- `clone_to` of either view: the same through the converter registry, on another space.
unfoldable pub clone_to : (ℕ → Option ℕ → Result ℕ) → ℕ → Option ℕ → View → Result DataBatch
clone_to convert new_id target v = elim v.data_ref [
  | none ↦ err null_data
  | some d ↦ batch_on new_id target (convert d target)
]

-- `convert_to` of a mutable view: what the registry makes of the data, without a batch around it.
unfoldable pub convert_to : (ℕ → Option ℕ → Result ℕ) → Option ℕ → View → Result ℕ
convert_to convert target v = elim v.data_ref [ none ↦ err null_data | some d ↦ convert d target ]

-- `to_idle` of either view: the view itself.
pub to_idle : View → View
to_idle v = v
