-- ===== src/DataBatch/Lifecycle.antt =====
-- The state machine of a batch.
use cuda2rocm.Base.{◌≡◌, ◌≢◌, ◌∙◌, refl, ◌⊎◌, List, [], ◌∷◌, arith, is_ok, ok, err, invalid_state}
use cuda2rocm.DataBatch.{
  idle, read_only, mutable_locked, DataBatch, to_read_only, to_mutable, try_to_read_only,
  try_to_mutable, subscribe, unsubscribe, view_of,
}

-- The calls of a batch's clients.
pub data Call : Type 0 where
  reads writes tries_read tries_write subscribes unsubscribes : Call

unfoldable pub call : Call → DataBatch → DataBatch
call reads b = (to_read_only b).0
call writes b = (to_mutable b).0
call tries_read b = (try_to_read_only b).0
call tries_write b = (try_to_mutable b).0
call subscribes b = subscribe b
call unsubscribes b = unsubscribe b

unfoldable pub history : List Call → DataBatch → DataBatch
history [] b = b
history (c ∷ cs) b = history cs (call c b)

-- A batch becomes readable from every state but reading, and writable from every state but writing;
-- the view then shares the batch's data, space and id, and otherwise the batch is as before and the
-- call throws. The try forms make the same transitions, and report them.
pub transitions_agree :
    (b : DataBatch)
    → (try_to_read_only b ≡ ((to_read_only b).0, is_ok (to_read_only b).1))
      × (try_to_mutable b ≡ ((to_mutable b).0, is_ok (to_mutable b).1))
      × (((b.state ≡ read_only) × (to_read_only b ≡ (b, err invalid_state)))
          ⊎ ((b.state ≢ read_only)
              × (to_read_only b ≡ (record b { state = read_only }, ok (view_of b)))))
      × (((b.state ≡ mutable_locked) × (to_mutable b ≡ (b, err invalid_state)))
          ⊎ ((b.state ≢ mutable_locked)
              × (to_mutable b ≡ (record b { state = mutable_locked }, ok (view_of b)))))
unfolding try_to_read_only to_read_only try_to_mutable to_mutable
transitions_agree b = ground arith

call-state : (c : Call) (b : DataBatch) → b.state ≢ idle → (call c b).state ≢ idle
unfolding call to_read_only to_mutable try_to_read_only try_to_mutable subscribe unsubscribe
call-state reads b h = ground arith
call-state writes b h = ground arith
call-state tries_read b h = ground arith
call-state tries_write b h = ground arith
call-state subscribes b h = h
call-state unsubscribes b h = ground arith

call-data_ref :
    (c : Call) (b : DataBatch)
    → ((call c b).data_ref ≡ b.data_ref)
      × ((call c b).space ≡ b.space)
      × ((call c b).batch_id ≡ b.batch_id)
unfolding call to_read_only to_mutable try_to_read_only try_to_mutable subscribe unsubscribe
call-data_ref reads b = ground arith
call-data_ref writes b = ground arith
call-data_ref tries_read b = ground arith
call-data_ref tries_write b = ground arith
call-data_ref subscribes b = (refl, refl, refl)
call-data_ref unsubscribes b = ground arith

-- Once a batch has left the idle state no sequence of calls brings it back, and none changes its
-- data, its space or its id.
pub history-not_idle :
    (cs : List Call) (b : DataBatch)
    → b.state ≢ idle
    → ((history cs b).state ≢ idle)
      × ((history cs b).data_ref ≡ b.data_ref)
      × ((history cs b).space ≡ b.space)
      × ((history cs b).batch_id ≡ b.batch_id)
unfolding history
history-not_idle [] b h = (h, refl, refl, refl)
history-not_idle (c ∷ cs) b h =
    let (n, d, s, i) = history-not_idle cs (call c b) (call-state c b h) in
    let (d', s', i') = call-data_ref c b in (n, d ∙ d', s ∙ s', i ∙ i')

-- An idle batch hands out a mutable view while a read-only view of the same data is in use.
pub to_mutable-to_read_only :
    (b : DataBatch)
    → b.state ≡ idle
    → let (reading, first) = to_read_only b in
      let (writing, second) = to_mutable reading in
      (first ≡ ok (view_of b)) × (second ≡ ok (view_of b)) × (writing.state ≡ mutable_locked)
unfolding to_read_only to_mutable
to_mutable-to_read_only b e = ground arith
