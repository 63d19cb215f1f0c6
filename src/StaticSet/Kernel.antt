-- ===== src/StaticSet/Kernel.antt =====
-- `set_insert_kernel`: the threads of one launch, which share the slots and go one `atomicCAS` at a
-- time, in the order of a schedule.
use cuda2rocm.Base.{ℕ, zero, suc, ◌||◌, List, [], ◌∷◌, ltb, ◌==◌, if◌then◌else◌, get_or, set}
use cuda2rocm.StaticSet.{StaticSet, slot_index}

-- A thread before a probe, after the exchange that stored or met its key, or past its last probe.
pub data Phase : Type 0 where
  probing : ℕ → Phase
  placed : Phase
  dropped : Phase

pub record Thread : Type 0 where
  pub key : ℕ
  pub phase : Phase

-- `atomicCAS(&slots[i], empty_key, key)`: the new slots; the old value is read before.
unfoldable pub exchange : ℕ → ℕ → ℕ → List ℕ → List ℕ
exchange i empty key slots = if get_or slots i empty == empty then set slots i key else slots

module _ (hash : ℕ → ℕ) where
  -- One round of the loop: the exchange, and the return or the next probe.
  unfoldable pub round : StaticSet → ℕ → ℕ → List ℕ × Phase
  unfolding exchange
  round s key probe =
      if ltb probe s.capacity
      then (let i = slot_index hash s.capacity key probe in
          let old = get_or s.slots i s.empty_key in
          (
            exchange i s.empty_key key s.slots,
            if old == s.empty_key || old == key then placed else probing (suc probe),
          ))
      else (s.slots, dropped)

  unfoldable pub advance : StaticSet → ℕ → Phase → List ℕ × Phase
  unfolding round
  advance s key (probing probe) = round s key probe
  advance s key placed = (s.slots, placed)
  advance s key dropped = (s.slots, dropped)

  -- The thread at an index takes one round.
  unfoldable pub turn : ℕ → StaticSet → List Thread → StaticSet × List Thread
  turn i s [] = (s, [])
  turn zero s (t ∷ ts) =
      let (slots, phase) = advance s t.key t.phase in
      (record s { slots = slots }, record { key = t.key; phase = phase } ∷ ts)
  turn (suc i) s (t ∷ ts) = let (s', rest) = turn i s ts in (s', t ∷ rest)

  unfoldable pub run : List ℕ → StaticSet → List Thread → StaticSet × List Thread
  run [] s ts = (s, ts)
  run (i ∷ schedule) s ts = let (s', rest) = turn i s ts in run schedule s' rest

-- `insert_async`: a thread for each key of the range, before its first probe. Launches are of at most
-- 2 ^ 32 keys, for which the 32-bit index of a thread does not wrap (Launch).
abbrev pub launch : List ℕ → List Thread
launch [] = []
launch (key ∷ keys) = record { key = key; phase = probing 0 } ∷ launch keys
