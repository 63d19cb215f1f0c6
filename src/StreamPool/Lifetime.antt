-- ===== src/StreamPool/Lifetime.antt =====
-- A pool from its constructor to its destructor.
use cuda2rocm.Base.{
  ℕ, ◌≡◌, ◌≢◌, refl, ap, sym, ◌∙◌, Option, none, some, List, [], ◌∷◌, ◌++◌, length, arith,
  Option-cases, inl, inr,
}
use mathlib.Core.List.{append_assoc, append-nil}
use cuda2rocm.StreamPool.{
  StreamPool, grow, block, find_free, new_pool, acquire_stream, grow_pool, release, return_stream,
  RuntimeCall, stream_synchronize, stream_destroy, destroy_streams, destroy_pool,
}
use cuda2rocm.StreamPool.Flags.{free_count, take_out}
use cuda2rocm.StreamPool.Exclusive.{
  System, Call, acquires, releases, call, history, IsExclusive, history-IsExclusive,
}

-- The streams that the runtime made when the constructor asked for some.
abbrev pub made : List (Option ℕ) → List ℕ
made [] = []
made (none ∷ created) = made created
made (some h ∷ created) = h ∷ made created

-- The stream that a call made the runtime create: none, unless no stream is free and the call may
-- grow the pool.
abbrev pub made_by : System → Call → List ℕ
made_by s (acquires grow (some h)) = elim (find_free s.pool.free) [ none ↦ h ∷ [] | some i ↦ [] ]
made_by s _ = []

unfoldable pub made_later : System → List Call → List ℕ
made_later s [] = []
made_later s (c ∷ cs) = made_by s c ++ made_later (call s c) cs

abbrev pub start : List (Option ℕ) → System
start created = record { pool = new_pool created; held = [] }

-- Each stream once, its work awaited first.
abbrev pub torn_down : List ℕ → List RuntimeCall
torn_down [] = []
torn_down (h ∷ streams) = stream_synchronize h ∷ stream_destroy h ∷ torn_down streams

-- The runtime makes no null stream.
abbrev pub NonNull : List ℕ → Type 0
NonNull [] = Unit {0}
NonNull (h ∷ streams) = (h ≢ 0) × NonNull streams

new_pool-streams : (created : List (Option ℕ)) → (new_pool created).streams ≡ made created
unfolding new_pool
new_pool-streams [] = refl
new_pool-streams (none ∷ created) = new_pool-streams created
new_pool-streams (some h ∷ created) = ap (λ r. h ∷ r) (new_pool-streams created)

new_pool-free :
    (created : List (Option ℕ))
    → (length (new_pool created).free ≡ length (new_pool created).streams)
      × (free_count (new_pool created).free ≡ length (new_pool created).streams)
unfolding new_pool
new_pool-free [] = (refl, refl)
new_pool-free (none ∷ created) = new_pool-free created
new_pool-free (some h ∷ created) =
    let (l, c) = new_pool-free created in (omega (arith, l), omega (arith, c))

start-IsExclusive : (created : List (Option ℕ)) → IsExclusive (start created)
start-IsExclusive created =
    let (l, c) = new_pool-free created in
    record { aligned = l; busy = tt; counted = omega (arith, c) }

return_stream-streams : (i : ℕ) (p : StreamPool) → (return_stream i p).streams ≡ p.streams
unfolding return_stream
return_stream-streams i p = ground arith

call-streams : (s : System) (c : Call) → (call s c).pool.streams ≡ s.pool.streams ++ made_by s c
unfolding call acquire_stream grow_pool release return_stream
call-streams s (acquires grow none) = elim (Option-cases (find_free s.pool.free)) [
  | inl e ↦ rw (e, call, acquire_stream) (sym (append-nil s.pool.streams))
  | inr (i, e) ↦ rw (e, call, acquire_stream) (sym (append-nil s.pool.streams))
]
call-streams s (acquires grow (some h)) = elim (Option-cases (find_free s.pool.free)) [
  | inl e ↦ rw (e, call, acquire_stream, made_by) refl
  | inr (i, e) ↦ rw (e, call, acquire_stream, made_by) (sym (append-nil s.pool.streams))
]
call-streams s (acquires block created) = elim (Option-cases (find_free s.pool.free)) [
  | inl e ↦ rw (e, call, acquire_stream) (sym (append-nil s.pool.streams))
  | inr (i, e) ↦ rw (e, call, acquire_stream) (sym (append-nil s.pool.streams))
]
call-streams s (releases k) = elim (Option-cases (take_out k s.held)) [
  | inl e ↦ rw (e, call) (sym (append-nil s.pool.streams))
  | inr ((i, left), e) ↦
      rw (e, call) (return_stream-streams i s.pool ∙ sym (append-nil s.pool.streams))
]

history-streams :
    (s : System) (cs : List Call) → (history s cs).pool.streams ≡ s.pool.streams ++ made_later s cs
unfolding history made_later
history-streams s [] = sym (append-nil s.pool.streams)
history-streams s (c ∷ cs) =
    history-streams (call s c) cs
    ∙ ap (λ r. r ++ made_later (call s c) cs) (call-streams s c)
    ∙ append_assoc s.pool.streams (made_by s c) (made_later (call s c) cs)

destroy_streams-torn_down : (hs : List ℕ) → NonNull hs → destroy_streams hs ≡ torn_down hs
unfolding destroy_streams
destroy_streams-torn_down [] n = refl
destroy_streams-torn_down (h ∷ hs) n = ground (arith, n.0, destroy_streams-torn_down hs n.1)

-- From the constructor, through any sequence of acquisitions and releases, with any failures of the
-- runtime, where it makes no null stream: each stream of the pool that a client holds is marked as
-- taken, none is held twice, and the free and the held ones make up the pool; and the destructor
-- then destroys exactly the streams that the runtime made for the constructor and the growth, each
-- once and after its work was awaited.
pub history-destroy_pool :
    (created : List (Option ℕ)) (cs : List Call)
    → NonNull (made created ++ made_later (start created) cs)
    → let s = history (start created) cs in
      IsExclusive s
      × (destroy_pool s.pool ≡ torn_down (made created ++ made_later (start created) cs))
unfolding destroy_pool
history-destroy_pool created cs n =
    let all =
      history-streams (start created) cs
      ∙ ap (λ r. r ++ made_later (start created) cs) (new_pool-streams created) in
    (
      history-IsExclusive (start created) cs (start-IsExclusive created),
      ap destroy_streams all ∙ destroy_streams-torn_down _ n,
    )
