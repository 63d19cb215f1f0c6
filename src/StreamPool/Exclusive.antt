-- ===== src/StreamPool/Exclusive.antt =====
-- The streams that clients hold.
use cuda2rocm.Base.{
  ℕ, ◌+◌, ◌≡◌, sym, true, false, Option, none, some, List, [], ◌∷◌, ◌++◌, length, set, arith,
  length-set, length-append, Option-cases, inl, inr,
}
use cuda2rocm.StreamPool.{
  StreamPool, AcquirePolicy, grow, block, find_free, grow_pool, acquire_stream, return_stream,
  release,
}
use cuda2rocm.StreamPool.Flags.{
  take_out, Busy, free_count, find_free-true, get_elem?-set_eq, get_elem?-append_last,
  get_elem?-past, free_count-set-false, free_count-set-true, free_count-append_false, NotIn-flag,
  Busy-set, Busy-append, take_out-Busy, get_elem?-lt,
}

-- A client keeps the streams of the pool that it borrowed.
pub record System : Type 0 where
  pub pool : StreamPool
  pub held : List ℕ

pub data Call : Type 0 where
  acquires : AcquirePolicy → Option ℕ → Call
  releases : ℕ → Call

abbrev pub keep : Option ℕ → List ℕ → List ℕ
keep none is = is
keep (some i) is = i ∷ is

unfoldable pub call : System → Call → System
call s (acquires policy created) =
    let (pool, got) = acquire_stream policy created s.pool in
    record { pool = pool; held = keep got s.held }
call s (releases k) = elim (take_out k s.held) [
  | none ↦ s
  | some (i, left) ↦ record { pool = (release (some i) s.pool).0; held = left }
]

unfoldable pub history : System → List Call → System
unfolding call
history s [] = s
history s (c ∷ cs) = history (call s c) cs

pub record IsExclusive (s : System) : Type 0 where
  pub aligned : length s.pool.free ≡ length s.pool.streams
  pub busy : Busy s.pool.free s.held
  pub counted : free_count s.pool.free + length s.held ≡ length s.pool.streams

module _ (s : System) (v : IsExclusive s) where
  reuse-IsExclusive :
      (i : ℕ)
      → find_free s.pool.free ≡ some i
      → IsExclusive
          (record { pool = record s.pool { free = set s.pool.free i false }; held = i ∷ s.held })
  reuse-IsExclusive i e =
      let was = find_free-true s.pool.free i e in
      ground (
        arith,
        NotIn-flag s.pool.free i s.held (λ f. cc) v.busy,
        length-set s.pool.free i false,
        get_elem?-set_eq s.pool.free i true false was,
        Busy-set s.pool.free i false s.held (NotIn-flag s.pool.free i s.held (λ f. cc) v.busy)
            v.busy,
        free_count-set-false s.pool.free i was,
      )

  grow-IsExclusive :
      (h : ℕ)
      → IsExclusive (record {
        pool = record { streams = s.pool.streams ++ h ∷ []; free = s.pool.free ++ false ∷ [] };
        held = length s.pool.streams ∷ s.held;
      })
  grow-IsExclusive h =
      let same : length s.pool.streams ≡ length s.pool.free = sym v.aligned in
      record {
        aligned = omega (
          arith,
          length-append s.pool.free (false ∷ []),
          length-append s.pool.streams (h ∷ []),
          v.aligned,
        );
        busy = rw same (
          get_elem?-append_last s.pool.free false,
          NotIn-flag s.pool.free (length s.pool.free) s.held
              (λ f. ground (arith, get_elem?-past s.pool.free)) v.busy,
          Busy-append s.pool.free (false ∷ []) s.held v.busy,
        );
        counted = omega (
          arith,
          free_count-append_false s.pool.free,
          length-append s.pool.streams (h ∷ []),
          v.counted,
        );
      }

acquire-IsExclusive :
    (s : System) (policy : AcquirePolicy) (created : Option ℕ)
    → IsExclusive s
    → IsExclusive (call s (acquires policy created))
unfolding call acquire_stream grow_pool
acquire-IsExclusive s policy created v = elim (Option-cases (find_free s.pool.free)) [
  | inr (i, e) ↦ rw (e, call, acquire_stream) (reuse-IsExclusive s v i e)
  | inl e ↦ rw (e, call, acquire_stream) (refill policy created)
]
  where
    refill :
        (policy : AcquirePolicy) (created : Option ℕ)
        → let r : StreamPool × Option ℕ = elim policy [
          | grow ↦ grow_pool created s.pool
          | block ↦ (s.pool, none)
        ] in
          IsExclusive (record { pool = r.0; held = keep r.1 s.held })
    refill grow none = v
    refill grow (some h) = grow-IsExclusive s v h
    refill block created = v

release-IsExclusive : (s : System) (k : ℕ) → IsExclusive s → IsExclusive (call s (releases k))
unfolding call release return_stream
release-IsExclusive s k v = elim (Option-cases (take_out k s.held)) [
  | inl e ↦ rw (e, call) v
  | inr ((i, left), e) ↦
      let t = take_out-Busy s.pool.free k s.held i left e v.busy in
      ground (
        arith,
        length-set s.pool.free i true,
        Busy-set s.pool.free i true left t.1 t.2,
        free_count-set-true s.pool.free i t.0,
        t.3,
        get_elem?-lt s.pool.free i false t.0,
      )
]

call-IsExclusive : (s : System) (c : Call) → IsExclusive s → IsExclusive (call s c)
call-IsExclusive s (acquires policy created) v = acquire-IsExclusive s policy created v
call-IsExclusive s (releases k) v = release-IsExclusive s k v

-- Under every sequence of acquisitions and releases, with any failures of the runtime, from an
-- exclusive state: each stream of the pool that a client holds is marked as taken, no stream is
-- held twice, and the free and the held streams make up the pool.
pub history-IsExclusive : (s : System) (cs : List Call) → IsExclusive s → IsExclusive (history s cs)
unfolding history
history-IsExclusive s [] v = v
history-IsExclusive s (c ∷ cs) v = history-IsExclusive (call s c) cs (call-IsExclusive s c v)
