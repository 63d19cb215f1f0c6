-- ===== src/Adaptor/Charges.antt =====
-- What threads that allocate and free hold, against the bytes of their streams and the total.
use cuda2rocm.Base.{
  ℕ, zero, suc, ◌+◌, ◌-◌, ◌≤◌, ◌<◌, ◌≡◌, refl, Option, none, some, List, [], ◌∷◌, ◌==◌,
  if◌then◌else◌, arith, word_mod, add_word, Option-cases, inl, inr,
}
use cuda2rocm.Adaptor.{
  Adaptor, Tier, device, uvm, pinned_host, Memory, charge_stream, spill, credit_stream, deallocate,
  find_spilled,
}
use cuda2rocm.Adaptor.Streams.{
  current_bytes, clamped_sub_lem, current_bytes-touch, current_bytes-charge, current_bytes-credit,
}
use cuda2rocm.Adaptor.Traffic.{
  Phase, asking, admitted, holding, freed, refused, Thread, book, proceed, turn, run,
}

-- The bytes of a phase that are charged, and those that may still be.
abbrev pub held_in : ℕ → Phase → ℕ
held_in n (holding m) = n
held_in n _ = 0

abbrev pub due_in : ℕ → Phase → ℕ
due_in n asking = n
due_in n admitted = n
due_in n _ = 0

-- The sums over all threads, and over those of a stream.
abbrev pub all_held : List Thread → ℕ
all_held [] = 0
all_held (t ∷ ts) = held_in t.bytes t.phase + all_held ts

abbrev pub all_due : List Thread → ℕ
all_due [] = 0
all_due (t ∷ ts) = due_in t.bytes t.phase + all_due ts

abbrev pub held : ℕ → List Thread → ℕ
held y [] = 0
held y (t ∷ ts) = (if t.stream == y then held_in t.bytes t.phase else 0) + held y ts

abbrev pub due : ℕ → List Thread → ℕ
due y [] = 0
due y (t ∷ ts) = (if t.stream == y then due_in t.bytes t.phase else 0) + due y ts

abbrev pub bytes_of : ℕ → Adaptor → ℕ
bytes_of y s = current_bytes y s.stream_tracker

-- Whatever the tier, an allocation is charged and a free is credited to its stream and to the total.
book_lem :
    (stream bytes ptr : ℕ) (t : Tier) (y : ℕ) (s : Adaptor)
    → (bytes_of y (book stream bytes ptr t s)
        ≡ (if stream == y then add_word (bytes_of y s) bytes else bytes_of y s))
      × ((book stream bytes ptr t s).total_allocated ≡ add_word s.total_allocated bytes)
unfolding book charge_stream spill
book_lem stream bytes ptr device y s = (current_bytes-charge stream y bytes s.stream_tracker, refl)
book_lem stream bytes ptr uvm y s = (current_bytes-charge stream y bytes s.stream_tracker, refl)
book_lem stream bytes ptr pinned_host y s =
    (current_bytes-charge stream y bytes s.stream_tracker, refl)

deallocate_lem :
    (stream ptr bytes y : ℕ) (s : Adaptor)
    → (bytes_of y (deallocate stream ptr bytes s).0
        ≡ (if stream == y then bytes_of y s - bytes else bytes_of y s))
      × ((deallocate stream ptr bytes s).0.total_allocated ≡ s.total_allocated - bytes)
unfolding deallocate credit_stream
deallocate_lem stream ptr bytes y s =
    let credited = current_bytes-credit stream y bytes s.stream_tracker in
    let clamped = clamped_sub_lem (bytes_of y s) bytes in
    elim (Option-cases (find_spilled ptr s.host_spilled)) [
      | inl usual ↦
          rw (usual, deallocate)
            (ground (arith, credited, clamped), clamped_sub_lem s.total_allocated bytes)
      | inr (x, spilled) ↦
          rw (spilled, deallocate)
            (ground (arith, credited, clamped), clamped_sub_lem s.total_allocated bytes)
    ]

-- A step of a thread: what it comes to hold is charged, to one stream and to the total.
abbrev Kept : ℕ → ℕ → ℕ → Phase → Adaptor → Adaptor × Phase → Type 0
Kept y stream bytes p s r =
    (bytes_of y r.0 + (if stream == y then held_in bytes p else 0)
      ≡ bytes_of y s + (if stream == y then held_in bytes r.1 else 0))
    × (bytes_of y r.0 + (if stream == y then due_in bytes r.1 else 0)
        ≤ bytes_of y s + (if stream == y then due_in bytes p else 0))
    × (r.0.total_allocated + held_in bytes p ≡ s.total_allocated + held_in bytes r.1)
    × (r.0.total_allocated + due_in bytes r.1 ≤ s.total_allocated + due_in bytes p)

-- What is held is charged, and the sums have room for what is due.
abbrev Covers : Adaptor → ℕ → ℕ → ℕ → ℕ → ℕ → Type 0
Covers s y held_y due_y held_all due_all =
    (held_y ≤ bytes_of y s)
    × (bytes_of y s + due_y < word_mod)
    × (held_all ≤ s.total_allocated)
    × (s.total_allocated + due_all < word_mod)

proceed-Kept :
    (y stream bytes : ℕ) (memory : Option Memory) (p : Phase) (s : Adaptor)
    → Covers s y
        (if stream == y then held_in bytes p else 0)
        (if stream == y then due_in bytes p else 0)
        (held_in bytes p)
        (due_in bytes p)
    → Kept y stream bytes p s (proceed stream bytes memory p s)
unfolding proceed
proceed-Kept y stream bytes memory asking s c =
    let e = current_bytes-touch stream y s.stream_tracker in
    (ground (arith, e), ground (arith, e), ground (arith, e), ground (arith, e))
proceed-Kept y stream bytes none admitted s c = (ground arith, ground arith, refl, omega arith)
proceed-Kept y stream bytes (some m) admitted s c =
    let (e, t) = book_lem stream bytes m.ptr m.tier y s in
    (ground (arith, e, c.1), ground (arith, e, c.1), ground (arith, t, c.3), ground (arith, t, c.3))
proceed-Kept y stream bytes memory (holding m) s c =
    let (e, t) = deallocate_lem stream m.ptr bytes y s in
    (ground (arith, e, c.0), ground (arith, e, c.0), ground (arith, t, c.2), ground (arith, t, c.2))
proceed-Kept y stream bytes memory freed s c = (refl, omega arith, refl, omega arith)
proceed-Kept y stream bytes memory refused s c = (refl, omega arith, refl, omega arith)

-- The same for all threads.
abbrev Charged : ℕ → Adaptor → List Thread → Adaptor × List Thread → Type 0
Charged y s ts r =
    (bytes_of y r.0 + held y ts ≡ bytes_of y s + held y r.1)
    × (bytes_of y r.0 + due y r.1 ≤ bytes_of y s + due y ts)
    × (r.0.total_allocated + all_held ts ≡ s.total_allocated + all_held r.1)
    × (r.0.total_allocated + all_due r.1 ≤ s.total_allocated + all_due ts)

turn-Charged :
    (i y : ℕ) (s : Adaptor) (ts : List Thread)
    → Covers s y (held y ts) (due y ts) (all_held ts) (all_due ts)
    → Charged y s ts (turn i s ts)
unfolding turn
turn-Charged i y s [] c = (refl, omega arith, refl, omega arith)
turn-Charged zero y s (t ∷ ts) c =
    let (a, b, d, e) =
      proceed-Kept y t.stream t.bytes t.memory t.phase s
        (omega (arith, c.0), omega (arith, c.1), omega (arith, c.2), omega (arith, c.3)) in
    (omega (arith, a), omega (arith, b), omega (arith, d), omega (arith, e))
turn-Charged (suc i) y s (t ∷ ts) c =
    let (a, b, d, e) =
      turn-Charged i y s ts
        (omega (arith, c.0), omega (arith, c.1), omega (arith, c.2), omega (arith, c.3)) in
    (omega (arith, a), omega (arith, b), omega (arith, d), omega (arith, e))

pub run-Charged :
    (schedule : List ℕ) (y : ℕ) (s : Adaptor) (ts : List Thread)
    → Covers s y (held y ts) (due y ts) (all_held ts) (all_due ts)
    → Charged y s ts (run schedule s ts)
unfolding run
run-Charged [] y s ts c = (refl, omega arith, refl, omega arith)
run-Charged (i ∷ schedule) y s ts c =
    let (a, b, d, e) = turn-Charged i y s ts c in
    let (a', b', d', e') = run-Charged schedule y (turn i s ts).0 (turn i s ts).1 (
      omega (arith, c.0, a),
      omega (arith, c.1, b),
      omega (arith, c.2, d),
      omega (arith, c.3, e),
    ) in
    (omega (arith, a, a'), omega (arith, b, b'), omega (arith, d, d'), omega (arith, e, e'))
