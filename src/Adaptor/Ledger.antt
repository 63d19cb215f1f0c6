-- ===== src/Adaptor/Ledger.antt =====
-- The limit, and an allocation with the deallocation that matches it.
use cuda2rocm.Base.{
  ℕ, ◌+◌, ◌≤◌, ◌<◌, ◌≡◌, ◌≢◌, refl, ◌∙◌, true, false, Option, none, some, List, [], ◌∷◌, ◌==◌,
  arith, word_mod, add_word, if◌then◌else◌, Result, ok, err, Bool-cases, inl, inr, limit_exceeded,
  Error,
}
use mathlib.Core.Path.{subst}
use cuda2rocm.Adaptor.{
  Adaptor, SpilledAlloc, Answers, Memory, Tier, device, uvm, pinned_host, allocate, deallocate,
  credit_stream, find_spilled, erase_spilled, over_limit, recover, handle_oom, Handling,
}
use cuda2rocm.Adaptor.Streams.{
  current_bytes, credit, clamped_sub, clamped_sub_lem, current_bytes-credit, OomPolicy,
  throw_on_oom, custom, policy_of, policy_of-touch, current_bytes-touch,
}
use cuda2rocm.Adaptor.Outcomes.{Charged, Booked, allocate-Booked}

erase_spilled-absent :
    (p : ℕ) (xs : List SpilledAlloc) → find_spilled p xs ≡ none → erase_spilled p xs ≡ xs
unfolding find_spilled erase_spilled
erase_spilled-absent p [] h = refl
erase_spilled-absent p (x ∷ xs) h = ground (arith, erase_spilled-absent p xs)

-- The stream's count after a charge and a credit of the same bytes.
credit-charge :
    (stream y before bytes : ℕ)
    → before + bytes < word_mod
    → (if stream == y
        then clamped_sub (if stream == y then add_word before bytes else before) bytes
        else (if stream == y then add_word before bytes else before))
      ≡ before
credit-charge stream y before bytes h = elim (Bool-cases (stream == y)) [
  | inl e ↦ rw e (clamped_sub_lem (add_word before bytes) bytes ∙ omega arith)
  | inr e ↦ rw e refl
]

-- What is freed is what was allocated, by the function of its tier.
pub record Undone (m : Memory) (s : Adaptor) (r : Adaptor × Tier) : Type 0 where
  pub tier : r.1 ≡ m.tier
  pub total : r.0.total_allocated ≡ s.total_allocated
  pub spilled : r.0.host_spilled ≡ s.host_spilled
  pub streams : (y : ℕ) → current_bytes y r.0.stream_tracker ≡ current_bytes y s.stream_tracker

module _ (stream bytes : ℕ) (m : Memory) (s t : Adaptor) (charged : Charged stream bytes m s t)
    (fresh : find_spilled m.ptr s.host_spilled ≡ none)
    (total_fits : s.total_allocated + bytes < word_mod)
    (stream_fits : (y : ℕ) → current_bytes y s.stream_tracker + bytes < word_mod) where
  credit-streams :
      (y : ℕ)
      → current_bytes y (credit stream bytes t.stream_tracker) ≡ current_bytes y s.stream_tracker
  credit-streams y =
      rw (current_bytes-credit stream y bytes t.stream_tracker, charged.streams y)
        (credit-charge stream y (current_bytes y s.stream_tracker) bytes (stream_fits y))

  credit-total : clamped_sub t.total_allocated bytes ≡ s.total_allocated
  credit-total = omega (arith, clamped_sub_lem t.total_allocated bytes, charged.total)

  deallocate-spilled :
      (x : SpilledAlloc)
      → x.ptr ≡ m.ptr
      → (if x.is_uvm then uvm else pinned_host) ≡ m.tier
      → t.host_spilled ≡ x ∷ erase_spilled m.ptr s.host_spilled
      → Undone m s (deallocate stream m.ptr bytes t)
  unfolding deallocate credit_stream
  deallocate-spilled x same kind e =
      let f : find_spilled m.ptr t.host_spilled ≡ some x =
        rw e (unfold find_spilled in ground (arith, same)) in
      let g : erase_spilled m.ptr t.host_spilled ≡ erase_spilled m.ptr s.host_spilled =
        rw e (unfold erase_spilled in ground (arith, same)) in
      rw (f, deallocate)
        (record {
          tier = kind;
          total = credit-total;
          spilled = g ∙ erase_spilled-absent m.ptr s.host_spilled fresh;
          streams = credit-streams;
        })

  deallocate-device :
      t.host_spilled ≡ s.host_spilled
      → device ≡ m.tier
      → Undone m s (deallocate stream m.ptr bytes t)
  unfolding deallocate credit_stream
  deallocate-device e kind =
      let f : find_spilled m.ptr t.host_spilled ≡ none = rw e fresh in
      rw (f, deallocate)
        (record { tier = kind; total = credit-total; spilled = e; streams = credit-streams })

deallocate-Charged :
    (stream bytes ptr : ℕ) (tier : Tier) (s t : Adaptor)
    → let m : Memory = record { ptr = ptr; tier = tier } in
      Charged stream bytes m s t
      → find_spilled ptr s.host_spilled ≡ none
      → s.total_allocated + bytes < word_mod
      → ((y : ℕ) → current_bytes y s.stream_tracker + bytes < word_mod)
      → Undone m s (deallocate stream ptr bytes t)
deallocate-Charged stream bytes ptr device s t c f a b =
    deallocate-device stream bytes (record { ptr = ptr; tier = device }) s t c f a b c.spilled refl
deallocate-Charged stream bytes ptr uvm s t c f a b =
    deallocate-spilled stream bytes (record { ptr = ptr; tier = uvm }) s t c f a b
      (record { ptr = ptr; bytes = bytes; is_uvm = true }) refl refl c.spilled
deallocate-Charged stream bytes ptr pinned_host s t c f a b =
    deallocate-spilled stream bytes (record { ptr = ptr; tier = pinned_host }) s t c f a b
      (record { ptr = ptr; bytes = bytes; is_uvm = false }) refl refl c.spilled

-- An allocation that returns memory is charged.
Booked-ok :
    (stream bytes : ℕ) (s : Adaptor) (m : Memory) (r : Adaptor × Result Memory)
    → Booked stream bytes s r
    → r.1 ≡ ok m
    → Charged stream bytes m s r.0
Booked-ok stream bytes s m (t, ok m') c q =
    let same : m' ≡ m = cc in subst (λ x. Charged stream bytes x s t) same c
Booked-ok stream bytes s m (t, err x) c q = cc

-- If the address of an allocation is not that of a spilled one and the counts do not wrap, freeing
-- it with its stream and bytes uses the function of its tier and takes back its charge and its
-- entry.
pub deallocate-allocate :
    (stream bytes : ℕ) (answers : Answers) (s : Adaptor) (m : Memory)
    → (allocate stream bytes answers s).1 ≡ ok m
    → find_spilled m.ptr s.host_spilled ≡ none
    → s.total_allocated + bytes < word_mod
    → ((y : ℕ) → current_bytes y s.stream_tracker + bytes < word_mod)
    → Undone m s (deallocate stream m.ptr bytes (allocate stream bytes answers s).0)
deallocate-allocate stream bytes answers s m e f a b =
    deallocate-Charged stream bytes m.ptr m.tier s (allocate stream bytes answers s).0
      (Booked-ok stream bytes s m (allocate stream bytes answers s)
        (allocate-Booked stream bytes answers s) e)
      f a b

handle_oom-not_custom :
    (policy : Option OomPolicy) (answer : Handling) (e : Error)
    → policy ≢ some custom
    → handle_oom policy answer e ≡ err e
unfolding handle_oom
handle_oom-not_custom none answer e h = refl
handle_oom-not_custom (some throw_on_oom) answer e h = refl
handle_oom-not_custom (some custom) answer e h = absurd (h refl)

-- Without a client's policy, an allocation over the limit throws.
over_limit-throws :
    (stream bytes : ℕ) (answers : Answers) (s : Adaptor)
    → policy_of stream s.stream_tracker ≢ some custom
    → over_limit s.reservation_limit (current_bytes stream s.stream_tracker) bytes ≡ true
    → (allocate stream bytes answers s).1 ≡ err limit_exceeded
unfolding allocate recover
over_limit-throws stream bytes answers s p over = ground (
  arith,
  current_bytes-touch stream stream s.stream_tracker,
  policy_of-touch stream stream s.stream_tracker,
  handle_oom-not_custom (policy_of stream s.stream_tracker) answers.handling limit_exceeded p,
)

within_limit :
    (limit current bytes : ℕ)
    → 0 < limit
    → over_limit limit current bytes ≡ false
    → current + bytes ≤ limit
unfolding over_limit
within_limit limit current bytes h f = ground arith

-- With a limit that is set, a stream whose policy is the default one or none gets memory only while
-- its bytes stay within the limit.
pub allocate-le-limit :
    (stream bytes : ℕ) (answers : Answers) (s : Adaptor) (m : Memory)
    → 0 < s.reservation_limit
    → s.reservation_limit < word_mod
    → policy_of stream s.stream_tracker ≢ some custom
    → (allocate stream bytes answers s).1 ≡ ok m
    → current_bytes stream (allocate stream bytes answers s).0.stream_tracker ≤ s.reservation_limit
allocate-le-limit stream bytes answers s m h k p e =
    let before = current_bytes stream s.stream_tracker in
    elim (Bool-cases (over_limit s.reservation_limit before bytes)) [
      | inl over ↦ let thrown = over_limit-throws stream bytes answers s p over in absurd (cc)
      | inr fits ↦
          let c =
            Booked-ok stream bytes s m (allocate stream bytes answers s)
              (allocate-Booked stream bytes answers s) e in
          let le = within_limit s.reservation_limit before bytes h fits in
          ground (arith, c.streams stream)
    ]
