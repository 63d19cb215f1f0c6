-- ===== src/Manager/Races.antt =====
-- Two races of requests and releases: with each other, and with a shutdown.
use cuda2rocm.Base.{
  ℕ, Bool, true, false, add_word, Among, ◌⊎◌, inl, inr, ◌+◌, ◌≤◌, ◌<◌, ◌≡◌, refl, ◌∙◌, List, [],
  ◌∷◌, ap, arith, size_max,
}
use cuda2rocm.MemorySpace.{
  MemorySpace, get_available_memory, make_reservation, make_reservation_or_null,
}
use cuda2rocm.MemorySpace.Accounting.{IsWithin}
use cuda2rocm.Manager.{Manager, Strategy, Handle, matches, shutdown}
use cuda2rocm.Manager.Requests.{charged, handle}
use cuda2rocm.Manager.Concurrent.{
  Phase, Thread, scanning, charging, retrying, counting, holding, refused, scan, charge, retry,
  give_back, proceed, turn, run,
}
use cuda2rocm.Manager.Counted.{requests}

-- A manager with a first space, some others, a count and a flag.
abbrev pub manager_of : MemorySpace → List MemorySpace → ℕ → Bool → Manager
manager_of a rest n flag = record { spaces = a ∷ rest; active_reservations = n; is_shutdown = flag }

module _ (strategy : Strategy) (bytes : ℕ) (a : MemorySpace) (rest : List MemorySpace) (n : ℕ)
    (flag : Bool) where
  -- A charge that fits, and one that does not.
  charge-fits :
      IsWithin a
      → bytes ≤ get_available_memory a
      → proceed strategy bytes (charging 0) (manager_of a rest n flag)
        ≡ (manager_of (charged bytes a) rest n flag, counting (handle 0 bytes))
  unfolding proceed charge make_reservation get_available_memory
  charge-fits v fits = ground arith

  charge-refused :
      get_available_memory a < bytes
      → proceed strategy bytes (charging 0) (manager_of a rest n flag)
        ≡ (manager_of a rest n flag, retrying 0)
  unfolding proceed charge make_reservation get_available_memory
  charge-refused none_left = ground arith

  retry-refused :
      matches strategy a ≡ true
      → get_available_memory a < bytes
      → proceed strategy bytes (retrying 0) (manager_of a rest n flag)
        ≡ (manager_of a rest n flag, refused)
  unfolding proceed retry make_reservation_or_null get_available_memory
  retry-refused match none_left = ground arith

  scan-hints :
      matches strategy a ≡ true
      → bytes ≤ get_available_memory a
      → proceed strategy bytes (scanning 0) (manager_of a rest n flag)
        ≡ (manager_of a rest n flag, charging 0)
  unfolding proceed scan
  scan-hints match fits = ground arith

  counts :
      (h : Handle)
      → proceed strategy bytes (counting h) (manager_of a rest n flag)
        ≡ (manager_of a rest (add_word n 1) flag, holding h)
  unfolding proceed
  counts h = refl

-- What matches and what is left after a charge.
matches-charged :
    (strategy : Strategy) (bytes : ℕ) (s : MemorySpace)
    → matches strategy (charged bytes s) ≡ matches strategy s
unfolding matches
matches-charged strategy bytes s = ground arith

charged-left :
    (bytes : ℕ) (s : MemorySpace)
    → IsWithin s
    → get_available_memory s < bytes + bytes
    → get_available_memory (charged bytes s) < bytes
unfolding get_available_memory
charged-left bytes s v once = ground arith

-- The two requests, each in a phase.
abbrev pub both : Strategy → ℕ → Phase → Phase → List Thread
both strategy bytes p q =
    record { strategy = strategy; bytes = bytes; phase = p }
    ∷ record { strategy = strategy; bytes = bytes; phase = q }
    ∷ []

module _ (strategy : Strategy) (bytes : ℕ) (schedule : List ℕ) (m : Manager) {m' : Manager}
    (p : Phase) {p' : Phase} (q : Phase) where
  go_first :
      proceed strategy bytes p m ≡ (m', p')
      → run (0 ∷ schedule) m (both strategy bytes p q) ≡ run schedule m' (both strategy bytes p' q)
  unfolding run turn
  go_first e = ap (λ (r : Manager × Phase). run schedule r.0 (both strategy bytes r.1 q)) e

  go_second :
      proceed strategy bytes p m ≡ (m', p')
      → run (1 ∷ schedule) m (both strategy bytes q p) ≡ run schedule m' (both strategy bytes q p')
  unfolding run turn
  go_second e = ap (λ (r : Manager × Phase). run schedule r.0 (both strategy bytes q r.1)) e

-- The orders of two turns of each request.
abbrev pub two_each : List (List ℕ)
two_each =
    (0 ∷ 0 ∷ 1 ∷ 1 ∷ [])
    ∷ (0 ∷ 1 ∷ 0 ∷ 1 ∷ [])
    ∷ (0 ∷ 1 ∷ 1 ∷ 0 ∷ [])
    ∷ (1 ∷ 1 ∷ 0 ∷ 0 ∷ [])
    ∷ (1 ∷ 0 ∷ 1 ∷ 0 ∷ [])
    ∷ (1 ∷ 0 ∷ 0 ∷ 1 ∷ [])
    ∷ []

-- One request holds a reservation on the first space, and the other was answered by null.
abbrev pub OneRefused :
    Strategy → ℕ → MemorySpace → List MemorySpace → ℕ → Bool → Manager × List Thread → Type 0
OneRefused strategy bytes a rest n flag r =
    (r.0 ≡ manager_of (charged bytes a) rest (add_word n 1) flag)
    × ((r.1 ≡ both strategy bytes (holding (handle 0 bytes)) refused)
        ⊎ (r.1 ≡ both strategy bytes refused (holding (handle 0 bytes))))

-- What the two do next, once both have seen the memory: the one that charges first wins.
module _ (strategy : Strategy) (bytes n : ℕ) (flag : Bool) (a : MemorySpace)
    (rest : List MemorySpace) (v : IsWithin a) (ma : matches strategy a ≡ true)
    (fits : bytes ≤ get_available_memory a) (once : get_available_memory a < bytes + bytes) where
  abbrev start : Manager
  start = manager_of a rest n flag

  abbrev won : ℕ → Manager
  won k = manager_of (charged bytes a) rest k flag

  abbrev kept : Handle
  kept = handle 0 bytes

  wins : proceed strategy bytes (charging 0) start ≡ (won n, counting kept)
  wins = charge-fits strategy bytes a rest n flag v fits

  count : proceed strategy bytes (counting kept) (won n) ≡ (won (add_word n 1), holding kept)
  count = counts strategy bytes (charged bytes a) rest n flag kept

  loses : (k : ℕ) → proceed strategy bytes (charging 0) (won k) ≡ (won k, retrying 0)
  loses k =
      charge-refused strategy bytes (charged bytes a) rest k flag (charged-left bytes a v once)

  null : (k : ℕ) → proceed strategy bytes (retrying 0) (won k) ≡ (won k, refused)
  null k =
      retry-refused strategy bytes (charged bytes a) rest k flag
        (matches-charged strategy bytes a ∙ ma) (charged-left bytes a v once)

  both_see :
      (schedule : List ℕ)
      → run (0 ∷ 1 ∷ schedule) start (requests ((strategy, bytes) ∷ (strategy, bytes) ∷ []))
        ≡ run schedule start (both strategy bytes (charging 0) (charging 0))
  both_see schedule =
      let hint = scan-hints strategy bytes a rest n flag ma fits in
      go_first strategy bytes (1 ∷ schedule) start (scanning 0) (scanning 0) hint
      ∙ go_second strategy bytes schedule start (scanning 0) (charging 0) hint

  race :
      (schedule : List ℕ)
      → Among schedule two_each
      → OneRefused strategy bytes a rest n flag
          (run schedule start (both strategy bytes (charging 0) (charging 0)))
  unfolding run
  race schedule (inl e) =
      let done =
        go_first strategy bytes (0 ∷ 1 ∷ 1 ∷ []) start (charging 0) (charging 0) wins
        ∙ go_first strategy bytes (1 ∷ 1 ∷ []) (won n) (counting kept) (charging 0) count
        ∙ go_second strategy bytes (1 ∷ []) (won (add_word n 1)) (charging 0) (holding kept)
            (loses (add_word n 1))
        ∙ go_second strategy bytes [] (won (add_word n 1)) (retrying 0) (holding kept)
            (null (add_word n 1)) in
      rw (e, done) (refl, inl refl)
  race schedule (inr (inl e)) =
      let done =
        go_first strategy bytes (1 ∷ 0 ∷ 1 ∷ []) start (charging 0) (charging 0) wins
        ∙ go_second strategy bytes (0 ∷ 1 ∷ []) (won n) (charging 0) (counting kept) (loses n)
        ∙ go_first strategy bytes (1 ∷ []) (won n) (counting kept) (retrying 0) count
        ∙ go_second strategy bytes [] (won (add_word n 1)) (retrying 0) (holding kept)
            (null (add_word n 1)) in
      rw (e, done) (refl, inl refl)
  race schedule (inr (inr (inl e))) =
      let done =
        go_first strategy bytes (1 ∷ 1 ∷ 0 ∷ []) start (charging 0) (charging 0) wins
        ∙ go_second strategy bytes (1 ∷ 0 ∷ []) (won n) (charging 0) (counting kept) (loses n)
        ∙ go_second strategy bytes (0 ∷ []) (won n) (retrying 0) (counting kept) (null n)
        ∙ go_first strategy bytes [] (won n) (counting kept) refused count in
      rw (e, done) (refl, inl refl)
  race schedule (inr (inr (inr (inl e)))) =
      let done =
        go_second strategy bytes (1 ∷ 0 ∷ 0 ∷ []) start (charging 0) (charging 0) wins
        ∙ go_second strategy bytes (0 ∷ 0 ∷ []) (won n) (counting kept) (charging 0) count
        ∙ go_first strategy bytes (0 ∷ []) (won (add_word n 1)) (charging 0) (holding kept)
            (loses (add_word n 1))
        ∙ go_first strategy bytes [] (won (add_word n 1)) (retrying 0) (holding kept)
            (null (add_word n 1)) in
      rw (e, done) (refl, inr refl)
  race schedule (inr (inr (inr (inr (inl e))))) =
      let done =
        go_second strategy bytes (0 ∷ 1 ∷ 0 ∷ []) start (charging 0) (charging 0) wins
        ∙ go_first strategy bytes (1 ∷ 0 ∷ []) (won n) (charging 0) (counting kept) (loses n)
        ∙ go_second strategy bytes (0 ∷ []) (won n) (counting kept) (retrying 0) count
        ∙ go_first strategy bytes [] (won (add_word n 1)) (retrying 0) (holding kept)
            (null (add_word n 1)) in
      rw (e, done) (refl, inr refl)
  race schedule (inr (inr (inr (inr (inr (inl e)))))) =
      let done =
        go_second strategy bytes (0 ∷ 0 ∷ 1 ∷ []) start (charging 0) (charging 0) wins
        ∙ go_first strategy bytes (0 ∷ 1 ∷ []) (won n) (charging 0) (counting kept) (loses n)
        ∙ go_first strategy bytes (1 ∷ []) (won n) (retrying 0) (counting kept) (null n)
        ∙ go_second strategy bytes [] (won n) (counting kept) refused count in
      rw (e, done) (refl, inr refl)
  race schedule (inr (inr (inr (inr (inr (inr m)))))) = absurd m

-- Two requests for the same bytes, which fit once but not twice into the first space, which they
-- match, both see the memory there, the first request first. Whatever the other spaces, the count
-- and the flag, and in whichever order each takes its next two turns: one of them holds a
-- reservation on the first space, the other is answered by null, the count is one higher, and the
-- other spaces are as before.
pub run-refused :
    (strategy : Strategy) (bytes n : ℕ) (flag : Bool) (a : MemorySpace) (rest : List MemorySpace)
    (schedule : List ℕ)
    → IsWithin a
    → matches strategy a ≡ true
    → bytes ≤ get_available_memory a
    → get_available_memory a < bytes + bytes
    → Among schedule two_each
    → OneRefused strategy bytes a rest n flag (
        run
          (0 ∷ 1 ∷ schedule)
          (manager_of a rest n flag)
          (requests ((strategy, bytes) ∷ (strategy, bytes) ∷ [])))
run-refused strategy bytes n flag a rest schedule v ma fits once among =
    rw (both_see strategy bytes n flag a rest v ma fits once schedule)
      (race strategy bytes n flag a rest v ma fits once schedule among)

-- A release that has tested the flag before a shutdown, and lowers the count after it, leaves a count
-- of 2 ^ 64 - 1 on the manager that was shut down.
pub run-shutdown :
    (strategy : Strategy) (bytes : ℕ) (h : Handle) (m : Manager)
    → m.is_shutdown ≡ false
    → let (m', ts) =
        run
          (0 ∷ 0 ∷ [])
          m
          (record { strategy = strategy; bytes = bytes; phase = holding h } ∷ []) in
      (run (0 ∷ []) (shutdown m') ts).0.active_reservations ≡ size_max
unfolding run turn proceed shutdown give_back
run-shutdown strategy bytes h m on = ground (arith, on)
