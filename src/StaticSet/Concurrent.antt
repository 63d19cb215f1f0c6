-- ===== src/StaticSet/Concurrent.antt =====
-- Insertion kernels under every schedule of their threads.
use cuda2rocm.Base.{ℕ, zero, suc, ◌≡◌, ◌≢◌, sym, ◌∙◌, true, false, List, [], ◌∷◌, get_or, arith}
use cuda2rocm.StaticSet.{StaticSet, contains}
use cuda2rocm.StaticSet.Probing.{contains-Placed, contains-Passed}
use cuda2rocm.StaticSet.Kernel.{Phase, probing, placed, dropped, Thread, turn, run, launch}
use cuda2rocm.StaticSet.Rounds.{
  IsShaped, Extends, Knows, same-Extends, Knows-Extends, advance-Stepped,
}

-- None of the keys is the empty one.
abbrev pub NonEmpty : StaticSet → List ℕ → Type 0
NonEmpty s [] = Unit {0}
NonEmpty s (k ∷ keys) = (k ≢ s.empty_key) × NonEmpty s keys

module _ (hash : ℕ → ℕ) where
  abbrev pub AllKnow : StaticSet → List Thread → Type 0
  AllKnow s [] = Unit {0}
  AllKnow s (t ∷ ts) = (t.key ≢ s.empty_key) × Knows hash s t.key t.phase × AllKnow s ts

  AllKnow-Extends : (s t : StaticSet) (ts : List Thread) → Extends s t → AllKnow s ts → AllKnow t ts
  AllKnow-Extends s t [] x w = tt
  AllKnow-Extends s t (th ∷ ts) x w = (
    λ y. w.0 (y ∙ x.empty_key),
    Knows-Extends hash s t th.key th.phase w.0 x w.1,
    AllKnow-Extends s t ts x w.2,
  )

  trans-Extends : (s t u : StaticSet) → Extends s t → Extends t u → Extends s u
  trans-Extends s t u x y = record {
    capacity = y.capacity ∙ x.capacity;
    empty_key = y.empty_key ∙ x.empty_key;
    kept = λ i h.
        let e = x.kept i h in
        let k : get_or t.slots i t.empty_key ≢ t.empty_key = rw x.empty_key (λ z. h (sym e ∙ z)) in
        (rw x.empty_key at (y.kept i k)) ∙ e;
  }

  turn-AllKnow :
      (i : ℕ) (s : StaticSet) (ts : List Thread)
      → IsShaped s
      → AllKnow s ts
      → Extends s (turn hash i s ts).0
        × IsShaped (turn hash i s ts).0
        × AllKnow (turn hash i s ts).0 (turn hash i s ts).1
  unfolding turn
  turn-AllKnow i s [] v w = (same-Extends hash s, v, tt)
  turn-AllKnow zero s (t ∷ ts) v w =
      let (x, v', k) = advance-Stepped hash s t.key t.phase v w.1 in
      (x, v', (w.0, k, AllKnow-Extends s _ ts x w.2))
  turn-AllKnow (suc i) s (t ∷ ts) v w =
      let (x, v', k) = turn-AllKnow i s ts v w.2 in
      (x, v', (λ y. w.0 (y ∙ x.empty_key), Knows-Extends hash s _ t.key t.phase w.0 x w.1, k))

  -- Under every schedule, no occupied slot changes, and each thread of a kernel that inserts keys
  -- other than the empty one knows: before a probe, that all its earlier probes met other keys; when
  -- placed, that its key lies behind other keys alone; when dropped, that all its probes met others.
  pub run-AllKnow :
      (schedule : List ℕ) (s : StaticSet) (ts : List Thread)
      → IsShaped s
      → AllKnow s ts
      → Extends s (run hash schedule s ts).0
        × IsShaped (run hash schedule s ts).0
        × AllKnow (run hash schedule s ts).0 (run hash schedule s ts).1
  unfolding run
  run-AllKnow [] s ts v w = (same-Extends hash s, v, w)
  run-AllKnow (i ∷ schedule) s ts v w =
      let (x, v', k) = turn-AllKnow i s ts v w in
      let (y, v'', k') = run-AllKnow schedule _ _ v' k in (trans-Extends s _ _ x y, v'', k')

  -- What a probe answers for the key of a thread, once that has returned.
  abbrev pub Answer : StaticSet → ℕ → Phase → Type 0
  Answer s key (probing p) = Unit {0}
  Answer s key placed = contains hash s key ≡ true
  Answer s key dropped = contains hash s key ≡ false

  abbrev pub Answers : StaticSet → List Thread → Type 0
  Answers s [] = Unit {0}
  Answers s (t ∷ ts) = Answer s t.key t.phase × Answers s ts

  Answer-Knows : (s : StaticSet) (key : ℕ) (ph : Phase) → Knows hash s key ph → Answer s key ph
  Answer-Knows s key (probing p) k = tt
  Answer-Knows s key placed k = contains-Placed hash s key k
  Answer-Knows s key dropped k = contains-Passed hash s key k

  Answers-AllKnow : (s : StaticSet) (ts : List Thread) → AllKnow s ts → Answers s ts
  Answers-AllKnow s [] w = tt
  Answers-AllKnow s (t ∷ ts) w = (Answer-Knows s t.key t.phase w.1, Answers-AllKnow s ts w.2)

  pub AllKnow-launch : (s : StaticSet) (keys : List ℕ) → NonEmpty s keys → AllKnow s (launch keys)
  AllKnow-launch s [] n = tt
  AllKnow-launch s (k ∷ keys) n = (n.0, λ q lt. absurd (omega arith), AllKnow-launch s keys n.1)

  -- However the threads of an insertion kernel interleave on a well-shaped set, with keys other
  -- than the empty one, a key whose thread has stored or met it is found afterwards, and a key
  -- whose thread ran out of probes is not found.
  pub run-Answers :
      (schedule : List ℕ) (s : StaticSet) (keys : List ℕ)
      → IsShaped s
      → NonEmpty s keys
      → Answers (run hash schedule s (launch keys)).0 (run hash schedule s (launch keys)).1
  run-Answers schedule s keys v n =
      Answers-AllKnow _ _ (run-AllKnow schedule s (launch keys) v (AllKnow-launch s keys n)).2
