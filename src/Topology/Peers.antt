-- ===== src/Topology/Peers.antt =====
-- The peers of a GPU, and the interconnect between two GPUs.
use cuda2rocm.Base.{
  ℕ, zero, suc, ◌+◌, ◌≤◌, ◌<◌, ◌≡◌, ◌≢◌, ◌↔◌, inl, inr, refl, sym, ap, ◌∙◌, Bool, true, false, ◌&&◌,
  ◌∷◌, map, Among, ==_iff, ◌==◌, if◌then◌else◌, arith, Bool-cases,
}
use native.Mathlib.Decide.{ℕ_discrete}
use cuda2rocm.Topology.{
  System, ℤ, pos, negsuc, xgmi, pcie, int_eq, is_node, read_sysfs_numa_node,
  detect_interconnect_type, peers_from, gpu_info,
}

pub int_eq_sound : (a b : ℤ) → int_eq a b ≡ true → a ≡ b
unfolding int_eq
int_eq_sound (pos a) (pos b) e = ap pos (ground (arith, e))
int_eq_sound (negsuc a) (negsuc b) e = ap negsuc (ground (arith, e))
int_eq_sound (pos a) (negsuc b) e = cc
int_eq_sound (negsuc a) (pos b) e = cc

pub int_eq_self : (a : ℤ) → int_eq a a ≡ true
unfolding int_eq
int_eq_self (pos a) = ground arith
int_eq_self (negsuc a) = ground arith

-- The test of an interconnect, from both flags and both nodes.
link_comm :
    (x y : Bool) (m n : ℤ)
    → (if x && (y && (is_node m && int_eq m n)) then xgmi else pcie)
      ≡ (if y && (x && (is_node n && int_eq n m)) then xgmi else pcie)
unfolding is_node int_eq
link_comm true true (pos a) (pos b) = ground arith
link_comm true true (negsuc a) (negsuc b) = refl
link_comm true true (pos a) (negsuc b) = refl
link_comm true true (negsuc a) (pos b) = refl
link_comm true false m n = refl
link_comm false true m n = refl
link_comm false false m n = refl

unequal : (j i : ℕ) → (j == i) ≡ false → j ≢ i
unequal j i e same = ground (arith, e, same)

pub refused : {b : Bool} → b ≡ true → b ≡ false → ⊥
refused t f = cc

module _ (sys : System) where
  -- The interconnect is the same from either end.
  pub detect_interconnect_type_comm :
      (i j : ℕ) → detect_interconnect_type sys i j ≡ detect_interconnect_type sys j i
  unfolding detect_interconnect_type
  detect_interconnect_type_comm i j =
      link_comm (sys.peer_flag i j) (sys.peer_flag j i) (read_sysfs_numa_node sys i)
        (read_sysfs_numa_node sys j)

  peers_from-map :
      (rounds j i : ℕ)
      → (peers_from sys rounds j i).1
        ≡ map (detect_interconnect_type sys i) (peers_from sys rounds j i).0
  unfolding peers_from
  peers_from-map zero j i = refl
  peers_from-map (suc rounds) j i = elim (Bool-cases (j == i)) [
    | inl e ↦ rw (peers_from, e) (peers_from-map rounds (suc j) i)
    | inr e ↦ elim (Bool-cases (sys.peer_succeeds i j && sys.peer_flag i j)) [
      | inl a ↦
          rw (peers_from, e, a)
            (ap (λ r. detect_interconnect_type sys i j ∷ r) (peers_from-map rounds (suc j) i))
      | inr a ↦ rw (peers_from, e, a) (peers_from-map rounds (suc j) i)
    ]
  ]

  -- The GPU `i` may access the device `k`.
  abbrev pub CanAccess : ℕ → ℕ → Type 0
  CanAccess i k = (k ≢ i) × ((sys.peer_succeeds i k && sys.peer_flag i k) ≡ true)

  peers_from-Among :
      (rounds j i k : ℕ)
      → Among k (peers_from sys rounds j i).0 ↔ ((j ≤ k) × (k < j + rounds) × CanAccess i k)
  unfolding peers_from
  peers_from-Among zero j i k = (λ m. absurd m, λ h. absurd (omega (arith, h.0, h.1)))
  peers_from-Among (suc rounds) j i k =
      let ih = peers_from-Among rounds (suc j) i k in
      elim (Bool-cases (j == i)) [
        | inl e ↦
            rw (peers_from, e)
              (
                λ m. let h = ih.0 m in (omega (arith, h.0), omega (arith, h.1), h.2),
                λ h. ih.1 (omega (arith, h.0, h.2.0, (==_iff j i).0 e), omega (arith, h.1), h.2),
              )
        | inr e ↦ elim (Bool-cases (sys.peer_succeeds i j && sys.peer_flag i j)) [
          | inl a ↦
              rw (peers_from, e, a)
                (
                  λ m. elim m [
                    | inl at ↦ (
                      omega (arith, at),
                      omega (arith, at),
                      (λ same. unequal j i e (sym at ∙ same), rw at a),
                    )
                    | inr m ↦ let h = ih.0 m in (omega (arith, h.0), omega (arith, h.1), h.2)
                  ],
                  λ h. elim (ℕ_discrete k j) [
                    | yes at ↦ inl at
                    | no other ↦ inr (ih.1 (omega (arith, h.0), omega (arith, h.1), h.2))
                  ],
                )
          | inr a ↦
              rw (peers_from, e, a)
                (
                  λ m. let h = ih.0 m in (omega (arith, h.0), omega (arith, h.1), h.2),
                  λ h. elim (ℕ_discrete k j) [
                    | yes at ↦ absurd (refused (rw at at h.2.1) a)
                    | no other ↦ ih.1 (omega (arith, h.0), omega (arith, h.1), h.2)
                  ],
                )
        ]
      ]

  -- The peers of a GPU are the other devices that it can access, each with its interconnect.
  pub gpu_info-Peers :
      (count i k : ℕ)
      → ((gpu_info sys count i).peer_interconnect_types
          ≡ map (detect_interconnect_type sys i) (gpu_info sys count i).peer_devices)
        × (Among k (gpu_info sys count i).peer_devices ↔ ((k < count) × CanAccess i k))
  unfolding gpu_info
  gpu_info-Peers count i k =
      let (to, from) = peers_from-Among count 0 i k in
      (
        peers_from-map count 0 i,
        (
          λ m. let h = to m in (omega (arith, h.1), h.2),
          λ h. from (omega arith, omega (arith, h.0), h.1),
        ),
      )
