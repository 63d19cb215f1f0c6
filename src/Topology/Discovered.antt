-- ===== src/Topology/Discovered.antt =====
-- The number of NUMA nodes that a discovery counts, and the GPUs that it lists.
use cuda2rocm.Base.{
  ℕ, zero, suc, ◌+◌, ◌≤◌, ◌<◌, ◌≡◌, ◌↔◌, ◌⊎◌, inl, inr, refl, sym, ap, ◌∙◌, true, false, Option,
  none, some, List, [], ◌∷◌, map, Among, get_elem?, length, max, arith, Bool-cases,
}
use native.Mathlib.Decide.{ℕ_discrete}
use mathlib.Core.Path.{subst}
use cuda2rocm.Topology.{
  System, ℤ, int_eq, is_node, read_sysfs_numa_node, detect_interconnect_type, gpu_info,
  TopologyDiscovery, has_node, see_node, gpus_from, discover, discover_count,
}
use cuda2rocm.Topology.Peers.{int_eq_sound, int_eq_self, refused, CanAccess, gpu_info-Peers}

abbrev pub AllDistinct : List ℤ → Type 0
AllDistinct [] = Unit {0}
AllDistinct (n ∷ seen) = (has_node n seen ≡ false) × AllDistinct seen

has_node-cons :
    (n m : ℤ) (seen : List ℤ)
    → (has_node n (m ∷ seen) ≡ true) ↔ ((n ≡ m) ⊎ (has_node n seen ≡ true))
unfolding has_node
has_node-cons n m seen = elim (Bool-cases (int_eq n m)) [
  | inl e ↦ rw (has_node, e) (λ t. inl (int_eq_sound n m e), λ h. refl)
  | inr e ↦
      rw (has_node, e)
        (
          λ t. inr t,
          λ h. elim h [ inl same ↦ absurd (refused (int_eq_self m) (rw same at e)) | inr t ↦ t ],
        )
]

unseen : (n : ℤ) → has_node n [] ≡ true → ⊥
unfolding has_node
unseen n t = cc

see_node-AllDistinct : (m : ℤ) (seen : List ℤ) → AllDistinct seen → AllDistinct (see_node m seen)
unfolding see_node
see_node-AllDistinct m seen h = elim (Bool-cases (is_node m)) [
  | inr e ↦ rw (see_node, e) h
  | inl e ↦ elim (Bool-cases (has_node m seen)) [
    | inl t ↦ rw (see_node, e, t) h
    | inr f ↦ rw (see_node, e, f) (f, h)
  ]
]

has_node-see_node :
    (n m : ℤ) (seen : List ℤ)
    → (has_node n (see_node m seen) ≡ true)
      ↔ (((is_node m ≡ true) × (m ≡ n)) ⊎ (has_node n seen ≡ true))
unfolding see_node
has_node-see_node n m seen = elim (Bool-cases (is_node m)) [
  | inr e ↦
      rw (see_node, e) (λ t. inr t, λ h. elim h [ inl x ↦ absurd (refused x.0 refl) | inr t ↦ t ])
  | inl e ↦ elim (Bool-cases (has_node m seen)) [
    | inl t ↦ rw (see_node, e, t) (λ t. inr t, λ h. elim h [ inl x ↦ rw x.1 at t | inr t ↦ t ])
    | inr f ↦
        rw (see_node, e, f)
          (
            λ t. elim ((has_node-cons n m seen).0 t) [ inl x ↦ inl (refl, sym x) | inr t ↦ inr t ],
            λ h. (has_node-cons n m seen).1 (elim h [ inl x ↦ inl (sym x.1) | inr t ↦ inr t ]),
          )
  ]
]

module _ (sys : System) where
  -- A GPU from `i` up to `j` lies at the node.
  abbrev pub HasGpu : ℕ → ℕ → ℤ → Type 0
  HasGpu i j n =
      (k : ℕ) × (i ≤ k)
      × (k < j)
      × (is_node (read_sysfs_numa_node sys k) ≡ true)
      × (read_sysfs_numa_node sys k ≡ n)

  gpus_from-AllDistinct :
      (count rounds i : ℕ) (seen : List ℤ)
      → AllDistinct seen
      → AllDistinct (gpus_from sys count rounds i seen).1
  unfolding gpus_from gpu_info
  gpus_from-AllDistinct count zero i seen h = h
  gpus_from-AllDistinct count (suc rounds) i seen h =
      gpus_from-AllDistinct count rounds (suc i) _
        (see_node-AllDistinct (read_sysfs_numa_node sys i) seen h)

  gpus_from-has_node :
      (count rounds i : ℕ) (seen : List ℤ) (n : ℤ)
      → (has_node n (gpus_from sys count rounds i seen).1 ≡ true)
        ↔ (HasGpu i (i + rounds) n ⊎ (has_node n seen ≡ true))
  unfolding gpus_from gpu_info
  gpus_from-has_node count zero i seen n =
      (λ t. inr t, λ h. elim h [ inl (k, le, lt, _, _) ↦ absurd (omega arith) | inr t ↦ t ])
  gpus_from-has_node count (suc rounds) i seen n =
      let ih =
        gpus_from-has_node count rounds (suc i) (see_node (read_sysfs_numa_node sys i) seen) n in
      let step = has_node-see_node n (read_sysfs_numa_node sys i) seen in
      (
        λ t. elim (ih.0 t) [
          | inl (k, le, lt, known, at) ↦ inl (k, omega arith, omega arith, known, at)
          | inr t ↦ elim (step.0 t) [
            | inl x ↦ inl (i, omega arith, omega arith, x.0, x.1)
            | inr t ↦ inr t
          ]
        ],
        λ h. ih.1 (elim h [
          | inr t ↦ inr (step.1 (inr t))
          | inl (k, le, lt, known, at) ↦ elim (ℕ_discrete k i) [
            | yes same ↦ inr (step.1 (inl (rw same at known, rw same at at)))
            | no other ↦ inl (k, omega arith, omega arith, known, at)
          ]
        ]),
      )

  gpus_from-length :
      (count rounds i : ℕ) (seen : List ℤ) → length (gpus_from sys count rounds i seen).0 ≡ rounds
  unfolding gpus_from
  gpus_from-length count zero i seen = refl
  gpus_from-length count (suc rounds) i seen = ap suc (gpus_from-length count rounds (suc i) _)

  gpus_from-get :
      (count rounds i j : ℕ) (seen : List ℤ)
      → j < rounds
      → get_elem? (gpus_from sys count rounds i seen).0 j ≡ some (gpu_info sys count (i + j))
  unfolding gpus_from
  gpus_from-get count zero i j seen lt = absurd (omega arith)
  gpus_from-get count (suc rounds) i zero seen lt =
      ap (λ k. some (gpu_info sys count k)) (omega arith)
  gpus_from-get count (suc rounds) i (suc j) seen lt =
      gpus_from-get count rounds (suc i) j _ (omega arith)
      ∙ ap (λ k. some (gpu_info sys count k)) (omega arith)

  -- The topology of a machine with `count` GPUs: each is listed at its number, and the nodes are
  -- counted once each, at least one.
  pub record Describes (count : ℕ) (d : TopologyDiscovery) : Type 0 where
    pub discovered : d.discovered ≡ true
    pub num_gpus : d.topology.num_gpus ≡ count
    pub length_gpus : length d.topology.gpus ≡ count
    pub gpu : (i : ℕ) → i < count → get_elem? d.topology.gpus i ≡ some (gpu_info sys count i)
    pub peers :
        (i k : ℕ) → Among k (gpu_info sys count i).peer_devices ↔ ((k < count) × CanAccess sys i k)
    pub interconnects :
        (i : ℕ)
        → (gpu_info sys count i).peer_interconnect_types
          ≡ map (detect_interconnect_type sys i) (gpu_info sys count i).peer_devices
    pub nodes : List ℤ
    pub nodes_distinct : AllDistinct nodes
    pub nodes_seen : (n : ℤ) → (has_node n nodes ≡ true) ↔ HasGpu 0 count n
    pub num_numa_nodes : d.topology.num_numa_nodes ≡ max (length nodes) 1

  discover_count-Describes :
      (d : TopologyDiscovery) (n : ℕ) → Describes (suc n) (discover_count sys (some (suc n)) d).0
  discover_count-Describes d n = record {
    discovered = refl;
    num_gpus = refl;
    length_gpus = gpus_from-length (suc n) (suc n) 0 [];
    gpu = λ i lt.
        gpus_from-get (suc n) (suc n) 0 i [] lt
        ∙ ap (λ k. some (gpu_info sys (suc n) k)) (omega arith);
    peers = λ i k. (gpu_info-Peers sys (suc n) i k).1;
    interconnects = λ i. (gpu_info-Peers sys (suc n) i 0).0;
    nodes = (gpus_from sys (suc n) (suc n) 0 []).1;
    nodes_distinct = gpus_from-AllDistinct (suc n) (suc n) 0 [] tt;
    nodes_seen = λ n'.
        let (to, from) = gpus_from-has_node (suc n) (suc n) 0 [] n' in
        (
          λ t. elim (to t) [
            | inl (k, le, lt, known, at) ↦ (k, le, omega arith, known, at)
            | inr t ↦ absurd (unseen n' t)
          ],
          λ (k, le, lt, known, at). from (inl (k, le, omega arith, known, at)),
        );
    num_numa_nodes = refl;
  }

  -- With a positive number of devices, a discovery succeeds and lists each GPU at its number, with
  -- exactly the other devices that it can access as its peers and the interconnect to each; the
  -- NUMA nodes that some GPU lies at are counted once each, and at least one.
  pub discover-Describes :
      (d : TopologyDiscovery) (count : ℕ)
      → sys.device_count ≡ some count
      → 0 < count
      → ((discover sys d).1 ≡ true) × Describes count (discover sys d).0
  unfolding discover
  discover-Describes d zero e p = absurd (omega arith)
  discover-Describes d (suc n) e p =
      subst
        (λ c. ((discover_count sys c d).1 ≡ true) × Describes (suc n) (discover_count sys c d).0)
        (sym e) (refl, discover_count-Describes d n)

  outcome :
      (d : TopologyDiscovery) (c : Option ℕ)
      → (discover_count sys c d).1 ≡ false
      → ((discover_count sys c d).0 ≡ d) × ((c ≡ none) ⊎ (c ≡ some 0))
  outcome d none f = (refl, inl refl)
  outcome d (some zero) f = (refl, inr refl)
  outcome d (some (suc n)) f = cc

  -- A discovery that fails leaves everything as it was, and fails only where there are no devices.
  pub discover_fails :
      (d : TopologyDiscovery)
      → (discover sys d).1 ≡ false
      → ((discover sys d).0 ≡ d) × ((sys.device_count ≡ none) ⊎ (sys.device_count ≡ some 0))
  unfolding discover
  discover_fails d f = outcome d sys.device_count f
