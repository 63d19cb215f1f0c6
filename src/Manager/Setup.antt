-- ===== src/Manager/Setup.antt =====
-- A manager as it is built from configurations.
use cuda2rocm.Base.{
  ℕ, ◌<◌, ◌≡◌, refl, ap, ◌∙◌, false, ◌||◌, none, List, [], ◌∷◌, ◌++◌, map, ltb, leb, if◌then◌else◌,
  arith, ok, err, no_memory_space, Bool-cases, inl, inr,
}
use cuda2rocm.MemorySpace.{MemorySpace, Tier, gpu, host, new_space, get_available_memory}
use cuda2rocm.MemorySpace.Accounting.{IsWithin}
use cuda2rocm.Manager.{
  Strategy, Config, unset, gpu_config, host_config, disk_config, build_spaces, new_manager,
  request_reservation,
}
use cuda2rocm.Manager.Requests.{AllWithin, first_server, any_match, request_reservation-Outcome}
use cuda2rocm.Configurator.{Configurator, device_ids, host_configs, disk_configs, build}

new_space-IsWithin : (t : Tier) (device : ℕ) → IsWithin (new_space t device)
unfolding new_space
new_space-IsWithin t device = record { word = omega arith; within = omega arith }

build_spaces-AllWithin : (cs : List Config) → AllWithin (build_spaces cs)
unfolding build_spaces
build_spaces-AllWithin [] = tt
build_spaces-AllWithin (unset ∷ cs) = build_spaces-AllWithin cs
build_spaces-AllWithin (gpu_config d u r ∷ cs) =
    (new_space-IsWithin gpu d, build_spaces-AllWithin cs)
build_spaces-AllWithin (host_config d c p ∷ cs) =
    (new_space-IsWithin host d, build_spaces-AllWithin cs)
build_spaces-AllWithin (disk_config m c ∷ cs) = build_spaces-AllWithin cs

-- A new space has no memory to give.
new_space-full :
    (bytes : ℕ) (t : Tier) (device : ℕ)
    → 0 < bytes
    → leb bytes (get_available_memory (new_space t device)) ≡ false
unfolding new_space get_available_memory
new_space-full bytes t device h = ground arith

no_server-new_space :
    (strategy : Strategy) (bytes : ℕ) (t : Tier) (device : ℕ) (ss : List MemorySpace)
    → 0 < bytes
    → first_server strategy bytes ss ≡ none
    → first_server strategy bytes (new_space t device ∷ ss) ≡ none
unfolding first_server
no_server-new_space strategy bytes t device ss h e = ground (arith, new_space-full bytes t device h)

no_server :
    (strategy : Strategy) (bytes : ℕ) (cs : List Config)
    → 0 < bytes
    → first_server strategy bytes (build_spaces cs) ≡ none
unfolding build_spaces first_server
no_server strategy bytes [] h = refl
no_server strategy bytes (unset ∷ cs) h = no_server strategy bytes cs h
no_server strategy bytes (gpu_config d u r ∷ cs) h =
    no_server-new_space strategy bytes gpu d (build_spaces cs) h (no_server strategy bytes cs h)
no_server strategy bytes (host_config d c p ∷ cs) h =
    no_server-new_space strategy bytes host d (build_spaces cs) h (no_server strategy bytes cs h)
no_server strategy bytes (disk_config m c ∷ cs) h = no_server strategy bytes cs h

-- Whatever the configurations say, a manager that was just built serves no request of some bytes:
-- its answer is null where some space matches and an exception where none does.
pub request_reservation-new_manager :
    (strategy : Strategy) (bytes : ℕ) (cs : List Config)
    → 0 < bytes
    → request_reservation strategy bytes (new_manager cs) ≡ (
      new_manager cs,
      if any_match strategy (build_spaces cs) then ok none else err no_memory_space,
    )
unfolding new_manager
request_reservation-new_manager strategy bytes cs h =
    let o =
      rw (no_server strategy bytes cs h) at
        (request_reservation-Outcome strategy bytes (new_manager cs) (build_spaces-AllWithin cs)) in
    elim (Bool-cases (any_match strategy (build_spaces cs))) [
      | inl some_match ↦ rw some_match (rw some_match at o)
      | inr no_match ↦ rw no_match (rw no_match at o)
    ]

build_spaces-append :
    (xs ys : List Config) → build_spaces (xs ++ ys) ≡ build_spaces xs ++ build_spaces ys
unfolding build_spaces
build_spaces-append [] ys = refl
build_spaces-append (unset ∷ xs) ys = build_spaces-append xs ys
build_spaces-append (gpu_config d u r ∷ xs) ys =
    ap (◌∷◌ (new_space gpu d)) (build_spaces-append xs ys)
build_spaces-append (host_config d c p ∷ xs) ys =
    ap (◌∷◌ (new_space host d)) (build_spaces-append xs ys)
build_spaces-append (disk_config m c ∷ xs) ys = build_spaces-append xs ys

build_spaces-gpus :
    (u r : ℕ) (is : List ℕ)
    → build_spaces (map (λ i. gpu_config i u r) is) ≡ map (λ i. new_space gpu i) is
unfolding build_spaces
build_spaces-gpus u r [] = refl
build_spaces-gpus u r (i ∷ is) = ap (◌∷◌ (new_space gpu i)) (build_spaces-gpus u r is)

-- The space of the host, if a capacity was set for it.
abbrev pub host_spaces : Configurator → List MemorySpace
host_spaces c =
    if ltb 0 c.total_host_capacity || ltb 0 c.per_host_capacity then new_space host 0 ∷ [] else []

build_spaces-rest :
    (c : Configurator) → build_spaces (host_configs c ++ disk_configs c) ≡ host_spaces c
unfolding build_spaces host_configs disk_configs
build_spaces-rest c = ground arith

-- A manager that is built from a configurator has a GPU space for each device in order, then one
-- host space if a host capacity was set, and no space for the disk.
pub build_spaces-build :
    (topology_gpus : ℕ) (c : Configurator)
    → (new_manager (build topology_gpus c)).spaces
      ≡ map (λ i. new_space gpu i) (device_ids topology_gpus c) ++ host_spaces c
unfolding new_manager build
build_spaces-build topology_gpus c =
    let gpus =
      map (λ i. gpu_config i c.gpu_usage_limit c.gpu_reservation_limit)
        (device_ids topology_gpus c) in
    build_spaces-append gpus (host_configs c ++ disk_configs c)
    ∙ ap (λ xs. xs ++ build_spaces (host_configs c ++ disk_configs c))
        (build_spaces-gpus c.gpu_usage_limit c.gpu_reservation_limit (device_ids topology_gpus c))
    ∙ ap (λ ys. map (λ i. new_space gpu i) (device_ids topology_gpus c) ++ ys) (build_spaces-rest c)
