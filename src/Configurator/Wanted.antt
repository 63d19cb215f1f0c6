-- ===== src/Configurator/Wanted.antt =====
-- The configurations that a chain of settings asks for, described from the last call of each setter
-- that `build` reads, against those that are built.
use cuda2rocm.Base.{
  ℕ, zero, suc, ◌+◌, ◌%◌, ◌^◌, Bool, ◌||◌, ltb, if◌then◌else◌, map, ◌++◌, arith, true, false,
  Option, none, some, List, [], ◌∷◌, ◌≡◌, refl, ◌∙◌, ap,
}
use cuda2rocm.Configurator.{
  Configurator, new_configurator, ids_from, device_ids, host_configs, disk_configs, build,
}
use cuda2rocm.Manager.{Config, gpu_config, host_config, disk_config}
use cuda2rocm.Configurator.Settings.{Setting, configure}
use cuda2rocm.Configurator.LastWins.{
  last, configure_from-last, gpus_set, ids_set, usage_set, reserves_set, total_set, per_host_set,
  portable_set, disk_set, gpus_step, ids_step, usage_step, reserves_step, total_step, per_host_step,
  portable_step, disk_step,
}

-- Ids that count up to a number, from the end.
abbrev pub counted : ℕ → List ℕ
counted zero = []
counted (suc n) = counted n ++ ((n % 2 ^ 32) ∷ [])

-- The ids of the GPUs from what was set: the ids themselves where there are some, or as many as the
-- number says, or, where it is 0, as many as the topology has.
abbrev pub wanted_ids : List ℕ → ℕ → ℕ → List ℕ
wanted_ids (i ∷ is) n topology_gpus = i ∷ is
wanted_ids [] (suc n) topology_gpus = counted (suc n)
wanted_ids [] zero topology_gpus = counted topology_gpus

abbrev pub wanted_gpus : ℕ → ℕ → List ℕ → List Config
wanted_gpus usage reserves [] = []
wanted_gpus usage reserves (i ∷ is) = gpu_config i usage reserves ∷ wanted_gpus usage reserves is

-- The host, where it has a capacity; the total one goes before the one per host.
abbrev pub wanted_host : ℕ → ℕ → Bool → List Config
wanted_host zero zero portable = []
wanted_host zero (suc per_host) portable = host_config 0 (suc per_host) portable ∷ []
wanted_host (suc total) per_host portable = host_config 0 (suc total) portable ∷ []

abbrev pub wanted_disk : ℕ × Option ℕ → List Config
wanted_disk (capacity, none) = []
wanted_disk (capacity, some mount) = disk_config mount capacity ∷ []

-- The configurations that a chain of settings asks for.
abbrev pub wanted : ℕ → List Setting → List Config
wanted topology_gpus ss =
    wanted_gpus (last usage_set 0 ss) (last reserves_set 0 ss)
      (wanted_ids (last ids_set [] ss) (last gpus_set 0 ss) topology_gpus)
    ++ (wanted_host (last total_set 0 ss) (last per_host_set 0 ss) (last portable_set false ss)
        ++ wanted_disk (last disk_set (0, none) ss))

ids_from-append : (i n : ℕ) → ids_from i (suc n) ≡ ids_from i n ++ (((i + n) % 2 ^ 32) ∷ [])
ids_from-append i zero = ap (λ j. j % 2 ^ 32 ∷ []) (omega arith)
ids_from-append i (suc n) =
    let e : suc i + n ≡ i + suc n = omega arith in
    ap (λ js. i % 2 ^ 32 ∷ js)
      (ids_from-append (suc i) n ∙ ap (λ j. ids_from (suc i) n ++ ((j % 2 ^ 32) ∷ [])) e)

ids_from-counted : (n : ℕ) → ids_from 0 n ≡ counted n
ids_from-counted zero = refl
ids_from-counted (suc n) =
    let e : 0 + n ≡ n = omega arith in
    ids_from-append 0 n
    ∙ ap (λ j. ids_from 0 n ++ ((j % 2 ^ 32) ∷ [])) e
    ∙ ap (λ js. js ++ ((n % 2 ^ 32) ∷ [])) (ids_from-counted n)

ltb-suc : (n : ℕ) → ltb 0 (suc n) ≡ true
ltb-suc n = ground arith

device_ids-wanted :
    (topology_gpus : ℕ) (c : Configurator)
    → device_ids topology_gpus c ≡ wanted_ids c.gpu_ids c.num_gpus topology_gpus
unfolding device_ids
device_ids-wanted topology_gpus c = from c.gpu_ids c.num_gpus
  where
    from :
        (is : List ℕ) (n : ℕ)
        → (elim is [ [] ↦ ids_from 0 (if ltb 0 n then n else topology_gpus) | i ∷ is ↦ i ∷ is ])
          ≡ wanted_ids is n topology_gpus
    from (i ∷ is) n = refl
    from [] zero = ids_from-counted topology_gpus
    from [] (suc n) = rw (ltb-suc n) (ids_from-counted (suc n))

gpus-wanted :
    (usage reserves : ℕ) (is : List ℕ)
    → map (λ i. gpu_config i usage reserves) is ≡ wanted_gpus usage reserves is
gpus-wanted usage reserves [] = refl
gpus-wanted usage reserves (i ∷ is) =
    ap (λ cs. gpu_config i usage reserves ∷ cs) (gpus-wanted usage reserves is)

host_configs-wanted :
    (c : Configurator)
    → host_configs c ≡ wanted_host c.total_host_capacity c.per_host_capacity c.host_portable
unfolding host_configs
host_configs-wanted c = from c.total_host_capacity c.per_host_capacity
  where
    from :
        (t p : ℕ)
        → (if ltb 0 t || ltb 0 p
            then host_config 0 (if ltb 0 t then t else p) c.host_portable ∷ []
            else [])
          ≡ wanted_host t p c.host_portable
    from zero zero = refl
    from zero (suc p) = rw (ltb-suc p) refl
    from (suc t) p = rw (ltb-suc t) refl

disk_configs-wanted :
    (c : Configurator) → disk_configs c ≡ wanted_disk (c.disk_capacity, c.disk_root)
unfolding disk_configs
disk_configs-wanted c =
    elim c.disk_root
      as (λ r.
        (elim r [ none ↦ [] | some mount ↦ disk_config mount c.disk_capacity ∷ [] ])
        ≡ wanted_disk (c.disk_capacity, r)) [ none ↦ refl | some mount ↦ refl ]

-- Whatever the chain of settings, the configurations that are built are those described from the
-- last call of each setter: a GPU for each of the ids that were set, in their order, or, where none
-- were, for the first ids, as many as were set or else as the topology has, each with the limits;
-- then a host where the total capacity or that per host is positive, of the total one where it is;
-- then a disk where its root is set. No earlier call of a setter and no call of another one has an
-- effect.
pub build-wanted :
    (topology_gpus : ℕ) (ss : List Setting)
    → build topology_gpus (configure ss) ≡ wanted topology_gpus ss
unfolding build configure
build-wanted topology_gpus ss =
    let c = configure ss in
    rw
      (
        device_ids-wanted topology_gpus c,
        gpus-wanted c.gpu_usage_limit c.gpu_reservation_limit
            (wanted_ids c.gpu_ids c.num_gpus topology_gpus),
        host_configs-wanted c,
        disk_configs-wanted c,
        configure_from-last (λ c. c.num_gpus) gpus_set gpus_step ss new_configurator,
        configure_from-last (λ c. c.gpu_ids) ids_set ids_step ss new_configurator,
        configure_from-last (λ c. c.gpu_usage_limit) usage_set usage_step ss new_configurator,
        configure_from-last (λ c. c.gpu_reservation_limit) reserves_set reserves_step ss
            new_configurator,
        configure_from-last (λ c. c.total_host_capacity) total_set total_step ss new_configurator,
        configure_from-last (λ c. c.per_host_capacity) per_host_set per_host_step ss
            new_configurator,
        configure_from-last (λ c. c.host_portable) portable_set portable_step ss new_configurator,
        configure_from-last (λ c. (c.disk_capacity, c.disk_root)) disk_set disk_step ss
            new_configurator,
      )
      refl
