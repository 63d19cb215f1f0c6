-- ===== src/Configurator/LastWins.antt =====
-- What a chain of settings leaves: of the calls of each setter that `build` reads the last one counts.
use cuda2rocm.Base.{ℕ, Bool, Option, none, some, List, [], ◌∷◌, ◌≡◌, refl, ◌∙◌, ap}
use cuda2rocm.Configurator.{Configurator}
use cuda2rocm.Configurator.Settings.{
  Setting, set_number_of_gpus, set_gpu_ids, set_gpu_usage_limit, set_reservation_limit_per_gpu,
  set_total_host_capacity, set_per_host_capacity, set_host_portability, set_disk_mounting_point,
  apply, configure_from,
}

module _ {A : Type 0} where
  -- What the last call that a setter recognises as its own sets; the value from before if there is none.
  abbrev pub last : (Setting → Option A) → A → List Setting → A
  last get before [] = before
  last get before (s ∷ ss) = last get (elim (get s) [ none ↦ before | some x ↦ x ]) ss

  pub configure_from-last :
      (field : Configurator → A) (get : Setting → Option A)
      → ((s : Setting) (c : Configurator)
          → field (apply s c) ≡ elim (get s) [ none ↦ field c | some x ↦ x ])
      → (ss : List Setting) (c : Configurator) → field (configure_from c ss) ≡ last get (field c) ss
  unfolding configure_from
  configure_from-last field get step [] c = refl
  configure_from-last field get step (s ∷ ss) c =
      configure_from-last field get step ss (apply s c) ∙ ap (λ (x : A). last get x ss) (step s c)

-- The calls of each setter.
abbrev pub gpus_set : Setting → Option ℕ
gpus_set (set_number_of_gpus n) = some n
gpus_set _ = none

abbrev pub ids_set : Setting → Option (List ℕ)
ids_set (set_gpu_ids is) = some is
ids_set _ = none

abbrev pub usage_set : Setting → Option ℕ
usage_set (set_gpu_usage_limit n) = some n
usage_set _ = none

abbrev pub reserves_set : Setting → Option ℕ
reserves_set (set_reservation_limit_per_gpu n) = some n
reserves_set _ = none

abbrev pub total_set : Setting → Option ℕ
total_set (set_total_host_capacity n) = some n
total_set _ = none

abbrev pub per_host_set : Setting → Option ℕ
per_host_set (set_per_host_capacity n) = some n
per_host_set _ = none

abbrev pub portable_set : Setting → Option Bool
portable_set (set_host_portability b) = some b
portable_set _ = none

abbrev pub disk_set : Setting → Option (ℕ × Option ℕ)
disk_set (set_disk_mounting_point id capacity root) = some (capacity, root)
disk_set _ = none

pub gpus_step :
    (s : Setting) (c : Configurator)
    → (apply s c).num_gpus ≡ elim (gpus_set s) [ none ↦ c.num_gpus | some x ↦ x ]
unfolding apply
gpus_step (set_number_of_gpus n) c = refl
gpus_step _ c = refl

pub ids_step :
    (s : Setting) (c : Configurator)
    → (apply s c).gpu_ids ≡ elim (ids_set s) [ none ↦ c.gpu_ids | some x ↦ x ]
unfolding apply
ids_step (set_gpu_ids is) c = refl
ids_step _ c = refl

pub usage_step :
    (s : Setting) (c : Configurator)
    → (apply s c).gpu_usage_limit ≡ elim (usage_set s) [ none ↦ c.gpu_usage_limit | some x ↦ x ]
unfolding apply
usage_step (set_gpu_usage_limit n) c = refl
usage_step _ c = refl

pub reserves_step :
    (s : Setting) (c : Configurator)
    → (apply s c).gpu_reservation_limit
      ≡ elim (reserves_set s) [ none ↦ c.gpu_reservation_limit | some x ↦ x ]
unfolding apply
reserves_step (set_reservation_limit_per_gpu n) c = refl
reserves_step _ c = refl

pub total_step :
    (s : Setting) (c : Configurator)
    → (apply s c).total_host_capacity
      ≡ elim (total_set s) [ none ↦ c.total_host_capacity | some x ↦ x ]
unfolding apply
total_step (set_total_host_capacity n) c = refl
total_step _ c = refl

pub per_host_step :
    (s : Setting) (c : Configurator)
    → (apply s c).per_host_capacity
      ≡ elim (per_host_set s) [ none ↦ c.per_host_capacity | some x ↦ x ]
unfolding apply
per_host_step (set_per_host_capacity n) c = refl
per_host_step _ c = refl

pub portable_step :
    (s : Setting) (c : Configurator)
    → (apply s c).host_portable ≡ elim (portable_set s) [ none ↦ c.host_portable | some x ↦ x ]
unfolding apply
portable_step (set_host_portability b) c = refl
portable_step _ c = refl

pub disk_step :
    (s : Setting) (c : Configurator)
    → ◌≡◌ {A = ℕ × Option ℕ}
        ((apply s c).disk_capacity, (apply s c).disk_root)
        (elim (disk_set s) [ none ↦ (c.disk_capacity, c.disk_root) | some x ↦ x ])
unfolding apply
disk_step (set_disk_mounting_point id capacity root) c = refl
disk_step _ c = refl
