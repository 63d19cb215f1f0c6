-- ===== src/MemorySpace/Resources.antt =====
-- What a memory space owns besides its counters: the resources of the tiers and the stream pool. A
-- resource is its address; a null pointer is none.
use cuda2rocm.Base.{
  ℕ, ◌≡◌, ◌↔◌, refl, Bool, true, false, ◌&&◌, Option, none, some, ◌==◌, Bool-cases, inl, inr,
  ==_iff, ==_self, Result, ok, err, no_stream_pool, no_memory_space,
}
use cuda2rocm.MemorySpace.{MemorySpace, Tier, gpu, host, disk, same_tier}
use cuda2rocm.StreamPool.{StreamPool, grow}
use cuda2rocm.StreamPool

pub record Resources : Type 0 where
  pub space : MemorySpace
  pub gpu_resource : Option ℕ
  pub host_resource : Option ℕ
  pub streams : Option StreamPool

-- The types that `get_resource_ptr` tells apart.
pub data ResourceType : Type 0 where
  reservation_aware fixed_size_host other_type : ResourceType

-- `tier_memory_resource_trait`
unfoldable pub tier_memory_resource : Tier → ResourceType
tier_memory_resource gpu = reservation_aware
tier_memory_resource host = fixed_size_host
tier_memory_resource disk = other_type

-- `get_resource_ptr` and `get_memory_resource_as`
unfoldable pub get_memory_resource_as : ResourceType → Resources → Option ℕ
get_memory_resource_as reservation_aware r = r.gpu_resource
get_memory_resource_as fixed_size_host r = r.host_resource
get_memory_resource_as other_type r = none

unfoldable pub get_memory_resource_of : Tier → Resources → Option ℕ
unfolding get_memory_resource_as tier_memory_resource
get_memory_resource_of t r = get_memory_resource_as (tier_memory_resource t) r

unfoldable pub set_gpu_resource : ℕ → Resources → Resources
set_gpu_resource p r = record r { gpu_resource = some p }

unfoldable pub set_host_resource : ℕ → Resources → Resources
set_host_resource p r = record r { host_resource = some p }

-- `operator==`: the same tier and device.
unfoldable pub same_space : MemorySpace → MemorySpace → Bool
unfolding same_tier
same_space a b = same_tier a.tier b.tier && a.device_id == b.device_id

-- `acquire_stream` of a space that may change: a stream of its pool, which grows by what HIP makes.
unfoldable pub acquire_stream : Option ℕ → Resources → Resources × Result (Option ℕ)
acquire_stream created r = elim r.streams [
  | none ↦ (r, err no_stream_pool)
  | some pool ↦
      let (pool, i) = StreamPool.acquire_stream grow created pool in
      (record r { streams = some pool }, ok i)
]

-- `acquire_stream() const`: without a pool, the per-thread stream, which belongs to none.
unfoldable pub acquire_stream_const : Option ℕ → Resources → Resources × Option ℕ
acquire_stream_const created r = elim r.streams [
  | none ↦ (r, none)
  | some pool ↦
      let (pool, i) = StreamPool.acquire_stream grow created pool in
      (record r { streams = some pool }, i)
]

-- The space of a reservation, none where it has none: its tier, its device and its resources.
unfoldable pub reservation_tier : Option Resources → Tier
reservation_tier none = host
reservation_tier (some r) = r.space.tier

unfoldable pub reservation_device : Option Resources → ℕ
reservation_device none = 0
reservation_device (some r) = r.space.device_id

unfoldable pub reservation_space : Option Resources → Result MemorySpace
reservation_space none = err no_memory_space
reservation_space (some r) = ok r.space

unfoldable pub reservation_resource : Tier → Option Resources → Option ℕ
unfolding get_memory_resource_of
reservation_resource t none = none
reservation_resource t (some r) = get_memory_resource_of t r

same_tier_sound : (a b : Tier) → same_tier a b ≡ true → a ≡ b
unfolding same_tier
same_tier_sound gpu gpu e = refl
same_tier_sound host host e = refl
same_tier_sound disk disk e = refl
same_tier_sound gpu host e = cc
same_tier_sound gpu disk e = cc
same_tier_sound host gpu e = cc
same_tier_sound host disk e = cc
same_tier_sound disk gpu e = cc
same_tier_sound disk host e = cc

same_tier_self : (a : Tier) → same_tier a a ≡ true
unfolding same_tier
same_tier_self gpu = refl
same_tier_self host = refl
same_tier_self disk = refl

-- Two spaces are the same exactly where they have one tier and one device.
pub same_space_iff :
    (a b : MemorySpace)
    → (same_space a b ≡ true) ↔ ((a.tier ≡ b.tier) × (a.device_id ≡ b.device_id))
unfolding same_space
same_space_iff a b = (
  λ t. elim (Bool-cases (same_tier a.tier b.tier)) [
    | inl e ↦ (same_tier_sound a.tier b.tier e, (==_iff a.device_id b.device_id).0 (rw e at t))
    | inr e ↦ absurd (contrary (rw e at t))
  ],
  λ h. rw (same_space, h.0, h.1, same_tier_self) (==_self b.device_id),
)
  where
    contrary : false ≡ true → ⊥
    contrary e = cc
