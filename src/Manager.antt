-- ===== src/Manager.antt =====
-- cucascade-rocm/include/cucascade/memory/memory_reservation_manager.hpp: reservations over all
-- memory spaces. A device id is a number and a negative preferred device is `none`. A reservation
-- names its space by the index in `all_spaces_`.
pub mod Requests
pub mod Concurrent
pub mod Holdings
pub mod Counted
pub mod Lifetime
pub mod Races
pub mod Settled
pub mod Setup
use cuda2rocm.Base.{
  ℕ, zero, suc, ◌+◌, ◌-◌, Bool, true, false, not, ◌&&◌, ◌||◌, Option, none, some, List, [], ◌∷◌,
  ◌++◌, leb, ◌==◌, if◌then◌else◌, set, get_elem?, add_word, sub_word, Result, ok, err,
  no_memory_space,
}
use cuda2rocm.MemorySpace.{
  MemorySpace, Reservation, Tier, gpu, host, disk, same_tier, new_space, get_available_memory,
  make_reservation, make_reservation_or_null, destroy_reservation,
}

-- The request strategies.
pub data Strategy : Type 0 where
  any_in_tier_with_preference : Tier → Option ℕ → Strategy
  any_in_tier : Tier → Strategy
  any_in_tiers : List Tier → Strategy
  specific : Tier → ℕ → Strategy
  to_downgrade : Strategy
  to_upgrade : Strategy

tier_among : Tier → List Tier → Bool
tier_among t [] = false
tier_among t (x ∷ xs) = if same_tier t x then true else tier_among t xs

preferred : Option ℕ → ℕ → Bool
preferred none device = true
preferred (some p) device = device == p

unfoldable pub matches : Strategy → MemorySpace → Bool
unfolding tier_among preferred
matches (any_in_tier_with_preference t p) s = same_tier s.tier t && preferred p s.device_id
matches (any_in_tier t) s = same_tier s.tier t
matches (any_in_tiers ts) s = tier_among s.tier ts
matches (specific t device) s = same_tier s.tier t && (s.device_id == device)
matches to_downgrade s = same_tier s.tier gpu
matches to_upgrade s = not (same_tier s.tier gpu)

-- `memory_space_config`: a GPU device with its usage and reservation limits, a host device with its
-- capacity and portability, a disk with its mounting point and capacity.
pub data Config : Type 0 where
  unset : Config
  gpu_config : ℕ → ℕ → ℕ → Config
  host_config : ℕ → ℕ → Bool → Config
  disk_config : ℕ → ℕ → Config

pub record Manager : Type 0 where
  pub spaces : List MemorySpace
  pub active_reservations : ℕ
  pub is_shutdown : Bool

-- A reservation in a client's hands: the index of its space, and what its callback captured.
pub record Handle : Type 0 where
  pub space : ℕ
  pub reservation : Reservation

-- A space for each GPU and host configuration, in order.
unfoldable pub build_spaces : List Config → List MemorySpace
build_spaces [] = []
build_spaces (unset ∷ cs) = build_spaces cs
build_spaces (gpu_config device usage reserve ∷ cs) = new_space gpu device ∷ build_spaces cs
build_spaces (host_config device capacity portable ∷ cs) = new_space host device ∷ build_spaces cs
build_spaces (disk_config mount capacity ∷ cs) = build_spaces cs

unfoldable pub new_manager : List Config → Manager
new_manager cs = record { spaces = build_spaces cs; active_reservations = 0; is_shutdown = false }

-- The first space of a tier with a device id.
pub get_memory_space : Tier → ℕ → List MemorySpace → Option MemorySpace
get_memory_space t device [] = none
get_memory_space t device (s ∷ ss) =
    if same_tier s.tier t && (s.device_id == device) then some s else get_memory_space t device ss

-- What a pass over the spaces found: an index, the space after, and the reservation made.
pub record Found : Type 0 where
  pub index : ℕ
  pub space : MemorySpace
  pub reservation : Reservation

abbrev pub shift : Option Found → Option Found
shift none = none
shift (some f) = some (record f { index = suc f.index })

-- The first pass: `make_reservation` on the first match that has the memory; a throw ends the pass.
unfoldable pub first_pass : Strategy → ℕ → List MemorySpace → Option Found
first_pass strategy bytes [] = none
first_pass strategy bytes (s ∷ ss) =
    let rest = first_pass strategy bytes ss in
    if matches strategy s && leb bytes (get_available_memory s)
    then (let (s', r) = make_reservation bytes s in
        elim r [
          | err e ↦ none
          | ok made ↦ some (record { index = 0; space = s'; reservation = made })
        ])
    else shift rest

abbrev pub shift_result : Result (Option Found) → Result (Option Found)
shift_result (err e) = err e
shift_result (ok f) = ok (shift f)

-- The second pass: `make_reservation_or_null` on the first match, whose answer is returned.
unfoldable pub second_pass : Strategy → ℕ → List MemorySpace → Result (Option Found)
second_pass strategy bytes [] = err no_memory_space
second_pass strategy bytes (s ∷ ss) =
    let rest = second_pass strategy bytes ss in
    if matches strategy s
    then (let (s', r) = make_reservation_or_null bytes s in
        elim r [
          | none ↦ ok none
          | some made ↦ ok (some (record { index = 0; space = s'; reservation = made }))
        ])
    else shift_result rest

unfoldable pub adopt : Found → Manager → Manager × Result (Option Handle)
adopt f m = (
  record m {
    spaces = set m.spaces f.index f.space;
    active_reservations = add_word m.active_reservations 1;
  },
  ok (some (record { space = f.index; reservation = f.reservation })),
)

unfoldable pub request_reservation : Strategy → ℕ → Manager → Manager × Result (Option Handle)
unfolding adopt
request_reservation strategy bytes m = elim (first_pass strategy bytes m.spaces) [
  | some f ↦ adopt f m
  | none ↦ elim (second_pass strategy bytes m.spaces) [
    | err e ↦ (m, err e)
    | ok none ↦ (m, ok none)
    | ok (some f) ↦ adopt f m
  ]
]

pub get_total_available_memory : Manager → ℕ
get_total_available_memory m = go m.spaces
  where
    go : List MemorySpace → ℕ
    go [] = 0
    go (s ∷ ss) = add_word (get_available_memory s) (go ss)

unfoldable pub reserved_sum : List MemorySpace → ℕ
reserved_sum [] = 0
reserved_sum (s ∷ ss) = s.reserved_memory + reserved_sum ss

unfoldable pub get_total_reserved_memory : Manager → ℕ
unfolding reserved_sum
get_total_reserved_memory m = reserved_sum m.spaces

unfoldable pub shutdown : Manager → Manager
shutdown m = record { spaces = []; active_reservations = 0; is_shutdown = true }

-- Destroying a handle: the space's callback, then the manager's, which does nothing after a shutdown.
-- `none` stands for a callback whose space has been destroyed.
unfoldable pub destroy : Handle → Manager → Option Manager
destroy h m = elim (get_elem? m.spaces h.space) [
  | none ↦ none
  | some s ↦ some (record m {
    spaces = set m.spaces h.space (destroy_reservation h.reservation s);
    active_reservations =
        if m.is_shutdown then m.active_reservations else sub_word m.active_reservations 1;
  })
]
