-- ===== src/HostResource/Committed.antt =====
-- The single committed-bytes counter of the pinned host pool, with its limit and its peak.
use cuda2rocm.Base.{
  ℕ, ◌+◌, ◌-◌, ◌/◌, ◌≤◌, ◌<◌, ◌≡◌, Option, none, some, ltb, leb, ◌==◌, if◌then◌else◌, add_word,
  size_max, word_mod, arith, ◌⊎◌, max, ◌^◌, mul_word,
}

pub record Counter : Type 0 where
  pub mem_limit : ℕ
  pub total_allocated : ℕ
  pub peak_allocated : ℕ

abbrev pub default_block_size : ℕ
default_block_size = 2 ^ 20

unfoldable pub available : ℕ → ℕ → ℕ
available limit used = if ltb used limit then limit - used else 0

-- Up to the next multiple of the block size, or `SIZE_MAX` where that sum would wrap.
unfoldable pub align_up : ℕ → ℕ → ℕ
align_up bytes block_size =
    if block_size == 0
    then bytes
    else (if ltb (size_max - (block_size - 1)) bytes
        then size_max
        else mul_word ((bytes + block_size - 1) / block_size) block_size)

-- A round of the loop in `do_reserve`, with a limit and bytes within it.
unfoldable pub propose_reserve : ℕ → ℕ → ℕ → Option ℕ
propose_reserve limit bytes cur =
    if ltb (limit - bytes) cur then none else some (add_word cur bytes)

-- A round of the loop in `do_release`.
unfoldable pub propose_credit : ℕ → ℕ → ℕ
propose_credit bytes cur = if leb bytes cur then cur - bytes else 0

unfoldable pub update_peak : Counter → Counter
update_peak c =
    if ltb c.peak_allocated c.total_allocated
    then record c { peak_allocated = c.total_allocated }
    else c

unfoldable pub do_reserve : ℕ → Counter → Option Counter
unfolding propose_reserve update_peak
do_reserve bytes c =
    if bytes == 0
    then some c
    else if c.mem_limit == 0
    then some (update_peak (record c { total_allocated = add_word c.total_allocated bytes }))
    else if ltb c.mem_limit bytes
    then none
    else elim (propose_reserve c.mem_limit bytes c.total_allocated) [
      | none ↦ none
      | some charged ↦ some (update_peak (record c { total_allocated = charged }))
    ]

unfoldable pub do_release : ℕ → Counter → Counter
unfolding propose_credit
do_release bytes c =
    if bytes == 0 then c else record c { total_allocated = propose_credit bytes c.total_allocated }

-- A limited pool: the counter is within a limit that a `size_t` holds, and the peak is above it.
pub record IsBounded (c : Counter) : Type 0 where
  pub limited : 0 < c.mem_limit
  pub word : c.mem_limit < word_mod
  pub within : c.total_allocated ≤ c.mem_limit
  pub peaked : c.total_allocated ≤ c.peak_allocated

-- With a limit that the counter keeps to, a charge succeeds exactly where it fits; it then adds the
-- bytes and raises the peak to the new total where that is higher.
pub do_reserve_outcome :
    (bytes : ℕ) (c : Counter)
    → IsBounded c
    → ((c.total_allocated + bytes ≤ c.mem_limit)
        × (do_reserve bytes c
            ≡ some (record c {
              total_allocated = c.total_allocated + bytes;
              peak_allocated = max c.peak_allocated (c.total_allocated + bytes);
            })))
      ⊎ ((c.mem_limit < c.total_allocated + bytes) × (do_reserve bytes c ≡ none))
unfolding do_reserve
do_reserve_outcome bytes c v = ground arith

pub do_release_lem :
    (bytes : ℕ) (c : Counter)
    → do_release bytes c ≡ record c { total_allocated = c.total_allocated - bytes }
unfolding do_release
do_release_lem bytes c = ground arith

-- A charge that is taken back leaves the total and the limit as they were.
pub do_release-do_reserve :
    (bytes : ℕ) (c d : Counter)
    → IsBounded c
    → do_reserve bytes c ≡ some d
    → ((do_release bytes d).total_allocated ≡ c.total_allocated)
      × ((do_release bytes d).mem_limit ≡ c.mem_limit)
unfolding do_reserve do_release
do_release-do_reserve bytes c d v e = ground arith
