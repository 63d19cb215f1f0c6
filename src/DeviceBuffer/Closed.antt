-- ===== src/DeviceBuffer/Closed.antt =====
-- The life of a container's buffer, from the constructor to the destructor.
use cuda2rocm.Base.{
  ℕ, zero, suc, ◌/◌, ◌*◌, ◌≡◌, refl, ◌∙◌, Bool, true, false, not, ◌&&◌, Option, none, some, List,
  [], ◌∷◌, ◌++◌, replicate, ltb, ◌==◌, if◌then◌else◌, arith, size_max, Error, Result, is_ok, ok,
  err,
}
use cuda2rocm.StaticSet.{new_set}
use cuda2rocm.BloomFilter.{new_filter}
use cuda2rocm.DeviceBuffer.{
  DeviceCall, device_malloc, work, device_synchronize, device_free, fill_or_free, allocate_and_fill,
  construct_set, construct_filter, destroy_buffer,
}

-- What a memory checker sees: no buffer, or one at a pointer, with work under way on it or not.
pub data Watch : Type 0 where
  nothing : Watch
  buffer : ℕ → Bool → Watch
  broken : Watch

-- Work needs a buffer; memory is freed once, by its own pointer, and with no work under way.
abbrev pub watch : DeviceCall → Watch → Watch
watch (device_malloc ptr) nothing = buffer ptr false
watch work (buffer ptr busy) = buffer ptr true
watch device_synchronize nothing = nothing
watch device_synchronize (buffer ptr busy) = buffer ptr false
watch (device_free q) (buffer ptr false) = if ptr == q then nothing else broken
watch _ _ = broken

abbrev pub watch_all : List DeviceCall → Watch → Watch
watch_all [] s = s
watch_all (c ∷ cs) s = watch_all cs (watch c s)

-- A container in use: some kernels where it was constructed, then its destructor.
abbrev pub life : ℕ → List DeviceCall × Option ℕ → List DeviceCall
life kernels (calls, none) = calls
life kernels (calls, some ptr) = calls ++ (replicate kernels work ++ destroy_buffer (some ptr))

abbrev pub is_some : Option ℕ → Bool
is_some none = false
is_some (some a) = true

watch_all-work :
    (n ptr : ℕ) (cs : List DeviceCall)
    → watch_all (replicate n work ++ cs) (buffer ptr true) ≡ watch_all cs (buffer ptr true)
watch_all-work zero ptr cs = refl
watch_all-work (suc n) ptr cs = watch_all-work n ptr cs

destroy-nothing : (ptr : ℕ) → watch_all (destroy_buffer (some ptr)) (buffer ptr true) ≡ nothing
unfolding destroy_buffer
destroy-nothing ptr = ground arith

fill_or_free-nothing :
    (kernels ptr : ℕ) (filled : Bool)
    → watch_all (life kernels (fill_or_free ptr filled)) nothing ≡ nothing
unfolding fill_or_free
fill_or_free-nothing kernels ptr true = watch_all-work kernels ptr _ ∙ destroy-nothing ptr
fill_or_free-nothing kernels ptr false = ground arith

-- The buffer is closed, and is kept exactly where the constructor returns.
abbrev pub IsClosed {ℓ} : {A : Type ℓ} → ℕ → List DeviceCall × Option ℕ → Result A → Type 0
IsClosed kernels built result =
    (watch_all (life kernels built) nothing ≡ nothing) × (is_some built.1 ≡ is_ok result)

if-IsClosed :
    {A : Type 0} (kernels : ℕ) (b : Bool) (x y : List DeviceCall × Option ℕ) (r s : Result A)
    → IsClosed kernels x r
    → IsClosed kernels y s
    → IsClosed kernels (if b then x else y) (if b then r else s)
if-IsClosed kernels true x y r s p q = p
if-IsClosed kernels false x y r s p q = q

fill-IsClosed :
    {A : Type 0} (kernels : ℕ) (allocated : Option ℕ) (filled : Bool) (a : A) (e e' : Error)
    → IsClosed kernels
        (allocate_and_fill allocated filled)
        (if is_some allocated then (if filled then ok a else err e) else err e')
unfolding allocate_and_fill fill_or_free
fill-IsClosed kernels none filled a e e' = (refl, refl)
fill-IsClosed kernels (some ptr) true a e e' = (fill_or_free-nothing kernels ptr true, refl)
fill-IsClosed kernels (some ptr) false a e e' = (fill_or_free-nothing kernels ptr false, refl)

-- Sets.
pub construct_set-IsClosed :
    (key_size capacity empty kernels : ℕ) (memory : List ℕ) (allocated : Option ℕ) (filled : Bool)
    → IsClosed kernels
        (construct_set key_size capacity allocated filled)
        (new_set key_size capacity empty memory (is_some allocated) filled)
unfolding construct_set new_set
construct_set-IsClosed key_size capacity empty kernels memory allocated filled =
    if-IsClosed kernels (capacity == 0) _ _ _ _ (refl, refl)
      (if-IsClosed kernels (ltb (size_max / capacity) key_size) _ _ _ _ (refl, refl)
        (fill-IsClosed kernels allocated filled _ _ _))

-- Filters.
pub construct_filter-IsClosed :
    (words_per_block word_size block_extent kernels : ℕ) (allocated : Option ℕ) (filled : Bool)
    → IsClosed kernels
        (construct_filter words_per_block word_size block_extent allocated filled)
        (new_filter words_per_block word_size block_extent (is_some allocated) filled)
unfolding construct_filter new_filter
construct_filter-IsClosed words_per_block word_size block_extent kernels allocated filled =
    let words_total = block_extent * words_per_block in
    if-IsClosed kernels (block_extent == 0) _ _ _ _ (refl, refl)
      (if-IsClosed kernels (ltb (size_max / block_extent) words_per_block) _ _ _ _ (refl, refl)
        (if-IsClosed kernels (not (words_total == 0) && ltb (size_max / words_total) word_size) _ _
          _ _ (refl, refl) (fill-IsClosed kernels allocated filled _ _ _)))

-- Whatever the sizes, whether memory is given and the fill is launched, and however many kernels
-- follow: from the constructor of a set or of a filter to its destructor, the device memory that
-- was given is freed exactly once, by its own pointer and with no work under way, and no work is
-- launched without it; a constructor keeps a pointer exactly where it returns.
pub construct-IsClosed :
    (unit_size count empty words_per_block kernels : ℕ) (memory : List ℕ) (allocated : Option ℕ)
    (filled : Bool)
    → IsClosed kernels
        (construct_set unit_size count allocated filled)
        (new_set unit_size count empty memory (is_some allocated) filled)
      × IsClosed kernels
          (construct_filter words_per_block unit_size count allocated filled)
          (new_filter words_per_block unit_size count (is_some allocated) filled)
construct-IsClosed unit_size count empty words_per_block kernels memory allocated filled = (
  construct_set-IsClosed unit_size count empty kernels memory allocated filled,
  construct_filter-IsClosed words_per_block unit_size count kernels allocated filled,
)
