-- ===== src/HostTable/Ownership.antt =====
-- How the two places that make an allocation hand it to a `shared_ptr`: host_data_representation.hpp
-- and builtin_converters.hpp. The store counts how often each object was destroyed and how many
-- pointers each control block has; objects and control blocks are numbered as they are made.
use cuda2rocm.Base.{
  ℕ, suc, ◌-◌, ◌≡◌, ◌≢◌, refl, ◌∙◌, ==_self, Bool-cases, inl, inr, ◌==◌, if◌then◌else◌, arith,
}

pub record Store : Type 0 where
  pub destroyed : ℕ → ℕ
  pub owned : ℕ → ℕ
  pub uses : ℕ → ℕ
  pub next_object : ℕ
  pub next_control : ℕ

abbrev pub update : ℕ → ℕ → (ℕ → ℕ) → ℕ → ℕ
update k v f x = if x == k then v else f x

-- `new`: an object that was not destroyed.
unfoldable pub new_object : Store → Store × ℕ
new_object s = (
  record s { destroyed = update s.next_object 0 s.destroyed; next_object = suc s.next_object },
  s.next_object,
)

-- `shared_ptr(raw, deleter)`: a control block of its own for an object.
unfoldable pub own : ℕ → Store → Store × ℕ
own object s = (
  record s {
    owned = update s.next_control object s.owned;
    uses = update s.next_control 1 s.uses;
    next_control = suc s.next_control;
  },
  s.next_control,
)

-- A pointer is dropped: the last one of a control block destroys the object.
unfoldable pub drop_pointer : ℕ → Store → Store
drop_pointer c s =
    let fewer = record s { uses = update c (s.uses c - 1) s.uses } in
    if s.uses c == 1
    then record fewer { destroyed = update (s.owned c) (suc (s.destroyed (s.owned c))) s.destroyed }
    else fewer

-- The object and the control block that a caller is left with.
pub record Handle : Type 0 where
  pub object : ℕ
  pub control : ℕ

-- `clone`: `shared_ptr<Alloc> new_alloc(new Alloc(), deleter)`.
unfoldable pub clone_pointer : Store → Store × Handle
unfolding new_object own
clone_pointer s =
    let (s, o) = new_object s in let (s, c) = own o s in (s, record { object = o; control = c })

-- The converter: `alloc = make_shared(...)`, then `alloc = shared_ptr(alloc.get(), deleter)`, which
-- drops the first pointer.
unfoldable pub convert_pointer : Store → Store × Handle
unfolding new_object own drop_pointer
convert_pointer s =
    let (s, o) = new_object s in
    let (s, first) = own o s in
    let (s, second) = own o s in (drop_pointer first s, record { object = o; control = second })

update_self : (k v : ℕ) (f : ℕ → ℕ) → update k v f k ≡ v
update_self k v f = rw (==_self k) refl

update_other : (k v x : ℕ) (f : ℕ → ℕ) → x ≢ k → update k v f x ≡ f x
update_other k v x f n = ground (arith, n)

-- The last pointer to an object goes: the object is destroyed once more.
drop_pointer-last :
    (c o n : ℕ) (s : Store)
    → s.uses c ≡ 1
    → s.owned c ≡ o
    → s.destroyed o ≡ n
    → (drop_pointer c s).destroyed o ≡ suc n
unfolding drop_pointer
drop_pointer-last c o n s u w d = rw (drop_pointer, u, w, d) (update_self o (suc n) (λ x. n))

-- The pointers of other control blocks stay.
drop_pointer-other :
    (c c' : ℕ) (s : Store)
    → c' ≢ c
    → ((drop_pointer c s).uses c' ≡ s.uses c') × ((drop_pointer c s).owned c' ≡ s.owned c')
unfolding drop_pointer
drop_pointer-other c c' s n = elim (Bool-cases (s.uses c == 1)) [
  | inl e ↦ rw (drop_pointer, e) (update_other c (s.uses c - 1) c' s.uses n, refl)
  | inr e ↦ rw (drop_pointer, e) (update_other c (s.uses c - 1) c' s.uses n, refl)
]

-- The allocation that a clone hands out is alive, and destroyed once when its pointer is dropped.
pub clone_pointer_once :
    (s : Store)
    → ((clone_pointer s).0.destroyed (clone_pointer s).1.object ≡ 0)
      × ((drop_pointer (clone_pointer s).1.control (clone_pointer s).0).destroyed
            (clone_pointer s).1.object
          ≡ 1)
unfolding clone_pointer new_object own
clone_pointer_once s =
    let fresh = update_self s.next_object 0 s.destroyed in
    (
      fresh,
      drop_pointer-last s.next_control s.next_object 0 (clone_pointer s).0
          (update_self s.next_control 1 s.uses) (update_self s.next_control s.next_object s.owned)
          fresh,
    )

-- The allocation that the converter of a GPU table with bytes hands out is destroyed before the
-- converter returns, and once more when the pointer to it is dropped.
pub convert_pointer_twice :
    (s : Store)
    → ((convert_pointer s).0.destroyed (convert_pointer s).1.object ≡ 1)
      × ((drop_pointer (convert_pointer s).1.control (convert_pointer s).0).destroyed
            (convert_pointer s).1.object
          ≡ 2)
unfolding convert_pointer new_object own
convert_pointer_twice s =
    let o = s.next_object in
    let c = s.next_control in
    let both = (own o (own o (new_object s).0).0).0 in
    let once =
      drop_pointer-last c o 0 both
        (update_other (suc c) 1 c (update c 1 s.uses) (omega arith) ∙ update_self c 1 s.uses)
        (update_other (suc c) o c (update c o s.owned) (omega arith) ∙ update_self c o s.owned)
        (update_self o 0 s.destroyed) in
    let (uses, owned) = drop_pointer-other c (suc c) both (omega arith) in
    (
      once,
      drop_pointer-last (suc c) o 1 (drop_pointer c both)
          (uses ∙ update_self (suc c) 1 (update c 1 s.uses))
          (owned ∙ update_self (suc c) o (update c o s.owned)) once,
    )
