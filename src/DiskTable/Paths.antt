-- ===== src/DiskTable/Paths.antt =====
-- The names of the files of tables on disk, read back.
use mathlib.Core.List.{append_assoc}
use cuda2rocm.Base.{
  ℕ, zero, suc, ◌+◌, ◌-◌, ◌*◌, ◌/◌, ◌%◌, ◌^◌, ◌<◌, ◌≡◌, refl, sym, ap, ◌∙◌, [], ◌∷◌, ◌++◌, ltb,
  ◌==◌, if◌then◌else◌, Bool-cases, inl, inr, arith, drop, get_or,
}
use cuda2rocm.Topology.{Text}
use cuda2rocm.Topology.Pci.{FreeOf}
use cuda2rocm.DiskTable.{digits, to_string, file_prefix, file_suffix, generate_disk_file_path}

-- The number that stands before a dot.
abbrev read_number : ℕ → Text → ℕ
read_number acc [] = acc
read_number acc (c ∷ s) =
    let rest = read_number (acc * 10 + (c - 0x30)) s in if c == 0x2E then acc else rest

read_number-digit :
    (acc d n : ℕ) (s : Text)
    → d < 10
    → acc * 10 + d ≡ n
    → read_number acc ((0x30 + d) ∷ s) ≡ read_number n s
read_number-digit acc d n s lt e =
    let value : acc * 10 + ((0x30 + d) - 0x30) ≡ n = omega arith in
    elim (Bool-cases (0x30 + d == 0x2E)) [
      | inl dot ↦ absurd (ground arith)
      | inr no_dot ↦ rw (no_dot, value) refl
    ]

-- A number of so many digits at most is read back, whatever follows.
read_number-digits :
    (fuel n : ℕ) (s : Text) → n < 10 ^ fuel → read_number 0 (digits fuel n ++ s) ≡ read_number n s
unfolding digits
read_number-digits zero n s lt = ap (λ m. read_number m s) (omega arith)
read_number-digits (suc fuel) n s lt = elim (Bool-cases (ltb n 10)) [
  | inl one ↦ rw (one, digits) (read_number-digit 0 n n s (ground arith) (omega arith))
  | inr more ↦
      rw (more, digits, append_assoc (digits fuel (n / 10)) ((0x30 + n % 10) ∷ []) s)
        (read_number-digits fuel (n / 10) ((0x30 + n % 10) ∷ s) (omega arith)
          ∙ read_number-digit (n / 10) (n % 10) n s (omega arith) (omega arith))
]

digits-FreeOf : (fuel n : ℕ) (s : Text) → FreeOf 0x2F s → FreeOf 0x2F (digits fuel n ++ s)
unfolding digits
digits-FreeOf zero n s h = h
digits-FreeOf (suc fuel) n s h = elim (Bool-cases (ltb n 10)) [
  | inl one ↦ rw (one, digits) (omega arith, h)
  | inr more ↦
      rw (more, digits, append_assoc (digits fuel (n / 10)) ((0x30 + n % 10) ∷ []) s)
        (digits-FreeOf fuel (n / 10) ((0x30 + n % 10) ∷ s) (omega arith, h))
]

append-FreeOf : (c : ℕ) (p f : Text) → FreeOf c p → FreeOf c f → FreeOf c (p ++ f)
append-FreeOf c [] f h h' = h'
append-FreeOf c (x ∷ p) f h h' = (h.0, append-FreeOf c p f h.1 h')

not-FreeOf : (c : ℕ) (p f : Text) → ¬ FreeOf c (p ++ (c ∷ f))
not-FreeOf c [] f h = h.0 refl
not-FreeOf c (x ∷ p) f h = not-FreeOf c p f h.1

-- What stands before the last of a byte, and what stands after it.
split_last :
    (c : ℕ) (p p' f f' : Text)
    → FreeOf c f
    → FreeOf c f'
    → p ++ (c ∷ f) ≡ p' ++ (c ∷ f')
    → (p ≡ p') × (f ≡ f')
split_last c [] [] f f' h h' e = (refl, ap (drop 1) e)
split_last c [] (y ∷ p') f f' h h' e = absurd (not-FreeOf c p' f' (rw (ap (drop 1) e) at h))
split_last c (x ∷ p) [] f f' h h' e = absurd (not-FreeOf c p f (rw (sym (ap (drop 1) e)) at h'))
split_last c (x ∷ p) (y ∷ p') f f' h h' e =
    let (same, rest) = split_last c p p' f f' h h' (ap (drop 1) e) in
    (cc (ap (λ t. get_or t 0 0) e, same), rest)

file_name : ℕ → Text
file_name idx = file_prefix ++ (to_string idx ++ file_suffix)

file_name-FreeOf : (idx : ℕ) → FreeOf 0x2F (file_name idx)
unfolding file_name
file_name-FreeOf idx =
    append-FreeOf 0x2F file_prefix (to_string idx ++ file_suffix) (ground arith)
      (digits-FreeOf 20 idx file_suffix (ground arith))

read_number-file_name : (idx : ℕ) → idx < 2 ^ 64 → read_number 0 (drop 15 (file_name idx)) ≡ idx
unfolding file_name
read_number-file_name idx lt = read_number-digits 20 idx file_suffix (omega arith)

-- The file names of two tables on disk, with 64-bit indices, are the same only where their
-- directories and their indices are.
pub generate_disk_file_path-injective :
    (base base' : Text) (idx idx' : ℕ)
    → idx < 2 ^ 64
    → idx' < 2 ^ 64
    → generate_disk_file_path base idx ≡ generate_disk_file_path base' idx'
    → (base ≡ base') × (idx ≡ idx')
unfolding generate_disk_file_path file_name
generate_disk_file_path-injective base base' idx idx' lt lt' e =
    let (same, name) =
      split_last 0x2F base base' (file_name idx) (file_name idx') (file_name-FreeOf idx)
        (file_name-FreeOf idx') e in
    (
      same,
      sym (read_number-file_name idx lt)
          ∙ ap (λ t. read_number 0 (drop 15 t)) name
          ∙ read_number-file_name idx' lt',
    )
