-- ===== src/Topology/Pci.antt =====
-- When two PCI bus ids name the same device.
use cuda2rocm.Base.{
  ℕ, ◌≡◌, ◌≢◌, ◌↔◌, refl, ap, true, none, some, [], ◌∷◌, ◌++◌, length, take, arith,
}
use cuda2rocm.Topology.{Text, text_eq, rfind, without_function, pci_buses_match}

-- The byte does not stand in the text.
abbrev pub FreeOf : ℕ → Text → Type 0
FreeOf c [] = Unit {0}
FreeOf c (x ∷ xs) = (x ≢ c) × FreeOf c xs

text_eq_self : (a : Text) → text_eq a a ≡ true
unfolding text_eq
text_eq_self [] = refl
text_eq_self (x ∷ xs) = ground (arith, text_eq_self xs)

text_eq_sound : (a b : Text) → text_eq a b ≡ true → a ≡ b
unfolding text_eq
text_eq_sound [] [] e = refl
text_eq_sound [] (y ∷ ys) e = cc
text_eq_sound (x ∷ xs) [] e = cc
text_eq_sound (x ∷ xs) (y ∷ ys) e = ground (arith, e, text_eq_sound xs ys)

rfind-FreeOf : (c : ℕ) (f : Text) → FreeOf c f → rfind c f ≡ none
unfolding rfind
rfind-FreeOf c [] h = refl
rfind-FreeOf c (x ∷ xs) h = rw (rfind-FreeOf c xs h.1) (ground (arith, h.0))

rfind-last : (c : ℕ) (p f : Text) → FreeOf c f → rfind c (p ++ (c ∷ f)) ≡ some (length p)
unfolding rfind
rfind-last c [] f h = rw (rfind-FreeOf c f h) (ground arith)
rfind-last c (x ∷ p) f h = rw (rfind-last c p f h) refl

take-append : (p f : Text) → take (length p) (p ++ f) ≡ p
take-append [] f = refl
take-append (x ∷ p) f = ap (λ r. x ∷ r) (take-append p f)

without_function-append : (p f : Text) → FreeOf 0x2E f → without_function (p ++ (0x2E ∷ f)) ≡ p
unfolding without_function
without_function-append p f h =
    rw (without_function, rfind-last 0x2E p f h) (take-append p (0x2E ∷ f))

-- Two bus ids that end in a dot and a function without a dot match exactly where they are the same
-- up to that dot.
pub pci_buses_match_iff :
    (p f p' f' : Text)
    → FreeOf 0x2E f
    → FreeOf 0x2E f'
    → (pci_buses_match (some (p ++ (0x2E ∷ f))) (some (p' ++ (0x2E ∷ f'))) ≡ true) ↔ (p ≡ p')
unfolding pci_buses_match
pci_buses_match_iff p f p' f' h h' =
    rw (without_function-append p f h, without_function-append p' f' h')
      (text_eq_sound p p', λ e. rw e (text_eq_self p'))
