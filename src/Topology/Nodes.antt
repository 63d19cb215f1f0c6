-- ===== src/Topology/Nodes.antt =====
-- Which file a GPU's NUMA node and CPU list are read from.
use cuda2rocm.Base.{ℕ, ◌≤◌, ◌<◌, ◌≡◌, ◌⊎◌, inl, inr, true, Option, none, some}
use cuda2rocm.Topology.{
  System, Device, render, card, ℤ, pos, matches_pci, read_sysfs, read_sysfs_numa_node,
  node_or_unknown,
}
use cuda2rocm.Topology.Scan.{NoneBefore, IsFirst, scan-Outcome}

module _ (sys : System) where
  module _ {ℓ} {A : Type ℓ} (file : Device → Option A) (gpu : ℕ) where
    -- No render device of the GPU has a file that opens, and no card of the GPU has one.
    abbrev pub NoRender : Type ℓ
    NoRender = NoneBefore (λ r. matches_pci sys (render r) gpu) (λ r. file (render r)) 128 200

    abbrev pub NoCard : Type ℓ
    NoCard = NoneBefore (λ c. matches_pci sys (card c) gpu) (λ c. file (card c)) 0 32

    -- What the scan of the files gives.
    pub data Source : Option A → Type ℓ where
      unread : NoRender → NoCard → Source none
      from_render :
          (r : ℕ) (a : A)
          → 128 ≤ r
          → r < 200
          → matches_pci sys (render r) gpu ≡ true
          → file (render r) ≡ some a
          → Source (some a)
      from_card :
          (c : ℕ) (a : A)
          → c < 32
          → matches_pci sys (card c) gpu ≡ true
          → file (card c) ≡ some a
          → NoRender
          → Source (some a)

    cards-Source :
        (r : Option A)
        → NoRender
        → ((r ≡ none) × NoCard)
          ⊎ IsFirst (λ c. matches_pci sys (card c) gpu) (λ c. file (card c)) 0 32 r
        → Source r
    cards-Source r h (inl (e, no_card)) = rw e (unread h no_card)
    cards-Source r h (inr f) = rw f.result (from_card f.device f.value f.below f.matched f.opened h)

    -- A value that is read for a GPU is that of a file of a render device between 128 and 199 or of
    -- a card below 32 whose bus id matches the GPU's, of a card only where no render device of the
    -- GPU has the file; and where nothing is read, none of these devices has it.
    pub read_sysfs-Source : Source (read_sysfs sys file gpu)
    unfolding read_sysfs
    read_sysfs-Source =
        elim (scan-Outcome (λ r. matches_pci sys (render r) gpu) (λ r. file (render r)) 72 128) [
          | inr f ↦
              rw (read_sysfs, f.result)
                (from_render f.device f.value f.at_least f.below f.matched f.opened)
          | inl (e, h) ↦
              rw (read_sysfs, e)
                (cards-Source _ h
                  (scan-Outcome (λ c. matches_pci sys (card c) gpu) (λ c. file (card c)) 32 0))
        ]

  node-owned :
      (gpu n : ℕ) (r : Option (Option ℤ))
      → Source sys.numa_file gpu r
      → node_or_unknown r ≡ pos n
      → (d : Device) × (matches_pci sys d gpu ≡ true) × (sys.numa_file d ≡ some (some (pos n)))
  node-owned gpu n none s e = cc
  node-owned gpu n (some none) s e = cc
  node-owned gpu n (some (some node)) (from_render r _ _ _ m o) e = (render r, m, rw e at o)
  node-owned gpu n (some (some node)) (from_card c _ _ m o _) e = (card c, m, rw e at o)

  -- A NUMA node is read from the file of a device whose bus id matches that of the GPU.
  pub read_sysfs_numa_node-owned :
      (gpu n : ℕ)
      → read_sysfs_numa_node sys gpu ≡ pos n
      → (d : Device) × (matches_pci sys d gpu ≡ true) × (sys.numa_file d ≡ some (some (pos n)))
  unfolding read_sysfs_numa_node
  read_sysfs_numa_node-owned gpu n e = node-owned gpu n _ (read_sysfs-Source sys.numa_file gpu) e
