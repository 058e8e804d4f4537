-- ===== src/Topology/Labels/Tiers.antt =====
-- The path of a node is its tier labels, from the first on, and none of them is empty.
use mathlib.Core.Path.{ap₂}
use soperator.Prelude.{
  bytes_beq_iff, comparable_bytes, true, codes, ◌++◌, ◌==◌, ℕ, zero, suc, ◌+◌, ◌≤◌, ◌≡◌, ◌≢◌, refl,
  sym, ◌⊎◌, Option, none, some, List, [], ◌∷◌, Bytes, All, arith, Bool-cases, inl, inr, nat_beq,
}
use soperator.Text.{has_prefix-split, has_prefix-append}
use soperator.Topology.Labels.{
  is_tier_key, label, tier_key, num_of_tiers, prepend, tiers_from, labels_to_path,
}

abbrev pub tier_values : List (Bytes × Bytes) → ℕ → ℕ → List Bytes
tier_values labels done zero = []
tier_values labels done (suc left) =
    label labels (tier_key (suc done)) ∷ tier_values labels (suc done) left

abbrev pub IsSwitch : Bytes → Type 0
IsSwitch name = name ≢ []

-- What the loop over the tiers answers: all the values, or nothing because one is missing.
abbrev TiersRead : List (Bytes × Bytes) → ℕ → ℕ → Option (List Bytes) → Type 0
TiersRead labels done left none =
    (i : ℕ) × (suc done ≤ i) × (i ≤ done + left) × (label labels (tier_key i) ≡ [])
TiersRead labels done left (some path) = (path ≡ tier_values labels done left) × All IsSwitch path

prepend-TiersRead :
    (labels : List (Bytes × Bytes)) (done left : ℕ) (value : Bytes) (rest : Option (List Bytes))
    → label labels (tier_key (suc done)) ≡ value
    → TiersRead labels (suc done) left rest
    → TiersRead labels done (suc left) (prepend value rest)
unfolding prepend
prepend-TiersRead labels done left [] rest e h = (suc done, omega arith, omega arith, e)
prepend-TiersRead labels done left (c ∷ s) none e h =
    (h.0, omega (arith, h.1), omega (arith, h.2), h.3)
prepend-TiersRead labels done left (c ∷ s) (some path) e h =
    (ap₂ (λ x xs. x ∷ xs) (sym e) h.0, (λ eq. absurd (ground (arith, eq)), h.1))

tiers_from-TiersRead :
    (labels : List (Bytes × Bytes)) (done left : ℕ)
    → TiersRead labels done left (tiers_from labels done left)
unfolding tiers_from
tiers_from-TiersRead labels done zero = (refl, tt)
tiers_from-TiersRead labels done (suc left) =
    prepend-TiersRead labels done left _ _ refl (tiers_from-TiersRead labels (suc done) left)

-- The key of a tier: `tier-` and whatever follows it, but not `tier-0`.
abbrev pub IsTier : Bytes → Type 0
IsTier key = ((rest : Bytes) × (key ≡ codes "tier-" ++ rest)) × (key ≢ codes "tier-0")

-- The labels have this number of tiers.
pub data TierCount : List (Bytes × Bytes) → ℕ → Type 0 where
  no_labels : TierCount [] zero
  tier :
      {key value : Bytes} {labels : List (Bytes × Bytes)} {n : ℕ}
      → IsTier key
      → TierCount labels n
      → TierCount ((key, value) ∷ labels) (suc n)
  other_label :
      {key value : Bytes} {labels : List (Bytes × Bytes)} {n : ℕ}
      → (IsTier key → ⊥)
      → TierCount labels n
      → TierCount ((key, value) ∷ labels) n

IsTier-of_is_tier_key : (key : Bytes) → is_tier_key key ≡ true → IsTier key
IsTier-of_is_tier_key key h = (
  has_prefix-split key (codes "tier-") (ground (arith, h)),
  λ e. absurd (ground (arith, h, (bytes_beq_iff key (codes "tier-0")).1 e)),
)

is_tier_key-of_IsTier : (key : Bytes) → IsTier key → is_tier_key key ≡ true
is_tier_key-of_IsTier key ((rest, e), other) = elim (Bool-cases (key == codes "tier-0")) [
  | inl same ↦ absurd (other ((bytes_beq_iff key (codes "tier-0")).0 same))
  | inr differs ↦ rw differs (rw e (has_prefix-append (codes "tier-") rest))
]

num_of_tiers-TierCount : (labels : List (Bytes × Bytes)) → TierCount labels (num_of_tiers labels)
unfolding num_of_tiers
num_of_tiers-TierCount [] = no_labels
num_of_tiers-TierCount ((key, value) ∷ labels) = elim (Bool-cases (is_tier_key key)) [
  | inl h ↦ rw h (tier (IsTier-of_is_tier_key key h) (num_of_tiers-TierCount labels))
  | inr h ↦ rw h (
      other_label (λ t. absurd (ground (arith, h, is_tier_key-of_IsTier key t)))
        (num_of_tiers-TierCount labels))
]

-- What `labelsToPath` answers for labels with a number of tiers.
abbrev PathOf : List (Bytes × Bytes) → ℕ → Option (List Bytes) → Type 0
PathOf labels tiers none =
    (tiers ≡ 0) ⊎ ((i : ℕ) × (1 ≤ i) × (i ≤ tiers) × (label labels (tier_key i) ≡ []))
PathOf labels tiers (some path) =
    (1 ≤ tiers) × (path ≡ tier_values labels 0 tiers) × All IsSwitch path

abbrev pub PathRead : List (Bytes × Bytes) → Option (List Bytes) → Type 0
PathRead labels answer = (tiers : ℕ) × TierCount labels tiers × PathOf labels tiers answer

PathOf-of_tiers :
    (labels : List (Bytes × Bytes)) (tiers : ℕ) (path : Option (List Bytes))
    → 1 ≤ tiers
    → TiersRead labels 0 tiers path
    → PathOf labels tiers path
PathOf-of_tiers labels tiers none h r = inr (r.0, r.1, omega (arith, r.2), r.3)
PathOf-of_tiers labels tiers (some path) h r = (h, r.0, r.1)

path_of :
    (labels : List (Bytes × Bytes)) → PathOf labels (num_of_tiers labels) (labels_to_path labels)
unfolding labels_to_path
path_of labels = elim (Bool-cases (nat_beq (num_of_tiers labels) 0)) [
  | inl zero_tiers ↦ rw zero_tiers (inl (ground arith))
  | inr tiers ↦ rw tiers (
      PathOf-of_tiers labels (num_of_tiers labels) _ (ground arith)
        (tiers_from-TiersRead labels 0 (num_of_tiers labels)))
]

-- With as many tiers as labels have a key `tier-` and more, `tier-0` apart, the path is the values
-- of the labels from tier-1 to that number, at least one and none empty; and there is no path only
-- if there is no tier or one of these labels is missing or empty.
pub labels_to_path-PathRead :
    (labels : List (Bytes × Bytes)) → PathRead labels (labels_to_path labels)
labels_to_path-PathRead labels =
    (num_of_tiers labels, num_of_tiers-TierCount labels, path_of labels)
