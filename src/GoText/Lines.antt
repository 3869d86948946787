-- ===== src/GoText/Lines.antt =====
-- Laws of splitting at a separator and of trimming.
use ninj_os_proxie_edge_fabr.Prelude.{
  ℕ, ◌≡◌, ◌≢◌, refl, Bool, true, false, [], ◌∷◌, ◌++◌, arith, Text, All, Bool-cases, inl, inr,
  if◌then◌else◌,
}
use ninj_os_proxie_edge_fabr.GoText.{
  split, split_into, is_space, trim_left, trim_right, trim_space, replace_byte,
}

-- The byte does not occur in the text.
abbrev pub Free : ℕ → Text → Type 0
Free b = All (λ c. c ≢ b)

split_into-Free : (sep : ℕ) (s : Text) → Free sep s → split_into sep s ≡ (s, [])
split_into-Free sep [] h = refl
split_into-Free sep (c ∷ s) h = rw (split_into-Free sep s h.1) (ground (arith, h.0))

split_into-append :
    (sep : ℕ) (s t : Text) → Free sep s → split_into sep (s ++ (sep ∷ t)) ≡ (s, split sep t)
unfolding split
split_into-append sep [] t h = ground arith
split_into-append sep (c ∷ s) t h = rw (split_into-append sep s t h.1) (ground (arith, h.0))

-- A text without the separator is its only part.
pub split-Free : (sep : ℕ) (s : Text) → Free sep s → split sep s ≡ s ∷ []
unfolding split
split-Free sep s h = rw (split_into-Free sep s h)

-- What stands before the first separator is the first part.
pub split-append :
    (sep : ℕ) (s t : Text) → Free sep s → split sep (s ++ (sep ∷ t)) ≡ s ∷ split sep t
unfolding split
split-append sep s t h = rw (split_into-append sep s t h)

module _ (P : ℕ → Type 0) where
  All-trim_left : (s : Text) → All P s → All P (trim_left s)
  unfolding trim_left
  All-trim_left [] h = tt
  All-trim_left (c ∷ s) h = elim (Bool-cases (is_space c)) [
    | inl y ↦ rw y (All-trim_left s h.1)
    | inr n ↦ rw n h
  ]

  All-trim_right : (s : Text) → All P s → All P (trim_right s)
  unfolding trim_right
  All-trim_right [] h = tt
  All-trim_right (c ∷ s) h = go (trim_right s) (All-trim_right s h.1) (is_space c)
    where
      go :
          (t : Text)
          → All P t
          → (b : Bool) → All P (elim t [ [] ↦ if b then [] else c ∷ [] | d ∷ u ↦ c ∷ d ∷ u ])
      go [] k true = tt
      go [] k false = (h.0, tt)
      go (d ∷ u) k b = (h.0, k)

  pub All-trim_space : (s : Text) → All P s → All P (trim_space s)
  unfolding trim_space
  All-trim_space s h = All-trim_right (trim_left s) (All-trim_left s h)

trim_right_idem : (s : Text) → trim_right (trim_right s) ≡ trim_right s
unfolding trim_right
trim_right_idem [] = refl
trim_right_idem (c ∷ s) = ground (arith, trim_right_idem s)

trim_left-trim_right_cons :
    (c : ℕ) (s : Text) → is_space c ≡ false → trim_left (trim_right (c ∷ s)) ≡ trim_right (c ∷ s)
unfolding trim_left trim_right
trim_left-trim_right_cons c s n = ground arith

trim_left-right : (s : Text) → trim_left (trim_right (trim_left s)) ≡ trim_right (trim_left s)
unfolding trim_left
trim_left-right [] = unfold trim_right in refl
trim_left-right (c ∷ s) = elim (Bool-cases (is_space c)) [
  | inl y ↦ rw y (trim_left-right s)
  | inr n ↦ rw n (trim_left-trim_right_cons c s n)
]

-- Trimming twice is trimming once.
pub trim_space_idem : (s : Text) → trim_space (trim_space s) ≡ trim_space s
unfolding trim_space
trim_space_idem s = rw (trim_left-right s, trim_right_idem (trim_left s))

-- A byte that was replaced is gone.
pub Free-replace_byte : (old new : ℕ) → new ≢ old → (s : Text) → Free old (replace_byte old new s)
unfolding replace_byte
Free-replace_byte old new ne [] = tt
Free-replace_byte old new ne (c ∷ s) = (ground arith, Free-replace_byte old new ne s)

pub Free-replace_byte_other :
    (b old new : ℕ) → new ≢ b → (s : Text) → Free b s → Free b (replace_byte old new s)
unfolding replace_byte
Free-replace_byte_other b old new ne [] h = tt
Free-replace_byte_other b old new ne (c ∷ s) h =
    (ground (arith, h.0), Free-replace_byte_other b old new ne s h.1)

-- Replacing a byte that does not occur changes nothing.
pub replace_byte-Free : (old new : ℕ) (s : Text) → Free old s → replace_byte old new s ≡ s
unfolding replace_byte
replace_byte-Free old new [] h = refl
replace_byte-Free old new (c ∷ s) h = ground (arith, h.0, replace_byte-Free old new s h.1)
