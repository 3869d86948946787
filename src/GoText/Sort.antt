-- ===== src/GoText/Sort.antt =====
-- Go's order of strings, and `sort.Strings` on a slice.
use ninj_os_proxie_edge_fabr.Prelude.{
  ◌≡◌, refl, Bool, true, false, ◌&&◌, ◌||◌, List, [], ◌∷◌, arith, ltb, nat_beq, if◌then◌else◌, Text,
  Pairwise, All,
}

-- `s < t`, on bytes.
unfoldable pub text_less : Text → Text → Bool
text_less [] [] = false
text_less [] (b ∷ t) = true
text_less (a ∷ s) [] = false
text_less (a ∷ s) (b ∷ t) = ltb a b || nat_beq a b && text_less s t

unfoldable pub insert_sorted : Text → List Text → List Text
insert_sorted x [] = x ∷ []
insert_sorted x (y ∷ ys) =
    let rest = insert_sorted x ys in if text_less y x then y ∷ rest else x ∷ y ∷ ys

-- `sort.Strings`
unfoldable pub sort_strings : List Text → List Text
unfolding insert_sorted
sort_strings [] = []
sort_strings (x ∷ xs) = insert_sorted x (sort_strings xs)

pub text_less-asym : (s t : Text) → text_less s t ≡ true → text_less t s ≡ false
unfolding text_less
text_less-asym [] [] h = refl
text_less-asym [] (b ∷ t) h = refl
text_less-asym (a ∷ s) [] h = cc
text_less-asym (a ∷ s) (b ∷ t) h = ground (arith, h, text_less-asym s t)

insert_sorted-first :
    (x : Text) (ys : List Text) → All (λ y. text_less x y ≡ true) ys → insert_sorted x ys ≡ x ∷ ys
unfolding insert_sorted
insert_sorted-first x [] h = refl
insert_sorted-first x (y ∷ ys) h = rw (text_less-asym x y h.0) refl

-- A list in strict order is left as it is.
pub sort_strings-sorted :
    (xs : List Text) → Pairwise (λ x y. text_less x y ≡ true) xs → sort_strings xs ≡ xs
unfolding sort_strings
sort_strings-sorted [] h = refl
sort_strings-sorted (x ∷ xs) h = rw (sort_strings-sorted xs h.1) (insert_sorted-first x xs h.0)
