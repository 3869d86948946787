-- ===== src/GoText.antt =====
-- Go's `strings` functions on text as bytes. `to_lower` and `trim_space` act on ASCII bytes; the
-- case mapping and the spaces of other characters are not modelled.
pub mod Decimal
pub mod Lines
pub mod Sort
use Prim.Native.Char.{code}
use ninj_os_proxie_edge_fabr.Prelude.{
  ℕ, ◌+◌, ◌-◌, String, ◌≡◌, refl, Bool, true, false, ◌&&◌, ◌||◌, List, [], ◌∷◌, ◌++◌, map, leb,
  nat_beq, if◌then◌else◌, Text, text_beq, ◌==◌, Option, none, some,
}

-- The bytes of an ASCII literal.
abbrev pub codes : String → Text
codes String.[] = []
codes (String.◌∷◌ c s) = code c ∷ codes s

unfoldable pub lower_byte : ℕ → ℕ
lower_byte c = if leb b'A' c && leb c b'Z' then c + 32 else c

unfoldable pub upper_byte : ℕ → ℕ
upper_byte c = if leb b'a' c && leb c b'z' then c - 32 else c

-- `strings.ToLower`
unfoldable pub to_lower : Text → Text
unfolding lower_byte
to_lower = map lower_byte

-- `strings.ToUpper`
unfoldable pub to_upper : Text → Text
unfolding upper_byte
to_upper = map upper_byte

-- `strings.EqualFold`
unfoldable pub equal_fold : Text → Text → Bool
unfolding to_lower text_beq
equal_fold s t = to_lower s == to_lower t

-- `unicode.IsSpace` below 128: \t \n \v \f \r and the space.
unfoldable pub is_space : ℕ → Bool
is_space c = (leb 9 c && leb c 13) || nat_beq c 32

unfoldable pub trim_left : Text → Text
trim_left [] = []
trim_left (c ∷ s) = let rest = trim_left s in if is_space c then rest else c ∷ s

-- The text up to its last byte that is no space.
unfoldable pub trim_right : Text → Text
trim_right [] = []
trim_right (c ∷ s) = elim (trim_right s) [
  | [] ↦ if is_space c then [] else c ∷ []
  | d ∷ t ↦ c ∷ d ∷ t
]

-- `strings.TrimSpace`
unfoldable pub trim_space : Text → Text
trim_space s = trim_right (trim_left s)

-- `strings.HasPrefix`
unfoldable pub has_prefix : Text → Text → Bool
has_prefix s [] = true
has_prefix [] (p ∷ ps) = false
has_prefix (c ∷ s) (p ∷ ps) = nat_beq c p && has_prefix s ps

-- `strings.HasSuffix(s, string(b))`
unfoldable pub ends_with : ℕ → Text → Bool
ends_with b [] = false
ends_with b (c ∷ []) = nat_beq c b
ends_with b (c ∷ d ∷ s) = ends_with b (d ∷ s)

-- `s[:len(s)-1]`
unfoldable pub drop_last : Text → Text
drop_last [] = []
drop_last (c ∷ []) = []
drop_last (c ∷ d ∷ s) = c ∷ drop_last (d ∷ s)

-- `strings.ReplaceAll` of one byte by another.
unfoldable pub replace_byte : ℕ → ℕ → Text → Text
replace_byte old new = map (λ c. if nat_beq c old then new else c)

-- Does the byte occur (`strings.ContainsAny` with a one-byte set)?
unfoldable pub contains_byte : ℕ → Text → Bool
contains_byte b [] = false
contains_byte b (c ∷ s) = nat_beq c b || contains_byte b s

-- The first part and those after it, so that a split is never empty.
abbrev pub split_into : ℕ → Text → Text × List Text
split_into sep [] = ([], [])
split_into sep (c ∷ s) =
    let (head, rest) = split_into sep s in
    if nat_beq c sep then ([], head ∷ rest) else (c ∷ head, rest)

-- `strings.Split` at a one-byte separator.
unfoldable pub split : ℕ → Text → List Text
split sep s = let (head, rest) = split_into sep s in head ∷ rest

-- `strings.SplitN(s, sep, 2)`: the text before the first separator and, if there is one, after it.
unfoldable pub cut : ℕ → Text → Text × Option Text
cut sep [] = ([], none)
cut sep (c ∷ s) =
    let (head, rest) = cut sep s in if nat_beq c sep then ([], some s) else (c ∷ head, rest)

-- `strings.Join` with a one-byte separator.
unfoldable pub join : ℕ → List Text → Text
join sep [] = []
join sep (s ∷ []) = s
join sep (s ∷ t ∷ rest) = s ++ (sep ∷ join sep (t ∷ rest))

-- The first of two texts that is not empty: a default for "".
unfoldable pub or_else : Text → Text → Text
or_else [] d = d
or_else (c ∷ s) d = c ∷ s

trims : trim_space (codes "  Edge fabric \t") ≡ codes "Edge fabric"
unfolding trim_space trim_left trim_right is_space
trims = refl

splits : split b'|' (codes "a|b||") ≡ codes "a" ∷ codes "b" ∷ [] ∷ [] ∷ []
unfolding split
splits = refl
