-- ===== src/GoText/Decimal.antt =====
-- Go's `strconv`: decimal print (`strconv.Itoa`, `%d`) and parse (`Atoi`, `ParseInt` and `ParseUint`
-- in base 10 with 64 bits), which accept what their documentation says: an optional sign (not for
-- `ParseUint`), one or more digits, and a value in range.
use ninj_os_proxie_edge_fabr.Prelude.{
  ℕ, zero, suc, ◌+◌, ◌-◌, ◌*◌, ◌/◌, ◌%◌, ◌^◌, ◌≤◌, ◌<◌, ◌≡◌, refl, ◌&&◌, Option, none, some, [],
  ◌∷◌, arith, ltb, leb, nat_beq, if◌then◌else◌, Text, All, Bool-cases, ◌≢◌, ◌∙◌, inl, inr,
}
use ninj_os_proxie_edge_fabr.Prelude.Int.{ℤ, pos, negsuc}
use ninj_os_proxie_edge_fabr.GoText.{codes}

emit : ℕ → ℕ → Text → Text
emit zero n out = out
emit (suc f) n out =
    let out' = (b'0' + n % 10) ∷ out in
    let rest = emit f (n / 10) out' in if ltb n 10 then out' else rest

-- The decimal digits of a number; `suc n` rounds are enough, as each divides by ten.
unfoldable pub format_nat : ℕ → Text
unfolding emit
format_nat n = emit (suc n) n []

unfoldable pub format_int : ℤ → Text
format_int (pos n) = format_nat n
format_int (negsuc n) = b'-' ∷ format_nat (suc n)

-- The number that the digits spell behind `n`.
scan : Text → ℕ → Option ℕ
scan [] n = some n
scan (c ∷ s) n =
    let rest = scan s (n * 10 + (c - b'0')) in if leb b'0' c && leb c b'9' then rest else none

-- One or more digits.
unfoldable pub parse_digits : Text → Option ℕ
unfolding scan
parse_digits [] = none
parse_digits (c ∷ s) = scan (c ∷ s) 0

at_most : ℕ → Option ℕ → Option ℕ
at_most top none = none
at_most top (some n) = if leb n top then some n else none

as_pos : Option ℕ → Option ℤ
as_pos none = none
as_pos (some n) = some (pos n)

as_neg : Option ℕ → Option ℤ
as_neg none = none
as_neg (some zero) = some (pos 0)
as_neg (some (suc n)) = some (negsuc n)

abbrev pub max_int64 : ℕ
max_int64 = 2 ^ 63 - 1

-- `strconv.ParseUint(s, 10, 64)`
unfoldable pub parse_uint : Text → Option ℕ
unfolding at_most parse_digits
parse_uint s = at_most (2 ^ 64 - 1) (parse_digits s)

-- `strconv.Atoi(s)` and `strconv.ParseInt(s, 10, 64)`
unfoldable pub parse_int : Text → Option ℤ
unfolding at_most as_pos as_neg parse_digits
parse_int [] = none
parse_int (c ∷ s) =
    if nat_beq c b'-'
    then as_neg (at_most (2 ^ 63) (parse_digits s))
    else if nat_beq c b'+'
    then as_pos (at_most max_int64 (parse_digits s))
    else as_pos (at_most max_int64 (parse_digits (c ∷ s)))

reads_signs :
    (parse_int (codes "-60") ≡ some (negsuc 59))
    × (parse_int (codes "+7") ≡ some (pos 7))
    × (parse_int (codes "7x") ≡ none)
    × (parse_int (codes "9223372036854775808") ≡ none)
unfolding parse_int
reads_signs = (refl, refl, refl, refl)

prints : format_int (negsuc 1199) ≡ codes "-1200"
unfolding format_int format_nat
prints = refl

abbrev IsDigit : ℕ → Type 0
IsDigit c = (b'0' ≤ c) × (c ≤ b'9')

emit-All : (f n : ℕ) (out : Text) → All IsDigit out → All IsDigit (emit f n out)
unfolding emit
emit-All zero n out h = h
emit-All (suc f) n out h = elim (Bool-cases (ltb n 10)) [
  | inl small ↦ rw small ((omega arith, omega arith), h)
  | inr large ↦ rw large (emit-All f (n / 10) _ ((omega arith, omega arith), h))
]

-- The digits of a number are printed by digits alone.
pub format_nat-All : (n : ℕ) → All IsDigit (format_nat n)
unfolding format_nat
format_nat-All n = emit-All (suc n) n [] tt

scan-emit : (f n : ℕ) (out : Text) → n < f → scan (emit f n out) 0 ≡ scan out n
unfolding emit scan
scan-emit zero n out h = elim h [ ]
scan-emit (suc f) n out h = elim (Bool-cases (ltb n 10)) [
  | inl small ↦ rw small (ground arith)
  | inr large ↦ rw (large, scan-emit f (n / 10) _ (ground arith)) (ground arith)
]

emit-ne-nil : (f n : ℕ) (out : Text) → n < f → emit f n out ≢ []
unfolding emit
emit-ne-nil zero n out h = elim h [ ]
emit-ne-nil (suc f) n out h = elim (Bool-cases (ltb n 10)) [
  | inl small ↦ rw small (λ e. cc)
  | inr large ↦ rw large (emit-ne-nil f (n / 10) _ (ground arith))
]

parse_digits-scan : (s : Text) → s ≢ [] → parse_digits s ≡ scan s 0
unfolding parse_digits
parse_digits-scan [] h = absurd (h refl)
parse_digits-scan (c ∷ s) h = refl

pub format_nat-ne-nil : (n : ℕ) → format_nat n ≢ []
unfolding format_nat
format_nat-ne-nil n = emit-ne-nil (suc n) n [] (omega arith)

-- Every number is read back from its decimal print.
pub parse_digits-format_nat : (n : ℕ) → parse_digits (format_nat n) ≡ some n
unfolding format_nat scan
parse_digits-format_nat n =
    parse_digits-scan _ (emit-ne-nil (suc n) n [] (omega arith))
    ∙ scan-emit (suc n) n [] (omega arith)

parse_int-unsigned :
    (s : Text) → s ≢ [] → All IsDigit s → parse_int s ≡ as_pos (at_most max_int64 (parse_digits s))
unfolding parse_int
parse_int-unsigned [] h d = absurd (h refl)
parse_int-unsigned (c ∷ s) h d = ground arith

abbrev pub InInt64 : ℤ → Type 0
InInt64 (pos n) = n ≤ max_int64
InInt64 (negsuc n) = n ≤ max_int64

-- Every 64-bit integer is read back from its decimal print.
pub parse_int-format_int : (z : ℤ) → InInt64 z → parse_int (format_int z) ≡ some z
unfolding format_int as_pos at_most
parse_int-format_int (pos n) h =
    parse_int-unsigned (format_nat n) (unfold format_nat in emit-ne-nil (suc n) n [] (omega arith))
      (format_nat-All n)
    ∙ rw (parse_digits-format_nat n) (ground arith)
parse_int-format_int (negsuc n) h =
    unfold parse_int in rw (parse_digits-format_nat (suc n)) (ground arith)
