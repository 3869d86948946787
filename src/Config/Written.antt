-- ===== src/Config/Written.antt =====
-- Reading a line that was written (dashboard/config.go: parseINI, renderUnifiedConfig).
use ninj_os_proxie_edge_fabr.Prelude.{
  ℕ, ◌≡◌, ◌≢◌, refl, ap, sym, ◌∙◌, Bool, true, false, not, ◌&&◌, some, List, [], ◌∷◌, ◌++◌, nat_beq,
  leb, length, arith, Text, ◌==◌, text_beq_iff, text_beq, All,
}
use ninj_os_proxie_edge_fabr.GoText.{
  codes, split, cut, is_space, to_lower, trim_space, trim_left, trim_right, has_prefix, ends_with,
  drop_last,
}
use ninj_os_proxie_edge_fabr.GoText.Lines.{Free, split-append}
use ninj_os_proxie_edge_fabr.Config.{
  Document, IniError, Reading, failed, reading, set_value, add_section, read_line, read_lines,
  is_comment, is_header, open_section, assign,
}
use ninj_os_proxie_edge_fabr.Config.Secrets.{section_name}
use ninj_os_proxie_edge_fabr.Config.Render.{key_line, unlines}

-- A key may not start with a space or like a comment or a header.
unfoldable pub starts_plain : Text → Bool
starts_plain [] = false
starts_plain (c ∷ s) =
    not (is_space c) && not (nat_beq c b'#') && not (nat_beq c b';') && not (nat_beq c b'[')

abbrev Fits : Text → Type 0
Fits line = leb 65536 (length line) ≡ false

-- A key and a value whose line is read as it was written.
pub record IsWritable (key value : Text) : Type 0 where
  pub starts : starts_plain key ≡ true
  pub ends : trim_right key ≡ key
  pub lower : to_lower key ≡ key
  pub no_equals : Free b'=' key
  pub key_line_free : Free b'\n' key
  pub trimmed : trim_space value ≡ value
  pub value_ends : trim_right value ≡ value
  pub value_line_free : Free b'\n' value
  pub short : Fits (key_line key value)

trim_right-blank : (s t : Text) → trim_right t ≡ [] → trim_right (s ++ t) ≡ trim_right s
unfolding trim_right
trim_right-blank [] t h = h
trim_right-blank (c ∷ s) t h = rw (trim_right-blank s t h) refl

cons-trim_right : (c : ℕ) (s u : Text) → trim_right s ≡ u → u ≢ [] → trim_right (c ∷ s) ≡ c ∷ u
unfolding trim_right
cons-trim_right c s [] h n = absurd (n refl)
cons-trim_right c s (d ∷ u) h n = rw h refl

append-filled : (s t : Text) → t ≢ [] → s ++ t ≢ []
append-filled [] t n = n
append-filled (c ∷ s) t n = λ e. absurd (cc e)

trim_right-filled : (s t : Text) → trim_right t ≡ t → t ≢ [] → trim_right (s ++ t) ≡ s ++ t
trim_right-filled [] t h n = h
trim_right-filled (c ∷ s) t h n =
    cons-trim_right c (s ++ t) (s ++ t) (trim_right-filled s t h n) (append-filled s t n)

-- What follows a key in its trimmed line, from the equals sign on.
after_equals : Text → Text
after_equals [] = []
after_equals (c ∷ v) = b' ' ∷ c ∷ v

tail_of : Text → Text
tail_of v = b' ' ∷ b'=' ∷ after_equals v

trim_right-equals : (v : Text) → trim_right v ≡ v → trim_right (codes " = " ++ v) ≡ tail_of v
unfolding tail_of after_equals trim_right is_space
trim_right-equals [] h = refl
trim_right-equals (c ∷ v) h = rw h refl

trim_right-append : (s t u : Text) → trim_right t ≡ u → u ≢ [] → trim_right (s ++ t) ≡ s ++ u
trim_right-append [] t u h n = h
trim_right-append (c ∷ s) t u h n =
    cons-trim_right c (s ++ t) (s ++ u) (trim_right-append s t u h n) (append-filled s u n)

trim_left-plain : (s t : Text) → starts_plain s ≡ true → trim_left (s ++ t) ≡ s ++ t
unfolding starts_plain trim_left
trim_left-plain [] t h = absurd (cc h)
trim_left-plain (c ∷ s) t h = let seen : is_space c ≡ false = ground (arith, h) in rw seen refl

trim_space-line :
    (key value : Text)
    → IsWritable key value
    → trim_space (key_line key value) ≡ key ++ tail_of value
unfolding trim_space
trim_space-line key value h =
    ap trim_right (trim_left-plain key (codes " = " ++ value) h.starts)
    ∙ trim_right-append key (codes " = " ++ value) (tail_of value)
        (trim_right-equals value h.value_ends) (unfold tail_of in λ e. absurd (cc e))

cut-key :
    (key rest : Text)
    → Free b'=' key
    → cut b'=' (key ++ (b' ' ∷ b'=' ∷ rest)) ≡ (key ++ (b' ' ∷ []), some rest)
unfolding cut
cut-key [] rest h = refl
cut-key (c ∷ key) rest h = rw (cut-key key rest h.1) (ground (arith, h.0))

key-back :
    (key value : Text) → IsWritable key value → to_lower (trim_space (key ++ (b' ' ∷ []))) ≡ key
unfolding trim_space
key-back key value h =
    ap (λ s. to_lower (trim_right s)) (trim_left-plain key (b' ' ∷ []) h.starts)
    ∙ ap to_lower (trim_right-blank key (b' ' ∷ []) (unfold trim_right is_space in refl) ∙ h.ends)
    ∙ h.lower

value-back : (value : Text) → trim_space value ≡ value → trim_space (after_equals value) ≡ value
unfolding after_equals
value-back [] h = h
value-back (c ∷ v) h = unfold trim_space trim_left is_space in h

no_comment : (key rest : Text) → starts_plain key ≡ true → is_comment (key ++ rest) ≡ false
unfolding starts_plain has_prefix text_beq
no_comment [] rest h = absurd (cc h)
no_comment (c ∷ key) rest h = ground (arith, h)

no_header : (key rest : Text) → starts_plain key ≡ true → is_header (key ++ rest) ≡ false
unfolding starts_plain has_prefix
no_header [] rest h = absurd (cc h)
no_header (c ∷ key) rest h = ground (arith, h)

starts-filled : (key : Text) → starts_plain key ≡ true → (key == []) ≡ false
unfolding starts_plain text_beq
starts-filled [] h = absurd (cc h)
starts-filled (c ∷ key) h = refl

pub read_line-key :
    (key value : Text) (doc : Document) (section : Text)
    → IsWritable key value
    → read_line (key_line key value) doc section ≡ reading (set_value section key value doc) section
unfolding read_line assign
read_line-key key value doc section h =
    rw
      (
        h.short,
        trim_space-line key value h,
        no_comment key (tail_of value) h.starts,
        no_header key (tail_of value) h.starts,
      )
      (unfold tail_of in
        rw
          (
            cut-key key (after_equals value) h.no_equals,
            key-back key value h,
            value-back value h.trimmed,
            starts-filled key h.starts,
          )
          refl)

-- A section's name whose header is read as it was written.
pub record IsName (section : Text) : Type 0 where
  pub filled : section ≢ []
  pub normal : section_name section ≡ section
  pub line_free : Free b'\n' section
  pub short : Fits (b'[' ∷ section ++ codes "]")

unfoldable pub header_line : Text → Text
header_line section = b'[' ∷ (section ++ codes "]")

ends_with-last : (s : Text) (b : ℕ) → ends_with b (s ++ (b ∷ [])) ≡ true
unfolding ends_with
ends_with-last [] b = ground arith
ends_with-last (c ∷ []) b = ground arith
ends_with-last (c ∷ d ∷ s) b = ends_with-last (d ∷ s) b

drop_last-last : (s : Text) (b : ℕ) → drop_last (s ++ (b ∷ [])) ≡ s
unfolding drop_last
drop_last-last [] b = refl
drop_last-last (c ∷ []) b = refl
drop_last-last (c ∷ d ∷ s) b = ap (λ l. c ∷ l) (drop_last-last (d ∷ s) b)

trim_space-header : (section : Text) → trim_space (header_line section) ≡ header_line section
unfolding trim_space trim_left is_space header_line
trim_space-header section =
    trim_right-filled (b'[' ∷ section) (codes "]") (unfold trim_right in refl) (λ e. absurd (cc e))

header-ends : (section : Text) → ends_with b']' (header_line section) ≡ true
unfolding header_line
header-ends section = ends_with-last (b'[' ∷ section) b']'

pub read_line-header :
    (section : Text) (doc : Document) (last : Text)
    → IsName section
    → read_line (header_line section) doc last ≡ reading (add_section section doc) section
unfolding read_line open_section
read_line-header section doc last h =
    let other : (section == []) ≡ false = ground (arith, h.filled, text_beq_iff section []) in
    let name : to_lower (trim_space (drop_last (section ++ codes "]"))) ≡ section =
      ap section_name (drop_last-last section b']') ∙ h.normal in
    rw (trim_space-header section, header-ends section)
      (unfold header_line has_prefix text_beq in rw (h.short, name, other) refl)

read_lines-failed : (xs : List Text) (e : IniError) → read_lines xs (failed e) ≡ failed e
unfolding read_lines
read_lines-failed [] e = refl
read_lines-failed (x ∷ xs) e = refl

pub read_lines-append :
    (xs ys : List Text) (r : Reading) → read_lines (xs ++ ys) r ≡ read_lines ys (read_lines xs r)
unfolding read_lines
read_lines-append [] ys r = refl
read_lines-append (x ∷ xs) ys (failed e) = sym (read_lines-failed ys e)
read_lines-append (x ∷ xs) ys (reading doc section) =
    read_lines-append xs ys (read_line x doc section)

pub split-unlines :
    (lines : List Text) → All (Free b'\n') lines → split b'\n' (unlines lines) ≡ lines ++ ([] ∷ [])
unfolding unlines
split-unlines [] h = unfold split in refl
split-unlines (line ∷ lines) h =
    rw (split-append b'\n' line (unlines lines) h.0, split-unlines lines h.1) refl
