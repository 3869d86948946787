-- ===== src/Config.antt =====
-- The unified configuration: the INI document, its reading and its lookups (dashboard/config.go:
-- iniDocument, parseINI, section, get, getBool, getInt, envNameFromReference, valueOr, intOr, boolOr).
pub mod Secrets
pub mod Render
pub mod Backends
pub mod Parsing
pub mod Written
pub mod RoundTrip
pub mod Rendition
pub mod Vault
pub mod Save
mod Examples
mod RenditionExamples
use ninj_os_proxie_edge_fabr.Prelude.{
  ℕ, ◌≡◌, refl, Bool, true, false, not, ◌&&◌, ◌||◌, Option, none, some, List, [], ◌∷◌, leb,
  if◌then◌else◌, Text, ◌==◌, any, drop, length,
}
use ninj_os_proxie_edge_fabr.Prelude.Int.{ℤ, ltb_ℤ}
use ninj_os_proxie_edge_fabr.GoText.{
  codes, trim_space, to_lower, has_prefix, ends_with, drop_last, cut, split, or_else,
}
use ninj_os_proxie_edge_fabr.GoText.Decimal.{parse_int, format_int}
use ninj_os_proxie_edge_fabr.GoMap.{has_key, insert, value_or}

-- `iniDocument`: the sections by name, and the values of a section by key.
abbrev pub Document : Type 0
Document = List (Text × List (Text × Text))

pub data IniError : Type 0 where
  empty_section no_equals empty_key line_too_long : IniError

-- The outcome of reading lines: an error, or the document and the name of the section last opened.
pub data Reading : Type 0 where
  failed : IniError → Reading
  reading : Document → Text → Reading

-- `document.Sections[section][key] = value`, for a section that is there.
unfoldable pub set_value : Text → Text → Text → Document → Document
set_value section key value doc = insert section (insert key value (value_or [] section doc)) doc

-- `if document.Sections[section] == nil { ... }`
unfoldable pub add_section : Text → Document → Document
add_section section doc = if has_key section doc then doc else insert section [] doc

open_section : Text → Document → Reading
unfolding add_section
open_section name doc =
    if name == [] then failed empty_section else reading (add_section name doc) name

assign : Text × Option Text → Document → Text → Reading
unfolding set_value
assign (key, none) doc section = failed no_equals
assign (key, some value) doc section =
    let key' = to_lower (trim_space key) in
    if key' == []
    then failed empty_key
    else reading (set_value section key' (trim_space value) doc) section

abbrev pub is_comment : Text → Bool
is_comment raw = raw == [] || has_prefix raw (codes "#") || has_prefix raw (codes ";")

abbrev pub is_header : Text → Bool
is_header raw = has_prefix raw (codes "[") && ends_with b']' raw

-- One line of `parseINI`. `bufio.Scanner` refuses a line of 64 KiB.
unfoldable pub read_line : Text → Document → Text → Reading
unfolding open_section assign
read_line line doc section =
    let raw = trim_space line in
    if leb 65536 (length line)
    then failed line_too_long
    else if is_comment raw
    then reading doc section
    else if is_header raw
    then open_section (to_lower (trim_space (drop_last (drop 1 raw)))) doc
    else assign (cut b'=' raw) doc section

unfoldable pub read_lines : List Text → Reading → Reading
read_lines [] r = r
read_lines (line ∷ lines) (failed e) = failed e
read_lines (line ∷ lines) (reading doc section) = read_lines lines (read_line line doc section)

unfoldable pub document_of : Reading → Option Document
document_of (failed e) = none
document_of (reading doc section) = some doc

-- `parseINI`; `none` stands for its errors.
unfoldable pub parse_ini : Text → Option Document
unfolding read_lines document_of
parse_ini content =
    document_of
      (read_lines (split b'\n' content) (reading ((codes "edge", []) ∷ []) (codes "edge")))

-- The value at a section and a key, empty if there is none.
abbrev pub value_at : Text → Text → Document → Text
value_at section key doc = value_or [] key (value_or [] section doc)

-- `get`
unfoldable pub get : Document → Text → Text → Text → Text
get doc section key fallback =
    or_else (trim_space (value_at (to_lower section) (to_lower key) doc)) fallback

abbrev is_on : Text → Bool
is_on v =
    v == codes "1"
    || v == codes "true"
    || v == codes "yes"
    || v == codes "on"
    || v == codes "enabled"

abbrev is_off : Text → Bool
is_off v =
    v == codes "0"
    || v == codes "false"
    || v == codes "no"
    || v == codes "off"
    || v == codes "disabled"

unfoldable pub switch_value : Text → Bool → Bool
switch_value v fallback = if is_on v then true else if is_off v then false else fallback

-- `getBool`
unfoldable pub get_bool : Document → Text → Text → Bool → Bool
unfolding get switch_value
get_bool doc section key fallback = switch_value (to_lower (get doc section key [])) fallback

unfoldable pub within : Option ℤ → ℤ → ℤ → ℤ → ℤ
within none fallback low high = fallback
within (some n) fallback low high = if ltb_ℤ n low || ltb_ℤ high n then fallback else n

-- `getInt`
unfoldable pub get_int : Document → Text → Text → ℤ → ℤ → ℤ → ℤ
unfolding get within
get_int doc section key fallback low high =
    within (parse_int (get doc section key (format_int fallback))) fallback low high

-- `valueOr`
unfoldable pub value_or_default : List (Text × Text) → Text → Text → Text
value_or_default values key fallback = or_else (trim_space (value_or [] key values)) fallback

-- `intOr`
unfoldable pub int_or : List (Text × Text) → Text → ℤ → ℤ
int_or values key fallback = elim (parse_int (trim_space (value_or [] key values))) [
  | none ↦ fallback
  | some n ↦ n
]

-- `boolOr`
unfoldable pub bool_or : List (Text × Text) → Text → Bool → Bool
unfolding switch_value
bool_or values key fallback = switch_value (to_lower (trim_space (value_or [] key values))) fallback

unfoldable pub is_reference : Text → Bool
is_reference value = has_prefix (to_lower (trim_space value)) (codes "env:")

-- `envNameFromReference`
unfoldable pub env_name_from_reference : Text → Text
unfolding is_reference
env_name_from_reference value =
    if is_reference value then trim_space (drop 4 (trim_space value)) else []

-- `resolveConfigValue`, in an environment.
unfoldable pub resolve_config_value : (Text → Text) → Text → Text
unfolding is_reference
resolve_config_value getenv value =
    let variable = trim_space (drop 4 (trim_space value)) in
    if not (is_reference value)
    then trim_space value
    else if variable == []
    then []
    else trim_space (getenv variable)
