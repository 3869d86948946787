-- ===== src/Config/RenditionExamples.antt =====
-- The round trip of a concrete document's text.
use ninj_os_proxie_edge_fabr.Prelude.{◌≡◌, refl, some, [], ◌∷◌, Text}
use ninj_os_proxie_edge_fabr.GoText.{
  trim_left, trim_space, to_lower, trim_right, is_space, trim_left, trim_space, to_lower,
  trim_right, is_space, is_space, trim_left, trim_right, trim_space, to_lower, codes, contains_byte,
}
use ninj_os_proxie_edge_fabr.Config.{Document, parse_ini}
use ninj_os_proxie_edge_fabr.Config.Secrets.Restored.{find}
use ninj_os_proxie_edge_fabr.Config.Render.{render_unified_config}
use ninj_os_proxie_edge_fabr.Config.Written.{starts_plain, starts_plain, IsWritable, IsName}
use ninj_os_proxie_edge_fabr.Config.Rendition.{contains-Free, parse-render, WritableDocument-All}

abbrev small : Document
small =
    (
      codes "backend.lobby",
      (codes "host", codes "10.0.0.1 a") ∷ (codes "companion_secret", []) ∷ [],
    )
    ∷ []

lobby-IsName : IsName (codes "backend.lobby")
unfolding to_lower trim_space trim_right trim_left is_space contains_byte
lobby-IsName = record {
  filled = λ e. absurd (cc e);
  normal = refl;
  line_free = contains-Free b'\n' (codes "backend.lobby") refl;
  short = refl;
}

host-IsWritable : IsWritable (codes "host") (codes "10.0.0.1 a")
unfolding starts_plain is_space trim_right to_lower contains_byte trim_space trim_left
host-IsWritable = record {
  starts = refl;
  ends = refl;
  lower = refl;
  no_equals = contains-Free b'=' (codes "host") refl;
  key_line_free = contains-Free b'\n' (codes "host") refl;
  trimmed = refl;
  value_ends = refl;
  value_line_free = contains-Free b'\n' (codes "10.0.0.1 a") refl;
  short = refl;
}

secret-IsWritable : IsWritable (codes "companion_secret") []
unfolding starts_plain is_space trim_right to_lower contains_byte trim_space trim_left
secret-IsWritable = record {
  starts = refl;
  ends = refl;
  lower = refl;
  no_equals = contains-Free b'=' (codes "companion_secret") refl;
  key_line_free = contains-Free b'\n' (codes "companion_secret") refl;
  trimmed = refl;
  value_ends = refl;
  value_line_free = tt;
  short = refl;
}

parse-render_example :
    (d : Document) × ((parse_ini (render_unified_config small) ≡ some d)
      × ((s k : Text) → find s k d ≡ find s k small))
parse-render_example =
    parse-render small
      (WritableDocument-All small ((lobby-IsName, (host-IsWritable, (secret-IsWritable, tt))), tt))
