-- ===== src/Config/Backends/RoundTrip.antt =====
-- A topology written into the document is read back (dashboard/config.go: topologyFromUnified,
-- applyTopologyToUnified).
use ninj_os_proxie_edge_fabr.Prelude.{
  ◌≡◌, ◌≢◌, refl, ap, ◌∙◌, List, [], ◌∷◌, ◌++◌, map, Text, select, All,
}
use ninj_os_proxie_edge_fabr.Prelude.Int.{pos}
use ninj_os_proxie_edge_fabr.GoText.{codes, or_else, to_lower, lower_byte}
use ninj_os_proxie_edge_fabr.GoText.Sort.{sort_strings, sort_strings-sorted}
use ninj_os_proxie_edge_fabr.Topology.{Backend, Topology}
use ninj_os_proxie_edge_fabr.Config.{Document, get}
use ninj_os_proxie_edge_fabr.Config.Render.{is_backend_section, keys_of}
use ninj_os_proxie_edge_fabr.Config.Backends.{
  backends_from, primary_or_first, topology_from_unified, existing_secrets, written_topology,
}
use ninj_os_proxie_edge_fabr.Config.Backends.Sections.{
  section_of, entry_of, IsNamed, Ordered, Ordered-apart, Ordered-names, read_back,
  write_backends-append, names-entries, names-append, backends_from-entries,
}
use ninj_os_proxie_edge_fabr.Config.Backends.Tidy.{
  Neat, Tidy, id-IsNamed, with_secret, read_back-Tidy,
}
use ninj_os_proxie_edge_fabr.Config.Backends.Edge.{
  edge, kept, edged, edged-Others, all-Absent, primary_key, mode_key, edge_values,
  edged-edge_values, edge_values-primary, edge_values-mode, get-edge,
}

written-entries :
    (doc : Document) (t : Topology)
    → All IsNamed t.backends
    → Ordered t.backends
    → written_topology doc t ≡ edged doc t ++ map (entry_of (existing_secrets doc)) t.backends
unfolding written_topology edged kept
written-entries doc t n o =
    write_backends-append (existing_secrets doc) t.backends (edged doc t) n
      (Ordered-apart t.backends o) (all-Absent t.backends (edged doc t) (edged-Others doc t))

all-IsNamed : (bs : List Backend) → All Tidy bs → All IsNamed bs
all-IsNamed [] h = tt
all-IsNamed (b ∷ bs) h = (id-IsNamed b h.0.id_form, all-IsNamed bs h.1)

map-read_back :
    (secrets : List (Text × Text)) (bs : List Backend)
    → All Tidy bs
    → map (read_back secrets) bs ≡ map (with_secret secrets) bs
map-read_back secrets [] h = refl
map-read_back secrets (b ∷ bs) h =
    rw (read_back-Tidy secrets b h.0, map-read_back secrets bs h.1) refl

-- The document that is written.
whole : Document → Topology → Document
whole doc t = edged doc t ++ map (entry_of (existing_secrets doc)) t.backends

whole-backends :
    (doc : Document) (t : Topology)
    → All Tidy t.backends
    → Ordered t.backends
    → backends_from (sort_strings (select is_backend_section (keys_of (whole doc t)))) (whole doc t)
      ≡ map (with_secret (existing_secrets doc)) t.backends
unfolding whole
whole-backends doc t tidy o =
    let secrets = existing_secrets doc in
    let entries = map (entry_of secrets) t.backends in
    let names : sort_strings (select is_backend_section (keys_of (whole doc t)))
        ≡ map section_of t.backends =
      ap sort_strings
        (names-append (edged doc t) entries (edged-Others doc t) ∙ names-entries secrets t.backends)
      ∙ sort_strings-sorted (map section_of t.backends) (Ordered-names t.backends o) in
    ap (λ ns. backends_from ns (whole doc t)) names
    ∙ backends_from-entries secrets t.backends (edged doc t) (Ordered-apart t.backends o)
        (all-Absent t.backends (edged doc t) (edged-Others doc t))
    ∙ map-read_back secrets t.backends tidy

primary_or_first-filled : (p : Text) (bs : List Backend) → p ≢ [] → primary_or_first p bs ≡ p
unfolding primary_or_first or_else
primary_or_first-filled p [] h = refl
primary_or_first-filled [] (b ∷ bs) h = absurd (h refl)
primary_or_first-filled (c ∷ p) (b ∷ bs) h = refl

key-lower : (to_lower primary_key ≡ primary_key) × (to_lower mode_key ≡ mode_key)
unfolding to_lower lower_byte primary_key mode_key
key-lower = (refl, refl)

whole-primary :
    (doc : Document) (t : Topology)
    → Neat t.primary_backend
    → get (whole doc t) edge primary_key [] ≡ t.primary_backend
unfolding whole
whole-primary doc t n =
    get-edge primary_key t.primary_backend (whole doc t) (edge_values doc t) key-lower.0
      (edged-edge_values doc t (map (entry_of (existing_secrets doc)) t.backends))
      (edge_values-primary doc t) n []

whole-mode :
    (doc : Document) (t : Topology)
    → Neat t.routing_mode
    → get (whole doc t) edge mode_key (codes "primary") ≡ t.routing_mode
unfolding whole
whole-mode doc t n =
    get-edge mode_key t.routing_mode (whole doc t) (edge_values doc t) key-lower.1
      (edged-edge_values doc t (map (entry_of (existing_secrets doc)) t.backends))
      (edge_values-mode doc t) n (codes "primary")

topology-parts :
    (doc : Document) (bs : List Backend) (p m : Text)
    → backends_from (sort_strings (select is_backend_section (keys_of doc))) doc ≡ bs
    → get doc edge primary_key [] ≡ p
    → get doc edge mode_key (codes "primary") ≡ m
    → p ≢ []
    → topology_from_unified doc
      ≡ record { version = pos 1; primary_backend = p; routing_mode = m; backends = bs }
unfolding topology_from_unified primary_key mode_key
topology-parts doc bs p m e f g n = rw (e, f, g, primary_or_first-filled p bs n) refl

-- A topology that was written into a document is what is then read from it, each backend with the
-- variable of the credential that the document held for it. The version is 1; the backends are in the
-- order of their sections and their ids have the form that the check demands; the primary backend, the
-- routing mode and each backend's display name, host, profile, connection mode and adapter are not
-- empty and have no space around them; its fallback backend may be empty and has none either; and its
-- ports and its capacity fit 64 bits.
pub topology_from-written :
    (doc : Document) (t : Topology)
    → t.version ≡ pos 1
    → Neat t.primary_backend
    → Neat t.routing_mode
    → All Tidy t.backends
    → Ordered t.backends
    → topology_from_unified (written_topology doc t)
      ≡ record t { backends = map (with_secret (existing_secrets doc)) t.backends }
unfolding whole
topology_from-written doc t v p m tidy o =
    ap topology_from_unified (written-entries doc t (all-IsNamed t.backends tidy) o)
    ∙ (topology-parts (whole doc t) (map (with_secret (existing_secrets doc)) t.backends)
        t.primary_backend t.routing_mode (whole-backends doc t tidy o) (whole-primary doc t p)
        (whole-mode doc t m) p.filled)
    ∙ rw v refl
