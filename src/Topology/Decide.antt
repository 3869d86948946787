-- ===== src/Topology/Decide.antt =====
-- `validateTopology` decides validity: the loop over the backends and the two maps that it fills
-- (dashboard/backends.go).
use ninj_os_proxie_edge_fabr.Prelude.{
  ◌≡◌, ◌≢◌, ◌↔◌, refl, Bool, true, false, ◌&&◌, ◌||◌, none, List, [], ◌∷◌, arith, Text, ◌==◌,
  text_beq_iff, any, All, Pairwise,
}
use ninj_os_proxie_edge_fabr.Prelude.Int.{pos, beq_ℤ, beq_ℤ→eq}
use ninj_os_proxie_edge_fabr.Topology.{
  Backend, Topology, is_backend_id, is_routing_mode, check_fields, check_policy, has_public_port,
  validate_backends, validate_topology,
}
use ninj_os_proxie_edge_fabr.Topology.Valid.{
  HasFields, HasPolicy, check_fields_sound, check_fields_complete, check_policy_sound,
  check_policy_complete,
}

pub record IsSound (b : Backend) : Type 0 where
  pub id_form : is_backend_id b.id ≡ true
  pub fields : HasFields b
  pub policy : HasPolicy b

-- Two backends that may stand in one topology. A public port of 0 is none.
pub record Apart (a b : Backend) : Type 0 where
  pub ids : a.id ≢ b.id
  pub ports : a.public_port ≢ pos 0 → a.public_port ≢ b.public_port

pub record IsValid (t : Topology) : Type 0 where
  pub version : t.version ≡ pos 1
  pub routing : is_routing_mode t.routing_mode ≡ true
  pub sound : All IsSound t.backends
  pub apart : Pairwise Apart t.backends
  pub primary : any (λ b. b.id == t.primary_backend) t.backends ≡ true

-- The facts that the loop has of the rest of the list, given the backends before it.
record Passes (primary : Text) (earlier : List Backend) (found : Bool) (rest : List Backend)
    : Type 0 where
  sound : All IsSound rest
  apart_earlier : All (λ b. All (λ e. Apart e b) earlier) rest
  apart : Pairwise Apart rest
  primary_in : (found || any (λ b. b.id == primary) rest) ≡ true

fresh_sound :
    (b : Backend) (earlier : List Backend)
    → HasFields b
    → any (λ e. e.id == b.id) earlier ≡ false
    → (has_public_port b
        && any (λ e. has_public_port e && beq_ℤ e.public_port b.public_port) earlier)
      ≡ false
    → All HasFields earlier
    → All (λ e. Apart e b) earlier
unfolding any
fresh_sound b [] f h k s = tt
fresh_sound b (e ∷ earlier) f h k s = (
  record {
    ids = λ q. ground (arith, text_beq_iff e.id b.id);
    ports = λ n q. ground (arith, s.0.public_low, f.public_low);
  },
  fresh_sound b earlier f (ground arith) (ground arith) s.1,
)

fresh_ids :
    (b : Backend) (earlier : List Backend)
    → All (λ e. Apart e b) earlier
    → any (λ e. e.id == b.id) earlier ≡ false
unfolding any
fresh_ids b [] a = cc
fresh_ids b (e ∷ earlier) a =
    ground (arith, a.0.ids, text_beq_iff e.id b.id, fresh_ids b earlier a.1)

fresh_ports :
    (b : Backend) (earlier : List Backend)
    → All (λ e. Apart e b) earlier
    → any (λ e. has_public_port e && beq_ℤ e.public_port b.public_port) earlier ≡ false
unfolding any
fresh_ports b [] a = cc
fresh_ports b (e ∷ earlier) a =
    ground (arith, a.0.ports, beq_ℤ→eq e.public_port b.public_port, fresh_ports b earlier a.1)

none_parts :
    (b : Backend) (primary : Text) (earlier rest : List Backend) (found : Bool)
    → validate_backends primary earlier found (b ∷ rest) ≡ none
    → (is_backend_id b.id ≡ true)
      × (any (λ e. e.id == b.id) earlier ≡ false)
      × (check_fields b ≡ none)
      × ((has_public_port b
            && any (λ e. has_public_port e && beq_ℤ e.public_port b.public_port) earlier)
          ≡ false)
      × (check_policy b ≡ none)
      × (validate_backends primary (b ∷ earlier) (b.id == primary || found) rest ≡ none)
unfolding validate_backends
none_parts b primary earlier rest found h = ground arith

heads : (P Q : Backend → Type 0) (xs : List Backend) → All (λ x. P x × Q x) xs → All P xs × All Q xs
heads P Q [] h = (tt, tt)
heads P Q (x ∷ xs) h = let rest = heads P Q xs h.1 in ((h.0.0, rest.0), (h.0.1, rest.1))

pairs : (P Q : Backend → Type 0) (xs : List Backend) → All P xs → All Q xs → All (λ x. P x × Q x) xs
pairs P Q [] h k = tt
pairs P Q (x ∷ xs) h k = ((h.0, k.0), pairs P Q xs h.1 k.1)

validate_backends_sound :
    (primary : Text) (earlier : List Backend) (found : Bool) (rest : List Backend)
    → All HasFields earlier
    → validate_backends primary earlier found rest ≡ none
    → Passes primary earlier found rest
unfolding any
validate_backends_sound primary earlier found [] f h = record {
  sound = tt;
  apart_earlier = tt;
  apart = tt;
  primary_in = unfold validate_backends in ground arith;
}
validate_backends_sound primary earlier found (b ∷ rest) f h =
    let (form, ids, fields, ports, policy, loop) = none_parts b primary earlier rest found h in
    let has = check_fields_sound b fields in
    let p =
      validate_backends_sound primary (b ∷ earlier) (b.id == primary || found) rest (has, f) loop in
    let split = heads (λ x. Apart b x) (λ x. All (λ e. Apart e x) earlier) rest p.apart_earlier in
    record {
      sound =
          (record { id_form = form; fields = has; policy = check_policy_sound b policy }, p.sound);
      apart_earlier = (fresh_sound b earlier has ids ports f, split.1);
      apart = (split.0, p.apart);
      primary_in = ground (arith, p.primary_in);
    }

validate_backends_complete :
    (primary : Text) (earlier : List Backend) (found : Bool) (rest : List Backend)
    → Passes primary earlier found rest
    → validate_backends primary earlier found rest ≡ none
unfolding validate_backends
validate_backends_complete primary earlier found [] p = unfold any in ground (arith, p.primary_in)
validate_backends_complete primary earlier found (b ∷ rest) p =
    let next =
      validate_backends_complete primary (b ∷ earlier) (b.id == primary || found) rest (record {
        sound = p.sound.1;
        apart_earlier =
            pairs (λ x. Apart b x) (λ x. All (λ e. Apart e x) earlier) rest p.apart.0
              p.apart_earlier.1;
        apart = p.apart.1;
        primary_in = unfold any in ground (arith, p.primary_in);
      }) in
    ground (
      arith,
      next,
      p.sound.0.id_form,
      check_fields_complete b p.sound.0.fields,
      check_policy_complete b p.sound.0.policy,
      fresh_ids b earlier p.apart_earlier.0,
      fresh_ports b earlier p.apart_earlier.0,
    )

none_earlier : (rest : List Backend) → All (λ b. All (λ e. Apart e b) []) rest
none_earlier [] = tt
none_earlier (b ∷ rest) = (tt, none_earlier rest)

abbrev is_empty : List Backend → Bool
is_empty [] = true
is_empty _ = false

filled : (bs : List Backend) (p : Text) → any (λ b. b.id == p) bs ≡ true → is_empty bs ≡ false
unfolding any
filled [] p h = cc
filled (b ∷ bs) p h = refl

-- The check accepts exactly the valid topologies: version 1, a known routing mode, each backend sound
-- in itself, ids and assigned public ports pairwise distinct, and the primary backend among them.
pub validate_topology_iff : (t : Topology) → (validate_topology t ≡ none) ↔ IsValid t
unfolding validate_topology
validate_topology_iff t = (
  λ h.
      let p = validate_backends_sound t.primary_backend [] false t.backends tt (ground arith) in
      record {
        version = ground arith;
        routing = ground arith;
        sound = p.sound;
        apart = p.apart;
        primary = p.primary_in;
      },
  λ v.
      let blank = none_earlier t.backends in
      let loop = validate_backends_complete t.primary_backend [] false t.backends (record {
        sound = v.sound;
        apart_earlier = blank;
        apart = v.apart;
        primary_in = v.primary;
      }) in
      ground (arith, v.version, v.routing, loop, filled t.backends t.primary_backend v.primary),
)
