-- ===== src/Topology/Preserve.antt =====
-- What an accepted change of the registry is, and that removing a backend from a valid registry never
-- makes it invalid (dashboard/backends.go).
use ninj_os_proxie_edge_fabr.Prelude.{
  All-select, ◌≡◌, ◌≢◌, refl, subst, Bool, true, false, not, List, [], ◌∷◌, arith, length, nat_beq,
  Text, ◌==◌, text_beq_iff, any, select, All, Pairwise, Bool-cases, Option-cases, inl, inr,
}
use ninj_os_proxie_edge_fabr.Prelude.Int.{ℤ}
use ninj_os_proxie_edge_fabr.Topology.{Backend, Topology, validate_topology}
use ninj_os_proxie_edge_fabr.Topology.Decide.{IsSound, Apart, IsValid, validate_topology_iff}
use ninj_os_proxie_edge_fabr.Topology.Registry.{
  ChangeRequest, create, update, remove, settings, accepted, is_admissible, check_change, appended,
  replaced, removed, lower_trimmed, create_backend, update_backend, delete_backend, change_settings,
  change, has_id, others, first_id, normalize_definition,
}

all_admissible :
    (allowed : List ℤ) (bs : List Backend)
    → any (λ b. not (is_admissible allowed b)) bs ≡ false
    → All (λ b. is_admissible allowed b ≡ true) bs
unfolding any
all_admissible allowed [] h = tt
all_admissible allowed (b ∷ bs) h = (ground arith, all_admissible allowed bs (ground arith))

none_inadmissible :
    (allowed : List ℤ) (bs : List Backend)
    → All (λ b. is_admissible allowed b ≡ true) bs
    → any (λ b. not (is_admissible allowed b)) bs ≡ false
unfolding any
none_inadmissible allowed [] h = refl
none_inadmissible allowed (b ∷ bs) h = ground (arith, h.0, none_inadmissible allowed bs h.1)

-- A registry that may be saved.
pub record IsSavable (allowed : List ℤ) (t : Topology) : Type 0 where
  pub valid : IsValid t
  pub admissible : All (λ b. is_admissible allowed b ≡ true) t.backends

module _ (allowed : List ℤ) where
  pub check_change-IsSavable :
      (t t' : Topology) → check_change allowed t ≡ accepted t' → IsSavable allowed t'
  unfolding check_change
  check_change-IsSavable t t' h = elim (Option-cases (validate_topology t)) [
    | inr (e, v) ↦ absurd (ground arith)
    | inl v ↦
        let clean : any (λ b. not (is_admissible allowed b)) t.backends ≡ false = ground arith in
        let same : t ≡ t' = ground arith in
        subst (IsSavable allowed) same (record {
          valid = (validate_topology_iff t).0 v;
          admissible = all_admissible allowed t.backends clean;
        })
  ]

  pub check_change-accepts :
      (t : Topology) → IsSavable allowed t → check_change allowed t ≡ accepted t
  unfolding check_change
  check_change-accepts t s =
      let valid = (validate_topology_iff t).1 s.valid in
      let clean = none_inadmissible allowed t.backends s.admissible in ground (arith, valid, clean)

  -- Whatever the request, a change that is accepted leaves a registry that may be saved: it is valid,
  -- and every enabled backend has a public port that is managed, or none.
  pub change-IsSavable :
      (request : ChangeRequest) (t t' : Topology)
      → change allowed request t ≡ accepted t'
      → IsSavable allowed t'
  unfolding change create_backend update_backend delete_backend change_settings
  change-IsSavable (create d) t t' h =
      check_change-IsSavable (appended (normalize_definition d) t) t' (ground arith)
  change-IsSavable (update id d) t t' h =
      check_change-IsSavable (replaced (lower_trimmed id) (normalize_definition d) t) t'
        (ground arith)
  change-IsSavable (remove id) t t' h =
      check_change-IsSavable (removed (lower_trimmed id) t) t' (ground arith)
  change-IsSavable (settings primary mode) t t' h = check_change-IsSavable _ t' h

-- Parts of a list keep what held of all of it.
Pairwise-select :
    (p : Backend → Bool) (bs : List Backend) → Pairwise Apart bs → Pairwise Apart (select p bs)
unfolding select
Pairwise-select p [] h = tt
Pairwise-select p (b ∷ bs) h = elim (Bool-cases (p b)) [
  | inl y ↦ rw y (All-select (Apart b) p bs h.0, Pairwise-select p bs h.1)
  | inr n ↦ rw n (Pairwise-select p bs h.1)
]

other_primary :
    (id primary : Text) (bs : List Backend)
    → has_id primary bs ≡ true
    → primary == id ≡ false
    → has_id primary (others id bs) ≡ true
unfolding select any
other_primary id primary [] h n = h
other_primary id primary (b ∷ bs) h n = ground (
  arith,
  text_beq_iff b.id primary,
  text_beq_iff b.id id,
  text_beq_iff primary id,
  other_primary id primary bs,
)

first_primary : (bs : List Backend) (p : Text) → bs ≢ [] → has_id (first_id bs p) bs ≡ true
unfolding any
first_primary [] p n = absurd (n refl)
first_primary (b ∷ bs) p n = ground (arith, text_beq_iff b.id b.id)

some_other :
    (id : Text) (bs : List Backend)
    → Pairwise Apart bs
    → nat_beq (length bs) 1 ≡ false
    → has_id id bs ≡ true
    → others id bs ≢ []
unfolding select any
some_other id [] d l h = λ e. cc
some_other id (a ∷ []) d l h = λ e. cc
some_other id (a ∷ b ∷ bs) d l h =
    ground (arith, d.0.0.ids, text_beq_iff a.id id, text_beq_iff b.id id)

removed-primary :
    (id : Text) (t : Topology)
    → IsValid t
    → nat_beq (length t.backends) 1 ≡ false
    → has_id id t.backends ≡ true
    → has_id (removed id t).primary_backend (others id t.backends) ≡ true
removed-primary id t v more here = elim (Bool-cases (t.primary_backend == id)) [
  | inl y ↦ rw y (
      first_primary (others id t.backends) t.primary_backend
        (some_other id t.backends v.apart more here))
  | inr n ↦ rw n (other_primary id t.primary_backend t.backends v.primary n)
]

removed-IsSavable :
    (allowed : List ℤ) (id : Text) (t : Topology)
    → IsSavable allowed t
    → nat_beq (length t.backends) 1 ≡ false
    → has_id id t.backends ≡ true
    → IsSavable allowed (removed id t)
removed-IsSavable allowed id t s more here =
    let p = λ (b : Backend). not (b.id == id) in
    record {
      valid = record {
        version = s.valid.version;
        routing = s.valid.routing;
        sound = All-select IsSound p t.backends s.valid.sound;
        apart = Pairwise-select p t.backends s.valid.apart;
        primary = removed-primary id t s.valid more here;
      };
      admissible = All-select (λ b. is_admissible allowed b ≡ true) p t.backends s.admissible;
    }

-- Removing a backend that is there, and not the only one, from a registry that may be saved is never
-- refused: the change keeps the other backends in order, and only those, and names a new primary
-- backend when the removed one was it.
pub delete_backend-accepted :
    (allowed : List ℤ) (id : Text) (t : Topology)
    → IsSavable allowed t
    → lower_trimmed id ≢ []
    → nat_beq (length t.backends) 1 ≡ false
    → has_id (lower_trimmed id) t.backends ≡ true
    → (delete_backend allowed id t ≡ accepted (removed (lower_trimmed id) t))
      × IsSavable allowed (removed (lower_trimmed id) t)
unfolding delete_backend
delete_backend-accepted allowed raw t s named more here =
    let id = lower_trimmed raw in
    let kept = removed-IsSavable allowed id t s more here in
    let passes = check_change-accepts allowed (removed id t) kept in
    (ground (arith, passes, text_beq_iff id []), kept)
