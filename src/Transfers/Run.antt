-- ===== src/Transfers/Run.antt =====
-- Runs of ledger operations: what becomes of the rows over any sequence of them.
use ninj_os_proxie_edge_fabr.Prelude.{
  ℕ, ◌≡◌, ◌≢◌, refl, ◌∙◌, Bool, true, false, List, [], ◌∷◌, arith, All,
}
use ninj_os_proxie_edge_fabr.Transfers.{
  TransferState, ticketed, proxy_connected, arrived, expired, failed, Transaction,
}
use ninj_os_proxie_edge_fabr.Transfers.Lifecycle.{
  Moves, stay, connect, arrive, expire, fail, DistinctIds,
}
use ninj_os_proxie_edge_fabr.Transfers.Trace.{Operation, apply, Related, apply-Related}

-- The order of the states: a transfer in flight may end in any way, and a settled one only fails.
unfoldable pub may_follow : TransferState → TransferState → Bool
may_follow ticketed t = true
may_follow proxy_connected ticketed = false
may_follow proxy_connected t = true
may_follow arrived arrived = true
may_follow arrived failed = true
may_follow arrived t = false
may_follow expired expired = true
may_follow expired failed = true
may_follow expired t = false
may_follow failed failed = true
may_follow failed t = false

-- Each operation with the clock at which it runs.
unfoldable pub apply_all : List (ℕ × Operation) → List Transaction → List Transaction
apply_all [] rows = rows
apply_all ((now, op) ∷ ops) rows = apply_all ops (apply now op rows)

abbrev pub Follows : TransferState → TransferState → Type 0
Follows s t = may_follow s t ≡ true

Follows-refl : (s : TransferState) → Follows s s
unfolding may_follow
Follows-refl ticketed = refl
Follows-refl proxy_connected = refl
Follows-refl arrived = refl
Follows-refl expired = refl
Follows-refl failed = refl

Moves-Follows : {s t : TransferState} → Moves s t → Follows s t
unfolding may_follow
Moves-Follows (stay {s = s}) = Follows-refl s
Moves-Follows connect = refl
Moves-Follows (arrive {s = ticketed} h) = refl
Moves-Follows (arrive {s = proxy_connected} h) = refl
Moves-Follows (arrive {s = arrived} h) = cc
Moves-Follows (arrive {s = expired} h) = cc
Moves-Follows (arrive {s = failed} h) = cc
Moves-Follows (expire {s = ticketed} h) = refl
Moves-Follows (expire {s = proxy_connected} h) = refl
Moves-Follows (expire {s = arrived} h) = cc
Moves-Follows (expire {s = expired} h) = cc
Moves-Follows (expire {s = failed} h) = cc
Moves-Follows (fail {s = ticketed}) = refl
Moves-Follows (fail {s = proxy_connected}) = refl
Moves-Follows (fail {s = arrived}) = refl
Moves-Follows (fail {s = expired}) = refl
Moves-Follows (fail {s = failed}) = refl

Follows-trans : (r s t : TransferState) → Follows r s → Follows s t → Follows r t
unfolding may_follow
Follows-trans ticketed s t h k = refl
Follows-trans r s t h k = grind arith

Related-Follows :
    (rows rows' : List Transaction) → Related Moves rows rows' → Related Follows rows rows'
Related-Follows [] [] h = tt
Related-Follows [] (s ∷ rows') h = elim h [ ]
Related-Follows (r ∷ rows) [] h = elim h [ ]
Related-Follows (r ∷ rows) (s ∷ rows') h =
    ((h.0.0, Moves-Follows h.0.1), Related-Follows rows rows' h.1)

Related-trans :
    (as' bs cs : List Transaction)
    → Related Follows as' bs
    → Related Follows bs cs
    → Related Follows as' cs
Related-trans [] [] [] h k = tt
Related-trans [] [] (c ∷ cs) h k = elim k [ ]
Related-trans [] (b ∷ bs) cs h k = elim h [ ]
Related-trans (a ∷ as') [] cs h k = elim h [ ]
Related-trans (a ∷ as') (b ∷ bs) [] h k = elim k [ ]
Related-trans (a ∷ as') (b ∷ bs) (c ∷ cs) h k = (
  (h.0.0 ∙ k.0.0, Follows-trans a.state b.state c.state h.0.1 k.0.1),
  Related-trans as' bs cs h.1 k.1,
)

Related-refl : (rows : List Transaction) → Related Follows rows rows
Related-refl [] = tt
Related-refl (r ∷ rows) = ((refl, Follows-refl r.state), Related-refl rows)

distinct_one :
    (r r' : Transaction) (rows rows' : List Transaction)
    → r.ticket_id ≡ r'.ticket_id
    → Related Moves rows rows'
    → All (λ s. r.ticket_id ≢ s.ticket_id) rows
    → All (λ s. r'.ticket_id ≢ s.ticket_id) rows'
distinct_one r r' [] [] e h a = tt
distinct_one r r' [] (s' ∷ rows') e h a = elim h [ ]
distinct_one r r' (s ∷ rows) [] e h a = elim h [ ]
distinct_one r r' (s ∷ rows) (s' ∷ rows') e h a =
    (λ q. a.0 (cc (e, q, h.0.0)), distinct_one r r' rows rows' e h.1 a.1)

Related-DistinctIds :
    (rows rows' : List Transaction)
    → Related Moves rows rows'
    → DistinctIds rows
    → DistinctIds rows'
Related-DistinctIds [] [] h d = tt
Related-DistinctIds [] (r' ∷ rows') h d = elim h [ ]
Related-DistinctIds (r ∷ rows) [] h d = elim h [ ]
Related-DistinctIds (r ∷ rows) (r' ∷ rows') h d =
    (distinct_one r r' rows rows' h.0.0 h.1 d.0, Related-DistinctIds rows rows' h.1 d.1)

-- Over any run of connections, reclaims, arrivals and time limits, on rows with distinct ids, the rows
-- keep their order and their ids, and each state is one that `may_follow` allows after the first: a
-- transfer never goes back to `ticketed`, one that arrived or expired is left only by a failure, and
-- one that failed stays so.
pub apply_all-Related :
    (ops : List (ℕ × Operation)) (rows : List Transaction)
    → DistinctIds rows
    → Related Follows rows (apply_all ops rows)
unfolding apply_all
apply_all-Related [] rows d = Related-refl rows
apply_all-Related ((now, op) ∷ ops) rows d =
    let next = apply now op rows in
    let one = apply-Related now op rows d in
    Related-trans rows next (apply_all ops next) (Related-Follows rows next one)
      (apply_all-Related ops next (Related-DistinctIds rows next one d))
