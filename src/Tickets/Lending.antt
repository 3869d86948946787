-- ===== src/Tickets/Lending.antt =====
-- A port that is lent stays lent (dashboard/main.go: createTransferTicket, handleTransfersAPI).
use ninj_os_proxie_edge_fabr.Prelude.{
  ℕ, ◌+◌, ◌<◌, ◌≡◌, ◌≢◌, refl, sym, ◌∙◌, Bool, true, false, some, List, [], ◌∷◌, ◌++◌, arith, any,
  All, All-append,
}
use ninj_os_proxie_edge_fabr.Prelude.Int.{ℤ}
use ninj_os_proxie_edge_fabr.Tickets.{
  Ticket, FileRead, contents, load_transfer_tickets, ticket_file, write_transfer_tickets,
}
use ninj_os_proxie_edge_fabr.Tickets.RoundTrip.{Storable}
use ninj_os_proxie_edge_fabr.Tickets.Ports.{find_port_sound}
use ninj_os_proxie_edge_fabr.Tickets.Create.{
  Env, TransferRequest, Outcome, refused, issued, is_taken, create_transfer_ticket,
}
use ninj_os_proxie_edge_fabr.Tickets.Outcomes.{Issued, create-issued}
use ninj_os_proxie_edge_fabr.Tickets.History.{
  Action, create, refresh, refresh_file, after, act, act_all,
}
use ninj_os_proxie_edge_fabr.Tickets.Held.{
  IsSane, Within, lends, Lends, reloaded, Storable-reloaded, held-reloaded, held-append, held_last,
  held_taken, Lends-load,
}

-- A ticket that a sane call issues is storable.
Issued-Storable :
    {env : Env} {file : FileRead} {request : TransferRequest} {t : Ticket} {file' : FileRead}
    → IsSane env
    → Issued env file request t file'
    → Storable t
Issued-Storable {env} {t = t} sane i =
    let f = find_port_sound (is_taken i.tickets env.static_backends) _ _ i.free in
    rw i.made (record {
      range = record {
        port = omega (arith, f.below, sane.pool, f.from);
        expires_at = sane.clock;
        created_at = omega (arith, sane.clock);
      };
      plain = sane.ids i.id i.random;
    })

refresh_file-false : (now : ℕ) (file : FileRead) → refresh_file now false file ≡ file
unfolding refresh_file write_transfer_tickets
refresh_file-false now file = ground arith

refresh_file-true :
    (now : ℕ) (file : FileRead) (ts : List Ticket)
    → load_transfer_tickets file now ≡ some ts
    → refresh_file now true file ≡ contents (ticket_file ts)
unfolding refresh_file write_transfer_tickets
refresh_file-true now file ts h = ground arith

module _ (port : ℤ) (deadline : ℕ) where
  kept_tickets :
      {env : Env} {file : FileRead} {request : TransferRequest} {t : Ticket} {file' : FileRead}
      (i : Issued env file request t file') (l : Lends port deadline file)
      → i.tickets ≡ reloaded env.loaded_at l.tickets
  kept_tickets {env} {file} i l =
      let same : some i.tickets ≡ some (reloaded env.loaded_at l.tickets) =
        sym i.loaded ∙ Lends-load port deadline file env.loaded_at l in
      cc same

  kept_held :
      {env : Env} {file : FileRead} {request : TransferRequest} {t : Ticket} {file' : FileRead}
      (i : Issued env file request t file') (l : Lends port deadline file)
      → env.loaded_at < deadline
      → any (lends port deadline) i.tickets ≡ true
  kept_held {env} i l early =
      rw (kept_tickets i l) (held-reloaded port deadline env.loaded_at l.tickets early l.held)

  create-Lends :
      {env : Env} {file : FileRead} {request : TransferRequest} {t : Ticket} {file' : FileRead}
      → IsSane env
      → env.loaded_at < deadline
      → Issued env file request t file'
      → Lends port deadline file
      → Lends port deadline file'
  create-Lends {env} {t = t} sane early i l = record {
    tickets = i.tickets ++ (t ∷ []);
    held_by = i.written;
    storable =
        All-append Storable i.tickets _
          (rw (kept_tickets i l) (Storable-reloaded env.loaded_at l.tickets l.storable))
          (Issued-Storable sane i, tt);
    held = held-append port deadline i.tickets _ (kept_held i l early);
  }

  create_other_port :
      {env : Env} {file : FileRead} {request : TransferRequest} {t : Ticket} {file' : FileRead}
      → env.loaded_at < deadline
      → Issued env file request t file'
      → Lends port deadline file
      → t.port ≢ port
  unfolding is_taken
  create_other_port {env} early i l =
      let f = find_port_sound (is_taken i.tickets env.static_backends) _ _ i.free in
      rw i.made
        (held_taken port deadline i.tickets _ (kept_held i l early) (ground (arith, f.free)))

  refresh-Lends :
      (now : ℕ) (can_write : Bool) (file : FileRead)
      → now < deadline
      → Lends port deadline file
      → Lends port deadline (refresh_file now can_write file)
  refresh-Lends now false file early l = rw (refresh_file-false now file) l
  refresh-Lends now true file early l =
      rw (refresh_file-true now file _ (Lends-load port deadline file now l)) (record {
        tickets = reloaded now l.tickets;
        held_by = refl;
        storable = Storable-reloaded now l.tickets l.storable;
        held = held-reloaded port deadline now l.tickets early l.held;
      })

  -- What an action must leave: other ports only, and the lent port still held.
  abbrev Safe : List Ticket × FileRead → Type 0
  Safe (ts, file) = All (λ t. t.port ≢ port) ts × Lends port deadline file

  act-Safe :
      (a : Action) (file : FileRead)
      → Within deadline a
      → Lends port deadline file
      → Safe (act a file)
  unfolding act
  act-Safe (refresh now can_write) file w l = (tt, refresh-Lends now can_write file w l)
  act-Safe (create env request) file w l = go (create_transfer_ticket env file request) refl
    where
      go : (o : Outcome) → create_transfer_ticket env file request ≡ o → Safe (after o file)
      go (refused e) h = (tt, l)
      go (issued t file') h =
          let i = create-issued env file request t file' h in
          ((create_other_port w.1 i l, tt), create-Lends w.0 w.1 i l)

  pub act_all-Safe :
      (as' : List Action) (file : FileRead)
      → All (Within deadline) as'
      → Lends port deadline file
      → Safe (act_all as' file)
  unfolding act_all
  act_all-Safe [] file w l = (tt, l)
  act_all-Safe (a ∷ as') file w l =
      let s = act-Safe a file w.0 l in
      let s' = act_all-Safe as' (act a file).1 w.1 s.1 in
      (All-append (λ t. t.port ≢ port) (act a file).0 _ s.0 s'.0, s'.1)

-- After a call has issued a ticket, and until that ticket expires, no call issues another ticket
-- for its port, however many tickets are issued and however often the listing rewrites the file.
pub no_double_lending :
    (env : Env) (file : FileRead) (request : TransferRequest) (t : Ticket) (file' : FileRead)
    (as' : List Action)
    → IsSane env
    → ((ts : List Ticket) → load_transfer_tickets file env.loaded_at ≡ some ts → All Storable ts)
    → create_transfer_ticket env file request ≡ issued t file'
    → All (Within (env.now + env.ttl)) as'
    → All (λ u. u.port ≢ t.port) (act_all as' file').0
no_double_lending env file request t file' as' sane stored h within =
    let i = create-issued env file request t file' h in
    (act_all-Safe t.port (env.now + env.ttl) as' file' within (record {
      tickets = i.tickets ++ (t ∷ []);
      held_by = i.written;
      storable =
          All-append Storable i.tickets _ (stored i.tickets i.loaded) (Issued-Storable sane i, tt);
      held = held_last t.port (env.now + env.ttl) i.tickets t (rw i.made (ground arith));
    })).0
