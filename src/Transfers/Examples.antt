-- ===== src/Transfers/Examples.antt =====
-- Tests of the ledger, and its theorems at concrete rows.
use ninj_os_proxie_edge_fabr.Prelude.{
  ℕ, ◌≡◌, ◌⊎◌, refl, none, List, [], ◌∷◌, map, arith, text_beq, All,
}
use ninj_os_proxie_edge_fabr.Prelude.Int.{pos, ◌-ℤ◌}
use ninj_os_proxie_edge_fabr.GoText.{codes}
use ninj_os_proxie_edge_fabr.Transfers.{
  TransferState, ticketed, arrived, expired, failed, Transaction, update_row, update_transfer,
  awaits, newest, confirm_arrival, is_overdue, expire_transfers,
}
use ninj_os_proxie_edge_fabr.Transfers.Lifecycle.{DistinctIds}
use ninj_os_proxie_edge_fabr.Transfers.Trace.{
  Operation, connected, arrival, reclaim, time_out, apply, Related,
}
use ninj_os_proxie_edge_fabr.Transfers.Arrival.{
  Each, IsAwaited, IsNewestAwaited, Arrives, Expires, confirm_arrival-IsNewestAwaited,
  expire_transfers-Expires,
}
use ninj_os_proxie_edge_fabr.Transfers.Run.{apply_all, Follows, apply_all-Related}

abbrev older : Transaction
older = record {
  ticket_id = codes "a";
  xuid = codes "x1";
  player_name = codes "Ann";
  source_server = codes "lobby";
  destination = codes "zoo";
  source_ip = codes "10.0.0.9";
  proxy_port = pos 20001;
  state = ticketed;
  requested_at = pos 1000;
  updated_at = pos 1000;
  proxy_connected_at = none;
  arrived_at = none;
  failure_reason = none;
}

abbrev newer : Transaction
newer = record older { ticket_id = codes "b"; requested_at = pos 2000; updated_at = pos 2000 }

abbrev two_rows : List Transaction
two_rows = older ∷ newer ∷ []

abbrev four_steps : List (ℕ × Operation)
four_steps =
    (2500, connected (codes "a") [] (pos 2400))
    ∷ (3000, arrival (codes "x1") (codes "zoo") (pos 2900))
    ∷ (400000, time_out)
    ∷ (400001, reclaim (codes "b") (codes "port") (pos 0))
    ∷ []

abbrev states : List Transaction → List TransferState
states = map (λ (r : Transaction). r.state)

-- The newest transfer arrives; the other one is over its time.
two_rows_run :
    (states (apply 3000 (arrival (codes "x1") (codes "zoo") (pos 2900)) two_rows)
      ≡ ticketed ∷ arrived ∷ [])
    × (states (apply_all four_steps two_rows) ≡ expired ∷ failed ∷ [])
unfolding apply apply_all update_transfer update_row confirm_arrival expire_transfers is_overdue
    awaits newest text_beq ◌-ℤ◌
two_rows_run = (refl, refl)

two_rows-DistinctIds : DistinctIds two_rows
two_rows-DistinctIds = ((λ e. ground arith, tt), (tt, tt))

apply_all-Related_example : Related Follows two_rows (apply_all four_steps two_rows)
apply_all-Related_example = apply_all-Related four_steps two_rows two_rows-DistinctIds

expire_transfers-Expires_example : Each (Expires 400000) two_rows (expire_transfers 400000 two_rows)
expire_transfers-Expires_example = expire_transfers-Expires 400000 two_rows

confirm_arrival-IsNewestAwaited_example :
    let after = confirm_arrival (codes "x1") (codes "zoo") (pos 2900) two_rows in
    ((r : Transaction) × IsNewestAwaited (codes "x1") (codes "zoo") (pos 2900) two_rows r
      × Each (Arrives r.ticket_id (pos 2900)) two_rows after)
    ⊎ (All (λ r. ¬ IsAwaited (codes "x1") (codes "zoo") (pos 2900) r) two_rows × (after ≡ two_rows))
confirm_arrival-IsNewestAwaited_example =
    confirm_arrival-IsNewestAwaited (codes "x1") (codes "zoo") (pos 2900) two_rows (λ e. cc)
      (λ e. cc)
