-- ===== src/TableSession/Settle.antt =====
-- The end of a session: closeTable, buildBlockers and what maybeAutoSettleTableSession of
-- server/src/services/tableSession.ts leaves alone.
use boardbite_pos.Prelude.{
  ℕ, ◌≡◌, refl, ◌↔◌, ◌⊎◌, inr, true, false, not, ◌&&◌, some, [], arith, ◌==◌, is_some, update, All,
  All-every, All-update,
}
use boardbite_pos.Prelude.Int.{ℤ, pos}
use boardbite_pos.Domain.Status.{is_live, closed}
use boardbite_pos.Domain.Rows.{Session, CloseReason, Device, Db}
use boardbite_pos.Billing.{compute_bill}
use boardbite_pos.TableSession.{
  build_blockers, unserved_count, pending_calls, live_session, revoke_devices,
}
use boardbite_pos.TableSession.Close.{
  close_session, settle_session, auto_settle, revert_pending, move_to_pending,
}

-- The list of close blockers is empty exactly when nothing remains to be paid or given back, no
-- order is unserved and no staff call is open.
pub build_blockers_none :
    (r : ℤ) (unserved calls : ℕ)
    → (build_blockers r unserved calls ≡ []) ↔ ((r ≡ pos 0) × (unserved ≡ 0) × (calls ≡ 0))
unfolding build_blockers
build_blockers_none r unserved calls = ground arith

-- Nothing is owed, nothing is to be served and nobody waits.
pub record Settled (sid : ℕ) (db : Db) : Type 0 where
  pub remaining : (compute_bill sid db).remaining ≡ pos 0
  pub unserved : unserved_count sid db ≡ 0
  pub calls : pending_calls sid db ≡ 0

-- No session of that id is live, and every device of it is revoked.
abbrev pub Ended : ℕ → Db → Type 0
Ended sid db =
    All (λ s. ((s.id == sid) ≡ false) ⊎ (is_live s.status ≡ false)) db.sessions
    × All (λ d. ((d.session_id == sid) ≡ false) ⊎ (is_some d.revoked_at ≡ true)) db.devices

-- After the writes that end a session, no session of that id is live and every device of it is
-- revoked.
pub close_session_ends :
    (sid tid now : ℕ) (reason : CloseReason) (db : Db) {db' : Db}
    → close_session sid tid now reason db ≡ some db'
    → Ended sid db'
unfolding close_session revoke_devices
close_session_ends sid tid now reason db {db'} e =
    let put = λ (s : Session). record s {
      status = closed;
      closed_at = some now;
      close_reason = some reason;
    } in
    let revoke = λ (d : Device). record d { revoked_at = some now } in
    let open_device = λ (d : Device). d.session_id == sid && not (is_some d.revoked_at) in
    let sessions : db'.sessions ≡ update (live_session sid) put db.sessions = ground arith in
    let devices : db'.devices ≡ update open_device revoke db.devices = ground arith in
    (
      rw sessions (
          All-update (λ s. Unit {0}) (λ s. ((s.id == sid) ≡ false) ⊎ (is_live s.status ≡ false))
            (live_session sid) put (λ s t hit. inr refl) (λ s t miss. ground arith) db.sessions
            (All-every (λ s. Unit {0}) (λ s. tt) db.sessions)),
      rw devices (
          All-update (λ d. Unit {0})
            (λ d. ((d.session_id == sid) ≡ false) ⊎ (is_some d.revoked_at ≡ true)) open_device
            revoke (λ d t hit. inr refl) (λ d t miss. ground arith) db.devices
            (All-every (λ d. Unit {0}) (λ d. tt) db.devices)),
    )

-- A settlement writes no order and no payment.
pub auto_settle_frame :
    (now sid : ℕ) (seen db : Db)
    → ((auto_settle now sid seen db).1.orders ≡ db.orders)
      × ((auto_settle now sid seen db).1.payments ≡ db.payments)
unfolding auto_settle settle_session close_session revoke_devices revert_pending move_to_pending
auto_settle_frame now sid seen db = (ground arith, ground arith)
