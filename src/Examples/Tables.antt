-- ===== src/Examples/Tables.antt =====
-- Sessions of the example shop.
use boardbite_pos.Prelude.{
  ℕ, ◌+◌, ◌≤◌, ◌≡◌, ◌≢◌, refl, ◌↔◌, inl, inr, ◌==◌, Bool, false, none, some, [], ◌∷◌, arith, length,
  All, ok, is_some, find, count,
}
use boardbite_pos.Prelude.Int.{pos}
use boardbite_pos.Domain.Status.{available, settling, paid_pending_service, closed}
use boardbite_pos.Domain.Rows.{Table, Session, Device, Db, normal, auto_settled}
use boardbite_pos.TableSession.{build_blockers, live_session}
use boardbite_pos.TableSession.Close.{
  CloseInput, close_session, move_to_pending, auto_settle, settled_closed,
}
use boardbite_pos.TableSession.Settle.{Ended}
use boardbite_pos.TableSession.AutoSettle.{IsDue, auto_settle_closes}
use boardbite_pos.TableSession.Reach.{Step, close, move, Reach, start, next, Sound, Reach-Sound}
use boardbite_pos.Devices.{Resolved, resolve_customer_session, close_session_locks_out}
use boardbite_pos.Examples.{table_7, session_1, device_1, shop}

abbrev pending_1 : Session
pending_1 = record session_1 { status = paid_pending_service }

abbrev ended_1 : Session
ended_1 = record session_1 { status = closed; closed_at = some 30; close_reason = some normal }

-- The shop once its session is paid and waits, and once it is over.
abbrev pending_shop : Db
pending_shop = record shop {
  tables = record table_7 { status = settling } ∷ [];
  sessions = pending_1 ∷ [];
}

abbrev ended_shop : Db
ended_shop = record shop {
  tables = record table_7 { status = available } ∷ [];
  sessions = ended_1 ∷ [];
  devices = record device_1 { revoked_at = some 30 } ∷ [];
}

shop-Sound : Sound shop
shop-Sound = record {
  tables = record { keyed = (tt, tt); matched = (refl, tt) };
  sessions = (tt, tt);
}

move_run : move_to_pending 1 7 shop ≡ pending_shop
unfolding move_to_pending
move_run = refl

moved : Step shop pending_shop
unfolding move_to_pending
moved = move session_1 refl

end_run : close_session 1 7 30 normal pending_shop ≡ some ended_shop
unfolding close_session boardbite_pos.TableSession.revoke_devices
end_run = refl

visit : Reach shop ended_shop
visit = next (next start moved) (close 30 normal pending_1 refl end_run)

Reach-Sound_example : Sound ended_shop
Reach-Sound_example = Reach-Sound visit shop-Sound

-- The shop with nothing ordered.
abbrev quiet : Db
quiet = record shop { orders = [] }

abbrev quiet_ended : Db
quiet_ended = record ended_shop { orders = [] }

abbrev leave : CloseInput
leave = record { table_id = 7; reason = none; force = false }

auto_settle_closes_example :
    (((auto_settle 30 1 shop shop).0 ≡ settled_closed) ↔ IsDue 1 shop)
    × ((close_session 1 7 30 auto_settled shop ≡ some (auto_settle 30 1 shop shop).1)
        ↔ IsDue 1 shop)
    × (Ended 1 (auto_settle 30 1 shop shop).1 ↔ IsDue 1 shop)
auto_settle_closes_example = auto_settle_closes 30 1 session_1 shop refl refl refl

-- The shop with a second session, at another table.
abbrev table_8 : Table
table_8 = record table_7 { id = 8 }

abbrev session_2 : Session
session_2 = record session_1 { id = 2; table_id = 8 }

abbrev device_2 : Device
device_2 = record { session_id = 2; token_hash = 88; expires_at = 50000; revoked_at = none }

abbrev both : Db
both = record shop {
  tables = table_7 ∷ table_8 ∷ [];
  sessions = session_1 ∷ session_2 ∷ [];
  devices = device_1 ∷ device_2 ∷ [];
}

abbrev one_left : Db
one_left = record both {
  tables = record table_7 { status = available } ∷ table_8 ∷ [];
  sessions = ended_1 ∷ session_2 ∷ [];
  devices = record device_1 { revoked_at = some 30 } ∷ device_2 ∷ [];
}

abbrev at_8 : Resolved
at_8 = record { session_id = 2; table_id = 8; orders_locked = false }

one_run : close_session 1 7 30 normal both ≡ some one_left
unfolding close_session boardbite_pos.TableSession.revoke_devices
one_run = refl

at_8_run : resolve_customer_session (λ t. t + 1) 87 40 one_left ≡ ok at_8
unfolding resolve_customer_session
at_8_run = refl

close_session_locks_out_example : at_8.session_id ≢ session_1.id
close_session_locks_out_example =
    close_session_locks_out (λ t. t + 1) 87 1 7 30 40 normal both one_run at_8_run
