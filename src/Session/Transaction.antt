-- ===== src/Session/Transaction.antt =====
-- The class Transaction of include/cpplinq/driver/connection.h around a piece of code.
use cpplinq.Common.{Bool, true, false, Outcome, ok, throws}
use cpplinq.Session.{Command, Answer, Driver, Session, send, ◌>>◌}

-- ~Transaction: rolls back unless committed, whatever the driver answers.
unfoldable pub leave {ℓ} : {A : Type ℓ} → Driver → Bool → Outcome A → Session A
leave driver true r h = (r, h)
leave driver false r h = (r, (send driver Command.rollback h).1)

-- `committed_` is set if the driver has committed.
unfoldable pub settle {ℓ} : {A : Type ℓ} → Driver → A → Outcome (Answer Command.commit) → Session A
unfolding leave
settle driver a (ok _) = leave driver true (ok a)
settle driver a (throws e) = leave driver false (throws e)

-- txn.commit(), the last statement of each scope, or the way out of a body that has thrown.
unfoldable pub finish {ℓ} : {A : Type ℓ} → Driver → Outcome A → Session A
unfolding leave settle
finish driver (ok a) h = let (r, h') = send driver Command.commit h in settle driver a r h'
finish driver (throws e) h = leave driver false (throws e) h

-- Transaction txn(conn); body; txn.commit();
unfoldable pub in_transaction {ℓ} : {A : Type ℓ} → Driver → Session A → Session A
unfolding leave finish
in_transaction driver body =
    send driver Command.begin_transaction >> (λ h. let (r, h') = body h in finish driver r h')
