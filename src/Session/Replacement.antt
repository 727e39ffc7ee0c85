-- ===== src/Session/Replacement.antt =====
-- pkg/session/manager.go: a session that is done is replaced, and the cleanup that was started for
-- it leaves its successors alone, whatever the manager is called for before its turn.
use tvproxy.Base.{remove as drop_row}
use tvproxy.Session.{Session}
use tvproxy.Session.Manager.{Manager}
use tvproxy.Session.Manager
