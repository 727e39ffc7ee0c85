-- ===== src/Session/Running.antt =====
-- pkg/session/manager.go: a session that runs is not lost when a channel is joined.
use tvproxy.Base.Maps.{put as assign}
use tvproxy.Session.{Session}
use tvproxy.Session.Manager.{Manager, put}
use tvproxy.Session.Manager
