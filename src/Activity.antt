-- ===== src/Activity.antt =====
-- pkg/service/activity.go: who is watching, and which users were seen lately. Times are nanoseconds,
-- and the clock does not run backwards.
pub mod Counting
mod Tests
use tvproxy.Base.{
  ℕ, suc, ◌+◌, ◌-◌, ◌*◌, String, Bool, true, false, ◌==◌, List, [], ◌∷◌, ◌++◌, map, Option, none,
  some, ltb, if◌then◌else◌,
}
use tvproxy.Base.Maps.{Map, lookup, put, erase, values}
use tvproxy.Base.Sort.{sort}
use tvproxy.Base.Text.{text_ltb}
use Prim.Native.String

pub record ViewerOpts : Type 0 where
  pub id : String
  pub username : String
  pub channel_id : String
  pub channel_name : String
  pub stream_id : String
  pub stream_name : String
  pub m3u_account_id : String
  pub profile_name : String
  pub user_agent : String
  pub client_name : String
  pub remote_addr : String
  pub kind : String

pub record ViewerEntry : Type 0 where
  pub opts : ViewerOpts
  pub started_at : ℕ
  pub last_active : ℕ

pub record UserSession : Type 0 where
  pub user_id : String
  pub username : String
  pub source : String
  pub remote_addr : String
  pub user_agent : String
  pub first_seen : ℕ
  pub last_seen : ℕ

pub record Activity : Type 0 where
  pub viewers : Map ViewerEntry
  pub sessions : Map UserSession

-- The idle time is kept in nanoseconds, where the source gives seconds.
pub record ActiveViewer : Type 0 where
  pub opts : ViewerOpts
  pub started_at : String
  pub last_active : String
  pub idle : ℕ

abbrev pub new_activity : Activity
new_activity = record { viewers = []; sessions = [] }

unfoldable pub touch_user : String → String → String → String → String → ℕ → Activity → Activity
touch_user user_id username source remote_addr user_agent now s =
    let key = String.◌++◌ user_id (String.◌++◌ ":" source) in
    elim (lookup key s.sessions) [
      | some seen ↦ record s {
        sessions =
            put key
              (record seen { last_seen = now; remote_addr = remote_addr; user_agent = user_agent })
              s.sessions;
      }
      | none ↦ record s {
        sessions =
            put key
              (record {
                user_id = user_id;
                username = username;
                source = source;
                remote_addr = remote_addr;
                user_agent = user_agent;
                first_seen = now;
                last_seen = now;
              })
              s.sessions;
      }
    ]

-- With the identifier of the viewer, which is `fresh` where none is given.
unfoldable pub add_viewer : ViewerOpts → String → ℕ → Activity → Activity × String
add_viewer opts fresh now s =
    let id = if opts.id == "" then fresh else opts.id in
    let entry : ViewerEntry = record {
      opts = record opts { id = id };
      started_at = now;
      last_active = now;
    } in
    (record s { viewers = put id entry s.viewers }, id)

unfoldable pub set_m3u_account_id : String → String → Activity → Activity
set_m3u_account_id id account s = elim (lookup id s.viewers) [
  | none ↦ s
  | some v ↦ record s {
    viewers = put id (record v { opts = record v.opts { m3u_account_id = account } }) s.viewers;
  }
]

unfoldable pub touch : String → ℕ → Activity → Activity
touch id now s = elim (lookup id s.viewers) [
  | none ↦ s
  | some v ↦ record s { viewers = put id (record v { last_active = now }) s.viewers }
]

unfoldable pub remove_viewer : String → Activity → Activity
remove_viewer id s = record s { viewers = erase id s.viewers }

-- Twenty minutes.
abbrev session_timeout : ℕ
session_timeout = 20 * 60000000000

module _ (format : ℕ → String) where
  abbrev shown_session : ℕ → UserSession → ActiveViewer
  shown_session now u = record {
    opts = record {
      id = u.user_id;
      username = u.username;
      channel_id = "";
      channel_name = "";
      stream_id = "";
      stream_name = "";
      m3u_account_id = "";
      profile_name = "";
      user_agent = u.user_agent;
      client_name = u.source;
      remote_addr = u.remote_addr;
      kind = "session";
    };
    started_at = format u.first_seen;
    last_active = format u.last_seen;
    idle = now - u.last_seen;
  }

  abbrev shown_sessions : ℕ → List UserSession → List ActiveViewer
  shown_sessions now [] = []
  shown_sessions now (u ∷ us) =
      let rest = shown_sessions now us in
      if ltb session_timeout (now - u.last_seen) then rest else shown_session now u ∷ rest

  abbrev shown_viewer : ℕ → ViewerEntry → ActiveViewer
  shown_viewer now v = record {
    opts = v.opts;
    started_at = format v.started_at;
    last_active = format v.last_active;
    idle = now - v.last_active;
  }

  abbrev started_before : ActiveViewer → ActiveViewer → Bool
  started_before a b = text_ltb a.started_at b.started_at

  -- `format` is time.Format of RFC 3339.
  unfoldable pub list_activity : ℕ → Activity → List ActiveViewer
  list_activity now s =
      sort started_before
        (shown_sessions now (values s.sessions) ++ map (shown_viewer now) (values s.viewers))

-- A missing key of a map of numbers reads as zero.
abbrev pub counted : String → Map ℕ → ℕ
counted k m = elim (lookup k m) [ some n ↦ n | none ↦ 0 ]

abbrev pub count_each : List ViewerEntry → Map ℕ → Map ℕ
count_each [] counts = counts
count_each (v ∷ vs) counts =
    let account = v.opts.m3u_account_id in
    count_each vs
      (if account == "" then counts else put account (suc (counted account counts)) counts)

unfoldable pub count_by_m3u_account : Activity → Map ℕ
count_by_m3u_account s = count_each (values s.viewers) []
