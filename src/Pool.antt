-- ===== src/Pool.antt =====
-- pkg/session/wgpool.go: the pool of WireGuard proxies, and how a request falls over from one proxy
-- to the next.
pub mod Failover
mod Tests
use tvproxy.Base.{
  ℕ, suc, ◌<◌, String, Bool, true, false, ◌||◌, ◌==◌, List, [], ◌∷◌, ◌++◌, map, Option, none, some,
  Result, ok, err, nat_eq, ltb, leb, if◌then◌else◌, length, modify, find,
}
use tvproxy.Base.Sort.{sort}

-- An entry is reached by pointer; `proxy`, the address its proxy listens on, is that identity.
pub record PoolEntry : Type 0 where
  pub profile_id : String
  pub profile_name : String
  pub proxy : String
  pub port : ℕ
  pub fail_count : ℕ
  pub last_fail : Option ℕ

abbrev pub proxy_of : PoolEntry → String
proxy_of e = e.proxy

-- `active_id` is what the function set by `SetActiveIDFunc` returns, if one is set.
pub record Pool : Type 0 where
  pub proxies : List PoolEntry
  pub active_id : Option String

-- What one round trip gives: a transport error, or a response with its status.
pub data Attempt : Type 0 where
  failed : String → Attempt
  responded : ℕ → Attempt

pub data LastError : Type 0 where
  transport : String → LastError
  forbidden_via : String → LastError

-- The error of `Do`: that of the direct round trip, or the last of those of the proxies.
pub data PoolError : Type 0 where
  direct_failed : String → PoolError
  all_failed : ℕ → Option LastError → PoolError

unfoldable pub add_proxy :
    String → String → Result String (String × ℕ) → Pool → Pool × Result String (Unit {0})
add_proxy id name started p = elim started [
  | err e ↦ (p, err e)
  | ok l ↦ (
    record p {
      proxies =
          p.proxies
          ++ record {
            profile_id = id;
            profile_name = name;
            proxy = l.0;
            port = l.1;
            fail_count = 0;
            last_fail = none;
          }
            ∷ [];
    },
    ok tt,
  )
]

unfoldable pub add_direct : String → String → Result String (String × ℕ) → Pool → Pool
add_direct id name started p = elim started [
  | err e ↦ p
  | ok l ↦ record p {
    proxies =
        p.proxies
        ++ record {
          profile_id = id;
          profile_name = name;
          proxy = l.0;
          port = l.1;
          fail_count = 1000;
          last_fail = none;
        }
          ∷ [];
  }
]

abbrev pub failed_at : ℕ → PoolEntry → PoolEntry
failed_at now e = record e { fail_count = suc e.fail_count; last_fail = some now }

abbrev pub cleared : PoolEntry → PoolEntry
cleared e = record e { fail_count = 0 }

unfoldable pub mark_fail : ℕ → PoolEntry → Pool → Pool
mark_fail now e p = record p { proxies = modify proxy_of e.proxy (failed_at now) p.proxies }

unfoldable pub mark_success : PoolEntry → Pool → Pool
mark_success e p = record p { proxies = modify proxy_of e.proxy cleared p.proxies }

-- The test of the insertion sort in `Do`.
abbrev pub fewer_failures : PoolEntry → PoolEntry → Bool
fewer_failures a b = ltb a.fail_count b.fail_count

-- The loop of `Do` over the sorted entries: `attempt` is the round trip through a proxy, `now` dates
-- its failures (the dates are never read), `last` is the
-- last error so far.
unfoldable pub try_each :
    (PoolEntry → Attempt)
    → ℕ
    → ℕ
    → List PoolEntry
    → Option LastError
    → Pool
    → Pool × Result PoolError ℕ
unfolding mark_fail mark_success
try_each attempt now count [] last p = (p, err (all_failed count last))
try_each attempt now count (e ∷ es) last p = elim (attempt e) [
  | failed why ↦ try_each attempt now count es (some (transport why)) (mark_fail now e p)
  | responded status ↦ elim (nat_eq status 403) [
    | true ↦ try_each attempt now count es (some (forbidden_via e.profile_name)) (mark_fail now e p)
    | false ↦ (mark_success e p, ok status)
  ]
]

unfoldable pub do_request : (PoolEntry → Attempt) → Attempt → ℕ → Pool → Pool × Result PoolError ℕ
unfolding try_each
do_request attempt direct now p = elim p.proxies [
  | [] ↦ (p, elim direct [ failed why ↦ err (direct_failed why) | responded status ↦ ok status ])
  | e ∷ es ↦ try_each attempt now (length p.proxies) (sort fewer_failures p.proxies) none p
]

pub record PoolStatus : Type 0 where
  pub profile_id : String
  pub profile_name : String
  pub port : ℕ
  pub fail_count : ℕ
  pub is_direct : Bool

abbrev status_of : PoolEntry → PoolStatus
status_of e = record {
  profile_id = e.profile_id;
  profile_name = e.profile_name;
  port = e.port;
  fail_count = e.fail_count;
  is_direct = leb 1000 e.fail_count;
}

unfoldable pub status : Pool → List PoolStatus
status p = map status_of p.proxies

unfoldable pub set_active_id : String → Pool → Pool
set_active_id id p = record p { active_id = some id }

abbrev pub best_of : PoolEntry → List PoolEntry → PoolEntry
best_of best [] = best
best_of best (e ∷ es) = best_of (if ltb e.fail_count best.fail_count then e else best) es

abbrev pub profile_of : PoolEntry → String
profile_of e = e.profile_id

-- The entry whose proxy `ProxyURL` puts in front of the URL; none leaves the URL as it is.
unfoldable pub chosen : Pool → Option PoolEntry
chosen p = elim p.proxies [
  | [] ↦ none
  | e ∷ es ↦
      let least = some (best_of e es) in
      elim p.active_id [
        | none ↦ least
        | some id ↦
            if id == ""
            then least
            else elim (find profile_of id p.proxies) [ none ↦ least | some a ↦ some a ]
      ]
]

-- `through` is the URL of the proxy for a stream, which `WGProxy.ProxyURL` builds.
unfoldable pub proxy_url : (PoolEntry → String → String) → Pool → String → String
unfolding chosen
proxy_url through p url = elim (chosen p) [ none ↦ url | some e ↦ through e url ]

unfoldable pub count : Pool → ℕ
count p = length p.proxies

unfoldable pub stop_all : Pool → Pool
stop_all p = record p { proxies = [] }
