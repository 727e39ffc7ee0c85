-- ===== src/Pool/Tests.antt =====
-- pkg/session/wgpool.go: runs on a small pool, and the theorems at inputs that meet their hypotheses.
use tvproxy.Base.{ℕ, String, ◌≡◌, refl, ◌==◌, [], ◌∷◌, none, some, ok, err, if◌then◌else◌}
use tvproxy.Base.Sort.{sort}
use tvproxy.Pool.{
  PoolEntry, Pool, Attempt, failed, responded, all_failed, forbidden_via, do_request, chosen,
}
use tvproxy.Pool.Failover.{IsBest, do_request-IsBest, do_request-answers}

abbrev tunnel : String → String → ℕ → PoolEntry
tunnel id proxy fails = record {
  profile_id = id;
  profile_name = id;
  proxy = proxy;
  port = 1;
  fail_count = fails;
  last_fail = none;
}

abbrev three : Pool
three = record {
  proxies = tunnel "uk" ":1" 2 ∷ tunnel "nl" ":2" 0 ∷ tunnel "direct" ":3" 1000 ∷ [];
  active_id = none;
}

-- The proxy in the Netherlands is refused with 403.
abbrev refusing : PoolEntry → Attempt
refusing e = if e.profile_id == "nl" then responded 403 else responded 200

three_run : (do_request refusing (failed "") 7 three).1 ≡ ok 200
unfolding do_request sort
three_run = refl

three_marked :
    (do_request refusing (failed "") 7 three).0.proxies
    ≡ tunnel "uk" ":1" 0
      ∷ record (tunnel "nl" ":2" 1) { last_fail = some 7 }
      ∷ tunnel "direct" ":3" 1000
      ∷ []
unfolding do_request sort
three_marked = refl

all_fail :
    (do_request (λ e. responded 403) (failed "") 7 three).1
    ≡ err (all_failed 3 (some (forbidden_via "direct")))
unfolding do_request sort
all_fail = refl

do_request-IsBest_example : IsBest refusing 200 three.proxies
do_request-IsBest_example = do_request-IsBest refusing (failed "") 7 three 200 (λ e. cc) three_run

do_request-answers_example :
    (status : ℕ) × ((do_request refusing (failed "") 7 three).1 ≡ ok status)
do_request-answers_example = do_request-answers refusing (failed "") 7 three refl

three-chosen : chosen three ≡ some (tunnel "nl" ":2" 0)
unfolding chosen
three-chosen = refl
