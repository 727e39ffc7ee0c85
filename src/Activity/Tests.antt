-- ===== src/Activity/Tests.antt =====
-- A service with two viewers: the witness of the theorem, and runs of the service.
use tvproxy.Base.{String, ◌≡◌, ◌≢◌, refl, [], ◌∷◌, length, keep, arith, eq_iff}
use tvproxy.Base.Maps.{values}
use tvproxy.Activity.{
  ViewerOpts, Activity, new_activity, touch_user, add_viewer, touch, set_m3u_account_id,
  remove_viewer, counted, count_by_m3u_account,
}
use tvproxy.Activity.Counting.{on_account, count_by_m3u_account-length}

abbrev viewer : ViewerOpts
viewer = record {
  id = "v1";
  username = "ann";
  channel_id = "c1";
  channel_name = "One";
  stream_id = "s1";
  stream_name = "One HD";
  m3u_account_id = "acc";
  profile_name = "";
  user_agent = "";
  client_name = "";
  remote_addr = "";
  kind = "channel";
}

abbrev two_viewers : Activity
two_viewers = record {
  viewers =
      ("v1", record { opts = viewer; started_at = 5; last_active = 9 })
      ∷ ("v2", record { opts = record viewer { id = "v2" }; started_at = 6; last_active = 6 })
      ∷ [];
  sessions = [];
}

two_viewers_added :
    touch "v1" 9 (
      set_m3u_account_id "v2" "acc"
        (add_viewer
          (record viewer { id = ""; m3u_account_id = "" })
          "v2"
          6
          (add_viewer viewer "v9" 5 new_activity).0).0)
    ≡ two_viewers
unfolding touch set_m3u_account_id add_viewer
two_viewers_added = refl

seen_twice :
    touch_user "u" "ann" "web" "b" "y" 8 (touch_user "u" "ann" "web" "a" "x" 3 new_activity)
    ≡ record new_activity {
      sessions =
          (
            "u:web",
            record {
              user_id = "u";
              username = "ann";
              source = "web";
              remote_addr = "b";
              user_agent = "y";
              first_seen = 3;
              last_seen = 8;
            },
          )
          ∷ [];
    }
unfolding touch_user
seen_twice = refl

both_removed : remove_viewer "v1" (remove_viewer "v2" two_viewers) ≡ new_activity
unfolding remove_viewer
both_removed = refl

acc_ne : ◌≢◌ {A = String} "acc" ""
acc_ne e = ground (arith, (eq_iff "acc" "").1 e)

count_by_m3u_account-length_example :
    counted "acc" (count_by_m3u_account two_viewers)
    ≡ length (keep (on_account "acc") (values two_viewers.viewers))
count_by_m3u_account-length_example = count_by_m3u_account-length "acc" two_viewers acc_ne
