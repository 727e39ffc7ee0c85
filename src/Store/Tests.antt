-- ===== src/Store/Tests.antt =====
-- pkg/store: the theorems at inputs that meet their hypotheses.
use tvproxy.Base.{String, ◌≡◌, refl, false, [], ◌∷◌, none, Distinct, ==→ne}
use tvproxy.Store.Table.{File}
use tvproxy.Store.Users.{
  User, Users, username_of, entry_of, get_by_username, get_by_id, get_by_invite_token,
  get_first_admin, get_group_ids_for_user, list,
}
use tvproxy.Store.Users.Laws.{restarted, restarted-lookups}

abbrev named : String → String → User
named id name = record {
  id = id;
  username = name;
  password_hash = "hash";
  is_admin = false;
  invite_token = none;
  invite_expires_at = none;
  created_at = 0;
  updated_at = 0;
}

abbrev household : Users
household = record {
  rows = entry_of (named "u1" "ann") ∷ entry_of (named "u2" "bob") ∷ [];
  file = File.absent;
}

household-Distinct : Distinct username_of household.rows
household-Distinct = ((==→ne "bob" "ann" refl, tt), (tt, tt))

restarted-lookups_example :
    (get_by_id "u1" (restarted household) ≡ get_by_id "u1" household)
    × (get_by_username "u1" (restarted household) ≡ get_by_username "u1" household)
    × (get_by_invite_token "u1" (restarted household) ≡ get_by_invite_token "u1" household)
    × (get_first_admin (restarted household) ≡ get_first_admin household)
    × (list (restarted household) ≡ list household)
    × (get_group_ids_for_user "u1" (restarted household) ≡ get_group_ids_for_user "u1" household)
restarted-lookups_example = restarted-lookups household "u1"
