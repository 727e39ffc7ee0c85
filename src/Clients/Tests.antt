-- ===== src/Clients/Tests.antt =====
-- A store of two clients: the witnesses of the theorems, and runs of the detection.
use tvproxy.Base.{
  String, ◌≡◌, refl, ◌⊎◌, true, false, ◌==◌, [], ◌∷◌, Option, none, some, ok, if◌then◌else◌, All,
  find,
}
use mathlib.Core.List.{Mem}
use tvproxy.Base.Integers.{ℤ, pos}
use tvproxy.Base.Sort.{sort, insert_sorted}
use tvproxy.Base.Text.{has_prefix, contains}
use tvproxy.Store.Table.{written, failed, absent}
use tvproxy.Store.Profiles.{StreamProfile, profile_id, get_profile}
use tvproxy.Store.Clients.{MatchRule, Client, client_less, list_enabled, with_id}
use tvproxy.Clients.{
  Request, request_origin_port, match_rule, matches_client, match_in, match_client, ClientService,
  Choices, own_profile, create_client, delete_client,
}
use tvproxy.Clients.Detection.{is_eligible, match_client-IsFirst}
use tvproxy.Clients.References.{IsReferenced, delete_client-IsReferenced}
use tvproxy.Clients.Creation.{create_client-IsReferenced, create_client-orphan}

abbrev plex_profile : StreamProfile
plex_profile = record (own_profile "Plex") { id = "p1" }

abbrev vlc_profile : StreamProfile
vlc_profile = record (own_profile "VLC") { id = "p2" }

abbrev agent : String → MatchRule
agent value = record {
  id = "r";
  client_id = "";
  header_name = "User-Agent";
  match_type = "contains";
  match_value = value;
}

abbrev plex : Client
plex = record {
  id = "c1";
  name = "Plex";
  priority = pos 1;
  listen_port = pos 0;
  stream_profile_id = "p1";
  is_enabled = true;
  match_rules = agent "Plex" ∷ [];
}

abbrev vlc : Client
vlc = record plex {
  id = "c2";
  name = "VLC";
  priority = pos 2;
  stream_profile_id = "p2";
  match_rules = agent "Media" ∷ [];
}

abbrev service : ClientService
service = record {
  clients = record { rows = vlc ∷ plex ∷ []; file = absent };
  profiles = record { rows = plex_profile ∷ vlc_profile ∷ []; file = absent };
}

abbrev no_number : String → Option ℤ
no_number text = none

abbrev from_agent : String → Request
from_agent value = record {
  port_query = "";
  header = λ name. if name == "User-Agent" then value else "";
}

matched :
    match_client no_number (from_agent "Plex Media Server") service ≡ some (plex_profile, "Plex")
unfolding match_client match_in matches_client match_rule contains has_prefix request_origin_port
    list_enabled sort insert_sorted get_profile
matched = refl

match_client-IsFirst_example :
    let r = from_agent "Plex Media Server" in
    let port = request_origin_port no_number r in
    (c : Client) × Mem c service.clients.rows
    × (is_eligible r port service.profiles c ≡ true)
    × (get_profile c.stream_profile_id service.profiles ≡ ok plex_profile)
    × (c.name ≡ "Plex")
    × All
        (λ d. (is_eligible r port service.profiles d ≡ false) ⊎ (client_less d c ≡ false))
        service.clients.rows
match_client-IsFirst_example =
    match_client-IsFirst no_number (from_agent "Plex Media Server") service (plex_profile, "Plex")
      matched

unmatched : match_client no_number (from_agent "curl") service ≡ none
unfolding match_client match_in matches_client match_rule contains has_prefix request_origin_port
    list_enabled sort insert_sorted get_profile
unmatched = refl

abbrev choices : Choices
choices = record {
  profile_write = written;
  cleanup_write = written;
  client_write = written;
  rules_write = written;
  profile_fresh = "p3";
  client_fresh = "c3";
  rule_fresh = λ i. "r3";
}

both-IsReferenced : IsReferenced service
both-IsReferenced = ((λ e. cc), ((λ e. cc), tt))

delete_client-IsReferenced_example : IsReferenced (delete_client choices "c1" service).0
delete_client-IsReferenced_example =
    delete_client-IsReferenced choices "c1" service both-IsReferenced

create_client-IsReferenced_example :
    IsReferenced (create_client choices (record plex { id = ""; name = "Kodi" }) [] service).0
create_client-IsReferenced_example =
    create_client-IsReferenced choices (record plex { id = ""; name = "Kodi" }) [] service refl
      both-IsReferenced

abbrev unlucky : Choices
unlucky = record choices { client_write = failed absent }

create_client-orphan_example :
    let made = (create_client unlucky (record plex { id = ""; name = "Kodi" }) [] service).0 in
    Mem
      (with_id unlucky.client_fresh
        (record plex { id = ""; name = "Kodi"; stream_profile_id = unlucky.profile_fresh }))
      made.clients.rows
    × (find profile_id unlucky.profile_fresh made.profiles.rows ≡ none)
create_client-orphan_example =
    create_client-orphan unlucky (record plex { id = ""; name = "Kodi" }) [] service absent refl
      refl refl refl
