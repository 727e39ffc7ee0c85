-- ===== src/Clients.antt =====
-- pkg/service/client.go: the detection of clients by port and headers, and the profile that each
-- client is given. A header that is absent reads as the empty text; strconv.Atoi is a parameter.
pub mod Detection
pub mod References
pub mod Creation
mod Tests
use tvproxy.Base.{
  ℕ, String, Bool, true, false, not, ◌&&◌, ◌||◌, ◌==◌, List, [], ◌∷◌, Option, none, some, Result,
  ok, err, all, if◌then◌else◌,
}
use tvproxy.Base.Integers.{ℤ, pos, int_ltb, int_eq}
use tvproxy.Base.Text.{has_prefix, contains}
use tvproxy.Store.Table.{Write, Error}
use tvproxy.Store.Profiles.{
  StreamProfile, Profiles, get_profile, create_profile, delete_profile, with_profile_id,
}
use tvproxy.Store.Clients.{
  MatchRule, Client, Clients, list_enabled, get_client, with_id, create_row, update_row, delete_row,
  set_match_rules, is_stream_profile_referenced,
}

pub record Request : Type 0 where
  -- The query parameter `_port`.
  pub port_query : String
  pub header : String → String

abbrev port_header : (String → Option ℤ) → Request → ℤ
port_header atoi r =
    let text = r.header "X-TVProxy-Port" in
    if text == "" then pos 8080 else elim (atoi text) [ some port ↦ port | none ↦ pos 8080 ]

-- A port that is not a number is as if it were not there.
unfoldable pub request_origin_port : (String → Option ℤ) → Request → ℤ
request_origin_port atoi r =
    if r.port_query == ""
    then port_header atoi r
    else elim (atoi r.port_query) [ some port ↦ port | none ↦ port_header atoi r ]

unfoldable pub match_rule : Request → MatchRule → Bool
match_rule r rule =
    let value = r.header rule.header_name in
    if rule.match_type == "exists"
    then not (value == "")
    else if rule.match_type == "contains"
    then contains value rule.match_value
    else if rule.match_type == "equals"
    then value == rule.match_value
    else if rule.match_type == "prefix"
    then has_prefix value rule.match_value
    else false

abbrev pub has_port : Client → Bool
has_port c = int_ltb (pos 0) c.listen_port

abbrev no_rules : List MatchRule → Bool
no_rules [] = true
no_rules (r ∷ rs) = false

unfoldable pub matches_client : Request → ℤ → Client → Bool
matches_client r port c =
    if has_port c && not (int_eq c.listen_port port)
    then false
    else if no_rules c.match_rules
    then has_port c && int_eq c.listen_port port
    else all (match_rule r) c.match_rules

pub record ClientService : Type 0 where
  pub clients : Clients
  pub profiles : Profiles

-- The loop of `MatchClient`: a client whose profile is gone is passed over.
unfoldable pub match_in : Request → ℤ → Profiles → List Client → Option (StreamProfile × String)
match_in r port profiles [] = none
match_in r port profiles (c ∷ cs) =
    let rest = match_in r port profiles cs in
    if matches_client r port c
    then elim (get_profile c.stream_profile_id profiles) [ ok p ↦ some (p, c.name) | err _ ↦ rest ]
    else rest

unfoldable pub match_client :
    (String → Option ℤ) → Request → ClientService → Option (StreamProfile × String)
unfolding match_in
match_client atoi r s = match_in r (request_origin_port atoi r) s.profiles (list_enabled s.clients)

abbrev pub ServiceOutcome : Type 0
ServiceOutcome = ClientService × Result Error (Unit {0})

abbrev pub own_profile : String → StreamProfile
own_profile name = record {
  id = "";
  name = name;
  stream_mode = "ffmpeg";
  hw_accel = "none";
  video_codec = "";
  container = "mpegts";
  delivery = "";
  command = "ffmpeg";
  auto_detect = true;
  is_default = false;
  is_system = false;
  is_client = true;
}

-- What the environment decides in a call: the outcome of each write, and the new identifiers.
pub record Choices : Type 0 where
  pub profile_write : Write StreamProfile
  pub cleanup_write : Write StreamProfile
  pub client_write : Write Client
  pub rules_write : Write Client
  pub profile_fresh : String
  pub client_fresh : String
  pub rule_fresh : ℕ → String

abbrev with_rules : Choices → String → List MatchRule → Profiles → Clients → ServiceOutcome
with_rules ch id rules profiles clients =
    let r = set_match_rules ch.rules_write ch.rule_fresh id rules clients in
    (record { clients = r.0; profiles = profiles }, r.1)

-- `CreateClient` once the profile is there.
unfoldable pub add_client : Choices → Client → List MatchRule → ClientService → ServiceOutcome
add_client ch c rules s =
    let r = create_row ch.client_write ch.client_fresh c s.clients in
    elim (r.1) [
      | ok _ ↦ with_rules ch (with_id ch.client_fresh c).id rules s.profiles r.0
      | err e ↦ (
        record {
          clients = r.0;
          profiles = (delete_profile ch.cleanup_write c.stream_profile_id s.profiles).0;
        },
        err e,
      )
    ]

unfoldable pub create_client : Choices → Client → List MatchRule → ClientService → ServiceOutcome
unfolding add_client
create_client ch c rules s =
    let r = create_profile ch.profile_write ch.profile_fresh (own_profile c.name) s.profiles in
    elim (r.1) [
      | err e ↦ (record s { profiles = r.0 }, err e)
      | ok _ ↦
          add_client ch (record c { stream_profile_id = ch.profile_fresh }) rules
            (record s { profiles = r.0 })
    ]

-- `UpdateClient`; `none` is a nil slice of rules.
unfoldable pub update_client :
    Choices → Client → Option (List MatchRule) → ClientService → ServiceOutcome
update_client ch c rules s =
    let r = update_row ch.client_write c s.clients in
    elim (r.1) [
      | err e ↦ (record s { clients = r.0 }, err e)
      | ok _ ↦ elim rules [
        | none ↦ (record s { clients = r.0 }, ok tt)
        | some rs ↦ with_rules ch c.id rs s.profiles r.0
      ]
    ]

-- The profile of a client that was deleted goes too, unless it is a system profile or in use.
unfoldable pub drop_orphan : Write StreamProfile → String → ClientService → ClientService
drop_orphan w profile s = elim (get_profile profile s.profiles) [
  | err _ ↦ s
  | ok p ↦
      if not p.is_system && not (is_stream_profile_referenced profile s.clients)
      then record s { profiles = (delete_profile w profile s.profiles).0 }
      else s
]

unfoldable pub delete_client : Choices → String → ClientService → ServiceOutcome
unfolding drop_orphan
delete_client ch id s = elim (get_client id s.clients) [
  | err e ↦ (s, err e)
  | ok c ↦
      let r = delete_row ch.client_write id s.clients in
      let left = record s { clients = r.0 } in
      elim (r.1) [
        | err e ↦ (left, err e)
        | ok _ ↦ (drop_orphan ch.cleanup_write c.stream_profile_id left, ok tt)
      ]
]
