-- ===== src/Store/Profiles.antt =====
-- pkg/store/profile.go: the store of stream profiles.
use tvproxy.Base.{
  ℕ, String, Bool, true, false, not, ◌&&◌, ◌==◌, List, [], ◌∷◌, ◌++◌, map, Option, none, some,
  Result, ok, err, or_fail, ltb, nat_eq, any, keep, if◌then◌else◌, find, modify, remove,
}
use tvproxy.Base.Sort.{sort}
use tvproxy.Base.Text.{text_ltb}
use tvproxy.Store.Table.{
  File, holds, Write, Error, not_found, read_failed, decode_failed, duplicate_name, Table, Outcome,
  save,
}

pub record StreamProfile : Type 0 where
  pub id : String
  pub name : String
  pub stream_mode : String
  pub hw_accel : String
  pub video_codec : String
  pub container : String
  pub delivery : String
  pub command : String
  pub auto_detect : Bool
  pub is_default : Bool
  pub is_system : Bool
  pub is_client : Bool

abbrev pub Profiles : Type 0
Profiles = Table StreamProfile

abbrev pub profile_id : StreamProfile → String
profile_id p = p.id

abbrev pub profile_name : StreamProfile → String
profile_name p = p.name

-- The migration of `Load`.
abbrev pub is_old_browser : StreamProfile → Bool
is_old_browser p = p.name == "Browser" && p.is_client && p.delivery == ""

abbrev pub migrated : StreamProfile → StreamProfile
migrated p = if is_old_browser p then record p { delivery = "mse" } else p

abbrev load_from : Write StreamProfile → File StreamProfile → Profiles → Outcome StreamProfile
load_from w File.absent t = (record t { rows = [] }, ok tt)
load_from w File.unreadable t = (t, err read_failed)
load_from w File.malformed t = (t, err decode_failed)
load_from w (holds rows) t =
    let loaded = record t { rows = map migrated rows } in
    if any is_old_browser rows then ((save w loaded).0, ok tt) else (loaded, ok tt)

-- `Load`; what the save of migrated profiles returns is dropped.
unfoldable pub load_profiles : Write StreamProfile → Profiles → Outcome StreamProfile
load_profiles w t = load_from w t.file t

abbrev pub sort_category : StreamProfile → ℕ
sort_category p = if p.is_system then 0 else if p.is_client then 1 else 2

abbrev profile_less : StreamProfile → StreamProfile → Bool
profile_less p q =
    if nat_eq (sort_category p) (sort_category q)
    then text_ltb p.name q.name
    else ltb (sort_category p) (sort_category q)

unfoldable pub list_profiles : Profiles → List StreamProfile
list_profiles t = sort profile_less t.rows

unfoldable pub get_profile : String → Profiles → Result Error StreamProfile
get_profile id t = or_fail (find profile_id id t.rows) not_found

unfoldable pub get_profile_by_name : String → Profiles → Result Error StreamProfile
get_profile_by_name name t = or_fail (find profile_name name t.rows) not_found

abbrev first_default : List StreamProfile → Option StreamProfile
first_default [] = none
first_default (p ∷ ps) = if p.is_default then some p else first_default ps

unfoldable pub get_default : Profiles → Result Error StreamProfile
get_default t = or_fail (first_default t.rows) not_found

abbrev pub with_profile_id : String → StreamProfile → StreamProfile
with_profile_id fresh p = record p { id = if p.id == "" then fresh else p.id }

-- `Create`, with the profile as the caller sees it afterwards: its identifier is set in place.
unfoldable pub create_profile :
    Write StreamProfile → String → StreamProfile → Profiles → Outcome StreamProfile
create_profile w fresh p t = elim (find profile_name p.name t.rows) [
  | some _ ↦ (t, err duplicate_name)
  | none ↦ save w (record t { rows = t.rows ++ with_profile_id fresh p ∷ [] })
]

unfoldable pub update_profile :
    Write StreamProfile → StreamProfile → Profiles → Outcome StreamProfile
update_profile w p t = elim (find profile_id p.id t.rows) [
  | none ↦ (t, err not_found)
  | some _ ↦ save w (record t { rows = modify profile_id p.id (λ _. p) t.rows })
]

unfoldable pub delete_profile : Write StreamProfile → String → Profiles → Outcome StreamProfile
delete_profile w id t = elim (find profile_id id t.rows) [
  | none ↦ (t, ok tt)
  | some _ ↦ save w (record t { rows = remove profile_id id t.rows })
]

abbrev pub direct_profile : StreamProfile
direct_profile = record {
  id = "";
  name = "Direct";
  stream_mode = "direct";
  hw_accel = "none";
  video_codec = "copy";
  container = "mpegts";
  delivery = "";
  command = "";
  auto_detect = false;
  is_default = false;
  is_system = true;
  is_client = false;
}

abbrev pub proxy_profile : StreamProfile
proxy_profile = record direct_profile { name = "Proxy"; stream_mode = "proxy"; is_default = true }

abbrev has_system : List StreamProfile → String → Bool
has_system ps name = any (λ p. p.is_system && p.name == name) ps

-- One turn of the loop of `SeedSystemProfiles`; `had` is the rows before the first turn.
abbrev pub seed_one :
    List StreamProfile → String → StreamProfile → List StreamProfile → List StreamProfile
seed_one had fresh sp rows =
    if has_system had sp.name then rows else rows ++ record sp { id = fresh } ∷ []

unfoldable pub seed_system_profiles : String → String → Profiles → Profiles
seed_system_profiles first second t = record t {
  rows = seed_one t.rows second proxy_profile (seed_one t.rows first direct_profile t.rows);
}

unfoldable pub remove_client_profiles : Profiles → Profiles
remove_client_profiles t = record t { rows = keep (λ p. not p.is_client) t.rows }

unfoldable pub create_direct : StreamProfile → Profiles → Profiles
create_direct p t = record t { rows = t.rows ++ p ∷ [] }

unfoldable pub clear_profiles : Write StreamProfile → Profiles → Outcome StreamProfile
clear_profiles w t = save w (record t { rows = [] })
