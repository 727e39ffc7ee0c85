-- ===== src/Store/Channels.antt =====
-- pkg/store/channel.go: the store of channels, each with the streams that are assigned to it.
pub mod Laws
mod Tests
use tvproxy.Base.{
  ℕ, suc, String, Bool, true, false, not, ◌&&◌, ◌||◌, ◌==◌, List, [], ◌∷◌, ◌++◌, map, Option, none,
  some, Result, ok, err, ltb, if◌then◌else◌, keep, any, length, find, modify, remove,
}
use Prim.Native.String as TextData
use tvproxy.Base.Sort.{sort}
use tvproxy.Base.Text.{lower, text_ltb}
use tvproxy.Store.Table.{Write, Error, not_found, Table, Outcome, load as load_table, save}

pub record Channel : Type 0 where
  pub id : String
  pub user_id : String
  pub name : String
  pub logo_id : Option String
  pub logo : String
  pub tvg_id : String
  pub channel_group_id : Option String
  pub stream_profile_id : Option String
  pub fail_count : ℕ
  pub is_enabled : Bool
  pub created_at : ℕ
  pub updated_at : ℕ

pub record ChannelStream : Type 0 where
  pub id : String
  pub channel_id : String
  pub stream_id : String
  pub priority : ℕ

pub record ChannelEntry : Type 0 where
  pub channel : Channel
  pub stream_ids : List ChannelStream

abbrev pub id_of : ChannelEntry → String
id_of e = e.channel.id

abbrev pub Channels : Type 0
Channels = Table ChannelEntry

unfoldable pub load : Channels → Outcome ChannelEntry
load t = load_table t

-- `Create`; `named` is uuid.NewSHA1 of the channel namespace, applied to "name:user".
unfoldable pub create :
    (String → String) → Write ChannelEntry → ℕ → Channel → Channels → Outcome ChannelEntry
create named w now ch t = save w (record t { rows = t.rows ++ entry ∷ [] })
  where
    entry : ChannelEntry
    entry = record {
      channel = record ch {
        id = named (TextData.◌++◌ ch.name (TextData.◌++◌ ":" ch.user_id));
        created_at = now;
        updated_at = now;
      };
      stream_ids = [];
    }

unfoldable pub get_by_id : String → Channels → Result Error Channel
get_by_id id t = elim (find id_of id t.rows) [ none ↦ err not_found | some e ↦ ok e.channel ]

-- `GetByIDLite`: the four fields that its callers read.
pub record ChannelLite : Type 0 where
  pub id : String
  pub name : String
  pub is_enabled : Bool
  pub stream_profile_id : Option String

unfoldable pub get_by_id_lite : String → Channels → Result Error ChannelLite
get_by_id_lite id t = elim (find id_of id t.rows) [
  | none ↦ err not_found
  | some e ↦
      let ch = e.channel in
      ok (record {
        id = ch.id;
        name = ch.name;
        is_enabled = ch.is_enabled;
        stream_profile_id = ch.stream_profile_id;
      })
]

unfoldable pub get_by_id_for_user : String → String → Channels → Result Error Channel
get_by_id_for_user id user t = elim (find id_of id t.rows) [
  | none ↦ err not_found
  | some e ↦ if e.channel.user_id == user then ok e.channel else err not_found
]

abbrev name_less : Channel → Channel → Bool
name_less a b = text_ltb (lower a.name) (lower b.name)

unfoldable pub list : Channels → List Channel
list t = sort name_less (map (λ e. e.channel) t.rows)

unfoldable pub list_by_user_id : String → Channels → List Channel
list_by_user_id user t =
    sort name_less (keep (λ c. c.user_id == user) (map (λ e. e.channel) t.rows))

abbrev replaced : ℕ → Channel → ChannelEntry → ChannelEntry
replaced now ch e = record e {
  channel = record ch { updated_at = now; created_at = e.channel.created_at };
}

unfoldable pub update : Write ChannelEntry → ℕ → Channel → Channels → Outcome ChannelEntry
update w now ch t = elim (find id_of ch.id t.rows) [
  | none ↦ (t, err not_found)
  | some _ ↦ save w (record t { rows = modify id_of ch.id (replaced now ch) t.rows })
]

unfoldable pub update_for_user :
    Write ChannelEntry → ℕ → Channel → String → Channels → Outcome ChannelEntry
update_for_user w now ch user t = elim (find id_of ch.id t.rows) [
  | none ↦ (t, err not_found)
  | some e ↦
      if e.channel.user_id == user
      then save w (record t { rows = modify id_of ch.id (replaced now ch) t.rows })
      else (t, err not_found)
]

unfoldable pub delete : Write ChannelEntry → String → Channels → Outcome ChannelEntry
delete w id t = elim (find id_of id t.rows) [
  | none ↦ (t, ok tt)
  | some _ ↦ save w (record t { rows = remove id_of id t.rows })
]

unfoldable pub delete_for_user :
    Write ChannelEntry → String → String → Channels → Outcome ChannelEntry
delete_for_user w id user t = elim (find id_of id t.rows) [
  | none ↦ (t, ok tt)
  | some e ↦
      if e.channel.user_id == user
      then save w (record t { rows = remove id_of id t.rows })
      else (t, ok tt)
]

-- The loop of `AssignStreams`; `fresh i` is the i-th new identifier. A missing priority is a panic.
unfoldable pub assigned :
    (ℕ → String) → String → ℕ → List String → List ℕ → Option (List ChannelStream)
assigned fresh channel i [] ps = some []
assigned fresh channel i (s ∷ ss) [] = none
assigned fresh channel i (s ∷ ss) (p ∷ ps) = elim (assigned fresh channel (suc i) ss ps) [
  | none ↦ none
  | some rest ↦
      some (record { id = fresh i; channel_id = channel; stream_id = s; priority = p } ∷ rest)
]

-- `none` is the panic of an index out of range.
unfoldable pub assign_streams :
    Write ChannelEntry
    → (ℕ → String)
    → String
    → List String
    → List ℕ
    → Channels
    → Option (Outcome ChannelEntry)
unfolding assigned
assign_streams w fresh id streams priorities t = elim (find id_of id t.rows) [
  | none ↦ some (t, err not_found)
  | some _ ↦ elim (assigned fresh id 0 streams priorities) [
    | none ↦ none
    | some cs ↦
        some
          (save w (record t { rows = modify id_of id (λ e. record e { stream_ids = cs }) t.rows }))
  ]
]

unfoldable pub get_streams : String → Channels → Result Error (List ChannelStream)
get_streams id t = elim (find id_of id t.rows) [
  | none ↦ err not_found
  | some e ↦ ok (sort (λ a b. ltb a.priority b.priority) e.stream_ids)
]

abbrev set_fail_count : (ℕ → ℕ) → ChannelEntry → ChannelEntry
set_fail_count f e = record e {
  channel = record (e.channel) { fail_count = f e.channel.fail_count };
}

unfoldable pub increment_fail_count : Write ChannelEntry → String → Channels → Outcome ChannelEntry
increment_fail_count w id t = elim (find id_of id t.rows) [
  | none ↦ (t, err not_found)
  | some _ ↦ save w (record t { rows = modify id_of id (set_fail_count suc) t.rows })
]

unfoldable pub reset_fail_count : Write ChannelEntry → String → Channels → Outcome ChannelEntry
reset_fail_count w id t = elim (find id_of id t.rows) [
  | none ↦ (t, err not_found)
  | some _ ↦ save w (record t { rows = modify id_of id (set_fail_count (λ _. 0)) t.rows })
]

-- One channel in the loop of `RemoveStreamMappings`.
abbrev pub unmapped : (String → Bool) → ChannelEntry → ChannelEntry
unmapped gone e = record e { stream_ids = keep (λ cs. not (gone cs.stream_id)) e.stream_ids }

abbrev pub is_empty {ℓ} : {A : Type ℓ} → List A → Bool
is_empty [] = true
is_empty (_ ∷ _) = false

-- The channel had streams and has none left, so it is dropped.
abbrev pub orphaned : (String → Bool) → ChannelEntry → Bool
orphaned gone e = not (is_empty e.stream_ids) && is_empty (unmapped gone e).stream_ids

abbrev pub touched : (String → Bool) → ChannelEntry → Bool
touched gone e = any (λ cs. gone cs.stream_id) e.stream_ids

abbrev listed : List String → String → Bool
listed ids s = any (λ i. i == s) ids

unfoldable pub remove_stream_mappings :
    Write ChannelEntry → List String → Channels → Outcome ChannelEntry
remove_stream_mappings w [] t = (t, ok tt)
remove_stream_mappings w (i ∷ is) t =
    if any (touched (listed (i ∷ is))) t.rows
    then save w (record t {
      rows =
          map (unmapped (listed (i ∷ is))) (keep (λ e. not (orphaned (listed (i ∷ is)) e)) t.rows);
    })
    else (t, ok tt)

-- `ClearAndSave`.
unfoldable pub clear_and_save : Write ChannelEntry → Channels → Outcome ChannelEntry
clear_and_save w t = save w (record t { rows = [] })
