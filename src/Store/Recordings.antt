-- ===== src/Store/Recordings.antt =====
-- pkg/store/scheduled_recording.go: the store of scheduled recordings. Times are nanoseconds as
-- numbers; `now` is what time.Now() returns and `fresh` what uuid.New() returns in the call.
pub mod Laws
use tvproxy.Base.{
  ℕ, String, Bool, not, ◌&&◌, ◌||◌, ◌==◌, List, [], ◌∷◌, ◌++◌, Option, none, some, Result, ok, err,
  ltb, if◌then◌else◌, keep, find, modify, remove,
}
use tvproxy.Store.Table.{File, Write, Error, not_found, Table, Outcome, load as load_table, save}

pub record Recording : Type 0 where
  pub id : String
  pub user_id : String
  pub channel_id : String
  pub channel_name : String
  pub program_title : String
  pub start_at : ℕ
  pub stop_at : ℕ
  pub status : String
  pub session_id : String
  pub segment_id : String
  pub file_path : String
  pub last_error : String
  pub created_at : ℕ
  pub updated_at : ℕ

abbrev pub id_of : Recording → String
id_of r = r.id

abbrev pub Recordings : Type 0
Recordings = Table Recording

unfoldable pub load : Recordings → Outcome Recording
load t = load_table t

-- What `Create` writes into the record that the caller passed.
unfoldable pub stamped : String → ℕ → Recording → Recording
stamped fresh now r = record r {
  id = if r.id == "" then fresh else r.id;
  status = if r.status == "" then "pending" else r.status;
  created_at = now;
  updated_at = now;
}

unfoldable pub create : Write Recording → String → ℕ → Recording → Recordings → Outcome Recording
create w fresh now r t = save w (record t { rows = t.rows ++ stamped fresh now r ∷ [] })

unfoldable pub get_by_id : String → Recordings → Result Error Recording
get_by_id id t = elim (find id_of id t.rows) [ none ↦ err not_found | some r ↦ ok r ]

unfoldable pub list : Recordings → List Recording
list t = t.rows

unfoldable pub list_by_user_id : String → Recordings → List Recording
list_by_user_id user t = keep (λ r. r.user_id == user) t.rows

unfoldable pub list_pending : ℕ → Recordings → List Recording
list_pending before t = keep (λ r. r.status == "pending" && not (ltb before r.start_at)) t.rows

unfoldable pub list_by_status : String → Recordings → List Recording
list_by_status status t = keep (λ r. r.status == status) t.rows

unfoldable pub is_excluded : String → Bool
is_excluded s = s == "cancelled" || s == "failed" || s == "completed"

-- The three tests of the loop of `ListByChannelAndTimeRange`.
unfoldable pub clashes : String → String → ℕ → ℕ → Recording → Bool
clashes channel user start stop r =
    r.channel_id == channel
    && r.user_id == user
    && not (is_excluded r.status)
    && ltb r.start_at stop
    && ltb start r.stop_at

unfoldable pub list_by_channel_and_time_range :
    String → String → ℕ → ℕ → Recordings → List Recording
list_by_channel_and_time_range channel user start stop t =
    keep (clashes channel user start stop) t.rows

unfoldable pub update_field :
    Write Recording → ℕ → String → (Recording → Recording) → Recordings → Outcome Recording
update_field w now id f t = elim (find id_of id t.rows) [
  | none ↦ (t, err not_found)
  | some _ ↦
      save w (record t { rows = modify id_of id (λ r. record (f r) { updated_at = now }) t.rows })
]

abbrev pub with_status : String → String → Recording → Recording
with_status status last_error r = record r { status = status; last_error = last_error }

unfoldable pub update_status :
    Write Recording → ℕ → String → String → String → Recordings → Outcome Recording
unfolding update_field
update_status w now id status last_error t = update_field w now id (with_status status last_error) t

unfoldable pub update_recording_state :
    Write Recording → ℕ → String → String → String → Recordings → Outcome Recording
unfolding update_field
update_recording_state w now id session segment t =
    update_field w now id (λ r. record r { session_id = session; segment_id = segment }) t

unfoldable pub delete : Write Recording → String → Recordings → Outcome Recording
delete w id t = elim (find id_of id t.rows) [
  | none ↦ (t, ok tt)
  | some _ ↦ save w (record t { rows = remove id_of id t.rows })
]

-- `ClearAndSave`.
unfoldable pub clear_and_save : Write Recording → Recordings → Outcome Recording
clear_and_save w t = save w (record t { rows = [] })
