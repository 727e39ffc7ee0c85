-- ===== src/Store/Users.antt =====
-- pkg/store/user.go: the store of users. The JSON of models.User leaves the password hash out, so
-- the store keeps it a second time beside the user, and `hydrated` puts it back.
pub mod Laws
pub mod Changes
use tvproxy.Base.{
  ℕ, String, Bool, ◌==◌, List, [], ◌∷◌, ◌++◌, map, Option, none, some, Result, ok, err, any,
  if◌then◌else◌, find, modify, remove,
}
use tvproxy.Store.Table.{
  File, Write, written, failed, holds, Error, not_found, write_failed, duplicate_name, Table,
  Outcome, load as load_table,
}

pub record User : Type 0 where
  pub id : String
  pub username : String
  pub password_hash : String
  pub is_admin : Bool
  pub invite_token : Option String
  pub invite_expires_at : Option ℕ
  pub created_at : ℕ
  pub updated_at : ℕ

pub record UserEntry : Type 0 where
  pub user : User
  pub password_hash : String
  pub group_ids : List String

abbrev pub id_of : UserEntry → String
id_of e = e.user.id

abbrev pub username_of : UserEntry → String
username_of e = e.user.username

abbrev pub Users : Type 0
Users = Table UserEntry

-- What json.MarshalIndent keeps of an entry: `PasswordHash` of the user is marked `json:"-"`.
abbrev pub encoded : UserEntry → UserEntry
encoded e = record e { user = record (e.user) { password_hash = "" } }

unfoldable pub load : Users → Outcome UserEntry
load t = load_table t

abbrev pub save : Write UserEntry → Users → Outcome UserEntry
save written t = (record t { file = holds (map encoded t.rows) }, ok tt)
save (failed left) t = (record t { file = left }, err write_failed)

-- What `Create` writes into the user that the caller passed.
unfoldable pub stamped : String → ℕ → User → User
stamped fresh now u = record u {
  id = if u.id == "" then fresh else u.id;
  created_at = now;
  updated_at = now;
}

abbrev pub entry_of : User → UserEntry
entry_of u = record { user = u; password_hash = u.password_hash; group_ids = [] }

unfoldable pub create : Write UserEntry → String → ℕ → User → Users → Outcome UserEntry
create w fresh now u t = elim (find username_of u.username t.rows) [
  | some _ ↦ (t, err duplicate_name)
  | none ↦ save w (record t { rows = t.rows ++ entry_of (stamped fresh now u) ∷ [] })
]

-- `hydrateUser`.
unfoldable pub hydrated : UserEntry → User
hydrated e = record (e.user) { password_hash = e.password_hash }

abbrev found : Option UserEntry → Result Error User
found none = err not_found
found (some e) = ok (hydrated e)

unfoldable pub get_by_id : String → Users → Result Error User
get_by_id id t = found (find id_of id t.rows)

unfoldable pub get_by_username : String → Users → Result Error User
get_by_username name t = found (find username_of name t.rows)

abbrev pub has_token : String → UserEntry → Bool
has_token token e = elim e.user.invite_token [ none ↦ Bool.false | some own ↦ own == token ]

-- The loops over the users that stop at the first that passes.
abbrev pub first : (UserEntry → Bool) → List UserEntry → Option UserEntry
first p [] = none
first p (e ∷ es) = if p e then some e else first p es

unfoldable pub get_by_invite_token : String → Users → Result Error User
get_by_invite_token token t = found (first (has_token token) t.rows)

unfoldable pub list : Users → List User
list t = map hydrated t.rows

unfoldable pub get_first_admin : Users → Result Error User
get_first_admin t = found (first (λ e. e.user.is_admin) t.rows)

abbrev pub replaced : ℕ → User → UserEntry → UserEntry
replaced now u e = record e {
  user = record u { updated_at = now; created_at = e.user.created_at };
  password_hash = u.password_hash;
}

unfoldable pub update : Write UserEntry → ℕ → User → Users → Outcome UserEntry
update w now u t = elim (find id_of u.id t.rows) [
  | none ↦ (t, err not_found)
  | some _ ↦ save w (record t { rows = modify id_of u.id (replaced now u) t.rows })
]

unfoldable pub delete : Write UserEntry → String → Users → Outcome UserEntry
delete w id t = elim (find id_of id t.rows) [
  | none ↦ (t, ok tt)
  | some _ ↦ save w (record t { rows = remove id_of id t.rows })
]

unfoldable pub get_group_ids_for_user : String → Users → Result Error (List String)
get_group_ids_for_user id t = elim (find id_of id t.rows) [
  | none ↦ err not_found
  | some e ↦ ok e.group_ids
]

unfoldable pub set_group_ids_for_user :
    Write UserEntry → String → List String → Users → Outcome UserEntry
set_group_ids_for_user w id groups t = elim (find id_of id t.rows) [
  | none ↦ (t, err not_found)
  | some _ ↦
      save w (record t { rows = modify id_of id (λ e. record e { group_ids = groups }) t.rows })
]

-- `ClearAndSave`.
unfoldable pub clear_and_save : Write UserEntry → Users → Outcome UserEntry
clear_and_save w t = save w (record t { rows = [] })
