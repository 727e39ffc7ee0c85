-- ===== src/Store/Clients.antt =====
-- pkg/store/client.go: the store of clients, each with the rules that detect it.
use tvproxy.Base.{
  ℕ, String, Bool, ◌==◌, List, [], ◌∷◌, ◌++◌, none, some, Result, ok, err, or_fail, any, keep,
  if◌then◌else◌, find, modify, remove,
}
use tvproxy.Base.Integers.{ℤ, int_ltb, int_eq}
use tvproxy.Base.Sort.{sort}
use tvproxy.Base.Text.{text_ltb}
use tvproxy.Store.Table.{Write, Error, not_found, Table, Outcome, load as load_table, save}

pub record MatchRule : Type 0 where
  pub id : String
  pub client_id : String
  pub header_name : String
  pub match_type : String
  pub match_value : String

pub record Client : Type 0 where
  pub id : String
  pub name : String
  pub priority : ℤ
  pub listen_port : ℤ
  pub stream_profile_id : String
  pub is_enabled : Bool
  pub match_rules : List MatchRule

abbrev pub Clients : Type 0
Clients = Table Client

abbrev pub client_id : Client → String
client_id c = c.id

unfoldable pub load_clients : Clients → Outcome Client
load_clients t = load_table t

-- The order of both lists: by priority, then by name.
abbrev pub client_less : Client → Client → Bool
client_less c d =
    if int_eq c.priority d.priority then text_ltb c.name d.name else int_ltb c.priority d.priority

unfoldable pub list_clients : Clients → List Client
list_clients t = sort client_less t.rows

unfoldable pub list_enabled : Clients → List Client
list_enabled t = sort client_less (keep (λ c. c.is_enabled) t.rows)

unfoldable pub get_client : String → Clients → Result Error Client
get_client id t = or_fail (find client_id id t.rows) not_found

abbrev pub with_id : String → Client → Client
with_id fresh c = record c { id = if c.id == "" then fresh else c.id }

unfoldable pub create_row : Write Client → String → Client → Clients → Outcome Client
create_row w fresh c t = save w (record t { rows = t.rows ++ with_id fresh c ∷ [] })

-- `ListenPort` and the rules are left as they are.
abbrev pub edited : Client → Client → Client
edited new old = record old {
  name = new.name;
  priority = new.priority;
  stream_profile_id = new.stream_profile_id;
  is_enabled = new.is_enabled;
}

unfoldable pub update_row : Write Client → Client → Clients → Outcome Client
update_row w c t = elim (find client_id c.id t.rows) [
  | none ↦ (t, err not_found)
  | some _ ↦ save w (record t { rows = modify client_id c.id (edited c) t.rows })
]

unfoldable pub delete_row : Write Client → String → Clients → Outcome Client
delete_row w id t = elim (find client_id id t.rows) [
  | none ↦ (t, ok tt)
  | some _ ↦ save w (record t { rows = remove client_id id t.rows })
]

-- Rules with no identifier take one of `fresh`, the `i`-th rule the `i`-th.
abbrev pub stamped_rules : (ℕ → String) → ℕ → String → List MatchRule → List MatchRule
stamped_rules fresh i client [] = []
stamped_rules fresh i client (r ∷ rs) =
    record r { id = if r.id == "" then fresh i else r.id; client_id = client }
    ∷ stamped_rules fresh (ℕ.suc i) client rs

unfoldable pub set_match_rules :
    Write Client → (ℕ → String) → String → List MatchRule → Clients → Outcome Client
set_match_rules w fresh id rules t = elim (find client_id id t.rows) [
  | none ↦ (t, err not_found)
  | some _ ↦ save w (record t {
    rows =
        modify client_id id (λ c. record c { match_rules = stamped_rules fresh 0 id rules }) t.rows;
  })
]

unfoldable pub is_stream_profile_referenced : String → Clients → Bool
is_stream_profile_referenced profile t = any (λ c. c.stream_profile_id == profile) t.rows

-- `Clear`.
unfoldable pub clear_rows : Clients → Clients
clear_rows t = record t { rows = [] }

unfoldable pub add_direct : Client → Clients → Clients
add_direct c t = record t { rows = t.rows ++ c ∷ [] }

unfoldable pub clear_and_save : Write Client → Clients → Outcome Client
clear_and_save w t = save w (clear_rows t)
