-- ===== src/Guide.antt =====
-- pkg/store/epg.go: the store of the programme guide. Three maps index the channels' data and the
-- programmes by source, by channel and by the data that a programme belongs to.
pub mod Views
pub mod Now
pub mod Links
mod Tests
use tvproxy.Base.{
  ℕ, suc, ◌+◌, String, Bool, true, false, not, ◌&&◌, ◌==◌, List, [], ◌∷◌, ◌++◌, map, Option, none,
  some, Result, ok, err, ltb, any, length, if◌then◌else◌, remove,
}
use tvproxy.Base.Maps.{Map, lookup, put, erase, values}
use tvproxy.Base.Sort.{sort}
use tvproxy.Base.Text.{text_ltb}
use tvproxy.Store.Table.{Error, not_found, read_failed, decode_failed, write_failed}

pub record EpgData : Type 0 where
  pub id : String
  pub epg_source_id : String
  pub channel_id : String
  pub name : String
  pub icon : String

-- Times are nanoseconds. The fields that the store only carries along are left out.
pub record ProgramData : Type 0 where
  pub id : String
  pub epg_data_id : String
  pub title : String
  pub description : String
  pub start : ℕ
  pub stop : ℕ
  pub category : String

pub record GuideProgram : Type 0 where
  pub channel_id : String
  pub title : String
  pub description : String
  pub start : ℕ
  pub stop : ℕ
  pub category : String

-- The gob that `Save` writes.
pub data Snapshot : Type 0 where
  no_file bad_file bad_gob : Snapshot
  snapshot : Map EpgData → Map ProgramData → Snapshot

pub record EpgStore : Type 0 where
  pub epg_data : Map EpgData
  pub programs : Map ProgramData
  pub by_source_id : Map (List String)
  pub programs_by_epg_id : Map (List String)
  pub epg_by_channel_id : Map String
  pub revision : ℕ
  pub file : Snapshot

-- A missing key reads as no list.
abbrev pub listed_under : String → Map (List String) → List String
listed_under k m = elim (lookup k m) [ some ids ↦ ids | none ↦ [] ]

-- The rows of the keys that are there.
abbrev pub present {ℓ} : {A : Type ℓ} → Map A → List String → List A
present m [] = []
present m (k ∷ ks) =
    let rest = present m ks in elim (lookup k m) [ some a ↦ a ∷ rest | none ↦ rest ]

abbrev pub bump : EpgStore → EpgStore
bump g = record g { revision = suc g.revision }

abbrev pub erase_all {ℓ} : {A : Type ℓ} → List String → Map A → Map A
erase_all [] m = m
erase_all (k ∷ ks) m = erase_all ks (erase k m)

-- The programmes of some data, and their list.
abbrev pub drop_programs : String → EpgStore → EpgStore
drop_programs epg g = record g {
  programs = erase_all (listed_under epg g.programs_by_epg_id) g.programs;
  programs_by_epg_id = erase epg g.programs_by_epg_id;
}

abbrev same_text : String → String
same_text s = s

abbrev pub remove_from_source_index : String → String → EpgStore → EpgStore
remove_from_source_index source epg g = elim (lookup source g.by_source_id) [
  | none ↦ g
  | some ids ↦ record g { by_source_id = put source (remove same_text epg ids) g.by_source_id }
]

-- The data that the channel had before goes, with its programmes.
abbrev pub replace_old : String → EpgStore → EpgStore
replace_old channel g = elim (lookup channel g.epg_by_channel_id) [
  | none ↦ g
  | some old_id ↦
      let cleared : EpgStore = elim (lookup old_id g.epg_data) [
        | none ↦ g
        | some old ↦ drop_programs old_id (remove_from_source_index old.epg_source_id old_id g)
      ] in
      record cleared { epg_data = erase old_id cleared.epg_data }
]

abbrev pub push_under : String → String → Map (List String) → Map (List String)
push_under k id m = put k (listed_under k m ++ id ∷ []) m

abbrev pub add_epg_data : EpgData → EpgStore → EpgStore
add_epg_data d g =
    let r = replace_old d.channel_id g in
    record r {
      epg_data = put d.id d r.epg_data;
      by_source_id = push_under d.epg_source_id d.id r.by_source_id;
      epg_by_channel_id = put d.channel_id d.id r.epg_by_channel_id;
    }

-- Data with no identifier takes one of `fresh`, the `i`-th the `i`-th.
abbrev pub with_ids : (ℕ → String) → ℕ → List EpgData → List EpgData
with_ids fresh i [] = []
with_ids fresh i (d ∷ ds) =
    record d { id = if d.id == "" then fresh i else d.id } ∷ with_ids fresh (suc i) ds

abbrev pub add_each : List EpgData → EpgStore → EpgStore
add_each [] g = g
add_each (d ∷ ds) g = add_each ds (add_epg_data d g)

unfoldable pub bulk_create_epg_data : (ℕ → String) → List EpgData → EpgStore → EpgStore
bulk_create_epg_data fresh ds g = bump (add_each (with_ids fresh 0 ds) g)

abbrev add_programs : (ℕ → String) → ℕ → List ProgramData → EpgStore → EpgStore
add_programs fresh i [] g = g
add_programs fresh i (p ∷ ps) g =
    let id = if p.id == "" then fresh i else p.id in
    add_programs fresh (suc i) ps (record g {
      programs = put id (record p { id = id }) g.programs;
      programs_by_epg_id = push_under p.epg_data_id id g.programs_by_epg_id;
    })

unfoldable pub bulk_create_programs : (ℕ → String) → List ProgramData → EpgStore → EpgStore
bulk_create_programs fresh ps g = bump (add_programs fresh 0 ps g)

-- One turn of the loop of `DeleteBySourceID`.
abbrev pub delete_data : String → EpgStore → EpgStore
delete_data epg g =
    let unlinked : EpgStore = elim (lookup epg g.epg_data) [
      | none ↦ g
      | some d ↦ record g { epg_by_channel_id = erase d.channel_id g.epg_by_channel_id }
    ] in
    drop_programs epg (record unlinked { epg_data = erase epg unlinked.epg_data })

abbrev pub delete_each : List String → EpgStore → EpgStore
delete_each [] g = g
delete_each (epg ∷ ids) g = delete_each ids (delete_data epg g)

unfoldable pub delete_by_source_id : String → EpgStore → EpgStore
delete_by_source_id source g =
    let after = delete_each (listed_under source g.by_source_id) g in
    bump (record after { by_source_id = erase source after.by_source_id })

abbrev orphaned_in : List String → Map (List String) → List String
orphaned_in known [] = []
orphaned_in known ((source, ids) ∷ rows) =
    let rest = orphaned_in known rows in
    if any (λ k. k == source) known then rest else source ∷ rest

abbrev delete_sources : List String → ℕ × EpgStore → ℕ × EpgStore
delete_sources [] r = r
delete_sources (source ∷ sources) r =
    delete_sources sources
      (r.0 + length (listed_under source r.1.by_source_id), delete_by_source_id source r.1)

-- With the number of the data that are deleted.
unfoldable pub delete_orphaned_epg_data : List String → EpgStore → ℕ × EpgStore
delete_orphaned_epg_data known g = delete_sources (orphaned_in known g.by_source_id) (0, g)

unfoldable pub delete_programs_by_epg_data_id : String → EpgStore → EpgStore
delete_programs_by_epg_data_id epg g = bump (drop_programs epg g)

unfoldable pub clear_guide : EpgStore → EpgStore
clear_guide g = bump (record g {
  epg_data = [];
  programs = [];
  by_source_id = [];
  programs_by_epg_id = [];
  epg_by_channel_id = [];
})

unfoldable pub save_guide : Bool → EpgStore → EpgStore × Result Error (Unit {0})
save_guide true g = (record g { file = snapshot g.epg_data g.programs }, ok tt)
save_guide false g = (g, err write_failed)

abbrev pub link_sources : Map EpgData → Map (List String) → Map (List String)
link_sources [] m = m
link_sources ((id, d) ∷ rows) m = link_sources rows (push_under d.epg_source_id id m)

abbrev pub link_channels : Map EpgData → Map String → Map String
link_channels [] m = m
link_channels ((id, d) ∷ rows) m = link_channels rows (put d.channel_id id m)

abbrev link_programs : Map ProgramData → Map (List String) → Map (List String)
link_programs [] m = m
link_programs ((id, p) ∷ rows) m = link_programs rows (push_under p.epg_data_id id m)

abbrev load_from : Snapshot → EpgStore → EpgStore × Result Error (Unit {0})
load_from no_file g = (g, ok tt)
load_from bad_file g = (g, err read_failed)
load_from bad_gob g = (g, err decode_failed)
load_from (snapshot data_rows program_rows) g = (
  bump (record g {
    epg_data = data_rows;
    programs = program_rows;
    by_source_id = link_sources data_rows [];
    programs_by_epg_id = link_programs program_rows [];
    epg_by_channel_id = link_channels data_rows [];
  }),
  ok tt,
)

unfoldable pub load_guide : EpgStore → EpgStore × Result Error (Unit {0})
load_guide g = load_from g.file g
