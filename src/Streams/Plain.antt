-- ===== src/Streams/Plain.antt =====
-- pkg/store/stream.go: the store of streams in one map, saved whole.
use tvproxy.Base.{
  ℕ, suc, String, Bool, true, false, not, ◌&&◌, ◌==◌, List, [], ◌∷◌, map, Option, none, some,
  Result, ok, err, ltb, nat_eq, any, keep, if◌then◌else◌,
}
use tvproxy.Base.Integers.{ℤ, pos}
use tvproxy.Base.Maps.{Map, lookup, put, erase, values, keys}
use tvproxy.Base.Sort.{sort}
use tvproxy.Base.Text.{text_ltb}
use tvproxy.Store.Table.{
  File, absent, unreadable, malformed, holds, Error, not_found, read_failed, decode_failed,
  write_failed,
}
use tvproxy.Streams.{Stream, StreamSummary, is_positive}

-- The file is a gob of the map.
pub record StreamStore : Type 0 where
  pub items : Map Stream
  pub revision : ℕ
  pub file : File (String × Stream)

abbrev pub earlier : Stream → Stream → Bool
earlier s t = ltb s.created_at t.created_at

abbrev pub by_name : Stream → Stream → Bool
by_name s t = text_ltb s.name t.name

unfoldable pub list : StreamStore → List Stream
list s = sort earlier (values s.items)

-- The HDHR source and the TMDB identifier are left at their zero values.
abbrev pub summary : Stream → StreamSummary
summary st = record {
  id = st.id;
  m3u_account_id = st.m3u_account_id;
  satip_source_id = st.satip_source_id;
  hdhr_source_id = "";
  name = st.name;
  group = st.group;
  logo = st.logo;
  vod_type = st.vod_type;
  vod_series = st.vod_series;
  vod_season = st.vod_season;
  vod_season_name = st.vod_season_name;
  vod_episode = st.vod_episode;
  vod_year = st.vod_year;
  tmdb_id = pos 0;
}

unfoldable pub list_summaries : StreamStore → List StreamSummary
list_summaries s = map summary (sort by_name (values s.items))

-- The three lists by a source are one loop over another field.
unfoldable pub list_by : (Stream → String) → String → StreamStore → List Stream
list_by source id s = sort earlier (keep (λ st. source st == id) (values s.items))

abbrev pub list_by_account_id : String → StreamStore → List Stream
list_by_account_id id s = list_by (λ st. st.m3u_account_id) id s

abbrev pub list_by_satip_source_id : String → StreamStore → List Stream
list_by_satip_source_id id s = list_by (λ st. st.satip_source_id) id s

abbrev pub list_by_hdhr_source_id : String → StreamStore → List Stream
list_by_hdhr_source_id id s = list_by (λ st. st.hdhr_source_id) id s

unfoldable pub list_by_vod_type : String → StreamStore → List Stream
list_by_vod_type kind s = sort by_name (keep (λ st. st.vod_type == kind) (values s.items))

unfoldable pub get_by_id : String → StreamStore → Result Error Stream
get_by_id id s = elim (lookup id s.items) [ some st ↦ ok st | none ↦ err not_found ]

abbrev pub or_old : String → String → String
or_old new old = if new == "" && not (old == "") then old else new

-- What an upsert takes over from the stream that is there.
abbrev pub merged :
    (created_at : ℕ) (tmdb_id : ℤ) (tmdb_manual : Bool) (cache_type language vod_type : String)
    → Stream
    → Stream
merged created_at tmdb_id tmdb_manual cache_type language vod_type st = record st {
  created_at = created_at;
  tmdb_id = if is_positive tmdb_id then tmdb_id else st.tmdb_id;
  tmdb_manual = if is_positive tmdb_id then tmdb_manual else st.tmdb_manual;
  cache_type = or_old st.cache_type cache_type;
  language = or_old st.language language;
  vod_type = or_old st.vod_type vod_type;
}

abbrev pub merged_with : ℕ → Option Stream → Stream → Stream
merged_with now none st = record st { created_at = now }
merged_with now (some e) st =
    merged e.created_at e.tmdb_id e.tmdb_manual e.cache_type e.language e.vod_type st

abbrev pub upserted : ℕ → List Stream → Map Stream → Map Stream
upserted now [] items = items
upserted now (st ∷ sts) items =
    upserted now sts
      (put st.id (record (merged_with now (lookup st.id items) st) { updated_at = now }) items)

unfoldable pub bulk_upsert : ℕ → List Stream → StreamStore → StreamStore
bulk_upsert now sts s = record s { items = upserted now sts s.items; revision = suc s.revision }

-- The rows that a deletion leaves and the keys it deletes; the revision moves only when there are any.
abbrev pub bump_if_any : List String → ℕ → ℕ
bump_if_any [] revision = revision
bump_if_any (k ∷ ks) revision = suc revision

abbrev pub delete_where : (String × Stream → Bool) → StreamStore → StreamStore × List String
delete_where gone s =
    let deleted = keys (keep gone s.items) in
    (
      record s {
        items = keep (λ r. not (gone r)) s.items;
        revision = bump_if_any deleted s.revision;
      },
      deleted,
    )

-- Of one source, and not to be kept.
unfoldable pub delete_stale :
    (Stream → String) → String → List String → StreamStore → StreamStore × List String
delete_stale source id keep_ids s =
    delete_where (λ r. source (r.1) == id && not (any (λ k. k == r.0) keep_ids)) s

unfoldable pub delete_by : (Stream → String) → String → StreamStore → StreamStore
delete_by source id s = record s {
  items = keep (λ r. not (source (r.1) == id)) s.items;
  revision = suc s.revision;
}

-- Of a source that is not known any more; streams of no source of that kind stay.
unfoldable pub delete_orphaned :
    (Stream → String) → List String → StreamStore → StreamStore × List String
delete_orphaned source known s =
    delete_where (λ r. not (source (r.1) == "") && not (any (λ k. k == source (r.1)) known)) s

abbrev pub delete_stale_by_account_id :
    String → List String → StreamStore → StreamStore × List String
delete_stale_by_account_id id keep_ids s = delete_stale (λ st. st.m3u_account_id) id keep_ids s

abbrev pub delete_by_account_id : String → StreamStore → StreamStore
delete_by_account_id id s = delete_by (λ st. st.m3u_account_id) id s

abbrev pub delete_by_satip_source_id : String → StreamStore → StreamStore
delete_by_satip_source_id id s = delete_by (λ st. st.satip_source_id) id s

abbrev pub delete_stale_by_satip_source_id :
    String → List String → StreamStore → StreamStore × List String
delete_stale_by_satip_source_id id keep_ids s =
    delete_stale (λ st. st.satip_source_id) id keep_ids s

abbrev pub delete_orphaned_m3u_streams : List String → StreamStore → StreamStore × List String
delete_orphaned_m3u_streams known s = delete_orphaned (λ st. st.m3u_account_id) known s

abbrev pub delete_orphaned_satip_streams : List String → StreamStore → StreamStore × List String
delete_orphaned_satip_streams known s = delete_orphaned (λ st. st.satip_source_id) known s

abbrev pub delete_by_hdhr_source_id : String → StreamStore → StreamStore
delete_by_hdhr_source_id id s = delete_by (λ st. st.hdhr_source_id) id s

abbrev pub delete_stale_by_hdhr_source_id :
    String → List String → StreamStore → StreamStore × List String
delete_stale_by_hdhr_source_id id keep_ids s = delete_stale (λ st. st.hdhr_source_id) id keep_ids s

abbrev pub delete_orphaned_hdhr_streams : List String → StreamStore → StreamStore × List String
delete_orphaned_hdhr_streams known s = delete_orphaned (λ st. st.hdhr_source_id) known s

unfoldable pub delete : String → StreamStore → StreamStore
delete id s = record s { items = erase id s.items; revision = suc s.revision }

abbrev pub update_where : (Stream → Bool) → (Stream → Stream) → Map Stream → Map Stream
update_where p f [] = []
update_where p f ((k, st) ∷ rows) = (k, if p st then f st else st) ∷ update_where p f rows

unfoldable pub update_wireguard_by_account_id : String → Bool → StreamStore → StreamStore
update_wireguard_by_account_id id flag s = record s {
  items =
      update_where (λ st. st.m3u_account_id == id) (λ st. record st { use_wireguard = flag })
        s.items;
}

-- An update of one stream.
abbrev pub update_one :
    String → (Stream → Stream) → StreamStore → StreamStore × Result Error (Unit {0})
update_one id f s = elim (lookup id s.items) [
  | none ↦ (s, err not_found)
  | some st ↦ (record s { items = put id (f st) s.items }, ok tt)
]

unfoldable pub update_tmdb_id : ℕ → String → ℤ → StreamStore → StreamStore × Result Error (Unit {0})
update_tmdb_id now id tmdb s =
    update_one id (λ st. record st { tmdb_id = tmdb; updated_at = now }) s

unfoldable pub set_tmdb_manual :
    ℕ → String → ℤ → StreamStore → StreamStore × Result Error (Unit {0})
set_tmdb_manual now id tmdb s =
    update_one id (λ st. record st { tmdb_id = tmdb; tmdb_manual = true; updated_at = now }) s

abbrev pub has_auto_tmdb : String → String → ℤ → Bool → Bool
has_auto_tmdb id account tmdb manual = account == id && is_positive tmdb && not manual

unfoldable pub clear_auto_tmdb_by_account_id : String → StreamStore → StreamStore
clear_auto_tmdb_by_account_id id s = record s {
  items =
      update_where (λ st. has_auto_tmdb id st.m3u_account_id st.tmdb_id st.tmdb_manual)
        (λ st. record st { tmdb_id = pos 0 }) s.items;
}

abbrev unless_set : String → String → String
unless_set old new = if not (new == "") && old == "" then new else old

abbrev pub probed : ℕ → String → String → Stream → Stream
probed duration vcodec acodec st = record st {
  vod_duration = if ltb 0 duration && nat_eq st.vod_duration 0 then duration else st.vod_duration;
  vod_vcodec = unless_set st.vod_vcodec vcodec;
  vod_acodec = unless_set st.vod_acodec acodec;
}

unfoldable pub update_stream_probe_data :
    ℕ → String → ℕ → String → String → StreamStore → StreamStore × Result Error (Unit {0})
update_stream_probe_data now id duration vcodec acodec s =
    update_one id (λ st. record (probed duration vcodec acodec st) { updated_at = now }) s

unfoldable pub clear : StreamStore → StreamStore
clear s = record s { items = []; revision = suc s.revision }

-- `saveGob` writes a temporary file and renames it, so a failed save leaves the old file.
unfoldable pub save : Bool → StreamStore → StreamStore × Result Error (Unit {0})
save true s = (record s { file = holds s.items }, ok tt)
save false s = (s, err write_failed)

abbrev load_from : File (String × Stream) → StreamStore → StreamStore × Result Error (Unit {0})
load_from absent s = (s, ok tt)
load_from unreadable s = (s, err read_failed)
load_from malformed s = (s, err decode_failed)
load_from (holds items) s = (record s { items = items; revision = suc s.revision }, ok tt)

unfoldable pub load : StreamStore → StreamStore × Result Error (Unit {0})
load s = load_from s.file s
