-- ===== src/Streams/Dropping.antt =====
-- pkg/store/stream_indexed.go: the deletions of the indexed store. They touch the index alone; the
-- records stay until the next save.
use tvproxy.Base.{suc, String, Bool, not, ◌&&◌, ◌==◌, List, [], any, keep}
use tvproxy.Base.Maps.{erase, keys}
use tvproxy.Streams.Plain.{bump_if_any}
use tvproxy.Streams.Entries.{StreamIndex, IndexedStore}

abbrev pub drop_where : (String × StreamIndex → Bool) → IndexedStore → IndexedStore × List String
drop_where gone s =
    let deleted = keys (keep gone s.index) in
    (
      record s {
        index = keep (λ r. not (gone r)) s.index;
        revision = bump_if_any deleted s.revision;
      },
      deleted,
    )

unfoldable pub drop_stale :
    (StreamIndex → String) → String → List String → IndexedStore → IndexedStore × List String
drop_stale source id keep_ids s =
    drop_where (λ r. source (r.1) == id && not (any (λ k. k == r.0) keep_ids)) s

unfoldable pub drop_by : (StreamIndex → String) → String → IndexedStore → IndexedStore
drop_by source id s = record s {
  index = keep (λ r. not (source (r.1) == id)) s.index;
  revision = suc s.revision;
}

unfoldable pub drop_orphaned :
    (StreamIndex → String) → List String → IndexedStore → IndexedStore × List String
drop_orphaned source known s =
    drop_where (λ r. not (source (r.1) == "") && not (any (λ k. k == source (r.1)) known)) s

unfoldable pub drop_one : String → IndexedStore → IndexedStore
drop_one id s = record s { index = erase id s.index; revision = suc s.revision }

unfoldable pub clear_indexed : IndexedStore → IndexedStore
clear_indexed s = record s { index = []; bytes = []; revision = suc s.revision }

abbrev pub drop_stale_by_account_id :
    String → List String → IndexedStore → IndexedStore × List String
drop_stale_by_account_id id keep_ids s = drop_stale (λ x. x.m3u_account_id) id keep_ids s

abbrev pub drop_by_account_id : String → IndexedStore → IndexedStore
drop_by_account_id id s = drop_by (λ x. x.m3u_account_id) id s

abbrev pub drop_orphaned_m3u_streams : List String → IndexedStore → IndexedStore × List String
drop_orphaned_m3u_streams known s = drop_orphaned (λ x. x.m3u_account_id) known s

abbrev pub drop_stale_by_satip_source_id :
    String → List String → IndexedStore → IndexedStore × List String
drop_stale_by_satip_source_id id keep_ids s = drop_stale (λ x. x.satip_source_id) id keep_ids s

abbrev pub drop_by_satip_source_id : String → IndexedStore → IndexedStore
drop_by_satip_source_id id s = drop_by (λ x. x.satip_source_id) id s

abbrev pub drop_orphaned_satip_streams : List String → IndexedStore → IndexedStore × List String
drop_orphaned_satip_streams known s = drop_orphaned (λ x. x.satip_source_id) known s

abbrev pub drop_stale_by_hdhr_source_id :
    String → List String → IndexedStore → IndexedStore × List String
drop_stale_by_hdhr_source_id id keep_ids s = drop_stale (λ x. x.hdhr_source_id) id keep_ids s

abbrev pub drop_by_hdhr_source_id : String → IndexedStore → IndexedStore
drop_by_hdhr_source_id id s = drop_by (λ x. x.hdhr_source_id) id s

abbrev pub drop_orphaned_hdhr_streams : List String → IndexedStore → IndexedStore × List String
drop_orphaned_hdhr_streams known s = drop_orphaned (λ x. x.hdhr_source_id) known s
