-- ===== src/Streams/Tests.antt =====
-- The stores with two streams: the witnesses of the theorems, and runs of the plain store.
use tvproxy.Base.{◌≡◌, refl, true, List, [], ◌∷◌, map, none, ok}
use tvproxy.Base.Integers.{pos}
use tvproxy.Store.Table.{absent}
use tvproxy.Streams.{Stream}
use tvproxy.Streams.Codec.Marshal.{
  marshal, unmarshal, unmarshal-marshal, marshal-nonempty, news, marshal-news,
}
use tvproxy.Streams.Plain.{
  StreamStore, list, list_by, list_by_vod_type, get_by_id, bulk_upsert, update_tmdb_id,
  delete_stale_by_account_id, delete_stale, list_summaries, update_wireguard_by_account_id,
  clear_auto_tmdb_by_account_id,
}
use tvproxy.Streams.Entries.{IndexedStore}
use tvproxy.Streams.Indexed.{
  list_indexed, list_indexed_by, list_indexed_by_vod_type, get_indexed, save_indexed, load_indexed,
  list_indexed_summaries,
}
use tvproxy.Streams.Refinement.{Implements}
use tvproxy.Streams.Restart.{IsKeyed, AllShort, load_indexed-save_indexed}
use tvproxy.Streams.Identifiers.{stream_calls-AreKeyed}
use tvproxy.Streams.Steps.{
  Operation, upsert, remove_stale, set_tmdb, save_all, m3u, source_of, source_of_index, plain_step,
  indexed_step,
}
use tvproxy.Streams.Simulation.{indexed_step-Implements}
use tvproxy.Streams.Queries.{
  plain_part, list_indexed-list, plain_run, indexed_run, indexed_run-Implements,
}

abbrev film : Stream
film = record news { id = "s2"; name = "Film"; vod_type = "movie" }

abbrev empty_plain : StreamStore
empty_plain = record { items = []; revision = 0; file = absent }

abbrev empty_indexed : IndexedStore
empty_indexed = record { index = []; revision = 0; bytes = []; data_file = none }

abbrev both_empty : Implements marshal unmarshal empty_indexed empty_plain
both_empty = (tt, refl)

abbrev calls : List Operation
calls =
    upsert 5 (news ∷ film ∷ [])
    ∷ set_tmdb 6 "s2" (pos 42)
    ∷ remove_stale m3u "a1" ("s2" ∷ [])
    ∷ save_all true
    ∷ []

indexed_run-Implements_example :
    Implements marshal unmarshal
      (indexed_run marshal unmarshal calls empty_indexed).0
      (plain_run calls empty_plain).0
    × ((indexed_run marshal unmarshal calls empty_indexed).1 ≡ (plain_run calls empty_plain).1)
indexed_run-Implements_example =
    indexed_run-Implements marshal unmarshal unmarshal-marshal marshal-nonempty calls empty_indexed
      empty_plain both_empty

-- The stores after the calls.
abbrev used_indexed : IndexedStore
used_indexed = (indexed_run marshal unmarshal calls empty_indexed).0

abbrev used_plain : StreamStore
used_plain = (plain_run calls empty_plain).0

used_agree : Implements marshal unmarshal used_indexed used_plain
used_agree =
    (indexed_run-Implements marshal unmarshal unmarshal-marshal marshal-nonempty calls empty_indexed
      empty_plain both_empty).0

list_indexed-list_example :
    (list_indexed marshal unmarshal used_indexed ≡ list used_plain)
    × (list_indexed_by marshal unmarshal (source_of_index m3u) "a1" used_indexed
        ≡ list_by (source_of m3u) "a1" used_plain)
    × (list_indexed_by_vod_type marshal unmarshal "a1" used_indexed
        ≡ list_by_vod_type "a1" used_plain)
    × (get_indexed marshal unmarshal "a1" used_indexed ≡ get_by_id "a1" used_plain)
    × (map plain_part (list_indexed_summaries marshal unmarshal used_indexed)
        ≡ list_summaries used_plain)
list_indexed-list_example =
    list_indexed-list marshal unmarshal unmarshal-marshal marshal-nonempty m3u "a1" used_indexed
      used_plain used_agree

-- One stream is stored, saved and loaded.
abbrev one_indexed : IndexedStore
one_indexed = (indexed_step marshal unmarshal (upsert 5 (news ∷ [])) empty_indexed).0

abbrev one_plain : StreamStore
one_plain = (plain_step (upsert 5 (news ∷ [])) empty_plain).0

one-IsKeyed : IsKeyed (plain_step (upsert 5 (news ∷ [])) empty_plain).0.items
one-IsKeyed = (stream_calls-AreKeyed (upsert 5 (news ∷ [])) "a1" true empty_plain tt).0

stream_calls-AreKeyed_example :
    IsKeyed (plain_step (upsert 6 (film ∷ [])) one_plain).0.items
    × IsKeyed (update_wireguard_by_account_id "a1" true one_plain).items
    × IsKeyed (clear_auto_tmdb_by_account_id "a1" one_plain).items
stream_calls-AreKeyed_example =
    stream_calls-AreKeyed (upsert 6 (film ∷ [])) "a1" true one_plain one-IsKeyed

one_agree : Implements marshal unmarshal one_indexed one_plain
one_agree =
    (indexed_step-Implements marshal unmarshal unmarshal-marshal marshal-nonempty
      (upsert 5 (news ∷ [])) empty_indexed empty_plain both_empty).0

one_short : AllShort marshal unmarshal unmarshal-marshal marshal-nonempty one_plain.items
unfolding plain_step bulk_upsert
one_short = (marshal-news, tt)

load_indexed-save_indexed_example :
    let saved = (save_indexed marshal unmarshal true one_indexed).0 in
    let new : IndexedStore = record {
      index = [];
      revision = 9;
      bytes = [];
      data_file = saved.data_file;
    } in
    Implements marshal unmarshal
      (load_indexed marshal unmarshal true none new)
      (record one_plain { revision = 9 })
load_indexed-save_indexed_example =
    load_indexed-save_indexed marshal unmarshal unmarshal-marshal marshal-nonempty one_indexed
      one_plain 9 true none one-IsKeyed one_short one_agree

-- A second upsert keeps the time of creation, and the TMDB identifier that was set.
upserted_twice :
    let once = (update_tmdb_id 6 "s1" (pos 42) (bulk_upsert 5 (news ∷ []) empty_plain)).0 in
    get_by_id "s1" (bulk_upsert 9 (news ∷ []) once)
    ≡ ok (record news { tmdb_id = pos 42; created_at = 5; updated_at = 9 })
unfolding get_by_id bulk_upsert update_tmdb_id
upserted_twice = refl

stale_deleted :
    (delete_stale_by_account_id "a1" ("s2" ∷ []) (bulk_upsert 5 (news ∷ film ∷ []) empty_plain)).1
    ≡ "s1" ∷ []
unfolding delete_stale bulk_upsert
stale_deleted = refl
