-- ===== src/Streams/Indexed.antt =====
-- pkg/store/stream_indexed.go: the store of streams that keeps a small index in memory, and the
-- streams themselves as JSON records in one run of bytes, each behind its length. A record that is
-- changed is written again at the end, and only a save drops the old ones. json.Marshal and
-- json.Unmarshal are parameters.
use tvproxy.Base.{
  ℕ, zero, suc, ◌+◌, String, Bool, true, false, ◌||◌, ◌==◌, List, [], ◌∷◌, ◌++◌, map, Option, none,
  some, Result, ok, err, ltb, nat_eq, keep, length, take, drop, if◌then◌else◌,
}
use tvproxy.Base.Integers.{ℤ, pos}
use tvproxy.Base.Maps.{Map, lookup, put, values, keys}
use tvproxy.Base.Sort.{sort}
use tvproxy.Discover.{encode_u32_le, u32_le}
use tvproxy.Extradata.{Bytes}
use tvproxy.Store.Table.{Error, not_found, decode_failed, write_failed}
use tvproxy.Streams.{Stream, StreamSummary}
use tvproxy.Streams.Plain.{merged, has_auto_tmdb, probed}
use tvproxy.Streams.Entries.{
  StreamIndex, index_from_stream, summary_from_index, IndexedStore, older, index_by_name,
}

module _ (encode : Stream → Bytes) (decode : Bytes → Option Stream) where
  unfoldable pub read_stream : Bytes → StreamIndex → Option Stream
  read_stream bytes x =
      if nat_eq x.size 0 || ltb (length bytes) (x.offset + x.size)
      then none
      else decode (take x.size (drop x.offset bytes))

  -- The bytes that `appendStream` adds.
  abbrev pub stored : Stream → Bytes
  stored st = encode_u32_le (length (encode st)) ++ encode st

  -- The entry of a stream whose bytes follow.
  abbrev pub placed : Bytes → Stream → StreamIndex
  placed bytes st = index_from_stream st (length bytes + 4) (length (encode st))

  abbrev pub append_stream : String → Stream → IndexedStore → IndexedStore
  append_stream key st s = record s {
    bytes = s.bytes ++ stored st;
    index = put key (placed s.bytes st) s.index;
  }

  -- The streams that can be read, in the order of the entries.
  abbrev pub read_all : Bytes → List StreamIndex → List Stream
  read_all bytes [] = []
  read_all bytes (x ∷ xs) =
      let rest = read_all bytes xs in
      elim (read_stream bytes x) [ some st ↦ st ∷ rest | none ↦ rest ]

  unfoldable pub list_indexed : IndexedStore → List Stream
  list_indexed s = read_all s.bytes (sort older (values s.index))

  unfoldable pub list_indexed_summaries : IndexedStore → List StreamSummary
  list_indexed_summaries s = map summary_from_index (sort index_by_name (values s.index))

  unfoldable pub list_indexed_by : (StreamIndex → String) → String → IndexedStore → List Stream
  list_indexed_by source id s =
      read_all s.bytes (sort older (keep (λ x. source x == id) (values s.index)))

  abbrev pub list_indexed_by_account_id : String → IndexedStore → List Stream
  list_indexed_by_account_id id s = list_indexed_by (λ x. x.m3u_account_id) id s

  abbrev pub list_indexed_by_satip_source_id : String → IndexedStore → List Stream
  list_indexed_by_satip_source_id id s = list_indexed_by (λ x. x.satip_source_id) id s

  abbrev pub list_indexed_by_hdhr_source_id : String → IndexedStore → List Stream
  list_indexed_by_hdhr_source_id id s = list_indexed_by (λ x. x.hdhr_source_id) id s

  unfoldable pub list_indexed_by_vod_type : String → IndexedStore → List Stream
  list_indexed_by_vod_type kind s =
      read_all s.bytes (sort index_by_name (keep (λ x. x.vod_type == kind) (values s.index)))

  unfoldable pub get_indexed : String → IndexedStore → Result Error Stream
  get_indexed id s = elim (lookup id s.index) [
    | none ↦ err not_found
    | some x ↦ elim (read_stream s.bytes x) [ some st ↦ ok st | none ↦ err not_found ]
  ]

  abbrev pub merged_index : ℕ → Option StreamIndex → Stream → Stream
  merged_index now none st = record st { created_at = now }
  merged_index now (some e) st =
      merged e.created_at e.tmdb_id e.tmdb_manual e.cache_type e.language e.vod_type st

  abbrev pub upsert_all : ℕ → List Stream → IndexedStore → IndexedStore
  upsert_all now [] s = s
  upsert_all now (st ∷ sts) s = upsert_all now sts (
      append_stream st.id (record (merged_index now (lookup st.id s.index) st) { updated_at = now })
        s)

  unfoldable pub bulk_upsert_indexed : ℕ → List Stream → IndexedStore → IndexedStore
  bulk_upsert_indexed now sts s =
      let after = upsert_all now sts s in record after { revision = suc s.revision }

  -- `updateStreamField`.
  abbrev pub update_stream_field :
      ℕ → String → (Stream → Stream) → IndexedStore → IndexedStore × Result Error (Unit {0})
  update_stream_field now id f s = elim (lookup id s.index) [
    | none ↦ (s, err not_found)
    | some x ↦ elim (read_stream s.bytes x) [
      | none ↦ (s, err decode_failed)
      | some st ↦ (append_stream id (record (f st) { updated_at = now }) s, ok tt)
    ]
  ]

  -- The entry is changed first, and the record behind it then; what that returns is dropped.
  abbrev pub update_both :
      ℕ
      → String
      → (StreamIndex → StreamIndex)
      → (Stream → Stream)
      → IndexedStore
      → IndexedStore × Result Error (Unit {0})
  update_both now id g f s = elim (lookup id s.index) [
    | none ↦ (s, err not_found)
    | some x ↦ ((update_stream_field now id f (record s { index = put id (g x) s.index })).0, ok tt)
  ]

  unfoldable pub update_indexed_tmdb_id :
      ℕ → String → ℤ → IndexedStore → IndexedStore × Result Error (Unit {0})
  update_indexed_tmdb_id now id tmdb s =
      update_both now id (λ x. record x { tmdb_id = tmdb; updated_at = now })
        (λ st. record st { tmdb_id = tmdb }) s

  unfoldable pub set_indexed_tmdb_manual :
      ℕ → String → ℤ → IndexedStore → IndexedStore × Result Error (Unit {0})
  set_indexed_tmdb_manual now id tmdb s =
      update_both now id (λ x. record x { tmdb_id = tmdb; tmdb_manual = true; updated_at = now })
        (λ st. record st { tmdb_id = tmdb; tmdb_manual = true }) s

  unfoldable pub update_indexed_probe_data :
      ℕ → String → ℕ → String → String → IndexedStore → IndexedStore × Result Error (Unit {0})
  update_indexed_probe_data now id duration vcodec acodec s = elim (lookup id s.index) [
    | none ↦ (s, err not_found)
    | some _ ↦ ((update_stream_field now id (probed duration vcodec acodec) s).0, ok tt)
  ]

  -- One turn of the loops that change the streams of an account.
  abbrev pub update_key :
      ℕ
      → (StreamIndex → Bool)
      → (StreamIndex → StreamIndex)
      → (Stream → Stream)
      → String
      → IndexedStore
      → IndexedStore
  update_key now p g f id s = elim (lookup id s.index) [
    | none ↦ s
    | some x ↦ if p x then (update_both now id g f s).0 else s
  ]

  abbrev pub update_keys :
      ℕ
      → (StreamIndex → Bool)
      → (StreamIndex → StreamIndex)
      → (Stream → Stream)
      → List String
      → IndexedStore
      → IndexedStore
  update_keys now p g f [] s = s
  update_keys now p g f (id ∷ ids) s = update_keys now p g f ids (update_key now p g f id s)

  unfoldable pub clear_indexed_auto_tmdb : ℕ → String → IndexedStore → IndexedStore
  clear_indexed_auto_tmdb now account s =
      update_keys now (λ x. has_auto_tmdb account x.m3u_account_id x.tmdb_id x.tmdb_manual)
        (λ x. record x { tmdb_id = pos 0 }) (λ st. record st { tmdb_id = pos 0 }) (keys s.index) s

  unfoldable pub update_indexed_wireguard : ℕ → String → Bool → IndexedStore → IndexedStore
  update_indexed_wireguard now account flag s =
      update_keys now (λ x. x.m3u_account_id == account) (λ x. record x { use_wireguard = flag })
        (λ st. record st { use_wireguard = flag }) (keys s.index) s

  -- The loop of `rebuildDataFile` and of `Save`: every record that can be read is written anew, and
  -- an entry whose record cannot be read keeps its place.
  abbrev pub compacted : Bytes → Bytes → Map StreamIndex → Map StreamIndex × Bytes
  compacted bytes out [] = ([], out)
  compacted bytes out ((k, x) ∷ rows) = elim (read_stream bytes x) [
    | none ↦ let r = compacted bytes out rows in ((k, x) ∷ r.0, r.1)
    | some st ↦
        let r = compacted bytes (out ++ stored st) rows in
        ((k, record x { offset = length out + 4; size = length (encode st) }) ∷ r.0, r.1)
  ]

  unfoldable pub rebuild_data_file : IndexedStore → IndexedStore
  rebuild_data_file s =
      let r = compacted s.bytes [] s.index in record s { index = r.0; bytes = r.1 }

  -- The temporary file is renamed, so a failed save leaves the old file.
  unfoldable pub save_indexed : Bool → IndexedStore → IndexedStore × Result Error (Unit {0})
  save_indexed written s =
      let r = compacted s.bytes [] s.index in
      let kept = record s { index = r.0; bytes = r.1 } in
      if written then (record kept { data_file = some (r.1) }, ok tt) else (kept, err write_failed)

  -- The loop of `Load`, on fuel: `start` bytes lie before `rest`, and each turn takes four at least.
  unfoldable pub scan : ℕ → ℕ → Bytes → Map StreamIndex → Map StreamIndex
  scan zero start rest index = index
  scan (suc fuel) start rest index = elim (ltb (length rest) 4) [
    | true ↦ index
    | false ↦
        let size = u32_le rest in
        let behind = drop 4 rest in
        elim (ltb (length behind) size) [
          | true ↦ index
          | false ↦
              scan fuel (start + 4 + size) (drop size behind) (elim (decode (take size behind)) [
                | none ↦ index
                | some st ↦ put st.id (index_from_stream st (start + 4) size) index
              ])
        ]
  ]

  abbrev migrated : List Stream → IndexedStore → IndexedStore
  migrated [] s = s
  migrated (st ∷ sts) s = migrated sts (append_stream st.id st s)

  -- `Load`: the streams of the legacy file, where there is one and it decodes, are only looked at when
  -- there is no data file, and are saved at once.
  unfoldable pub load_indexed : Bool → Option (List Stream) → IndexedStore → IndexedStore
  unfolding scan save_indexed
  load_indexed written legacy s = elim s.data_file [
    | some bytes ↦ record s { bytes = bytes; index = scan (length bytes) 0 bytes [] }
    | none ↦ elim legacy [
      | none ↦ s
      | some sts ↦ (save_indexed written (migrated sts (record s { bytes = []; index = [] }))).0
    ]
  ]
