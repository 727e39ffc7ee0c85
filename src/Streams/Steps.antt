-- ===== src/Streams/Steps.antt =====
-- pkg/store/stream_indexed.go against pkg/store/stream.go: the calls of the interface StreamStore that
-- change both stores alike. Load is not one of them, nor are UpdateWireGuardByAccountID and
-- ClearAutoTMDBByAccountID, on which the stores differ.
use tvproxy.Base.{ℕ, String, Bool, List, [], Option, Result, ok}
use tvproxy.Base.Integers.{ℤ}
use tvproxy.Extradata.{Bytes}
use tvproxy.Store.Table.{Error}
use tvproxy.Streams.{Stream}
use tvproxy.Streams.Plain.{
  StreamStore, bulk_upsert, delete_stale, delete_by, delete_orphaned, delete, update_tmdb_id,
  set_tmdb_manual, update_stream_probe_data, clear, save,
}
use tvproxy.Streams.Dropping.{drop_stale, drop_by, drop_orphaned, drop_one, clear_indexed}
use tvproxy.Streams.Entries.{StreamIndex, IndexedStore}
use tvproxy.Streams.Indexed.{
  bulk_upsert_indexed, update_indexed_tmdb_id, set_indexed_tmdb_manual, update_indexed_probe_data,
  save_indexed,
}

-- The field that a list or a deletion goes by.
pub data Source : Type 0 where
  m3u satip hdhr : Source

abbrev pub source_of : Source → Stream → String
source_of m3u st = st.m3u_account_id
source_of satip st = st.satip_source_id
source_of hdhr st = st.hdhr_source_id

abbrev pub source_of_index : Source → StreamIndex → String
source_of_index m3u x = x.m3u_account_id
source_of_index satip x = x.satip_source_id
source_of_index hdhr x = x.hdhr_source_id

-- An upsert, the deletions, the updates of one stream, a clear and a save.
pub data Operation : Type 0 where
  upsert : ℕ → List Stream → Operation
  remove_stale : Source → String → List String → Operation
  remove_by : Source → String → Operation
  remove_orphaned : Source → List String → Operation
  remove_one : String → Operation
  set_tmdb : ℕ → String → ℤ → Operation
  set_manual : ℕ → String → ℤ → Operation
  set_probe : ℕ → String → ℕ → String → String → Operation
  remove_all : Operation
  -- Whether the write succeeds.
  save_all : Bool → Operation

-- The identifiers that a call returns, and its error.
abbrev pub Answer : Type 0
Answer = List String × Result Error (Unit {0})

abbrev pub quiet {ℓ} : {S : Type ℓ} → S → S × Answer
quiet s = (s, ([], ok tt))

abbrev pub counted {ℓ} : {S : Type ℓ} → S × List String → S × Answer
counted r = (r.0, (r.1, ok tt))

abbrev pub checked {ℓ} : {S : Type ℓ} → S × Result Error (Unit {0}) → S × Answer
checked r = (r.0, ([], r.1))

unfoldable pub plain_step : Operation → StreamStore → StreamStore × Answer
plain_step (upsert now sts) s = quiet (bulk_upsert now sts s)
plain_step (remove_stale by id kept) s = counted (delete_stale (source_of by) id kept s)
plain_step (remove_by by id) s = quiet (delete_by (source_of by) id s)
plain_step (remove_orphaned by known) s = counted (delete_orphaned (source_of by) known s)
plain_step (remove_one id) s = quiet (delete id s)
plain_step (set_tmdb now id n) s = checked (update_tmdb_id now id n s)
plain_step (set_manual now id n) s = checked (set_tmdb_manual now id n s)
plain_step (set_probe now id d v a) s = checked (update_stream_probe_data now id d v a s)
plain_step remove_all s = quiet (clear s)
plain_step (save_all written) s = checked (save written s)

module _ (encode : Stream → Bytes) (decode : Bytes → Option Stream) where
  unfoldable pub indexed_step : Operation → IndexedStore → IndexedStore × Answer
  indexed_step (upsert now sts) s = quiet (bulk_upsert_indexed encode decode now sts s)
  indexed_step (remove_stale by id kept) s = counted (drop_stale (source_of_index by) id kept s)
  indexed_step (remove_by by id) s = quiet (drop_by (source_of_index by) id s)
  indexed_step (remove_orphaned by known) s = counted (drop_orphaned (source_of_index by) known s)
  indexed_step (remove_one id) s = quiet (drop_one id s)
  indexed_step (set_tmdb now id n) s = checked (update_indexed_tmdb_id encode decode now id n s)
  indexed_step (set_manual now id n) s = checked (set_indexed_tmdb_manual encode decode now id n s)
  indexed_step (set_probe now id d v a) s =
      checked (update_indexed_probe_data encode decode now id d v a s)
  indexed_step remove_all s = quiet (clear_indexed s)
  indexed_step (save_all written) s = checked (save_indexed encode decode written s)
