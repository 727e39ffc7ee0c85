-- ===== src/Streams/Queries.antt =====
-- pkg/store/stream_indexed.go against pkg/store/stream.go: what is read from the two stores, after
-- any sequence of calls.
use tvproxy.Base.{
  ◌<◌, String, ◌≡◌, refl, ap, inl, inr, ◌==◌, List, [], ◌∷◌, map, Option, some, length,
}
use tvproxy.Base.Maps.{Related, keep-Related, sort-Related, values}
use tvproxy.Extradata.{Bytes}
use tvproxy.Base.Integers.{pos}
use tvproxy.Streams.{Stream, StreamSummary}
use tvproxy.Streams.Plain.{
  StreamStore, summary, list_summaries, list, list_by, list_by_vod_type, get_by_id, earlier,
  by_name,
}
use tvproxy.Streams.Entries.{StreamIndex, summary_from_index, IndexedStore, older, index_by_name}
use tvproxy.Streams.Indexed.{
  list_indexed_summaries, list_indexed, list_indexed_by, list_indexed_by_vod_type, get_indexed,
}
use tvproxy.Streams.Refinement.{Holds, Implements, read-Holds, values-Rows, read_all-Related}
use tvproxy.Streams.Steps.{
  Source, source_of, source_of_index, Operation, Answer, plain_step, indexed_step,
}
use tvproxy.Streams.Simulation.{indexed_step-Implements, source-Holds, row-cases}

abbrev pub plain_part : StreamSummary → StreamSummary
plain_part sm = record sm { hdhr_source_id = ""; tmdb_id = pos 0 }

unfoldable pub plain_run : List Operation → StreamStore → StreamStore × List Answer
plain_run [] s = (s, [])
plain_run (op ∷ ops) s =
    let r = plain_step op s in let rest = plain_run ops r.0 in (rest.0, r.1 ∷ rest.1)

module _ (encode : Stream → Bytes) (decode : Bytes → Option Stream) where
  unfoldable pub indexed_run : List Operation → IndexedStore → IndexedStore × List Answer
  indexed_run [] s = (s, [])
  indexed_run (op ∷ ops) s =
      let r = indexed_step encode decode op s in
      let rest = indexed_run ops r.0 in (rest.0, r.1 ∷ rest.1)

  module _ (decode-encode : (st : Stream) → decode (encode st) ≡ some st)
      (nonempty : (st : Stream) → 0 < length (encode st)) where
    older-Holds :
        (bytes : Bytes) (x y : StreamIndex) (s t : Stream)
        → Holds encode decode bytes x s
        → Holds encode decode bytes y t
        → older x y ≡ earlier s t
    older-Holds bytes x y s t h k =
        rw (ap (λ (z : StreamIndex). z.created_at) h.0, ap (λ (z : StreamIndex). z.created_at) k.0)
          refl

    by_name-Holds :
        (bytes : Bytes) (x y : StreamIndex) (s t : Stream)
        → Holds encode decode bytes x s
        → Holds encode decode bytes y t
        → index_by_name x y ≡ by_name s t
    by_name-Holds bytes x y s t h k =
        rw (ap (λ (z : StreamIndex). z.name) h.0, ap (λ (z : StreamIndex). z.name) k.0) refl

    get-Implements :
        (key : String) (s : IndexedStore) (t : StreamStore)
        → Implements encode decode s t
        → get_indexed encode decode key s ≡ get_by_id key t
    unfolding get_indexed get_by_id
    get-Implements key s t h = elim (row-cases encode decode decode-encode nonempty key s t h) [
      | inl n ↦ rw (get_indexed, get_by_id, n.0, n.1) refl
      | inr y ↦
          rw
            (
              get_indexed,
              get_by_id,
              y.2,
              read-Holds encode decode decode-encode nonempty s.bytes y.0 y.1 y.4,
              y.3,
            )
            refl
    ]

    -- The summaries of entries that hold some streams, without the two fields that the plain store
    -- leaves empty.
    summaries-Related :
        (bytes : Bytes) (xs : List StreamIndex) (sts : List Stream)
        → Related (Holds encode decode bytes) xs sts
        → map plain_part (map summary_from_index xs) ≡ map summary sts
    summaries-Related bytes [] [] h = refl
    summaries-Related bytes [] (st ∷ sts) h = absurd h
    summaries-Related bytes (x ∷ xs) [] h = absurd h
    summaries-Related bytes (x ∷ xs) (st ∷ sts) h =
        let one : plain_part (summary_from_index x) ≡ summary st =
          ap (λ (z : StreamIndex). plain_part (summary_from_index z)) h.0.0 in
        λ i. one i ∷ summaries-Related bytes xs sts h.1 i

    -- An indexed store that holds the streams of a plain one answers as it does when it is asked for
    -- the list of all streams, of one source, of one kind of video, and for the stream of an
    -- identifier; its summaries are the same but for the HDHR source and the TMDB identifier, which
    -- the plain store leaves empty.
    pub list_indexed-list :
        (by : Source) (key : String) (s : IndexedStore) (t : StreamStore)
        → Implements encode decode s t
        → (list_indexed encode decode s ≡ list t)
          × (list_indexed_by encode decode (source_of_index by) key s
              ≡ list_by (source_of by) key t)
          × (list_indexed_by_vod_type encode decode key s ≡ list_by_vod_type key t)
          × (get_indexed encode decode key s ≡ get_by_id key t)
          × (map plain_part (list_indexed_summaries encode decode s) ≡ list_summaries t)
    unfolding list_indexed_summaries list_summaries list_indexed list list_indexed_by list_by
        list_indexed_by_vod_type list_by_vod_type
    list_indexed-list by key s t h =
        let vs = values-Rows encode decode decode-encode nonempty s.bytes s.index t.items h.0 in
        let R = Holds encode decode s.bytes in
        let read = read_all-Related encode decode decode-encode nonempty s.bytes in
        let xs = values s.index in
        let sts = values t.items in
        let of_source =
          keep-Related R (λ x. source_of_index by x == key) (λ st. source_of by st == key) xs sts
            (λ x st r.
              ap (λ (z : String). z == key)
                (source-Holds encode decode decode-encode nonempty by s.bytes x st r))
            vs in
        let of_kind =
          keep-Related R (λ x. x.vod_type == key) (λ st. st.vod_type == key) xs sts
            (λ x st r. ap (λ (z : StreamIndex). z.vod_type == key) r.0) vs in
        (
          read _ _
              (sort-Related R older earlier (λ x y a b. older-Holds s.bytes x y a b) xs sts vs),
          read _ _
              (sort-Related R older earlier (λ x y a b. older-Holds s.bytes x y a b) _ _ of_source),
          read _ _ (
              sort-Related R index_by_name by_name (λ x y a b. by_name-Holds s.bytes x y a b) _ _
                of_kind),
          get-Implements key s t h,
          summaries-Related s.bytes _ _ (
              sort-Related R index_by_name by_name (λ x y a b. by_name-Holds s.bytes x y a b) xs sts
                vs),
        )

    -- After any sequence of upserts, deletions, updates of one stream, clears and saves on two stores
    -- that hold the same streams, all the answers agree and so do the streams and the revisions.
    -- Loads and the two updates of a whole account are not among these calls.
    pub indexed_run-Implements :
        (ops : List Operation) (s : IndexedStore) (t : StreamStore)
        → Implements encode decode s t
        → Implements encode decode (indexed_run ops s).0 (plain_run ops t).0
          × ((indexed_run ops s).1 ≡ (plain_run ops t).1)
    unfolding indexed_run plain_run
    indexed_run-Implements [] s t h = (h, refl)
    indexed_run-Implements (op ∷ ops) s t h =
        let r = indexed_step-Implements encode decode decode-encode nonempty op s t h in
        let ih =
          indexed_run-Implements ops (indexed_step encode decode op s).0 (plain_step op t).0 r.0 in
        (ih.0, λ i. r.1 i ∷ ih.1 i)
