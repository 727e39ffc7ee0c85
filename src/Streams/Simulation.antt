-- ===== src/Streams/Simulation.antt =====
-- pkg/store/stream_indexed.go against pkg/store/stream.go: the indexed store implements the
-- plain one, operation by operation.
use tvproxy.Base.{
  ℕ, suc, ◌<◌, String, ◌≡◌, refl, sym, ap, subst, ◌∙◌, ◌⊎◌, inl, inr, Bool, true, false, not, ◌&&◌,
  ◌==◌, List, [], ◌∷◌, Option, none, some, ok, any, keep, length,
}
use tvproxy.Base.Maps.{Map, lookup, put, Related, keep-Related, put-put, lookup-put}
use tvproxy.Extradata.{Bytes}
use tvproxy.Streams.{Stream}
use tvproxy.Streams.Plain.{
  StreamStore, probed, delete_where, update_one, bulk_upsert, delete_stale, delete_by,
  delete_orphaned, delete, update_tmdb_id, set_tmdb_manual, update_stream_probe_data, clear, save,
  upserted, merged, merged_with, bump_if_any,
}
use tvproxy.Streams.Dropping.{
  drop_where, drop_stale, drop_by, drop_orphaned, drop_one, clear_indexed,
}
use tvproxy.Streams.Entries.{StreamIndex, IndexedStore}
use tvproxy.Streams.Indexed.{
  update_both, bulk_upsert_indexed, update_indexed_tmdb_id, set_indexed_tmdb_manual,
  update_indexed_probe_data, save_indexed, upsert_all, merged_index, append_stream, compacted,
  read_stream, update_stream_field, placed,
}
use tvproxy.Streams.Refinement.{
  Holds, HoldsRow, Implements, read-Holds, append-Rows, LookedUp, lookup-Rows, compacted-Rows,
  keys-Rows, erase-Rows, Rows,
}
use tvproxy.Streams.Steps.{
  Source, m3u, satip, hdhr, source_of, source_of_index, Operation, Answer, upsert, remove_stale,
  remove_by, remove_orphaned, remove_one, set_tmdb, set_manual, set_probe, remove_all, save_all,
  checked, plain_step, indexed_step,
}

module _ (encode : Stream → Bytes) (decode : Bytes → Option Stream)
    (decode-encode : (st : Stream) → decode (encode st) ≡ some st)
    (nonempty : (st : Stream) → 0 < length (encode st)) where
  -- The answers agree, and so do the stores after the call.
  abbrev Agrees : IndexedStore × Answer → StreamStore × Answer → Type 0
  Agrees r t = Implements encode decode (r.0) (t.0) × (r.1 ≡ t.1)

  pub source-Holds :
      (by : Source) (bytes : Bytes) (x : StreamIndex) (st : Stream)
      → Holds encode decode bytes x st
      → source_of_index by x ≡ source_of by st
  source-Holds m3u bytes x st h = ap (λ (y : StreamIndex). y.m3u_account_id) h.0
  source-Holds satip bytes x st h = ap (λ (y : StreamIndex). y.satip_source_id) h.0
  source-Holds hdhr bytes x st h = ap (λ (y : StreamIndex). y.hdhr_source_id) h.0

  merged-LookedUp :
      (now : ℕ) (bytes : Bytes) (x : Option StreamIndex) (e : Option Stream) (st : Stream)
      → LookedUp encode decode bytes x e
      → merged_index encode decode now x st ≡ merged_with now e st
  merged-LookedUp now bytes none none st h = refl
  merged-LookedUp now bytes none (some e) st h = elim h [ ]
  merged-LookedUp now bytes (some x) none st h = elim h [ ]
  merged-LookedUp now bytes (some x) (some e) st h =
      ap
        (λ (y : StreamIndex).
          merged y.created_at y.tmdb_id y.tmdb_manual y.cache_type y.language y.vod_type st)
        h.0

  upsert_all-Rows :
      (now : ℕ) (sts : List Stream) (s : IndexedStore) (items : Map Stream)
      → Related (HoldsRow encode decode s.bytes) s.index items
      → Related
          (HoldsRow encode decode (upsert_all encode decode now sts s).bytes)
          (upsert_all encode decode now sts s).index
          (upserted now sts items)
  upsert_all-Rows now [] s items h = h
  upsert_all-Rows now (st ∷ sts) s items h =
      let n = record (merged_index encode decode now (lookup st.id s.index) st) {
        updated_at = now;
      } in
      let e : n ≡ record (merged_with now (lookup st.id items) st) { updated_at = now } =
        ap (λ (z : Stream). record z { updated_at = now })
          (merged-LookedUp now s.bytes (lookup st.id s.index) (lookup st.id items) st
            (lookup-Rows encode decode decode-encode nonempty s.bytes st.id s.index items h)) in
      let after = append_stream encode decode st.id n s in
      upsert_all-Rows now sts after
        (put st.id (record (merged_with now (lookup st.id items) st) { updated_at = now }) items)
        (subst (λ (z : Stream). Rows encode decode after.bytes after.index (put st.id z items)) e
          (append-Rows encode decode decode-encode nonempty s.bytes st.id n s.index items h))

  counted-Agrees :
      (gone : String × StreamIndex → Bool) (gone_too : String × Stream → Bool) (s : IndexedStore)
      (t : StreamStore)
      → ((r : String × StreamIndex) (q : String × Stream)
          → HoldsRow encode decode s.bytes r q
          → gone r ≡ gone_too q)
      → Implements encode decode s t
      → Implements encode decode (drop_where gone s).0 (delete_where gone_too t).0
        × ((drop_where gone s).1 ≡ (delete_where gone_too t).1)
  counted-Agrees gone gone_too s t same h =
      let dropped =
        keep-Related (HoldsRow encode decode s.bytes) gone gone_too s.index t.items same h.0 in
      let names =
        keys-Rows encode decode decode-encode nonempty s.bytes (keep gone s.index)
          (keep gone_too t.items) dropped in
      (
        (
          keep-Related (HoldsRow encode decode s.bytes) (λ r. not (gone r)) (λ q. not (gone_too q))
              s.index t.items (λ r q k. ap not (same r q k)) h.0,
          λ i. bump_if_any (names i) (h.1 i),
        ),
        names,
      )

  looked-cases :
      (bytes : Bytes) (o : Option StreamIndex) (p : Option Stream)
      → LookedUp encode decode bytes o p
      → ((o ≡ none) × (p ≡ none))
        ⊎ ((x : StreamIndex) × (st : Stream) × (o ≡ some x)
            × (p ≡ some st)
            × Holds encode decode bytes x st)
  looked-cases bytes none none h = inl (refl, refl)
  looked-cases bytes none (some st) h = elim h [ ]
  looked-cases bytes (some x) none h = elim h [ ]
  looked-cases bytes (some x) (some st) h = inr (x, st, refl, refl, h)

  pub row-cases :
      (id : String) (s : IndexedStore) (t : StreamStore)
      → Implements encode decode s t
      → ((lookup id s.index ≡ none) × (lookup id t.items ≡ none))
        ⊎ ((x : StreamIndex) × (st : Stream) × (lookup id s.index ≡ some x)
            × (lookup id t.items ≡ some st)
            × Holds encode decode s.bytes x st)
  row-cases id s t h =
      looked-cases s.bytes (lookup id s.index) (lookup id t.items)
        (lookup-Rows encode decode decode-encode nonempty s.bytes id s.index t.items h.0)

  append-Implements :
      (id : String) (st : Stream) (s : IndexedStore) (t : StreamStore)
      → Implements encode decode s t
      → Implements encode decode
          (append_stream encode decode id st s)
          (record t { items = put id st t.items })
  append-Implements id st s t h =
      (append-Rows encode decode decode-encode nonempty s.bytes id st s.index t.items h.0, h.1)

  field_found :
      (now : ℕ) (id : String) (f : Stream → Stream) (s : IndexedStore) (x : StreamIndex)
      (st : Stream)
      → lookup id s.index ≡ some x
      → read_stream encode decode s.bytes x ≡ some st
      → update_stream_field encode decode now id f s
        ≡ (append_stream encode decode id (record (f st) { updated_at = now }) s, ok tt)
  field_found now id f s x st e r = rw (update_stream_field, e, r) refl

  both_found :
      (now : ℕ) (id : String) (g : StreamIndex → StreamIndex) (f : Stream → Stream)
      (s : IndexedStore) (x : StreamIndex) (st : Stream)
      → lookup id s.index ≡ some x
      → read_stream encode decode s.bytes (g x) ≡ some st
      → update_both encode decode now id g f s
        ≡ (append_stream encode decode id (record (f st) { updated_at = now }) s, ok tt)
  both_found now id g f s x st e r =
      let changed = record s { index = put id (g x) s.index } in
      let new = record (f st) { updated_at = now } in
      rw
        (
          update_both,
          e,
          field_found now id f changed (g x) st (lookup-put id (g x) s.index) r,
          put-put id (g x) (placed encode decode s.bytes new) s.index,
        )
        refl

  update_both-Agrees :
      (now : ℕ) (id : String) (g : StreamIndex → StreamIndex) (f : Stream → Stream)
      (s : IndexedStore) (t : StreamStore)
      → ((x : StreamIndex)
          → read_stream encode decode s.bytes (g x) ≡ read_stream encode decode s.bytes x)
      → Implements encode decode s t
      → Agrees
          (checked (update_both encode decode now id g f s))
          (checked (update_one id (λ st. record (f st) { updated_at = now }) t))
  update_both-Agrees now id g f s t same h = elim (row-cases id s t h) [
    | inl n ↦ rw (update_both, update_one, n.0, n.1) (h, refl)
    | inr y ↦
        let found =
          both_found now id g f s y.0 y.1 y.2
            (same y.0 ∙ read-Holds encode decode decode-encode nonempty s.bytes y.0 y.1 y.4) in
        rw (update_one, found, y.3)
          (append-Implements id (record (f y.1) { updated_at = now }) s t h, refl)
  ]

  probe-Agrees :
      (now : ℕ) (id : String) (d : ℕ) (v a : String) (s : IndexedStore) (t : StreamStore)
      → Implements encode decode s t
      → Agrees
          (checked (update_indexed_probe_data encode decode now id d v a s))
          (checked (update_stream_probe_data now id d v a t))
  unfolding update_indexed_probe_data update_stream_probe_data
  probe-Agrees now id d v a s t h = elim (row-cases id s t h) [
    | inl n ↦
        rw (update_indexed_probe_data, update_stream_probe_data, update_one, n.0, n.1) (h, refl)
    | inr y ↦
        let found =
          field_found now id (probed d v a) s y.0 y.1 y.2
            (read-Holds encode decode decode-encode nonempty s.bytes y.0 y.1 y.4) in
        rw (update_indexed_probe_data, update_stream_probe_data, update_one, y.2, found, y.3)
          (append-Implements id (record (probed d v a y.1) { updated_at = now }) s t h, refl)
  ]

  save-Agrees :
      (written : Bool) (s : IndexedStore) (t : StreamStore)
      → Implements encode decode s t
      → Agrees (checked (save_indexed encode decode written s)) (checked (save written t))
  unfolding save_indexed save
  save-Agrees written s t h =
      let c = compacted-Rows encode decode decode-encode nonempty s.bytes [] s.index t.items h.0 in
      let rows =
        subst
          (λ (b : Bytes).
            Rows encode decode b (compacted encode decode s.bytes [] s.index).0 t.items)
          (sym (c.0)) c.1 in
      elim written
        as (λ w. Agrees (checked (save_indexed encode decode w s)) (checked (save w t))) [
          | true ↦ ((rows, h.1), refl)
          | false ↦ ((rows, h.1), refl)
        ]

  -- Whichever call of the interface is made, with whatever arguments and whether the write of a
  -- save succeeds or not, the indexed store gives the answer of the plain one, and goes on holding
  -- the same streams at the same revision, if unmarshalling undoes marshalling.
  pub indexed_step-Implements :
      (op : Operation) (s : IndexedStore) (t : StreamStore)
      → Implements encode decode s t
      → Implements encode decode (indexed_step encode decode op s).0 (plain_step op t).0
        × ((indexed_step encode decode op s).1 ≡ (plain_step op t).1)
  unfolding indexed_step plain_step bulk_upsert_indexed bulk_upsert drop_stale delete_stale drop_by
      delete_by drop_orphaned delete_orphaned drop_one delete update_indexed_tmdb_id update_tmdb_id
      set_indexed_tmdb_manual set_tmdb_manual clear_indexed clear read_stream
  indexed_step-Implements (upsert now sts) s t h =
      ((upsert_all-Rows now sts s t.items h.0, ap suc h.1), refl)
  indexed_step-Implements (remove_stale by id kept) s t h =
      let r =
        counted-Agrees (λ r. source_of_index by (r.1) == id && not (any (λ k. k == r.0) kept))
          (λ r. source_of by (r.1) == id && not (any (λ k. k == r.0) kept)) s t
          (λ r q k. rw (source-Holds by s.bytes (r.1) (q.1) k.1, k.0) refl) h in
      (r.0, ap (λ (d : List String). (d, ok tt)) r.1)
  indexed_step-Implements (remove_by by id) s t h = (
    (
      keep-Related (HoldsRow encode decode s.bytes) (λ r. not (source_of_index by (r.1) == id))
          (λ r. not (source_of by (r.1) == id)) s.index t.items
          (λ r q k. rw (source-Holds by s.bytes (r.1) (q.1) k.1) refl) h.0,
      ap suc h.1,
    ),
    refl,
  )
  indexed_step-Implements (remove_orphaned by known) s t h =
      let r =
        counted-Agrees
          (λ r.
            not (source_of_index by (r.1) == "")
            && not (any (λ k. k == source_of_index by (r.1)) known))
          (λ r. not (source_of by (r.1) == "") && not (any (λ k. k == source_of by (r.1)) known)) s
          t (λ r q k. rw (source-Holds by s.bytes (r.1) (q.1) k.1) refl) h in
      (r.0, ap (λ (d : List String). (d, ok tt)) r.1)
  indexed_step-Implements (remove_one id) s t h = (
    (erase-Rows encode decode decode-encode nonempty s.bytes id s.index t.items h.0, ap suc h.1),
    refl,
  )
  indexed_step-Implements (set_tmdb now id n) s t h =
      update_both-Agrees now id (λ x. record x { tmdb_id = n; updated_at = now })
        (λ st. record st { tmdb_id = n }) s t (λ x. refl) h
  indexed_step-Implements (set_manual now id n) s t h =
      update_both-Agrees now id
        (λ x. record x { tmdb_id = n; tmdb_manual = true; updated_at = now })
        (λ st. record st { tmdb_id = n; tmdb_manual = true }) s t (λ x. refl) h
  indexed_step-Implements (set_probe now id d v a) s t h = probe-Agrees now id d v a s t h
  indexed_step-Implements remove_all s t h = ((tt, ap suc h.1), refl)
  indexed_step-Implements (save_all written) s t h = save-Agrees written s t h
