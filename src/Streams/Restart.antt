-- ===== src/Streams/Restart.antt =====
-- pkg/store/stream_indexed.go: what `Load` finds in the file that `Save` wrote.
use tvproxy.Base.{
  ℕ, zero, suc, ◌+◌, ◌≤◌, ◌<◌, String, ◌≡◌, ◌≢◌, refl, sym, ap, subst, ◌∙◌, Bool-cases, ==→ne, inl,
  inr, Bool, true, ◌==◌, eq_iff, List, [], ◌∷◌, ◌++◌, Option, none, some, arith, length, All,
  length-append, take-length, drop-length, append_assoc, append_nil,
}
use tvproxy.Base.Maps.{Map, lookup, put}
use tvproxy.Discover.{u32_le}
use tvproxy.Extradata.{Bytes, byte_at}
use tvproxy.Streams.{Stream}
use tvproxy.Streams.Plain.{StreamStore}
use tvproxy.Streams.Entries.{StreamIndex, IndexedStore, index_from_stream}
use tvproxy.Streams.Indexed.{stored, placed, scan, save_indexed, load_indexed}
use tvproxy.Streams.Refinement.{Implements, Rows, append-Rows, body, compacted-Rows}

-- Every stream is stored under its own identifier, and no two under one.
abbrev pub IsKeyed : Map Stream → Type 0
IsKeyed [] = Unit
IsKeyed ((k, st) ∷ items) = (k ≡ st.id) × (lookup k items ≡ none) × IsKeyed items

AllFresh : Map Stream → Map Stream → Type 0
AllFresh [] known = Unit
AllFresh ((k, st) ∷ items) known = (lookup k known ≡ none) × AllFresh items known

put_each : Map Stream → Map Stream → Map Stream
put_each [] known = known
put_each ((k, st) ∷ items) known = put_each items (put st.id st known)

lookup-snoc :
    (j k : String) (st : Stream) (known : Map Stream)
    → j ≢ k
    → lookup j known ≡ none
    → lookup j (known ++ (k, st) ∷ []) ≡ none
lookup-snoc j k st [] n h = ground (arith, eq_iff k j)
lookup-snoc j k st ((l, s) ∷ known) n h = ground (arith, h, lookup-snoc j k st known n)

put-fresh :
    (k : String) (st : Stream) (known : Map Stream)
    → lookup k known ≡ none
    → put k st known ≡ known ++ (k, st) ∷ []
put-fresh k st [] h = refl
put-fresh k st ((l, s) ∷ known) h = ground (arith, h, put-fresh k st known)

AllFresh-snoc :
    (items known : Map Stream) (k : String) (st : Stream)
    → lookup k items ≡ none
    → AllFresh items known
    → AllFresh items (known ++ (k, st) ∷ [])
unfolding AllFresh
AllFresh-snoc [] known k st n h = tt
AllFresh-snoc ((j, s) ∷ items) known k st n h = elim (Bool-cases (j == k)) [
  | inl e ↦ ground (arith, n, e)
  | inr e ↦
      (lookup-snoc j k st known (==→ne j k e) h.0, AllFresh-snoc items known k st (rw e at n) h.1)
]

put_each-keyed :
    (items known : Map Stream)
    → IsKeyed items
    → AllFresh items known
    → put_each items known ≡ known ++ items
unfolding put_each AllFresh
put_each-keyed [] known k h = sym (append_nil known)
put_each-keyed ((j, s) ∷ items) known k h =
    let p : put s.id s known ≡ known ++ (j, s) ∷ [] =
      subst (λ (z : String). put z s known ≡ known ++ (j, s) ∷ []) k.0 (put-fresh j s known h.0) in
    ap (put_each items) p
    ∙ put_each-keyed items (known ++ (j, s) ∷ []) k.2 (AllFresh-snoc items known j s k.1 h.1)
    ∙ append_assoc known ((j, s) ∷ []) items

AllFresh-nil : (items : Map Stream) → AllFresh items []
unfolding AllFresh
AllFresh-nil [] = tt
AllFresh-nil ((j, s) ∷ items) = (refl, AllFresh-nil items)

module _ (encode : Stream → Bytes) (decode : Bytes → Option Stream)
    (decode-encode : (st : Stream) → decode (encode st) ≡ some st)
    (nonempty : (st : Stream) → 0 < length (encode st)) where
  -- The length of every record fits the 32 bits that it is written in.
  abbrev pub AllShort : Map Stream → Type 0
  AllShort items = All (λ r. length (encode (r.1)) < 4_294_967_296) items

  all_records : Map Stream → Bytes
  all_records items = body encode decode decode-encode nonempty items

  scanned : ℕ → Map Stream → Map StreamIndex → Map StreamIndex
  scanned start [] index = index
  scanned start ((k, st) ∷ items) index =
      let size = length (encode st) in
      scanned (start + 4 + size) items (put st.id (index_from_stream st (start + 4) size) index)

  size_lem :
      (st : Stream) (rest : Bytes)
      → length (encode st) < 4_294_967_296
      → u32_le (stored encode decode st ++ rest) ≡ length (encode st)
  unfolding byte_at
  size_lem st rest short = omega (arith, short)

  scan_one :
      (fuel start : ℕ) (st : Stream) (rest : Bytes) (index : Map StreamIndex)
      → length (encode st) < 4_294_967_296
      → scan encode decode (suc fuel) start (stored encode decode st ++ rest) index
        ≡ scan encode decode fuel
            (start + 4 + length (encode st))
            rest
            (put st.id (index_from_stream st (start + 4) (length (encode st))) index)
  unfolding scan
  scan_one fuel start st rest index short = ground (
    arith,
    size_lem st rest short,
    length-append (encode st) rest,
    take-length (encode st) rest,
    drop-length (encode st) rest,
    decode-encode st,
  )

  scan-records :
      (fuel start : ℕ) (items : Map Stream) (index : Map StreamIndex)
      → length items ≤ fuel
      → AllShort items
      → scan encode decode fuel start (all_records items) index ≡ scanned start items index
  unfolding scan all_records scanned
  scan-records zero start [] index h short = refl
  scan-records (suc fuel) start [] index h short = refl
  scan-records zero start (r ∷ items) index h short = ground (arith, h)
  scan-records (suc fuel) start ((k, st) ∷ items) index h short =
      let size = length (encode st) in
      scan_one fuel start st (all_records items) index short.0
      ∙ scan-records fuel (start + 4 + size) items
          (put st.id (index_from_stream st (start + 4) size) index) (omega (arith, h)) short.1

  length-records : (items : Map Stream) → length items ≤ length (all_records items)
  unfolding all_records
  length-records [] = omega arith
  length-records ((k, st) ∷ items) =
      omega (arith, length-append (encode st) (all_records items), length-records items)

  scanned-Rows :
      (out : Bytes) (items : Map Stream) (index : Map StreamIndex) (known : Map Stream)
      → Rows encode decode out index known
      → Rows encode decode
          (out ++ all_records items)
          (scanned (length out) items index)
          (put_each items known)
  unfolding scanned put_each all_records
  scanned-Rows out [] index known h =
      subst (λ (b : Bytes). Rows encode decode b index known) (sym (append_nil out)) h
  scanned-Rows out ((k, st) ∷ items) index known h =
      let next = out ++ stored encode decode st in
      let rows = append-Rows encode decode decode-encode nonempty out st.id st index known h in
      let ih =
        scanned-Rows next items (put st.id (placed encode decode out st) index) (put st.id st known)
          rows in
      let place : length next ≡ length out + 4 + length (encode st) =
        omega (arith, length-append out (stored encode decode st)) in
      let x = placed encode decode out st in
      subst
        (λ (b : Bytes).
          Rows encode decode b
            (scanned (length out + 4 + length (encode st)) items (put st.id x index))
            (put_each items (put st.id st known)))
        (append_assoc out (stored encode decode st) (all_records items))
        (subst
          (λ (n : ℕ).
            Rows encode decode (next ++ all_records items) (scanned n items (put st.id x index))
              (put_each items (put st.id st known)))
          place ih)

  -- Loading the file of a save that succeeded, into a new store, finds the streams that the saved
  -- store held: the same, under the same identifiers and in the same places. Every stream has to be
  -- stored under its own identifier, and its JSON to be shorter than 2^32 bytes.
  pub load_indexed-save_indexed :
      (s : IndexedStore) (t : StreamStore) (revision : ℕ) (w : Bool) (legacy : Option (List Stream))
      → IsKeyed t.items
      → AllShort t.items
      → Implements encode decode s t
      → let saved = (save_indexed encode decode true s).0 in
        let new : IndexedStore = record {
          index = [];
          revision = revision;
          bytes = [];
          data_file = saved.data_file;
        } in
        Implements encode decode
          (load_indexed encode decode w legacy new)
          (record t { revision = revision })
  unfolding save_indexed load_indexed all_records
  load_indexed-save_indexed s t revision w legacy k short h =
      let c = compacted-Rows encode decode decode-encode nonempty s.bytes [] s.index t.items h.0 in
      let read =
        scan-records (length (all_records t.items)) 0 t.items [] (length-records t.items) short in
      let same = put_each-keyed t.items [] k (AllFresh-nil t.items) in
      let rows = scanned-Rows [] t.items [] [] tt in
      (
        subst (λ (b : Bytes). Rows encode decode b (scan encode decode (length b) 0 b []) t.items)
            (sym c.0)
            (subst (λ (x : Map StreamIndex). Rows encode decode (all_records t.items) x t.items)
              (sym read)
              (subst (Rows encode decode (all_records t.items) (scanned 0 t.items [])) same rows)),
        refl,
      )
