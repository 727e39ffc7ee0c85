-- ===== src/Streams/Refinement.antt =====
-- pkg/store/stream_indexed.go against pkg/store/stream.go: the indexed store does what the plain
-- one does.
use tvproxy.Base.{
  ◌+◌, ◌≤◌, ◌<◌, String, ◌≡◌, refl, sym, ap, subst, ◌∙◌, Bool-cases, inl, inr, ◌==◌, List, [], ◌∷◌,
  ◌++◌, Option, none, some, arith, length, take, drop, length-append, take-drop_append,
  drop-length_plus, take-all, append_assoc, append_nil,
}
use tvproxy.Base.Maps.{Map, lookup, put, erase, values, keys, Related}
use tvproxy.Extradata.{Bytes}
use tvproxy.Streams.{Stream}
use tvproxy.Streams.Plain.{StreamStore}
use tvproxy.Streams.Entries.{StreamIndex, IndexedStore, index_from_stream}
use tvproxy.Streams.Indexed.{read_stream, stored, placed, read_all, compacted}

module _ (encode : Stream → Bytes) (decode : Bytes → Option Stream) where
  -- An entry describes a stream, and its place in the bytes holds that stream.
  abbrev pub Holds : Bytes → StreamIndex → Stream → Type 0
  Holds bytes x st =
      (x ≡ index_from_stream st x.offset x.size)
      × (x.size ≡ length (encode st))
      × (take x.size (drop x.offset bytes) ≡ encode st)
      × (x.offset + x.size ≤ length bytes)

  abbrev pub HoldsRow : Bytes → String × StreamIndex → String × Stream → Type 0
  HoldsRow bytes r t = (r.0 ≡ t.0) × Holds bytes (r.1) (t.1)

  -- The same streams, in the same order, at the same revision.
  abbrev pub Implements : IndexedStore → StreamStore → Type 0
  Implements s t = Related (HoldsRow s.bytes) s.index t.items × (s.revision ≡ t.revision)

  abbrev pub Rows : Bytes → Map StreamIndex → Map Stream → Type 0
  Rows bytes index items = Related (HoldsRow bytes) index items

  abbrev pub LookedUp : Bytes → Option StreamIndex → Option Stream → Type 0
  LookedUp bytes none none = Unit
  LookedUp bytes none (some st) = ⊥
  LookedUp bytes (some x) none = ⊥
  LookedUp bytes (some x) (some st) = Holds bytes x st

  module _ (decode-encode : (st : Stream) → decode (encode st) ≡ some st)
      (nonempty : (st : Stream) → 0 < length (encode st)) where
    pub read-Holds :
        (bytes : Bytes) (x : StreamIndex) (st : Stream)
        → Holds bytes x st
        → read_stream encode decode bytes x ≡ some st
    unfolding read_stream
    read-Holds bytes x st h = ground (arith, h.1, h.2, h.3, nonempty st, decode-encode st)

    pub Holds-append :
        (bytes more : Bytes) (x : StreamIndex) (st : Stream)
        → Holds bytes x st
        → Holds (bytes ++ more) x st
    Holds-append bytes more x st h = (
      h.0,
      h.1,
      take-drop_append x.offset x.size bytes more h.3 ∙ h.2,
      omega (arith, h.3, length-append bytes more),
    )

    pub placed-Holds :
        (bytes : Bytes) (st : Stream)
        → Holds (bytes ++ stored encode decode st) (placed encode decode bytes st) st
    placed-Holds bytes st = (
      refl,
      refl,
      (rw (drop-length_plus 4 bytes (stored encode decode st)) (take-all (encode st))),
      omega (arith, length-append bytes (stored encode decode st)),
    )

    Rows-append :
        (bytes more : Bytes) (index : Map StreamIndex) (items : Map Stream)
        → Rows bytes index items
        → Rows (bytes ++ more) index items
    Rows-append bytes more [] [] h = tt
    Rows-append bytes more [] (t ∷ items) h = elim h [ ]
    Rows-append bytes more (r ∷ index) [] h = elim h [ ]
    Rows-append bytes more (r ∷ index) (t ∷ items) h =
        ((h.0.0, Holds-append bytes more (r.1) (t.1) h.0.1), Rows-append bytes more index items h.1)

    pub Rows-put :
        (bytes : Bytes) (k : String) (x : StreamIndex) (st : Stream) (index : Map StreamIndex)
        (items : Map Stream)
        → Holds bytes x st
        → Rows bytes index items
        → Rows bytes (put k x index) (put k st items)
    Rows-put bytes k x st [] [] here h = ((refl, here), tt)
    Rows-put bytes k x st [] (t ∷ items) here h = elim h [ ]
    Rows-put bytes k x st (r ∷ index) [] here h = elim h [ ]
    Rows-put bytes k x st ((j, y) ∷ index) ((l, s) ∷ items) here h = elim (Bool-cases (l == k)) [
      | inl e ↦ rw (h.0.0, e) ((refl, here), h.1)
      | inr e ↦ rw (h.0.0, e) ((refl, h.0.1), Rows-put bytes k x st index items here h.1)
    ]

    -- Appending a stream and putting its entry is putting the stream.
    pub append-Rows :
        (bytes : Bytes) (k : String) (st : Stream) (index : Map StreamIndex) (items : Map Stream)
        → Rows bytes index items
        → Rows
            (bytes ++ stored encode decode st)
            (put k (placed encode decode bytes st) index)
            (put k st items)
    append-Rows bytes k st index items h =
        Rows-put (bytes ++ stored encode decode st) k (placed encode decode bytes st) st index items
          (placed-Holds bytes st) (Rows-append bytes (stored encode decode st) index items h)

    pub lookup-Rows :
        (bytes : Bytes) (k : String) (index : Map StreamIndex) (items : Map Stream)
        → Rows bytes index items
        → LookedUp bytes (lookup k index) (lookup k items)
    lookup-Rows bytes k [] [] h = tt
    lookup-Rows bytes k [] (t ∷ items) h = elim h [ ]
    lookup-Rows bytes k (r ∷ index) [] h = elim h [ ]
    lookup-Rows bytes k ((j, x) ∷ index) ((l, st) ∷ items) h = elim (Bool-cases (l == k)) [
      | inl e ↦ rw (h.0.0, e) h.0.1
      | inr e ↦ rw (h.0.0, e) (lookup-Rows bytes k index items h.1)
    ]

    pub values-Rows :
        (bytes : Bytes) (index : Map StreamIndex) (items : Map Stream)
        → Rows bytes index items
        → Related (Holds bytes) (values index) (values items)
    values-Rows bytes [] [] h = tt
    values-Rows bytes [] (t ∷ items) h = elim h [ ]
    values-Rows bytes (r ∷ index) [] h = elim h [ ]
    values-Rows bytes ((j, x) ∷ index) ((l, st) ∷ items) h =
        (h.0.1, values-Rows bytes index items h.1)

    pub keys-Rows :
        (bytes : Bytes) (index : Map StreamIndex) (items : Map Stream)
        → Rows bytes index items
        → keys index ≡ keys items
    keys-Rows bytes [] [] h = refl
    keys-Rows bytes [] (t ∷ items) h = elim h [ ]
    keys-Rows bytes (r ∷ index) [] h = elim h [ ]
    keys-Rows bytes ((j, x) ∷ index) ((l, st) ∷ items) h =
        rw (h.0.0, keys-Rows bytes index items h.1) refl

    pub read_all-Related :
        (bytes : Bytes) (xs : List StreamIndex) (sts : List Stream)
        → Related (Holds bytes) xs sts
        → read_all encode decode bytes xs ≡ sts
    read_all-Related bytes [] [] h = refl
    read_all-Related bytes [] (st ∷ sts) h = elim h [ ]
    read_all-Related bytes (x ∷ xs) [] h = elim h [ ]
    read_all-Related bytes (x ∷ xs) (st ∷ sts) h =
        rw (read_all, read-Holds bytes x st h.0, read_all-Related bytes xs sts h.1) refl

    pub erase-Rows :
        (bytes : Bytes) (k : String) (index : Map StreamIndex) (items : Map Stream)
        → Rows bytes index items
        → Rows bytes (erase k index) (erase k items)
    erase-Rows bytes k [] [] h = tt
    erase-Rows bytes k [] (t ∷ items) h = elim h [ ]
    erase-Rows bytes k (r ∷ index) [] h = elim h [ ]
    erase-Rows bytes k ((j, x) ∷ index) ((l, st) ∷ items) h = elim (Bool-cases (l == k)) [
      | inl e ↦ rw (h.0.0, e) (erase-Rows bytes k index items h.1)
      | inr e ↦ rw (h.0.0, e) ((refl, h.0.1), erase-Rows bytes k index items h.1)
    ]

    -- A record that is written at the end, behind its length.
    moved-Holds :
        (bytes out : Bytes) (x : StreamIndex) (st : Stream)
        → Holds bytes x st
        → Holds
            (out ++ stored encode decode st)
            (record x { offset = length out + 4; size = length (encode st) })
            st
    moved-Holds bytes out x st h =
        let there = placed-Holds out st in
        (
          ap (λ (y : StreamIndex). record y { offset = length out + 4; size = length (encode st) })
              h.0,
          there.1,
          there.2,
          there.3,
        )

    -- The records of a map, one behind the other.
    abbrev pub body : Map Stream → Bytes
    body [] = []
    body ((k, st) ∷ items) = stored encode decode st ++ body items

    -- What `Save` writes, and that it writes every stream.
    pub compacted-Rows :
        (bytes out : Bytes) (index : Map StreamIndex) (items : Map Stream)
        → Rows bytes index items
        → ((compacted encode decode bytes out index).1 ≡ out ++ body items)
          × Rows (out ++ body items) (compacted encode decode bytes out index).0 items
    compacted-Rows bytes out [] [] h = (sym (append_nil out), tt)
    compacted-Rows bytes out [] (t ∷ items) h = elim h [ ]
    compacted-Rows bytes out (r ∷ index) [] h = elim h [ ]
    compacted-Rows bytes out ((j, x) ∷ index) ((l, st) ∷ items) h =
        let ih = compacted-Rows bytes (out ++ stored encode decode st) index items h.1 in
        let joined = append_assoc out (stored encode decode st) (body items) in
        let here =
          Holds-append (out ++ stored encode decode st) (body items) _ st
            (moved-Holds bytes out x st h.0.1) in
        rw (compacted, read-Holds bytes x st h.0.1)
          (
            ih.0 ∙ joined,
            subst
                (λ (b : Bytes).
                  Rows b
                    ((j, record x { offset = length out + 4; size = length (encode st) })
                      ∷ (compacted encode decode bytes (out ++ stored encode decode st) index).0)
                    ((l, st) ∷ items))
                joined ((h.0.0, here), ih.1),
          )
