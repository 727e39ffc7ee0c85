-- ===== src/Streams/Identifiers.antt =====
-- pkg/store/stream.go: every stream stays under its own identifier.
use tvproxy.Base.{
  ℕ, String, ◌≡◌, ◌≢◌, refl, sym, ap, ◌∙◌, Bool-cases, Option-cases, inl, inr, Bool, true, false,
  ◌==◌, eq_iff, ==→ne, List, [], ◌∷◌, Option, none, some, arith, keep, if_of_both,
}
use tvproxy.Base.Maps.{Map, lookup, put, erase}
use tvproxy.Base.Integers.{pos}
use tvproxy.Streams.{Stream}
use tvproxy.Streams.Plain.{
  StreamStore, upserted, merged_with, update_one, bulk_upsert, delete_stale, delete_by,
  delete_orphaned, delete, update_tmdb_id, set_tmdb_manual, update_stream_probe_data, probed, clear,
  save, update_where, update_wireguard_by_account_id, clear_auto_tmdb_by_account_id,
}
use tvproxy.Streams.Restart.{IsKeyed}
use tvproxy.Streams.Steps.{
  Operation, upsert, remove_stale, remove_by, remove_orphaned, remove_one, set_tmdb, set_manual,
  set_probe, remove_all, save_all, plain_step,
}

lookup-put_ne :
    (j k : String) (st : Stream) (items : Map Stream)
    → j ≢ k
    → lookup j items ≡ none
    → lookup j (put k st items) ≡ none
lookup-put_ne j k st [] n h = ground (arith, eq_iff k j)
lookup-put_ne j k st ((l, s) ∷ items) n h =
    ground (arith, h, eq_iff l k, eq_iff l j, lookup-put_ne j k st items n)

put-IsKeyed :
    (k : String) (st : Stream) (items : Map Stream)
    → k ≡ st.id
    → IsKeyed items
    → IsKeyed (put k st items)
put-IsKeyed k st [] e h = (e, refl, tt)
put-IsKeyed k st ((l, s) ∷ items) e h = elim (Bool-cases (l == k)) [
  | inl q ↦ rw q ((eq_iff l k).0 q ∙ e, h.1, h.2)
  | inr q ↦ rw q (h.0, lookup-put_ne l k st items (==→ne l k q) h.1, put-IsKeyed k st items e h.2)
]

lookup-keep-none :
    (k : String) (p : String × Stream → Bool) (items : Map Stream)
    → lookup k items ≡ none
    → lookup k (keep p items) ≡ none
lookup-keep-none k p [] h = refl
lookup-keep-none k p ((l, s) ∷ items) h = ground (arith, h, lookup-keep-none k p items)

keep-IsKeyed :
    (p : String × Stream → Bool) (items : Map Stream) → IsKeyed items → IsKeyed (keep p items)
keep-IsKeyed p [] h = tt
keep-IsKeyed p ((l, s) ∷ items) h =
    ground (arith, h.0, lookup-keep-none l p items h.1, keep-IsKeyed p items h.2)

lookup-erase-none :
    (j k : String) (items : Map Stream) → lookup j items ≡ none → lookup j (erase k items) ≡ none
lookup-erase-none j k [] h = refl
lookup-erase-none j k ((l, s) ∷ items) h = ground (arith, h, lookup-erase-none j k items)

erase-IsKeyed : (k : String) (items : Map Stream) → IsKeyed items → IsKeyed (erase k items)
erase-IsKeyed k [] h = tt
erase-IsKeyed k ((l, s) ∷ items) h =
    ground (arith, h.0, h.2, lookup-erase-none l k items h.1, erase-IsKeyed k items h.2)

lookup-IsKeyed :
    (k : String) (items : Map Stream) (st : Stream)
    → IsKeyed items
    → lookup k items ≡ some st
    → k ≡ st.id
lookup-IsKeyed k [] st h e = ground (arith, e)
lookup-IsKeyed k ((l, s) ∷ items) st h e = elim (Bool-cases (l == k)) [
  | inl q ↦
      let same : some s ≡ some st = rw q at e in
      sym ((eq_iff l k).0 q)
      ∙ h.0
      ∙ ap (λ (o : Option Stream). elim o [ some x ↦ x.id | none ↦ "" ]) same
  | inr q ↦ lookup-IsKeyed k items st h.2 (rw q at e)
]

id-merged_with : (now : ℕ) (e : Option Stream) (st : Stream) → (merged_with now e st).id ≡ st.id
id-merged_with now none st = refl
id-merged_with now (some e) st = refl

upserted-IsKeyed :
    (now : ℕ) (sts : List Stream) (items : Map Stream)
    → IsKeyed items
    → IsKeyed (upserted now sts items)
upserted-IsKeyed now [] items h = h
upserted-IsKeyed now (st ∷ sts) items h =
    let new = record (merged_with now (lookup st.id items) st) { updated_at = now } in
    upserted-IsKeyed now sts (put st.id new items)
      (put-IsKeyed st.id new items (sym (id-merged_with now (lookup st.id items) st)) h)

update_one-IsKeyed :
    (id : String) (f : Stream → Stream) (s : StreamStore)
    → ((st : Stream) → (f st).id ≡ st.id)
    → IsKeyed s.items
    → IsKeyed (update_one id f s).0.items
update_one-IsKeyed id f s same h = elim (Option-cases (lookup id s.items)) [
  | inl e ↦ rw (update_one, e) h
  | inr e ↦
      rw (update_one, e.1)
        (put-IsKeyed id (f e.0) s.items (lookup-IsKeyed id s.items e.0 h e.1 ∙ sym (same e.0)) h)
]

save-IsKeyed :
    (written : Bool) (s : StreamStore) → IsKeyed s.items → IsKeyed (save written s).0.items
unfolding save
save-IsKeyed true s h = h
save-IsKeyed false s h = h

plain_step-IsKeyed :
    (op : Operation) (s : StreamStore) → IsKeyed s.items → IsKeyed (plain_step op s).0.items
unfolding plain_step bulk_upsert delete_stale delete_by delete_orphaned delete update_tmdb_id
    set_tmdb_manual update_stream_probe_data clear
plain_step-IsKeyed (upsert now sts) s h = upserted-IsKeyed now sts s.items h
plain_step-IsKeyed (remove_stale by id kept) s h = keep-IsKeyed _ s.items h
plain_step-IsKeyed (remove_by by id) s h = keep-IsKeyed _ s.items h
plain_step-IsKeyed (remove_orphaned by known) s h = keep-IsKeyed _ s.items h
plain_step-IsKeyed (remove_one id) s h = erase-IsKeyed id s.items h
plain_step-IsKeyed (set_tmdb now id n) s h =
    update_one-IsKeyed id (λ st. record st { tmdb_id = n; updated_at = now }) s (λ st. refl) h
plain_step-IsKeyed (set_manual now id n) s h =
    update_one-IsKeyed id (λ st. record st { tmdb_id = n; tmdb_manual = true; updated_at = now }) s
      (λ st. refl) h
plain_step-IsKeyed (set_probe now id d v a) s h =
    update_one-IsKeyed id (λ st. record (probed d v a st) { updated_at = now }) s (λ st. refl) h
plain_step-IsKeyed remove_all s h = tt
plain_step-IsKeyed (save_all written) s h = save-IsKeyed written s h

lookup-update_where :
    (k : String) (p : Stream → Bool) (f : Stream → Stream) (items : Map Stream)
    → lookup k items ≡ none
    → lookup k (update_where p f items) ≡ none
lookup-update_where k p f [] h = refl
lookup-update_where k p f ((l, s) ∷ items) h = elim (Bool-cases (l == k)) [
  | inl q ↦ absurd (ground (arith, h, q))
  | inr q ↦ rw q (lookup-update_where k p f items (rw q at h))
]

update_where-IsKeyed :
    (p : Stream → Bool) (f : Stream → Stream) (items : Map Stream)
    → ((st : Stream) → (f st).id ≡ st.id)
    → IsKeyed items
    → IsKeyed (update_where p f items)
update_where-IsKeyed p f [] same h = tt
update_where-IsKeyed p f ((l, s) ∷ items) same h = (
  if_of_both (λ (st : Stream). l ≡ st.id) (p s) (f s) s (h.0 ∙ sym (same s)) h.0,
  lookup-update_where l p f items h.1,
  update_where-IsKeyed p f items same h.2,
)

-- If every stream of a store is stored under its own identifier, and no two under one, then so it is
-- after an upsert, a deletion by any of the sources or of orphans or of one stream, an update of one
-- stream, a clear, a save, and the two updates of all streams of an account. Loading is left out,
-- whose streams are those of the file.
pub stream_calls-AreKeyed :
    (op : Operation) (account : String) (flag : Bool) (s : StreamStore)
    → IsKeyed s.items
    → IsKeyed (plain_step op s).0.items
      × IsKeyed (update_wireguard_by_account_id account flag s).items
      × IsKeyed (clear_auto_tmdb_by_account_id account s).items
unfolding update_wireguard_by_account_id clear_auto_tmdb_by_account_id
stream_calls-AreKeyed op account flag s h = (
  plain_step-IsKeyed op s h,
  update_where-IsKeyed _ (λ st. record st { use_wireguard = flag }) s.items (λ st. refl) h,
  update_where-IsKeyed _ (λ st. record st { tmdb_id = pos 0 }) s.items (λ st. refl) h,
)
