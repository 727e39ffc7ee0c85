-- ===== src/Store/Channels/Laws.antt =====
-- pkg/store/channel.go: what removing streams leaves, the order of a channel's streams, and that a
-- user's operations leave the channels of others alone.
use tvproxy.Base.{
  ℕ, String, ◌≡◌, ◌≢◌, refl, sym, ap, ◌∙◌, Bool, true, false, not, ◌==◌, eq_iff, List, [], ◌∷◌, map,
  some, ok, ok_inj, some_inj, arith, ltb, keep, keep-All, any, any-false, All, All-mono, find,
  modify, find-remove_ne, Bool-cases, Option-cases, inl, inr,
}
use mathlib.Core.List.{Perm}
use tvproxy.Base.Sort.{sort, sort-perm, sort-IsSorted, IsSorted}
use tvproxy.Store.Table.{Write, written, failed, save}
use tvproxy.Store.Channels.{
  Channel, ChannelStream, ChannelEntry, Channels, id_of, replaced, update_for_user, delete_for_user,
  get_streams, unmapped, orphaned, touched, listed, remove_stream_mappings,
}

save-rows : (w : Write ChannelEntry) (t : Channels) → (save w t).0.rows ≡ t.rows
save-rows written t = refl
save-rows (failed left) t = refl

-- No stream of the channel is in the list.
abbrev pub Unmapped : List String → ChannelEntry → Type 0
Unmapped ids e = All (λ cs. listed ids cs.stream_id ≡ false) e.stream_ids

unmapped-Unmapped :
    (ids : List String) (es : List ChannelEntry)
    → All (Unmapped ids) (map (unmapped (listed ids)) es)
unmapped-Unmapped ids [] = tt
unmapped-Unmapped ids (e ∷ es) = (
  All-mono (λ cs. not (listed ids cs.stream_id) ≡ true) (λ cs. listed ids cs.stream_id ≡ false)
      (keep (λ cs. not (listed ids cs.stream_id)) e.stream_ids) (λ cs h. ground (arith, h))
      (keep-All (λ cs. not (listed ids cs.stream_id)) e.stream_ids),
  unmapped-Unmapped ids es,
)

untouched-Unmapped :
    (ids : List String) (es : List ChannelEntry)
    → All (λ e. touched (listed ids) e ≡ false) es
    → All (Unmapped ids) es
untouched-Unmapped ids es h =
    All-mono (λ e. touched (listed ids) e ≡ false) (Unmapped ids) es
      (λ e k. (any-false (λ cs. listed ids cs.stream_id) e.stream_ids).0 k) h

All-streams : (cs : List ChannelStream) → All (λ c. listed [] c.stream_id ≡ false) cs
All-streams [] = tt
All-streams (c ∷ cs) = (refl, All-streams cs)

All-rows : (es : List ChannelEntry) → All (Unmapped []) es
All-rows [] = tt
All-rows (e ∷ es) = (All-streams e.stream_ids, All-rows es)

-- After streams are removed, no channel is mapped to any of them, whether the file could be written
-- or not.
pub remove_stream_mappings-Unmapped :
    (w : Write ChannelEntry) (ids : List String) (t : Channels)
    → All (Unmapped ids) (remove_stream_mappings w ids t).0.rows
unfolding remove_stream_mappings
remove_stream_mappings-Unmapped w [] t = All-rows t.rows
remove_stream_mappings-Unmapped w (i ∷ is) t =
    elim (Bool-cases (any (touched (listed (i ∷ is))) t.rows)) [
      | inl h ↦ rw h (
          rw (save-rows w)
            (unmapped-Unmapped (i ∷ is) (keep (λ e. not (orphaned (listed (i ∷ is)) e)) t.rows)))
      | inr h ↦
          rw h (
            untouched-Unmapped (i ∷ is) t.rows ((any-false (touched (listed (i ∷ is))) t.rows).0 h))
    ]

abbrev pub earlier : ChannelStream → ChannelStream → Bool
earlier a b = ltb a.priority b.priority

-- The streams of a channel are given in the order of their priorities, each of them and no other.
pub get_streams-IsSorted :
    (id : String) (t : Channels) (e : ChannelEntry) (cs : List ChannelStream)
    → find id_of id t.rows ≡ some e
    → get_streams id t ≡ ok cs
    → IsSorted earlier cs × Perm cs e.stream_ids
unfolding get_streams
get_streams-IsSorted id t e cs f h =
    let same : sort earlier e.stream_ids ≡ cs = ok_inj (rw (f, get_streams) at h) in
    rw (sym same) (
      sort-IsSorted earlier (λ a b k. ground (arith, k)) (λ a b c k l. ground (arith, k, l))
          e.stream_ids,
      sort-perm earlier e.stream_ids,
    )

find-replaced_ne :
    (j k : String) (f : ChannelEntry → ChannelEntry) (es : List ChannelEntry)
    → ((e : ChannelEntry) → id_of (f e) ≡ k)
    → j ≢ k
    → find id_of j (modify id_of k f es) ≡ find id_of j es
find-replaced_ne j k f [] h n = refl
find-replaced_ne j k f (e ∷ es) h n = ground (
  arith,
  h e,
  eq_iff e.channel.id k,
  eq_iff e.channel.id j,
  eq_iff (id_of (f e)) j,
  find-replaced_ne j k f es h n,
)

other_id :
    (k j user : String) (t : Channels) (e x : ChannelEntry)
    → find id_of k t.rows ≡ some e
    → find id_of j t.rows ≡ some x
    → x.channel.user_id ≡ user
    → e.channel.user_id ≢ user
    → k ≢ j
other_id k j user t e x f g u n same = n (
    ap (λ (y : ChannelEntry). y.channel.user_id)
      (some_inj (sym f ∙ ap (λ i. find id_of i t.rows) same ∙ g))
    ∙ u)

-- A user who updates a channel, or deletes one, leaves every channel of another user as it is.
pub update_for_user-others :
    (w : Write ChannelEntry) (now : ℕ) (ch : Channel) (user k : String) (t : Channels)
    (e : ChannelEntry)
    → find id_of k t.rows ≡ some e
    → e.channel.user_id ≢ user
    → (find id_of k (update_for_user w now ch user t).0.rows ≡ some e)
      × (find id_of k (delete_for_user w ch.id user t).0.rows ≡ some e)
unfolding update_for_user delete_for_user
update_for_user-others w now ch user k t e f n = elim (Option-cases (find id_of ch.id t.rows)) [
  | inl h ↦ (rw (update_for_user, h) f, rw (delete_for_user, h) f)
  | inr (x, h) ↦ elim (Bool-cases (x.channel.user_id == user)) [
    | inl own ↦
        let ne = other_id k ch.id user t e x f h ((eq_iff x.channel.user_id user).0 own) n in
        (
          rw (update_for_user, h, own)
              (rw (save-rows w)
                (find-replaced_ne k ch.id (replaced now ch) t.rows (λ y. refl) ne ∙ f)),
          rw (delete_for_user, h, own)
              (rw (save-rows w) (find-remove_ne id_of k ch.id t.rows ne ∙ f)),
        )
    | inr foreign ↦ (rw (update_for_user, h, foreign) f, rw (delete_for_user, h, foreign) f)
  ]
]
