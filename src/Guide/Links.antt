-- ===== src/Guide/Links.antt =====
-- pkg/store/epg.go: the index of channels points at data of those channels.
use tvproxy.Base.{
  ℕ, String, ◌≡◌, ◌≢◌, refl, sym, ap, subst, ◌∙◌, inl, inr, List, [], ◌∷◌, Option, none, some, All,
  All-mono, Option-cases,
}
use tvproxy.Base.Maps.{
  Map, lookup, put, erase, lookup-put, lookup-put_ne, lookup-erase_ne, IsMap, put-IsMap,
  erase-IsMap, All-lookup, All-erase, All-put,
}
use tvproxy.Guide.{
  EpgData, EpgStore, listed_under, remove_from_source_index, replace_old, add_epg_data, with_ids,
  add_each, bulk_create_epg_data, delete_data, delete_each, delete_by_source_id,
}

abbrev LinkedTo : Option EpgData → String → Type 0
LinkedTo none channel = ⊥
LinkedTo (some d) channel = d.channel_id ≡ channel

abbrev pub Linked : Map EpgData → String × String → Type 0
Linked m (channel, id) = LinkedTo (lookup id m) channel

-- Each channel of the index has one identifier, of data that is there and is that channel's.
abbrev pub IsLinked : EpgStore → Type 0
IsLinked g = IsMap g.epg_by_channel_id × All (Linked g.epg_data) g.epg_by_channel_id

abbrev FreeFor : Option EpgData → EpgData → Type 0
FreeFor none d = Unit
FreeFor (some old) d = old.channel_id ≡ d.channel_id

-- When its turn comes, the identifier of each is new, or that of data of its channel.
abbrev pub AllFree : List EpgData → EpgStore → Type 0
AllFree [] g = Unit
AllFree (d ∷ ds) g = FreeFor (lookup d.id g.epg_data) d × AllFree ds (add_epg_data d g)

-- Taking an identifier out of the list of its source leaves the data and the channels alone.
remove_from-same :
    (source epg : String) (g : EpgStore)
    → ((remove_from_source_index source epg g).epg_by_channel_id ≡ g.epg_by_channel_id)
      × ((remove_from_source_index source epg g).epg_data ≡ g.epg_data)
remove_from-same source epg g = elim (Option-cases (lookup source g.by_source_id)) [
  | inl e ↦ rw (remove_from_source_index, e) (refl, refl)
  | inr e ↦ rw (remove_from_source_index, e.1) (refl, refl)
]

replace_old-none :
    (channel : String) (g : EpgStore)
    → lookup channel g.epg_by_channel_id ≡ none
    → replace_old channel g ≡ g
replace_old-none channel g e = rw (replace_old, e) refl

replace_old-some :
    (channel old_id : String) (g : EpgStore)
    → lookup channel g.epg_by_channel_id ≡ some old_id
    → ((replace_old channel g).epg_by_channel_id ≡ g.epg_by_channel_id)
      × ((replace_old channel g).epg_data ≡ erase old_id g.epg_data)
replace_old-some channel old_id g e = elim (Option-cases (lookup old_id g.epg_data)) [
  | inl n ↦ rw (replace_old, e, n) (refl, refl)
  | inr o ↦
      let same = remove_from-same (o.0).epg_source_id old_id g in
      rw (replace_old, e, o.1) (same.0, ap (erase old_id) same.1)
]

linked_once :
    (o : Option EpgData) (channel other : String)
    → LinkedTo o channel
    → LinkedTo o other
    → channel ≡ other
linked_once none channel other h g = elim h [ ]
linked_once (some d) channel other h g = sym h ∙ g

-- Two identifiers of data of two channels differ.
apart :
    (m : Map EpgData) (j k : String) (channel other : String)
    → LinkedTo (lookup j m) channel
    → LinkedTo (lookup k m) other
    → channel ≢ other
    → j ≢ k
apart m j k channel other h g n e = n (
    linked_once (lookup k m) channel other
      (subst (λ (z : String). LinkedTo (lookup z m) channel) e h) g)

free_apart :
    (m : Map EpgData) (j : String) (channel : String) (d : EpgData)
    → LinkedTo (lookup j m) channel
    → FreeFor (lookup d.id m) d
    → channel ≢ d.channel_id
    → j ≢ d.id
free_apart m j channel d h f n e = n (
    free_once (lookup d.id m) channel d (subst (λ (z : String). LinkedTo (lookup z m) channel) e h)
      f)
  where
    free_once :
        (o : Option EpgData) (c : String) (d : EpgData)
        → LinkedTo o c
        → FreeFor o d
        → c ≡ d.channel_id
    free_once none c d h f = elim h [ ]
    free_once (some o) c d h f = sym h ∙ f

-- The data of another channel is found as before, when one identifier is put and others erased.
Linked-put :
    (m : Map EpgData) (d : EpgData) (channel id : String)
    → id ≢ d.id
    → Linked m (channel, id)
    → Linked (put d.id d m) (channel, id)
Linked-put m d channel id n h =
    subst (λ (o : Option EpgData). LinkedTo o channel) (sym (lookup-put_ne id d.id d m n)) h

Linked-erase :
    (m : Map EpgData) (k channel id : String)
    → id ≢ k
    → Linked m (channel, id)
    → Linked (erase k m) (channel, id)
Linked-erase m k channel id n h =
    subst (λ (o : Option EpgData). LinkedTo o channel) (sym (lookup-erase_ne id k m n)) h

add_epg_data-IsLinked :
    (d : EpgData) (g : EpgStore)
    → FreeFor (lookup d.id g.epg_data) d
    → IsLinked g
    → IsLinked (add_epg_data d g)
add_epg_data-IsLinked d g f h = elim (Option-cases (lookup d.channel_id g.epg_by_channel_id)) [
  | inl e ↦ rw (replace_old-none d.channel_id g e) (
    put-IsMap d.channel_id d.id g.epg_by_channel_id h.0,
    All-put (Linked g.epg_data) (Linked (put d.id d g.epg_data)) d.channel_id
        (λ l b n q. Linked-put g.epg_data d l b (free_apart g.epg_data b l d q f n) q) d.id
        g.epg_by_channel_id h.0 (new_linked d g.epg_data) h.1,
  )
  | inr o ↦
      let m = g.epg_data in
      let r = replace_old-some d.channel_id o.0 g o.1 in
      let own = All-lookup (Linked m) d.channel_id g.epg_by_channel_id o.0 h.1 o.1 in
      rw (r.0, r.1)
        (
          put-IsMap d.channel_id d.id g.epg_by_channel_id h.0,
          All-put (Linked m) (Linked (put d.id d (erase o.0 m))) d.channel_id
              (λ l b n q.
                Linked-put (erase o.0 m) d l b (free_apart m b l d q f n)
                  (Linked-erase m o.0 l b (apart m b o.0 l d.channel_id q own n) q))
              d.id g.epg_by_channel_id h.0 (new_linked d (erase o.0 m)) h.1,
        )
]
  where
    new_linked : (d : EpgData) (m : Map EpgData) → Linked (put d.id d m) (d.channel_id, d.id)
    new_linked d m =
        subst (λ (o : Option EpgData). LinkedTo o d.channel_id) (sym (lookup-put d.id d m)) refl

add_each-IsLinked :
    (ds : List EpgData) (g : EpgStore) → AllFree ds g → IsLinked g → IsLinked (add_each ds g)
add_each-IsLinked [] g f h = h
add_each-IsLinked (d ∷ ds) g f h =
    add_each-IsLinked ds (add_epg_data d g) f.1 (add_epg_data-IsLinked d g f.0 h)

-- Storing the data of channels keeps the index of channels linked, if each identifier is new, or is
-- that of data of the same channel, when its turn comes.
pub bulk_create_epg_data-IsLinked :
    (fresh : ℕ → String) (ds : List EpgData) (g : EpgStore)
    → AllFree (with_ids fresh 0 ds) g
    → IsLinked g
    → IsLinked (bulk_create_epg_data fresh ds g)
unfolding bulk_create_epg_data
bulk_create_epg_data-IsLinked fresh ds g f h = add_each-IsLinked (with_ids fresh 0 ds) g f h

absent_unlinked : (channel : String) → LinkedTo none channel → ⊥
absent_unlinked channel h = h

delete_data-IsLinked : (epg : String) (g : EpgStore) → IsLinked g → IsLinked (delete_data epg g)
delete_data-IsLinked epg g h = elim (Option-cases (lookup epg g.epg_data)) [
  | inl e ↦
      rw (delete_data, e)
        (
          h.0,
          All-mono (Linked g.epg_data) (Linked (erase epg g.epg_data)) g.epg_by_channel_id
              (λ r q.
                Linked-erase g.epg_data epg r.0 (r.1)
                  (λ s. absent_unlinked (r.0) (
                    subst (λ (o : Option EpgData). LinkedTo o (r.0)) e
                      (subst (λ (z : String). LinkedTo (lookup z g.epg_data) (r.0)) s q)))
                  q)
              h.1,
        )
  | inr o ↦
      rw (delete_data, o.1)
        (
          erase-IsMap (o.0).channel_id g.epg_by_channel_id h.0,
          All-erase (Linked g.epg_data) (Linked (erase epg g.epg_data)) (o.0).channel_id
              (λ l b n q.
                Linked-erase g.epg_data epg l b
                  (apart g.epg_data b epg l (o.0).channel_id q
                    (subst (λ (z : Option EpgData). LinkedTo z (o.0).channel_id) (sym o.1) refl) n)
                  q)
              g.epg_by_channel_id h.1,
        )
]

delete_each-IsLinked :
    (ids : List String) (g : EpgStore) → IsLinked g → IsLinked (delete_each ids g)
delete_each-IsLinked [] g h = h
delete_each-IsLinked (epg ∷ ids) g h =
    delete_each-IsLinked ids (delete_data epg g) (delete_data-IsLinked epg g h)

-- Deleting the data of a source keeps the index of channels linked: no channel is left with an
-- identifier whose data is gone.
pub delete_by_source_id-IsLinked :
    (source : String) (g : EpgStore) → IsLinked g → IsLinked (delete_by_source_id source g)
unfolding delete_by_source_id
delete_by_source_id-IsLinked source g h =
    delete_each-IsLinked (listed_under source g.by_source_id) g h
