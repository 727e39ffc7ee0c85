-- ===== src/Clients/Creation.antt =====
-- pkg/service/client.go: the profile that a new client is given, and what a failed write leaves.
use tvproxy.Base.{
  ℕ, String, ◌≡◌, ◌≢◌, refl, sym, subst, ◌⊎◌, inl, inr, eq_iff, List, [], ◌∷◌, ◌++◌, none, ok, err,
  arith, All, All-mono, All-append, Option-cases, find, remove, modify, Result-cases,
}
use mathlib.Core.List.{Mem, mem-cons_self, mem-cons_of_mem}
use tvproxy.Store.Table.{File, write_failed, Write, written, failed, save-rows}
use tvproxy.Store.Profiles.{
  StreamProfile, Profiles, profile_id, profile_name, create_profile, with_profile_id,
}
use tvproxy.Store.Clients.{
  MatchRule, Client, Clients, client_id, with_id, create_row, set_match_rules, stamped_rules,
}
use tvproxy.Clients.References.{delete_profile-rows, HasProfile, IsReferenced}
use tvproxy.Clients.{ClientService, Choices, own_profile, add_client, create_client}

find-append_kept :
    (k : String) (ps : List StreamProfile) (p : StreamProfile)
    → find profile_id k ps ≢ none
    → find profile_id k (ps ++ p ∷ []) ≢ none
find-append_kept k [] p h = λ e. h refl
find-append_kept k (q ∷ ps) p h = ground (arith, h, find-append_kept k ps p)

HasProfile-append :
    (ps : List StreamProfile) (p : StreamProfile) (cs : List Client)
    → All (HasProfile ps) cs
    → All (HasProfile (ps ++ p ∷ [])) cs
HasProfile-append ps p cs h =
    All-mono (HasProfile ps) (HasProfile (ps ++ p ∷ [])) cs
      (λ c. find-append_kept c.stream_profile_id ps p) h

All-modify {κ} :
    (P : Client → Type κ) (id : String) (f : Client → Client) (cs : List Client)
    → ((c : Client) → P c → P (f c))
    → All P cs
    → All P (modify client_id id f cs)
All-modify P id f [] k h = tt
All-modify P id f (c ∷ cs) k h = ground (arith, k c h.0, All-modify P id f cs k h.1)

set_match_rules-All :
    (w : Write Client) (fresh : ℕ → String) (id : String) (rules : List MatchRule) (t : Clients)
    (ps : List StreamProfile)
    → All (HasProfile ps) t.rows
    → All (HasProfile ps) (set_match_rules w fresh id rules t).0.rows
unfolding set_match_rules
set_match_rules-All w fresh id rules t ps h = elim (Option-cases (find client_id id t.rows)) [
  | inl e ↦ rw (e, set_match_rules) h
  | inr e ↦
      let f : Client → Client = λ c. record c { match_rules = stamped_rules fresh 0 id rules } in
      rw (e.1, set_match_rules, save-rows w (record t { rows = modify client_id id f t.rows }))
        (All-modify (HasProfile ps) id f t.rows (λ c p. p) h)
]

create_profile-new :
    (fresh : String) (p : StreamProfile) (t : Profiles) (w : Write StreamProfile)
    → p.id ≡ ""
    → (create_profile w fresh p t).1 ≡ ok tt
    → (create_profile w fresh p t).0.rows ≡ t.rows ++ record p { id = fresh } ∷ []
unfolding create_profile
create_profile-new fresh p t written e h = ground (arith, h, e, eq_iff p.id "")
create_profile-new fresh p t (failed left) e h = ground (arith, h)

find-append_here :
    (k : String) (ps : List StreamProfile) (p : StreamProfile)
    → profile_id p ≡ k
    → find profile_id k (ps ++ p ∷ []) ≢ none
find-append_here k [] p e = ground (arith, eq_iff (profile_id p) k, e)
find-append_here k (q ∷ ps) p e = ground (arith, find-append_here k ps p e)

create_profile-either :
    (fresh : String) (p : StreamProfile) (t : Profiles) (w : Write StreamProfile)
    → ((create_profile w fresh p t).0.rows ≡ t.rows)
      ⊎ ((create_profile w fresh p t).0.rows ≡ t.rows ++ with_profile_id fresh p ∷ [])
unfolding create_profile
create_profile-either fresh p t written = ground arith
create_profile-either fresh p t (failed left) = ground arith

create_profile-All :
    (fresh : String) (p : StreamProfile) (t : Profiles) (w : Write StreamProfile) (cs : List Client)
    → All (HasProfile t.rows) cs
    → All (HasProfile (create_profile w fresh p t).0.rows) cs
create_profile-All fresh p t w cs h = elim (create_profile-either fresh p t w) [
  | inl e ↦ rw e h
  | inr e ↦ rw e (HasProfile-append t.rows (with_profile_id fresh p) cs h)
]

create_row-written :
    (fresh : String) (c : Client) (t : Clients) → (create_row written fresh c t).1 ≡ ok tt
unfolding create_row
create_row-written fresh c t = refl

create_row-rows :
    (w : Write Client) (fresh : String) (c : Client) (t : Clients)
    → (create_row w fresh c t).0.rows ≡ t.rows ++ with_id fresh c ∷ []
unfolding create_row
create_row-rows w fresh c t = save-rows w (record t { rows = t.rows ++ with_id fresh c ∷ [] })

add_client-IsReferenced :
    (ch : Choices) (c : Client) (rules : List MatchRule) (s : ClientService)
    → ch.client_write ≡ written
    → IsReferenced s
    → HasProfile s.profiles.rows c
    → IsReferenced (add_client ch c rules s).0
unfolding add_client
add_client-IsReferenced ch c rules s w h own =
    let r = create_row ch.client_write ch.client_fresh c s.clients in
    let fine : r.1 ≡ ok tt =
      subst (λ (v : Write Client). (create_row v ch.client_fresh c s.clients).1 ≡ ok tt) (sym w)
        (create_row-written ch.client_fresh c s.clients) in
    let all : All (HasProfile s.profiles.rows) (r.0.rows) =
      rw (create_row-rows ch.client_write ch.client_fresh c s.clients) (
        All-append (HasProfile s.profiles.rows) s.clients.rows (with_id ch.client_fresh c ∷ []) h
          (own, tt)) in
    rw (fine, add_client)
      (set_match_rules-All ch.rules_write ch.rule_fresh (with_id ch.client_fresh c).id rules r.0
        s.profiles.rows all)

-- If every client has a profile, creating a client whose write succeeds leaves every client with a
-- profile, the new one included; the writes of profiles and of rules may fail.
pub create_client-IsReferenced :
    (ch : Choices) (c : Client) (rules : List MatchRule) (s : ClientService)
    → ch.client_write ≡ written
    → IsReferenced s
    → IsReferenced (create_client ch c rules s).0
unfolding create_client
create_client-IsReferenced ch c rules s w h =
    let r = create_profile ch.profile_write ch.profile_fresh (own_profile c.name) s.profiles in
    let kept =
      create_profile-All ch.profile_fresh (own_profile c.name) s.profiles ch.profile_write
        s.clients.rows h in
    elim (Result-cases (r.1)) [
      | inr e ↦ rw (e.1, create_client) kept
      | inl e ↦
          let rows =
            create_profile-new ch.profile_fresh (own_profile c.name) s.profiles ch.profile_write
              refl e.1 in
          let own : HasProfile (r.0.rows) (record c { stream_profile_id = ch.profile_fresh }) =
            rw rows (
              find-append_here ch.profile_fresh s.profiles.rows
                (record (own_profile c.name) { id = ch.profile_fresh }) refl) in
          rw (e.1, create_client)
            (add_client-IsReferenced ch (record c { stream_profile_id = ch.profile_fresh }) rules
              (record s { profiles = r.0 }) w kept own)
    ]

create_profile-written :
    (fresh : String) (p : StreamProfile) (t : Profiles)
    → find profile_name p.name t.rows ≡ none
    → (create_profile written fresh p t).1 ≡ ok tt
unfolding create_profile
create_profile-written fresh p t h = rw (create_profile, h) refl

Mem-last : (cs : List Client) (c : Client) → Mem c (cs ++ c ∷ [])
Mem-last [] c = mem-cons_self
Mem-last (d ∷ cs) c = mem-cons_of_mem d (Mem-last cs c)

find-remove_new :
    (k : String) (ps : List StreamProfile) (p : StreamProfile)
    → profile_id p ≡ k
    → find profile_id k ps ≡ none
    → find profile_id k (remove profile_id k (ps ++ p ∷ [])) ≡ none
find-remove_new k [] p e h = ground (arith, e, eq_iff (profile_id p) k)
find-remove_new k (q ∷ ps) p e h = ground (arith, h, find-remove_new k ps p e)

create_row-failed :
    (left : File Client) (fresh : String) (c : Client) (t : Clients)
    → (create_row (failed left) fresh c t).1 ≡ err write_failed
unfolding create_row
create_row-failed left fresh c t = refl

add_client-failed :
    (ch : Choices) (c : Client) (rules : List MatchRule) (s : ClientService) (left : File Client)
    → ch.client_write ≡ failed left
    → ((add_client ch c rules s).0.clients.rows ≡ s.clients.rows ++ with_id ch.client_fresh c ∷ [])
      × ((add_client ch c rules s).0.profiles.rows
          ≡ remove profile_id c.stream_profile_id s.profiles.rows)
unfolding add_client
add_client-failed ch c rules s left w =
    let r = create_row ch.client_write ch.client_fresh c s.clients in
    let failure : r.1 ≡ err write_failed =
      subst (λ (v : Write Client). (create_row v ch.client_fresh c s.clients).1 ≡ err write_failed)
        (sym w) (create_row-failed left ch.client_fresh c s.clients) in
    rw (failure, add_client)
      (
        create_row-rows ch.client_write ch.client_fresh c s.clients,
        delete_profile-rows ch.cleanup_write c.stream_profile_id s.profiles,
      )

-- A client whose write fails, after its profile was written under an identifier and a name that are
-- new, stays in the store all the same under that profile's identifier, and no profile of that
-- identifier is left.
pub create_client-orphan :
    (ch : Choices) (c : Client) (rules : List MatchRule) (s : ClientService) (left : File Client)
    → ch.profile_write ≡ written
    → ch.client_write ≡ failed left
    → find profile_name c.name s.profiles.rows ≡ none
    → find profile_id ch.profile_fresh s.profiles.rows ≡ none
    → Mem
        (with_id ch.client_fresh (record c { stream_profile_id = ch.profile_fresh }))
        (create_client ch c rules s).0.clients.rows
      × (find profile_id ch.profile_fresh (create_client ch c rules s).0.profiles.rows ≡ none)
unfolding create_client
create_client-orphan ch c rules s left pw cw name fresh =
    let r = create_profile ch.profile_write ch.profile_fresh (own_profile c.name) s.profiles in
    let fine : r.1 ≡ ok tt =
      subst
        (λ (v : Write StreamProfile).
          (create_profile v ch.profile_fresh (own_profile c.name) s.profiles).1 ≡ ok tt)
        (sym pw) (create_profile-written ch.profile_fresh (own_profile c.name) s.profiles name) in
    let rows =
      create_profile-new ch.profile_fresh (own_profile c.name) s.profiles ch.profile_write refl
        fine in
    let p : StreamProfile = record (own_profile c.name) { id = ch.profile_fresh } in
    let c' : Client = record c { stream_profile_id = ch.profile_fresh } in
    let gone : find profile_id ch.profile_fresh (remove profile_id ch.profile_fresh (r.0.rows))
        ≡ none =
      rw rows (find-remove_new ch.profile_fresh s.profiles.rows p refl fresh) in
    let after = add_client-failed ch c' rules (record s { profiles = r.0 }) left cw in
    rw (fine, create_client)
      (rw (after.0) (Mem-last s.clients.rows (with_id ch.client_fresh c')), rw (after.1) gone)
