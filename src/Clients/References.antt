-- ===== src/Clients/References.antt =====
-- pkg/service/client.go: every client has its profile, and a profile that no client has goes.
use tvproxy.Base.{
  String, ◌≡◌, ◌≢◌, refl, sym, subst, ◌∙◌, inl, inr, true, false, not, ◌&&◌, ◌||◌, ◌==◌, ==→ne,
  List, [], ◌∷◌, none, ok, err, arith, if◌then◌else◌, All, any, Bool-cases, find, remove,
  find-remove_ne, find-remove, Distinct, remove-absent, Result-cases,
}
use tvproxy.Store.Table.{Write, written, failed, not_found}
use tvproxy.Store.Profiles.{StreamProfile, Profiles, profile_id, get_profile, delete_profile}
use tvproxy.Store.Clients.{
  Client, Clients, client_id, get_client, delete_row, is_stream_profile_referenced,
}
use tvproxy.Clients.{ClientService, Choices, drop_orphan, delete_client}

abbrev pub HasProfile : List StreamProfile → Client → Type 0
HasProfile profiles c = find profile_id c.stream_profile_id profiles ≢ none

-- Every client of the store has a profile.
abbrev pub IsReferenced : ClientService → Type 0
IsReferenced s = All (HasProfile s.profiles.rows) s.clients.rows

All-remove {κ} :
    (P : Client → Type κ) (id : String) (cs : List Client)
    → All P cs
    → All P (remove client_id id cs)
All-remove P id [] h = tt
All-remove P id (c ∷ cs) h = ground (arith, All-remove P id cs h.1)

delete_row-rows :
    (w : Write Client) (id : String) (t : Clients)
    → (delete_row w id t).0.rows ≡ remove client_id id t.rows
unfolding delete_row
delete_row-rows written id t = ground (arith, remove-absent client_id id t.rows)
delete_row-rows (failed left) id t = ground (arith, remove-absent client_id id t.rows)

pub delete_profile-rows :
    (w : Write StreamProfile) (id : String) (t : Profiles)
    → (delete_profile w id t).0.rows ≡ remove profile_id id t.rows
unfolding delete_profile
delete_profile-rows written id t = ground (arith, remove-absent profile_id id t.rows)
delete_profile-rows (failed left) id t = ground (arith, remove-absent profile_id id t.rows)

unreferenced-All :
    (id : String) (profiles : List StreamProfile) (cs : List Client)
    → any (λ c. c.stream_profile_id == id) cs ≡ false
    → All (HasProfile profiles) cs
    → All (HasProfile (remove profile_id id profiles)) cs
unreferenced-All id profiles [] n h = tt
unreferenced-All id profiles (c ∷ cs) n h = elim (Bool-cases (c.stream_profile_id == id)) [
  | inl e ↦ ground (arith, n, e)
  | inr e ↦
      let other =
        find-remove_ne profile_id c.stream_profile_id id profiles
          (==→ne c.stream_profile_id id e) in
      (λ gone. h.0 (sym other ∙ gone), unreferenced-All id profiles cs (rw e at n) h.1)
]

drop_orphan-IsReferenced :
    (w : Write StreamProfile) (id : String) (s : ClientService)
    → IsReferenced s
    → IsReferenced (drop_orphan w id s)
unfolding drop_orphan is_stream_profile_referenced
drop_orphan-IsReferenced w id s h = elim (Result-cases (get_profile id s.profiles)) [
  | inr e ↦ rw (e.1, drop_orphan) h
  | inl e ↦
      elim (Bool-cases (not (e.0).is_system && not (is_stream_profile_referenced id s.clients))) [
        | inr k ↦ rw (e.1, k, drop_orphan) h
        | inl k ↦
            let free : any (λ c. c.stream_profile_id == id) s.clients.rows ≡ false =
              ground (arith, k) in
            rw (e.1, k, drop_orphan, delete_profile-rows w id s.profiles)
              (unreferenced-All id s.profiles.rows s.clients.rows free h)
      ]
]

-- Deleting a client leaves every other client its profile, whichever writes fail.
pub delete_client-IsReferenced :
    (ch : Choices) (id : String) (s : ClientService)
    → IsReferenced s
    → IsReferenced (delete_client ch id s).0
unfolding delete_client
delete_client-IsReferenced ch id s h = elim (Result-cases (get_client id s.clients)) [
  | inr e ↦ rw (e.1, delete_client) h
  | inl c ↦
      let r = delete_row ch.client_write id s.clients in
      let left : ClientService = record s { clients = r.0 } in
      let kept : IsReferenced left =
        rw (delete_row-rows ch.client_write id s.clients)
          (All-remove (HasProfile s.profiles.rows) id s.clients.rows h) in
      elim (Result-cases (r.1)) [
        | inr e ↦ rw (c.1, e.1, delete_client) kept
        | inl e ↦
            rw (c.1, e.1, delete_client)
              (drop_orphan-IsReferenced ch.cleanup_write (c.0).stream_profile_id left kept)
      ]
]

gone_profile :
    (w : Write StreamProfile) (id : String) (t : Profiles)
    → Distinct profile_id t.rows
    → get_profile id (delete_profile w id t).0 ≡ err not_found
unfolding get_profile
gone_profile w id t d = rw (delete_profile-rows w id t, find-remove profile_id id t.rows d) refl

drop_orphan-get_profile :
    (w : Write StreamProfile) (id : String) (s : ClientService) (p : StreamProfile)
    → Distinct profile_id s.profiles.rows
    → get_profile id s.profiles ≡ ok p
    → get_profile id (drop_orphan w id s).profiles ≡ (
        if p.is_system || any (λ d. d.stream_profile_id == id) s.clients.rows
        then ok p
        else err not_found)
unfolding drop_orphan is_stream_profile_referenced
drop_orphan-get_profile w id s p d g =
    elim (Bool-cases (p.is_system || any (λ e. e.stream_profile_id == id) s.clients.rows)) [
      | inl k ↦
          let stay : (not p.is_system && not (is_stream_profile_referenced id s.clients)) ≡ false =
            ground (arith, k) in
          rw (k, drop_orphan, g, stay) g
      | inr k ↦
          let go : (not p.is_system && not (is_stream_profile_referenced id s.clients)) ≡ true =
            ground (arith, k) in
          rw (k, drop_orphan, g, go) (gone_profile w id s.profiles d)
    ]

delete_row-written : (id : String) (t : Clients) → (delete_row written id t).1 ≡ ok tt
unfolding delete_row
delete_row-written id t = ground arith

-- A client is deleted, by writes that succeed, and had a profile: the profile goes exactly when it
-- is no system profile and no remaining client has it, if profiles have distinct identifiers.
pub delete_client-get_profile :
    (ch : Choices) (id : String) (s : ClientService) (c : Client) (p : StreamProfile)
    → ch.client_write ≡ written
    → Distinct profile_id s.profiles.rows
    → get_client id s.clients ≡ ok c
    → get_profile c.stream_profile_id s.profiles ≡ ok p
    → get_profile c.stream_profile_id (delete_client ch id s).0.profiles ≡ (
        if p.is_system
          || any
              (λ d. d.stream_profile_id == c.stream_profile_id)
              (remove client_id id s.clients.rows)
        then ok p
        else err not_found)
unfolding delete_client
delete_client-get_profile ch id s c p w d g q =
    let r = delete_row ch.client_write id s.clients in
    let fine : r.1 ≡ ok tt =
      subst (λ (v : Write Client). (delete_row v id s.clients).1 ≡ ok tt) (sym w)
        (delete_row-written id s.clients) in
    let last =
      drop_orphan-get_profile ch.cleanup_write c.stream_profile_id (record s { clients = r.0 }) p d
        q in
    rw (g, fine, delete_client) (rw (delete_row-rows ch.client_write id s.clients) at last)
