-- ===== src/Clients/Detection.antt =====
-- pkg/service/client.go: which client a request is taken for.
use tvproxy.Base.{
  String, ◌≡◌, ap, ◌∙◌, ◌⊎◌, inl, inr, Bool, true, false, ◌&&◌, List, [], ◌∷◌, Option, none, some,
  ok, err, arith, keep, All, All-mono, All-keep, All-Mem, All-zip, All-of_keep, keep-All,
  Bool-cases, some_inj, Result-cases,
}
use mathlib.Core.List.{Mem}
use tvproxy.Base.Integers.{ℤ, int_then-asym, int_then_trans}
use tvproxy.Base.Sort.{sort-All, sort-All_inv, sort-IsSorted, IsSorted}
use tvproxy.Base.Text.{text_ltb}
use tvproxy.Base.TextOrder.{text_ltb-asym, text_ltb_trans}
use tvproxy.Store.Profiles.{StreamProfile, Profiles, get_profile}
use tvproxy.Store.Clients.{Client, client_less, list_enabled}
use tvproxy.Clients.{
  Request, matches_client, ClientService, match_in, match_client, request_origin_port,
}

client_less-asym : (a b : Client) → client_less a b ≡ true → client_less b a ≡ false
client_less-asym a b h =
    int_then-asym a.priority b.priority (text_ltb a.name b.name) (text_ltb b.name a.name)
      (text_ltb-asym a.name b.name) h

client_less_trans :
    (a b c : Client) → client_less a b ≡ false → client_less b c ≡ false → client_less a c ≡ false
client_less_trans a b c h g =
    int_then_trans a.priority b.priority c.priority (text_ltb a.name b.name)
      (text_ltb b.name c.name) (text_ltb a.name c.name) (text_ltb_trans a.name b.name c.name) h g

client_less_irrefl : (a : Client) → client_less a a ≡ false
client_less_irrefl a = elim (Bool-cases (client_less a a)) [
  | inl e ↦ client_less-asym a a e
  | inr e ↦ e
]

-- The client is enabled, the request passes its port and all its rules, and its profile exists.
abbrev pub is_eligible : Request → ℤ → Profiles → Client → Bool
is_eligible r port profiles c =
    c.is_enabled
    && matches_client r port c
    && elim (get_profile c.stream_profile_id profiles) [ ok _ ↦ true | err _ ↦ false ]

abbrev matches_here : Request → ℤ → Profiles → Client → Bool
matches_here r port profiles c =
    matches_client r port c
    && elim (get_profile c.stream_profile_id profiles) [ ok _ ↦ true | err _ ↦ false ]

match_in-none :
    (r : Request) (port : ℤ) (profiles : Profiles) (cs : List Client)
    → match_in r port profiles cs ≡ none
    → All (λ c. matches_here r port profiles c ≡ false) cs
unfolding match_in
match_in-none r port profiles [] h = tt
match_in-none r port profiles (c ∷ cs) h = ground (arith, h, match_in-none r port profiles cs)

-- What a match is: a client with the property, that passes, and that no client that passes comes
-- before.
abbrev Matched {κ} :
    (Client → Type κ) → Request → ℤ → Profiles → StreamProfile × String → List Client → Type κ
Matched P r port profiles found cs =
    (c : Client) × P c
    × (matches_client r port c ≡ true)
    × (get_profile c.stream_profile_id profiles ≡ ok found.0)
    × (c.name ≡ found.1)
    × All (λ d. (matches_here r port profiles d ≡ false) ⊎ (client_less d c ≡ false)) cs

match_in-later {κ} :
    (P : Client → Type κ) (r : Request) (port : ℤ) (profiles : Profiles) (c : Client)
    (cs : List Client) (found : StreamProfile × String)
    → matches_here r port profiles c ≡ false
    → Matched P r port profiles found cs
    → Matched P r port profiles found (c ∷ cs)
match_in-later P r port profiles c cs found n m = (m.0, m.1, m.2, m.3, m.4, (inl n, m.5))

match_in-here {κ} :
    (P : Client → Type κ) (r : Request) (port : ℤ) (profiles : Profiles) (c : Client)
    (cs : List Client) (p : StreamProfile) (found : StreamProfile × String)
    → P c
    → matches_client r port c ≡ true
    → get_profile c.stream_profile_id profiles ≡ ok p
    → (p, c.name) ≡ found
    → All (λ d. client_less d c ≡ false) cs
    → Matched P r port profiles found (c ∷ cs)
match_in-here P r port profiles c cs p found pc m g same least = (
  c,
  pc,
  m,
  g ∙ ap (λ (x : StreamProfile × String). ok (x.0)) same,
  ap (λ (x : StreamProfile × String). x.1) same,
  (
    inr (client_less_irrefl c),
    All-mono (λ d. client_less d c ≡ false)
        (λ d. (matches_here r port profiles d ≡ false) ⊎ (client_less d c ≡ false)) cs (λ d. inr)
        least,
  ),
)

-- The loop stops at the first client that passes.
match_in-some {κ} :
    (P : Client → Type κ) (r : Request) (port : ℤ) (profiles : Profiles) (cs : List Client)
    → All P cs
    → IsSorted client_less cs
    → (found : StreamProfile × String) → match_in r port profiles cs ≡ some found
    → Matched P r port profiles found cs
unfolding match_in
match_in-some P r port profiles [] ps sorted found h = ground (arith, h)
match_in-some P r port profiles (c ∷ cs) ps sorted found h =
    let ih = match_in-some P r port profiles cs ps.1 sorted.1 found in
    elim (Bool-cases (matches_client r port c)) [
      | inl e ↦ elim (Result-cases (get_profile c.stream_profile_id profiles)) [
        | inl q ↦
            match_in-here P r port profiles c cs q.0 found ps.0 e q.1 (some_inj (rw (e, q.1) at h))
              sorted.0
        | inr q ↦
            match_in-later P r port profiles c cs found (ground (arith, e, q.1))
              (ih (rw (e, q.1) at h))
      ]
      | inr e ↦ match_in-later P r port profiles c cs found (ground (arith, e)) (ih (rw e at h))
    ]

enabled-IsSorted : (s : ClientService) → IsSorted client_less (list_enabled s.clients)
unfolding list_enabled
enabled-IsSorted s =
    sort-IsSorted client_less client_less-asym client_less_trans
      (keep (λ c. c.is_enabled) s.clients.rows)

abbrev IsStored : ClientService → Client → Type 0
IsStored s c = Mem c s.clients.rows × (c.is_enabled ≡ true)

enabled-IsStored : (s : ClientService) → All (IsStored s) (list_enabled s.clients)
unfolding list_enabled
enabled-IsStored s =
    let rows = s.clients.rows in
    let p : Client → Bool = λ c. c.is_enabled in
    sort-All client_less (IsStored s) (keep p rows) (
      All-zip (λ c. Mem c rows) (λ c. c.is_enabled ≡ true) (keep p rows)
        (All-keep (λ c. Mem c rows) p rows (All-Mem rows)) (keep-All p rows))

-- From the sorted list back to the stored rows.
enabled-All {κ} :
    (Q : Client → Type κ) (s : ClientService)
    → All Q (list_enabled s.clients)
    → All (λ c. (c.is_enabled ≡ false) ⊎ Q c) s.clients.rows
unfolding list_enabled
enabled-All Q s h =
    All-of_keep Q (λ c. c.is_enabled) s.clients.rows
      (sort-All_inv client_less Q (keep (λ c. c.is_enabled) s.clients.rows) h)

eligible_of :
    (r : Request) (port : ℤ) (profiles : Profiles) (d : Client)
    → (d.is_enabled ≡ false) ⊎ (matches_here r port profiles d ≡ false)
    → is_eligible r port profiles d ≡ false
eligible_of r port profiles d h = ground (arith, h)

passed_over :
    (r : Request) (port : ℤ) (profiles : Profiles) (d c : Client)
    → (d.is_enabled ≡ false)
      ⊎ ((matches_here r port profiles d ≡ false) ⊎ (client_less d c ≡ false))
    → (is_eligible r port profiles d ≡ false) ⊎ (client_less d c ≡ false)
passed_over r port profiles d c (inl e) = inl (eligible_of r port profiles d (inl e))
passed_over r port profiles d c (inr (inl e)) = inl (eligible_of r port profiles d (inr e))
passed_over r port profiles d c (inr (inr e)) = inr e

-- When a request is taken for a client, the client is stored and eligible, its profile and its name
-- are what is returned, and no eligible client has a lesser priority, or the same and a lesser name.
pub match_client-IsFirst :
    (atoi : String → Option ℤ) (r : Request) (s : ClientService) (found : StreamProfile × String)
    → match_client atoi r s ≡ some found
    → let port = request_origin_port atoi r in
      (c : Client) × Mem c s.clients.rows
      × (is_eligible r port s.profiles c ≡ true)
      × (get_profile c.stream_profile_id s.profiles ≡ ok found.0)
      × (c.name ≡ found.1)
      × All
          (λ d. (is_eligible r port s.profiles d ≡ false) ⊎ (client_less d c ≡ false))
          s.clients.rows
unfolding match_client
match_client-IsFirst atoi r s found h =
    let port = request_origin_port atoi r in
    let m =
      match_in-some (IsStored s) r port s.profiles (list_enabled s.clients) (enabled-IsStored s)
        (enabled-IsSorted s) found h in
    let Q : Client → Type 0 =
      λ d. (matches_here r port s.profiles d ≡ false) ⊎ (client_less d m.0 ≡ false) in
    (
      m.0,
      m.1.0,
      ground (arith, m.1.1, m.2, m.3),
      m.3,
      m.4,
      All-mono (λ d. (d.is_enabled ≡ false) ⊎ Q d)
          (λ d. (is_eligible r port s.profiles d ≡ false) ⊎ (client_less d m.0 ≡ false))
          s.clients.rows (λ d q. passed_over r port s.profiles d m.0 q) (enabled-All Q s m.5),
    )

-- When it is taken for none, no stored client is eligible.
pub match_client-none :
    (atoi : String → Option ℤ) (r : Request) (s : ClientService)
    → match_client atoi r s ≡ none
    → All (λ d. is_eligible r (request_origin_port atoi r) s.profiles d ≡ false) s.clients.rows
unfolding match_client
match_client-none atoi r s h =
    let port = request_origin_port atoi r in
    let Q : Client → Type 0 = λ d. matches_here r port s.profiles d ≡ false in
    All-mono (λ d. (d.is_enabled ≡ false) ⊎ Q d) (λ d. is_eligible r port s.profiles d ≡ false)
      s.clients.rows (λ d. eligible_of r port s.profiles d)
      (enabled-All Q s (match_in-none r port s.profiles (list_enabled s.clients) h))
