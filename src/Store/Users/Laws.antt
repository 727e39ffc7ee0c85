-- ===== src/Store/Users/Laws.antt =====
-- pkg/store/user.go: what a restart sees, and the uniqueness of names and identifiers.
use tvproxy.Base.{
  ℕ, String, ◌≡◌, refl, sym, ap, ◌∙◌, Bool, ◌==◌, eq_iff, List, [], ◌∷◌, ◌++◌, map, none, some, ok,
  err, arith, if◌then◌else◌, find, Distinct, Distinct-append, Fresh-of_find, find-append_new,
  find-append_old, ==→ne, inl, inr, Option-cases, Bool-cases,
}
use tvproxy.Store.Table.{Write, written, failed, Error}
use tvproxy.Store.Users.{
  User, UserEntry, id_of, username_of, Users, encoded, load, save, stamped, entry_of, create,
  hydrated, get_by_id, get_by_username, has_token, first, get_by_invite_token, list,
  get_first_admin, get_group_ids_for_user,
}

hydrated-encoded : (e : UserEntry) → hydrated (encoded e) ≡ hydrated e
unfolding hydrated
hydrated-encoded e = refl

find-encoded :
    (key : UserEntry → String) (k : String) (es : List UserEntry)
    → ((e : UserEntry) → key (encoded e) ≡ key e)
    → find key k (map encoded es) ≡ elim (find key k es) [ none ↦ none | some e ↦ some (encoded e) ]
find-encoded key k [] same = refl
find-encoded key k (e ∷ es) same = ground (arith, same e, find-encoded key k es same)

first-encoded :
    (p : UserEntry → Bool) (es : List UserEntry)
    → ((e : UserEntry) → p (encoded e) ≡ p e)
    → first p (map encoded es) ≡ elim (first p es) [ none ↦ none | some e ↦ some (encoded e) ]
first-encoded p [] same = refl
first-encoded p (e ∷ es) same = ground (arith, same e, first-encoded p es same)

list-encoded : (es : List UserEntry) → map hydrated (map encoded es) ≡ map hydrated es
unfolding hydrated
list-encoded [] = refl
list-encoded (e ∷ es) = ap (◌∷◌ (hydrated e)) (list-encoded es)

-- The store that a restart builds from the file that a successful write left.
abbrev pub restarted : Users → Users
restarted t = (load (record { rows = []; file = (save written t).0.file })).0

-- After a successful write and a restart every lookup gives what it gave before, the groups of a user and
-- password hashes included, although the JSON of a user has none.
pub restarted-lookups :
    (t : Users) (k : String)
    → (get_by_id k (restarted t) ≡ get_by_id k t)
      × (get_by_username k (restarted t) ≡ get_by_username k t)
      × (get_by_invite_token k (restarted t) ≡ get_by_invite_token k t)
      × (get_first_admin (restarted t) ≡ get_first_admin t)
      × (list (restarted t) ≡ list t)
      × (get_group_ids_for_user k (restarted t) ≡ get_group_ids_for_user k t)
unfolding load get_group_ids_for_user get_by_id get_by_username get_by_invite_token get_first_admin
    list hydrated
restarted-lookups t k = (
  ground (arith, find-encoded id_of k t.rows (λ e. refl)),
  ground (arith, find-encoded username_of k t.rows (λ e. refl)),
  ground (arith, first-encoded (has_token k) t.rows (λ e. refl)),
  ground (arith, first-encoded (λ e. e.user.is_admin) t.rows (λ e. refl)),
  list-encoded t.rows,
  ground (arith, find-encoded id_of k t.rows (λ e. refl)),
)

stamped-username :
    (fresh : String) (now : ℕ) (u : User) → (stamped fresh now u).username ≡ u.username
unfolding stamped
stamped-username fresh now u = refl

create_taken :
    (w : Write UserEntry) (fresh : String) (now : ℕ) (u : User) (t : Users) (x : UserEntry)
    → find username_of u.username t.rows ≡ some x
    → create w fresh now u t ≡ (t, err Error.duplicate_name)
unfolding create
create_taken w fresh now u t x e = rw (e, create)

create-rows :
    (w : Write UserEntry) (fresh : String) (now : ℕ) (u : User) (t : Users)
    → find username_of u.username t.rows ≡ none
    → (create w fresh now u t).0.rows ≡ t.rows ++ entry_of (stamped fresh now u) ∷ []
unfolding create
create-rows written fresh now u t e = rw (e, create)
create-rows (failed left) fresh now u t e = rw (e, create)

-- `Create` of a free name makes a user that is found under its name with its password hash, and the
-- users of other names are found as before.
pub create-get_by_username :
    (w : Write UserEntry) (fresh : String) (now : ℕ) (u : User) (name : String) (t : Users)
    → find username_of u.username t.rows ≡ none
    → get_by_username name (create w fresh now u t).0
      ≡ (if u.username == name then ok (stamped fresh now u) else get_by_username name t)
unfolding create get_by_username hydrated
create-get_by_username w fresh now u name t e = rw (create-rows w fresh now u t e) new_name
  where
    new : UserEntry
    new = entry_of (stamped fresh now u)

    same_name : new.user.username ≡ u.username
    same_name = stamped-username fresh now u

    new_name :
        get_by_username name (record t { rows = t.rows ++ new ∷ [] })
        ≡ (if u.username == name then ok (stamped fresh now u) else get_by_username name t)
    new_name = elim (Bool-cases (u.username == name)) [
      | inl hit ↦
          let n : u.username ≡ name = (eq_iff u.username name).0 hit in
          rw (hit, find-append_new username_of name t.rows new (same_name ∙ n) (rw n at e))
      | inr miss ↦ rw (
        miss,
        find-append_old username_of name t.rows new
            (λ n. ==→ne u.username name miss (sym same_name ∙ n)),
      )
    ]

-- Usernames stay unique under `Create`.
pub create-Distinct :
    (w : Write UserEntry) (fresh : String) (now : ℕ) (u : User) (t : Users)
    → Distinct username_of t.rows
    → Distinct username_of (create w fresh now u t).0.rows
create-Distinct w fresh now u t d = elim (Option-cases (find username_of u.username t.rows)) [
  | inl e ↦ rw (create-rows w fresh now u t e) (
      Distinct-append username_of t.rows (entry_of (stamped fresh now u)) d
        (Fresh-of_find username_of _ t.rows (rw (stamped-username fresh now u) e)))
  | inr (x, e) ↦ rw (create_taken w fresh now u t x e) d
]
