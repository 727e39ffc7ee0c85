-- ===== src/Auth/Acceptance.antt =====
-- pkg/service/auth.go: `AcceptInvite`, and the first login behind it.
use tvproxy.Base.{
  ℕ, String, ◌≡◌, refl, sym, ap, ◌∙◌, false, none, some, ok, arith, find, modify, Distinct,
  Distinct-find, ok_inj, ok-ne-err, Option-cases, inl, inr,
}
use tvproxy.Store.Table.{Write, written, failed}
use tvproxy.Store.Users.{
  User, UserEntry, Users, id_of, username_of, has_token, first, hydrated, replaced,
}
use tvproxy.Store.Users
use tvproxy.Store.Users.Changes.{first-All, find-modify_other}
use tvproxy.Auth.{
  Crypto, Auth, authenticate_basic_auth, accept_invite, accepted, is_expired, stored,
}
use tvproxy.Auth.Tokens.{authenticate_iff}
use tvproxy.Auth.Invites.{stored-users}

update-rows :
    (w : Write UserEntry) (now : ℕ) (u : User) (t : Users) (e : UserEntry)
    → find id_of u.id t.rows ≡ some e
    → (Users.update w now u t).0.rows ≡ modify id_of u.id (replaced now u) t.rows
unfolding Users.update
update-rows written now u t e h = ground (arith, h)
update-rows (failed left) now u t e h = ground (arith, h)

-- The entry behind a user that is found by its token.
token_entry :
    (token : String) (t : Users) (user : User)
    → Users.get_by_invite_token token t ≡ ok user
    → (e : UserEntry) × (first (has_token token) t.rows ≡ some e) × (hydrated e ≡ user)
unfolding Users.get_by_invite_token
token_entry token t user h = elim (Option-cases (first (has_token token) t.rows)) [
  | inl none_found ↦ elim (ok-ne-err (sym (rw none_found at h))) [ ]
  | inr (e, found) ↦ (e, found, ok_inj (rw found at h))
]

update-get :
    (w : Write UserEntry) (now : ℕ) (u : User) (t : Users) (e : UserEntry)
    → find id_of u.id t.rows ≡ some e
    → find username_of u.username t.rows ≡ some e
    → Users.get_by_username u.username (Users.update w now u t).0 ≡ ok (hydrated (replaced now u e))
unfolding Users.get_by_username
update-get w now u t e h g =
    rw
      (
        update-rows w now u t e h,
        find-modify_other u.username u.id (replaced now u) t.rows e h g refl,
      )
      refl

-- Both lookups of a user with a token give the same entry, if identifiers and usernames are unique.
both_found :
    (token : String) (t : Users) (user : User)
    → Distinct id_of t.rows
    → Distinct username_of t.rows
    → Users.get_by_invite_token token t ≡ ok user
    → (e : UserEntry) × (find id_of user.id t.rows ≡ some e)
      × (find username_of user.username t.rows ≡ some e)
unfolding hydrated
both_found token t user di dn h =
    let (e, found, same) = token_entry token t user h in
    (
      e,
      ap (λ (u : User). find id_of u.id t.rows) (sym same)
          ∙ first-All (λ y. find id_of (id_of y) t.rows ≡ some y) (has_token token) t.rows e
              (Distinct-find id_of t.rows di) found,
      ap (λ (u : User). find username_of u.username t.rows) (sym same)
          ∙ first-All (λ y. find username_of (username_of y) t.rows ≡ some y) (has_token token)
              t.rows e (Distinct-find username_of t.rows dn) found,
    )

module _ (crypto : Crypto) where
  accept_invite-stored :
      (w : Write UserEntry) (now₁ now₂ : ℕ) (token password hashed : String) (user : User)
      (a : Auth)
      → Users.get_by_invite_token token a.users ≡ ok user
      → is_expired crypto now₁ user.invite_expires_at ≡ false
      → crypto.hash password ≡ some hashed
      → accept_invite crypto w now₁ now₂ token password a
        ≡ stored a (Users.update w now₂ (accepted crypto hashed user) a.users)
  unfolding accept_invite
  accept_invite-stored w now₁ now₂ token password hashed user a t x h = ground (arith, t, x, h)

  -- An invitation that has not expired is accepted with a password that bcrypt takes: then the
  -- invited user logs in with that password and has no token left, if identifiers and usernames are
  -- unique.
  pub accept_invite-authenticate :
      (w : Write UserEntry) (now₁ now₂ : ℕ) (token password hashed : String) (user : User)
      (a : Auth)
      → Distinct id_of a.users.rows
      → Distinct username_of a.users.rows
      → Users.get_by_invite_token token a.users ≡ ok user
      → is_expired crypto now₁ user.invite_expires_at ≡ false
      → crypto.hash password ≡ some hashed
      → (logged_in : User) × (authenticate_basic_auth crypto
            (accept_invite crypto w now₁ now₂ token password a).0
            user.username
            password
          ≡ ok logged_in)
        × (logged_in.id ≡ user.id)
        × (logged_in.invite_token ≡ none)
  unfolding hydrated
  accept_invite-authenticate w now₁ now₂ token password hashed user a di dn t x h =
      let (e, by_id, by_name) = both_found token a.users user di dn t in
      let u : User = accepted crypto hashed user in
      let got = update-get w now₂ u a.users e by_id by_name in
      let users : (accept_invite crypto w now₁ now₂ token password a).0.users
          ≡ (Users.update w now₂ u a.users).0 =
        ap (λ r. r.0.users) (accept_invite-stored w now₁ now₂ token password hashed user a t x h)
        ∙ stored-users a (Users.update w now₂ u a.users) in
      let in_store = ap (Users.get_by_username user.username) users ∙ got in
      let after : Auth = (accept_invite crypto w now₁ now₂ token password a).0 in
      (
        hydrated (replaced now₂ u e),
        (authenticate_iff crypto after user.username password (hydrated (replaced now₂ u e))).1 (
          in_store,
          (λ q. crypto.hash-ne-empty password hashed h q),
          crypto.matches-hash password hashed h,
        ),
        refl,
        refl,
      )
