-- ===== src/Auth/Invites.antt =====
-- pkg/service/auth.go: an invitation, from `CreateInvite` to the first login.
use tvproxy.Base.{
  ℕ, ◌+◌, String, ◌≡◌, ◌≢◌, refl, sym, ap, ◌∙◌, Bool, false, none, some, Result, ok, err, ltb,
  if◌then◌else◌, find, ok_inj, eq_refl,
}
use tvproxy.Store.Table.{Error, Write}
use tvproxy.Store.Users.{
  User, UserEntry, Users, id_of, username_of, hydrated, replaced, has_token, first,
}
use tvproxy.Store.Users
use tvproxy.Store.Users.Laws.{create-get_by_username}
use tvproxy.Auth.{
  Crypto, Auth, week, blank_user, authenticate_basic_auth, create_user, create_invite, stored,
}
use tvproxy.Auth.Tokens.{authenticate_iff}

pub stored-users : (a : Auth) (r : Users × Result Error (Unit {0})) → (stored a r).0.users ≡ r.0
stored-users a (t, ok _) = refl
stored-users a (t, err e) = refl

stamped-password_hash :
    (fresh : String) (now : ℕ) (u : User)
    → (Users.stamped fresh now u).password_hash ≡ u.password_hash
unfolding Users.stamped
stamped-password_hash fresh now u = refl

-- What the store finds under the name of a user that it has just taken.
stored-create-get :
    (w : Write UserEntry) (fresh : String) (now : ℕ) (u : User) (a : Auth)
    → find username_of u.username a.users.rows ≡ none
    → Users.get_by_username u.username (stored a (Users.create w fresh now u a.users)).0.users
      ≡ ok (Users.stamped fresh now u)
stored-create-get w fresh now u a new =
    rw (stored-users a (Users.create w fresh now u a.users))
      (rw (eq_refl u.username) at (create-get_by_username w fresh now u u.username a.users new))

module _ (crypto : Crypto) where
  -- A user who is invited under a new name cannot log in with any password before the invitation
  -- is accepted.
  pub create_invite-authenticate :
      (w : Write UserEntry) (fresh token name password : String) (now₁ now₂ : ℕ) (a : Auth)
      → find username_of name a.users.rows ≡ none
      → (user : User)
      → authenticate_basic_auth crypto
          (create_invite crypto w fresh token now₁ now₂ name a).0
          name
          password
        ≢ ok user
  unfolding create_invite
  create_invite-authenticate w fresh token name password now₁ now₂ a new user h =
      let expiry : ℕ = now₁ + (if ltb 0 a.invite_expiry then a.invite_expiry else week crypto) in
      let u : User = blank_user crypto name "" false (some token) (some expiry) in
      let (g, has_password, _) = (authenticate_iff crypto _ name password user).0 h in
      let same : Users.stamped fresh now₂ u ≡ user =
        ok_inj (sym (stored-create-get w fresh now₂ u a new) ∙ g) in
      has_password
        (sym (ap (λ (x : User). x.password_hash) same) ∙ stamped-password_hash fresh now₂ u)

  -- A user who is created under a new name with a password that bcrypt takes can log in with it.
  pub create_user-authenticate :
      (w : Write UserEntry) (fresh name password hashed : String) (is_admin : Bool) (now : ℕ)
      (a : Auth)
      → find username_of name a.users.rows ≡ none
      → crypto.hash password ≡ some hashed
      → authenticate_basic_auth crypto
          (create_user crypto w fresh now name password is_admin a).0
          name
          password
        ≡ ok (Users.stamped fresh now (blank_user crypto name hashed is_admin none none))
  unfolding create_user
  create_user-authenticate w fresh name password hashed is_admin now a new e =
      let u : User = blank_user crypto name hashed is_admin none none in
      let kept = stamped-password_hash fresh now u in
      rw (e, create_user)
        ((authenticate_iff crypto _ name password (Users.stamped fresh now u)).1 (
          stored-create-get w fresh now u a new,
          (λ q. crypto.hash-ne-empty password hashed e (sym kept ∙ q)),
          rw kept (crypto.matches-hash password hashed e),
        ))
