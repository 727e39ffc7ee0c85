-- ===== src/Auth.antt =====
-- pkg/service/auth.go: users, passwords, tokens and invitations. bcrypt and golang-jwt are not part
-- of the repository: they are the record `Crypto`, whose laws are what their documents promise.
-- `now` is what time.Now() returns in the call, in nanoseconds.
pub mod Tokens
pub mod Invites
pub mod Acceptance
mod Tests
use tvproxy.Base.{
  ℕ, ◌+◌, ◌/◌, ◌*◌, ◌<◌, String, ◌≡◌, ◌≢◌, Bool, true, false, not, ◌&&◌, ◌==◌, List, Option, none,
  some, Result, ok, err, ltb, if◌then◌else◌, ◌>>=◌, or_fail,
}
use tvproxy.Store.Table.{Write, Error, Table}
use tvproxy.Store.Users.{User, UserEntry, Users}
use tvproxy.Store.Users

pub record Claims : Type 0 where
  pub user_id : String
  pub username : String
  pub is_admin : Bool
  pub subject : String
  pub issued_at : ℕ
  pub expires_at : ℕ

abbrev pub second : ℕ
second = 1_000_000_000

-- `parse secret now token` is jwt.ParseWithClaims with the check of the HMAC method: a token that was
-- signed with the secret gives its claims until it expires. Dates in a token are whole seconds.
pub record Crypto : Type 0 where
  pub hash : String → Option String
  pub matches : String → String → Bool
  pub sign : String → Claims → Option String
  pub parse : String → ℕ → String → Option Claims
  pub matches-hash : (p h : String) → hash p ≡ some h → matches h p ≡ true
  pub hash-ne-empty : (p h : String) → hash p ≡ some h → h ≢ ""
  pub parse-sign :
      (secret : String) (c : Claims) (token : String) (now : ℕ)
      → sign secret c ≡ some token
      → parse secret now token ≡ (if ltb now (c.expires_at * second) then some c else none)

pub data Failure : Type 0 where
  invalid_credentials signing_failed invalid_refresh_token not_refresh_token : Failure
  user_gone hashing_failed invalid_invite invite_expired : Failure
  store_failed : Error → Failure

pub record Auth : Type 0 where
  pub users : Users
  pub jwt_secret : String
  pub access_expiry : ℕ
  pub refresh_expiry : ℕ
  pub invite_expiry : ℕ

abbrev pub stored : Auth → Users × Result Error (Unit {0}) → Auth × Result Failure (Unit {0})
stored a (t, ok _) = (record a { users = t }, ok tt)
stored a (t, err e) = (record a { users = t }, err (store_failed e))

abbrev pub or_else {ℓ κ} : {A : Type ℓ} {E F : Type κ} → Result E A → F → Result F A
or_else (ok a) f = ok a
or_else (err _) f = err f

module _ (crypto : Crypto) where
  -- `generateToken`.
  abbrev pub claims_for : User → ℕ → String → ℕ → Claims
  claims_for user expiry subject now = record {
    user_id = user.id;
    username = user.username;
    is_admin = user.is_admin;
    subject = subject;
    issued_at = now / second;
    expires_at = (now + expiry) / second;
  }

  unfoldable pub generate_token : Auth → User → ℕ → String → ℕ → Result Failure String
  generate_token a user expiry subject now =
      or_fail (crypto.sign a.jwt_secret (claims_for user expiry subject now)) signing_failed

  -- `AuthenticateBasicAuth`, and the checks that `Login` begins with.
  unfoldable pub authenticate_basic_auth : Auth → String → String → Result Failure User
  authenticate_basic_auth a username password = do
    user ← or_else (Users.get_by_username username a.users) invalid_credentials
    if user.password_hash == ""
        then err invalid_credentials
        else if crypto.matches user.password_hash password
        then ok user
        else err invalid_credentials

  -- `now₁` and `now₂` are the two readings of the clock.
  unfoldable pub login : Auth → String → String → ℕ → ℕ → Result Failure (String × String)
  login a username password now₁ now₂ = do
    user ← authenticate_basic_auth a username password
    access ← generate_token a user a.access_expiry "access" now₁
    refresh ← generate_token a user a.refresh_expiry "refresh" now₂
    ok (access, refresh)

  unfoldable pub validate_token : Auth → String → ℕ → Option Claims
  validate_token a token now = crypto.parse a.jwt_secret now token

  unfoldable pub refresh_token : Auth → String → ℕ → ℕ → Result Failure String
  refresh_token a token now₁ now₂ = do
    claims ← or_fail (validate_token a token now₁) invalid_refresh_token
    user ←
        if claims.subject == "refresh"
        then or_else (Users.get_by_id claims.user_id a.users) user_gone
        else err not_refresh_token
    generate_token a user a.access_expiry "access" now₂

  abbrev pub blank_user : String → String → Bool → Option String → Option ℕ → User
  blank_user name password_hash is_admin token expires = record {
    id = "";
    username = name;
    password_hash = password_hash;
    is_admin = is_admin;
    invite_token = token;
    invite_expires_at = expires;
    created_at = 0;
    updated_at = 0;
  }

  unfoldable pub create_user :
      Write UserEntry
      → String
      → ℕ
      → String
      → String
      → Bool
      → Auth
      → Auth × Result Failure (Unit {0})
  create_user w fresh now name password is_admin a = elim (crypto.hash password) [
    | none ↦ (a, err hashing_failed)
    | some h ↦ stored a (Users.create w fresh now (blank_user name h is_admin none none) a.users)
  ]

  unfoldable pub list_users : Auth → List User
  list_users a = Users.list a.users

  unfoldable pub get_user : Auth → String → Result Failure User
  get_user a id = or_else (Users.get_by_id id a.users) user_gone

  unfoldable pub update_user :
      Write UserEntry → ℕ → User → String → Auth → Auth × Result Failure (Unit {0})
  update_user w now user new_password a =
      if new_password == ""
      then stored a (Users.update w now user a.users)
      else elim (crypto.hash new_password) [
        | none ↦ (a, err hashing_failed)
        | some h ↦ stored a (Users.update w now (record user { password_hash = h }) a.users)
      ]

  unfoldable pub delete_user : Write UserEntry → String → Auth → Auth × Result Failure (Unit {0})
  delete_user w id a = stored a (Users.delete w id a.users)

  unfoldable pub find_first_admin : Auth → Result Error User
  find_first_admin a = Users.get_first_admin a.users

  unfoldable pub set_invite_expiry : ℕ → Auth → Auth
  set_invite_expiry d a = record a { invite_expiry = d }

  abbrev pub week : ℕ
  week = 7 * 24 * 3600 * second

  -- `now₁` dates the expiry and `now₂` the row.
  unfoldable pub create_invite :
      Write UserEntry → String → String → ℕ → ℕ → String → Auth → Auth × Result Failure (Unit {0})
  create_invite w fresh token now₁ now₂ name a =
      let expiry = if ltb 0 a.invite_expiry then a.invite_expiry else week in
      stored a (
        Users.create w fresh now₂ (blank_user name "" false (some token) (some (now₁ + expiry)))
          a.users)

  abbrev pub is_expired : ℕ → Option ℕ → Bool
  is_expired now none = false
  is_expired now (some expires) = ltb expires now

  abbrev pub accepted : String → User → User
  accepted h user = record user { password_hash = h; invite_token = none; invite_expires_at = none }

  unfoldable pub accept_invite :
      Write UserEntry → ℕ → ℕ → String → String → Auth → Auth × Result Failure (Unit {0})
  accept_invite w now₁ now₂ token password a = elim (Users.get_by_invite_token token a.users) [
    | err _ ↦ (a, err invalid_invite)
    | ok user ↦
        if is_expired now₁ user.invite_expires_at
        then (a, err invite_expired)
        else elim (crypto.hash password) [
          | none ↦ (a, err hashing_failed)
          | some h ↦ stored a (Users.update w now₂ (accepted h user) a.users)
        ]
  ]
