-- ===== src/Auth/Tokens.antt =====
-- pkg/service/auth.go: what a login, an access token and a refresh token are good for.
use tvproxy.Base.{
  ℕ, ◌+◌, ◌/◌, ◌*◌, ◌<◌, String, ◌≡◌, ◌≢◌, refl, sym, ◌∙◌, ◌↔◌, Bool, true, false, eq_iff, none,
  some, ok, err, arith, if◌then◌else◌, Result-cases, inl, inr, ok-ne-err,
}
use tvproxy.Store.Users.{User, UserEntry, Users}
use tvproxy.Store.Users
use tvproxy.Auth.{
  Claims, Crypto, Auth, second, invalid_refresh_token, not_refresh_token, user_gone, claims_for,
  generate_token, authenticate_basic_auth, login, validate_token, refresh_token,
}

module _ (crypto : Crypto) (a : Auth) where
  -- The password check succeeds exactly for the user of that name, if a password is set and
  -- matches.
  pub authenticate_iff :
      (username password : String) (user : User)
      → (authenticate_basic_auth crypto a username password ≡ ok user) ↔ (
          (Users.get_by_username username a.users ≡ ok user)
          × (user.password_hash ≢ "")
          × (crypto.matches user.password_hash password ≡ true))
  unfolding authenticate_basic_auth
  authenticate_iff username password user =
      elim (Result-cases (Users.get_by_username username a.users)) [
        | inr (x, e) ↦
            ((λ h. absurd (ground (arith, e, h))), (λ h. absurd (ground (arith, e, h.0))))
        | inl (u, e) ↦ (
          (λ h. ground (arith, e, h, eq_iff u.password_hash "")),
          (λ h. ground (arith, e, h.0, h.1, h.2, eq_iff u.password_hash "")),
        )
      ]

  -- The two tokens of a successful login: each is the signature of claims about the user.
  login_tokens :
      (username password access refresh : String) (now₁ now₂ : ℕ)
      → login crypto a username password now₁ now₂ ≡ ok (access, refresh)
      → (user : User) × (authenticate_basic_auth crypto a username password ≡ ok user)
        × (crypto.sign a.jwt_secret (claims_for crypto user a.access_expiry "access" now₁)
            ≡ some access)
        × (crypto.sign a.jwt_secret (claims_for crypto user a.refresh_expiry "refresh" now₂)
            ≡ some refresh)
  unfolding login generate_token
  login_tokens username password access refresh now₁ now₂ h = ground arith

  parse-signed :
      (c : Claims) (token : String) (now : ℕ)
      → crypto.sign a.jwt_secret c ≡ some token
      → now < c.expires_at * second
      → validate_token crypto a token now ≡ some c
  unfolding validate_token
  parse-signed c token now s h = ground (arith, crypto.parse-sign a.jwt_secret c token now s)

  -- A token whose claims do not have the subject "refresh" is refused.
  other_subject :
      (c : Claims) (token : String) (valid : Bool) (later₁ later₂ : ℕ)
      → validate_token crypto a token later₁ ≡ (if valid then some c else none)
      → c.subject ≡ "access"
      → (fresh : String) → refresh_token crypto a token later₁ later₂ ≢ ok fresh
  unfolding refresh_token
  other_subject c token true later₁ later₂ e s fresh h =
      let refusal : refresh_token crypto a token later₁ later₂ ≡ err not_refresh_token =
        rw (e, s) in
      ok-ne-err (sym h ∙ refusal)
  other_subject c token false later₁ later₂ e s fresh h =
      let refusal : refresh_token crypto a token later₁ later₂ ≡ err invalid_refresh_token = rw e in
      ok-ne-err (sym h ∙ refusal)

  -- The access token of a login is never accepted as a refresh token, whenever it is tried.
  pub login_access-refresh :
      (username password access refresh : String) (now₁ now₂ later₁ later₂ : ℕ)
      → login crypto a username password now₁ now₂ ≡ ok (access, refresh)
      → (fresh : String) → refresh_token crypto a access later₁ later₂ ≢ ok fresh
  unfolding validate_token
  login_access-refresh username password access refresh now₁ now₂ later₁ later₂ h fresh =
      let (user, _, signed, _) = login_tokens username password access refresh now₁ now₂ h in
      other_subject (claims_for crypto user a.access_expiry "access" now₁) access _ later₁ later₂
        (crypto.parse-sign a.jwt_secret _ access later₁ signed) refl fresh

  -- Before it expires, the refresh token of a login gives an access token for the same user, as the
  -- user is stored by then.
  pub login_refresh-refresh :
      (username password access refresh : String) (now₁ now₂ later₁ later₂ : ℕ) (user : User)
      → login crypto a username password now₁ now₂ ≡ ok (access, refresh)
      → authenticate_basic_auth crypto a username password ≡ ok user
      → later₁ < (now₂ + a.refresh_expiry) / second * second
      → refresh_token crypto a refresh later₁ later₂ ≡ elim (Users.get_by_id user.id a.users) [
        | err _ ↦ err user_gone
        | ok stored ↦ generate_token crypto a stored a.access_expiry "access" later₂
      ]
  unfolding refresh_token
  login_refresh-refresh username password access refresh now₁ now₂ later₁ later₂ user h e t =
      let (u, same, _, signed) = login_tokens username password access refresh now₁ now₂ h in
      let c : Claims = claims_for crypto user a.refresh_expiry "refresh" now₂ in
      let is_user : u ≡ user = ground (arith, same, e) in
      let valid : validate_token crypto a refresh later₁ ≡ some c =
        parse-signed c refresh later₁ (rw is_user at signed) t in
      rw valid (ground arith)
