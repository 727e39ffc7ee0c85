-- ===== src/Auth/Tests.antt =====
-- pkg/service/auth.go: runs, and the theorems at inputs that meet their hypotheses. The password
-- hash here puts a mark before the password, and two sets of claims can be signed.
use tvproxy.Base.{
  ℕ, ◌*◌, String, ◌≡◌, ◌≢◌, refl, sym, ◌∙◌, ◌↔◌, Bool, true, false, ◌&&◌, ◌==◌, eq_iff, eq_refl,
  ==→ne, Distinct, [], ◌∷◌, Option, none, some, ok, err, arith, ltb, nat_eq, if◌then◌else◌,
  some_inj, Bool-cases, inl, inr,
}
use text.Mathlib.TextLemmas.{cons-ne-nil}
use tvproxy.Store.Table.{File, written}
use tvproxy.Store.Users.{User, UserEntry, hydrated, stamped, username_of, id_of}
use tvproxy.Store.Users
use tvproxy.Auth.{
  Claims, Crypto, Auth, second, invalid_credentials, generate_token, authenticate_basic_auth, login,
  refresh_token, validate_token, create_user, create_invite, accept_invite,
}
use tvproxy.Auth.Tokens.{authenticate_iff, login_access-refresh}
use tvproxy.Auth.Acceptance.{accept_invite-authenticate}

abbrev marked : String → String
marked p = String.◌∷◌ "#" p

abbrev claims : String → ℕ → Claims
claims subject expires = record {
  user_id = "u1";
  username = "ann";
  is_admin = false;
  subject = subject;
  issued_at = 1;
  expires_at = expires;
}

abbrev equal_bools : Bool → Bool → Bool
equal_bools true b = b
equal_bools false true = false
equal_bools false false = true

abbrev same : Claims → Claims → Bool
same c d =
    (c.user_id == d.user_id && c.username == d.username)
    && (equal_bools c.is_admin d.is_admin && c.subject == d.subject)
    && (nat_eq c.issued_at d.issued_at && nat_eq c.expires_at d.expires_at)

same→eq : (c d : Claims) → same c d ≡ true → c ≡ d
same→eq c d h =
    ground
      (arith, eq_iff c.user_id d.user_id, eq_iff c.username d.username, eq_iff c.subject d.subject)

abbrev access_claims : Claims
access_claims = claims "access" 11

abbrev refresh_claims : Claims
refresh_claims = claims "refresh" 101

abbrev toy_sign : String → Claims → Option String
toy_sign secret c =
    if same c access_claims then some "A" else if same c refresh_claims then some "R" else none

abbrev in_time : ℕ → Claims → Option Claims
in_time now c = if ltb now (c.expires_at * second) then some c else none

abbrev toy_parse : String → ℕ → String → Option Claims
toy_parse secret now token =
    if token == "A"
    then in_time now access_claims
    else if token == "R"
    then in_time now refresh_claims
    else none

toy_parse-sign :
    (secret : String) (c : Claims) (token : String) (now : ℕ)
    → toy_sign secret c ≡ some token
    → toy_parse secret now token ≡ in_time now c
toy_parse-sign secret c token now h = elim (Bool-cases (same c access_claims)) [
  | inl hit ↦ let t : token ≡ "A" = some_inj (sym h ∙ rw hit) in rw (t, same→eq c access_claims hit)
  | inr miss ↦ elim (Bool-cases (same c refresh_claims)) [
    | inl hit ↦
        let t : token ≡ "R" = some_inj (sym h ∙ rw (miss, hit)) in
        rw (t, same→eq c refresh_claims hit)
    | inr gone ↦ absurd (ground (arith, h, miss, gone))
  ]
]

marked-matches : (p h : String) → some (marked p) ≡ some h → (h == marked p) ≡ true
marked-matches p h e = rw (sym (some_inj e)) (eq_refl (marked p))

marked-ne-empty : (p h : String) → some (marked p) ≡ some h → h ≢ ""
marked-ne-empty p h e q = cons-ne-nil "#" p (some_inj e ∙ q)

abbrev toy : Crypto
toy = record {
  hash = λ p. some (marked p);
  matches = λ h p. h == marked p;
  sign = toy_sign;
  parse = toy_parse;
  matches-hash = marked-matches;
  hash-ne-empty = marked-ne-empty;
  parse-sign = toy_parse-sign;
}

abbrev ann : User
ann = record {
  id = "u1";
  username = "ann";
  password_hash = "#pw";
  is_admin = false;
  invite_token = none;
  invite_expires_at = none;
  created_at = 0;
  updated_at = 0;
}

abbrev home : Auth
home = record {
  users = record {
    rows = record { user = ann; password_hash = "#pw"; group_ids = [] } ∷ [];
    file = File.absent;
  };
  jwt_secret = "s";
  access_expiry = 10 * second;
  refresh_expiry = 100 * second;
  invite_expiry = 0;
}

auth : Unit {0}
unfolding authenticate_basic_auth login refresh_token validate_token generate_token create_user
    create_invite Users.get_by_username Users.get_by_id Users.create hydrated stamped
auth = tt

login_test : login toy home "ann" "pw" second second ≡ ok ("A", "R")
unfolding auth
login_test = refl

wrong_password : login toy home "ann" "pv" second second ≡ err invalid_credentials
unfolding auth
wrong_password = refl

authenticate_iff_example : (authenticate_basic_auth toy home "ann" "pw" ≡ ok ann) ↔ (
    (Users.get_by_username "ann" home.users ≡ ok ann)
    × (ann.password_hash ≢ "")
    × ((◌==◌ "#pw" (marked "pw")) ≡ true))
authenticate_iff_example = authenticate_iff toy home "ann" "pw" ann

login_access-refresh_example : refresh_token toy home "A" (2 * second) (2 * second) ≢ ok "A"
login_access-refresh_example =
    login_access-refresh toy home "ann" "pw" "A" "R" second second (2 * second) (2 * second)
      login_test "A"

-- A second user who was invited, and the home with both.
abbrev bob : User
bob = record {
  id = "u2";
  username = "bob";
  password_hash = "";
  is_admin = false;
  invite_token = some "t";
  invite_expires_at = some second;
  created_at = 0;
  updated_at = 0;
}

abbrev inviting : Auth
inviting = record home {
  users = record {
    rows =
        record { user = ann; password_hash = "#pw"; group_ids = [] }
        ∷ record { user = bob; password_hash = ""; group_ids = [] }
        ∷ [];
    file = File.absent;
  };
}

bob_found : Users.get_by_invite_token "t" inviting.users ≡ ok bob
unfolding Users.get_by_invite_token hydrated
bob_found = refl

inviting-ids : Distinct id_of inviting.users.rows
inviting-ids = ((==→ne "u2" "u1" refl, tt), (tt, tt))

inviting-usernames : Distinct username_of inviting.users.rows
inviting-usernames = ((==→ne "bob" "ann" refl, tt), (tt, tt))

accept_invite-authenticate_example :
    (logged_in : User) × (authenticate_basic_auth toy
        (accept_invite toy written 5 6 "t" "x" inviting).0
        "bob"
        "x"
      ≡ ok logged_in)
    × (logged_in.id ≡ "u2")
    × (logged_in.invite_token ≡ none)
accept_invite-authenticate_example =
    accept_invite-authenticate toy written 5 6 "t" "x" "#x" bob inviting inviting-ids
      inviting-usernames bob_found refl refl
