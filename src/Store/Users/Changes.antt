-- ===== src/Store/Users/Changes.antt =====
-- pkg/store/user.go: a user who is changed under its identifier is found under its name.
use tvproxy.Base.{
  String, ◌≡◌, ap, ◌∙◌, Bool, true, ◌==◌, eq_iff, ==→ne, List, [], ◌∷◌, none, some, find, modify,
  some_inj, key-find, All, Bool-cases, inl, inr,
}
use tvproxy.Store.Users.{UserEntry, id_of, username_of, first}

none-ne-some : {e : UserEntry} → ◌≡◌ none (some e) → ⊥
none-ne-some h = cc

-- What the loop finds has what all users have.
pub first-All {κ} :
    (P : UserEntry → Type κ) (p : UserEntry → Bool) (es : List UserEntry) (e : UserEntry)
    → All P es
    → first p es ≡ some e
    → P e
first-All P p [] e h f = elim (none-ne-some f) [ ]
first-All P p (x ∷ es) e h f = elim (Bool-cases (p x)) [
  | inl hit ↦ rw (some_inj (rw hit at f)) at (h.0)
  | inr miss ↦ first-All P p es e h.1 (rw miss at f)
]

-- The row that both keys find is changed under the one and found under the other.
pub find-modify_other :
    (name k : String) (f : UserEntry → UserEntry) (es : List UserEntry) (e : UserEntry)
    → find id_of k es ≡ some e
    → find username_of name es ≡ some e
    → username_of (f e) ≡ name
    → find username_of name (modify id_of k f es) ≡ some (f e)
find-modify_other name k f [] e h g n = elim (none-ne-some h) [ ]
find-modify_other name k f (x ∷ es) e h g n = elim (Bool-cases (id_of x == k)) [
  | inl hit ↦
      let found : x ≡ e = some_inj (rw hit at h) in
      let named : (username_of (f x) == name) ≡ true =
        (eq_iff (username_of (f x)) name).1 (ap (λ y. username_of (f y)) found ∙ n) in
      rw (hit, named) (ap (λ y. some (f y)) found)
  | inr miss ↦ elim (Bool-cases (username_of x == name)) [
    | inl same ↦
        let found : x ≡ e = some_inj (rw same at g) in
        let keyed : id_of e ≡ k = key-find id_of k es e (rw miss at h) in
        elim (==→ne (id_of x) k miss (ap id_of found ∙ keyed)) [ ]
    | inr other ↦
        rw (miss, other) (find-modify_other name k f es e (rw miss at h) (rw other at g) n)
  ]
]
