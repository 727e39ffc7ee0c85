-- ===== src/Session/Past.antt =====
-- pkg/session/manager.go: a cleanup whose session the map has lost.
use tvproxy.Base.{
  ◌<◌, String, ◌≡◌, ◌≢◌, sym, subst, ◌⊎◌, inl, inr, Bool, true, false, ◌==◌, List, [], ◌∷◌, arith,
  All, remove as drop_row, Bool-cases, eq_iff,
}
use tvproxy.Base.Maps.{put as assign}
use tvproxy.Session.{Session, Consumer, add_consumer}
use tvproxy.Session.Manager.{
  StartOpts, Task, Manager, key_of, put, create, cleanup_done_session, new_session,
}
use tvproxy.Session.Validity.{All-modify, All-drop_row}

-- Any session of the task's channel is younger than the one that the task is for.
abbrev pub Younger : Task → String × Session → Type 0
Younger t p = (p.0 ≢ t.channel_id) ⊎ (t.ref < p.1.ref)

pub record IsPast (t : Task) (m : Manager) : Type 0 where
  pub younger : All (Younger t) m.sessions
  pub made : t.ref < m.next_ref

pub IsPast-of_same :
    (t : Task) (m n : Manager)
    → n.sessions ≡ m.sessions
    → n.next_ref ≡ m.next_ref
    → IsPast t m
    → IsPast t n
IsPast-of_same t m n e r h = record { younger = rw e h.younger; made = rw r h.made }

pub put-IsPast :
    (t : Task) (k : String) (f : Session → Session) (m : Manager)
    → ((s : Session) → (f s).ref ≡ s.ref)
    → IsPast t m
    → IsPast t (put k f m)
put-IsPast t k f m same h = record {
  younger = All-modify (Younger t) k f m.sessions (λ c s p. kept c s p) h.younger;
  made = h.made;
}
  where
    kept : (c : String) (s : Session) → Younger t (c, s) → Younger t (c, f s)
    kept c s (inl n) = inl n
    kept c s (inr l) = inr (rw (same s) l)

pub drop-IsPast :
    (t : Task) (k : String) (m : Manager)
    → IsPast t m
    → IsPast t (record m { sessions = drop_row key_of k m.sessions })
drop-IsPast t k m h = record {
  younger = All-drop_row (Younger t) k m.sessions h.younger;
  made = h.made;
}

All-assign :
    (P : String × Session → Type 0) (k : String) (s : Session) (ps : List (String × Session))
    → P (k, s)
    → All P ps
    → All P (assign k s ps)
All-assign P k s [] h hs = (h, tt)
All-assign P k s ((c, x) ∷ ps) h hs = elim (Bool-cases (c == k)) [
  | inl q ↦ rw q (subst (λ (z : String). P (z, s)) (sym ((eq_iff c k).0 q)) h, hs.1)
  | inr q ↦ rw q (hs.0, All-assign P k s ps h hs.1)
]

pub create-IsPast :
    (t : Task) (made : Bool) (opts : StartOpts) (id : String) (c : Consumer) (m : Manager)
    → IsPast t m
    → IsPast t (create made opts id c m).0
unfolding create add_consumer
create-IsPast t false opts id c m h = h
create-IsPast t true opts id c m h =
    let new : Session = add_consumer c (new_session opts id m.next_ref) in
    record {
      younger = All-assign (Younger t) opts.channel_id new m.sessions (inr h.made) h.younger;
      made = omega (arith, h.made);
    }

pub cleaned-IsPast :
    (t : Task) (k : String) (s : Session) (m : Manager)
    → IsPast t m
    → IsPast t (cleanup_done_session k s m)
unfolding cleanup_done_session
cleaned-IsPast t k s m h =
    let d = drop-IsPast t k m h in record { younger = d.younger; made = d.made }
