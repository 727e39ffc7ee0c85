-- ===== src/Scheduler/Ticks.antt =====
-- pkg/service/scheduler.go: a round of the scheduler keeps the plan free of overlaps.
use tvproxy.Base.{
  ℕ, suc, String, ◌≡◌, ◌≢◌, refl, sym, ◌⊎◌, inl, inr, Bool, true, false, List, [], ◌∷◌, some, arith,
  find, Fresh, Distinct, some_inj, ◌∙◌, ltb, ◌&&◌, ◌==◌, Bool-cases, All,
}
use mathlib.Core.Path.{subst}
use tvproxy.Store.Recordings.{Recording, Recordings, id_of, is_excluded, with_status, stamped}
use tvproxy.Store.Recordings
use tvproxy.Scheduler.{Recorder, Environment, World, set_status, start_recording, tick_clock}
use tvproxy.Scheduler.{
  remove_missed, start_all, start_pending, monitor_one, monitor_all, monitor_active, tick,
}
use tvproxy.Base.{ap}
use tvproxy.Scheduler.Steps.{
  rows, IsPlanned, IsLive, start_recording-IsPlanned, start_recording-find_ne, remove_row-IsPlanned,
  set_status-IsPlanned, set_status-find_ne,
}
use tvproxy.Base.{keep, Distinct-find, Distinct-keep, ◌&&◌, ◌==◌, eq_iff}

-- The recordings that a round works on: with distinct identifiers, each still to be made.
abbrev AllLive : List Recording → List Recording → Type 0
AllLive recs rs = All (λ r. IsLive r.id rs) recs

AllLive-of_find :
    (j : String) (recs rs qs : List Recording)
    → ((k : String) → k ≢ j → find id_of k qs ≡ find id_of k rs)
    → Fresh id_of j recs
    → AllLive recs rs
    → AllLive recs qs
AllLive-of_find j [] rs qs same f h = tt
AllLive-of_find j (r ∷ recs) rs qs same f h =
    (λ s e. h.0 s (sym (same r.id f.0) ∙ e), AllLive-of_find j recs rs qs same f.1 h.1)

-- The rows of a status that is not over are all still to be made.
keep-AllLive :
    (p : Recording → Bool) (recs rs : List Recording)
    → ((r : Recording) → p r ≡ true → is_excluded r.status ≡ false)
    → All (λ r. find id_of r.id rs ≡ some r) recs
    → AllLive (keep p recs) rs
keep-AllLive p [] rs live h = tt
keep-AllLive p (r ∷ recs) rs live h = elim (Bool-cases (p r)) [
  | inl passes ↦ rw passes (
    λ s e. subst (λ x. is_excluded x.status ≡ false) (some_inj (sym h.0 ∙ e)) (live r passes),
    keep-AllLive p recs rs live h.1,
  )
  | inr fails ↦ rw fails (keep-AllLive p recs rs live h.1)
]

status_live : (s t : String) → (s == t) ≡ true → is_excluded t ≡ false → is_excluded s ≡ false
status_live s t e h = rw ((eq_iff s t).0 e) h

and_left : (a b : Bool) → (a && b) ≡ true → a ≡ true
and_left a b h = ground arith

pending_live : is_excluded "pending" ≡ false
unfolding is_excluded
pending_live = refl

recording_live : is_excluded "recording" ≡ false
unfolding is_excluded
recording_live = refl

over : (s : String) → (s ≡ "completed") ⊎ (s ≡ "failed") → is_excluded s ≡ true
unfolding is_excluded
over s (inl e) = rw e
over s (inr e) = rw e

module _ {V : Type 0} (recorder : Recorder V) (env : Environment) where
  remove_missed-IsPlanned :
      (time : ℕ) (recs : List Recording) (w : World V)
      → IsPlanned (rows w)
      → IsPlanned (rows (remove_missed recorder env time recs w))
  unfolding remove_missed
  remove_missed-IsPlanned time [] w p = p
  remove_missed-IsPlanned time (rec ∷ recs) w p =
      remove_missed-IsPlanned time recs _ (elim (Bool-cases (ltb rec.stop_at time)) [
        | inl missed ↦ rw missed (remove_row-IsPlanned recorder env rec.id w p)
        | inr due ↦ rw due p
      ])

  start_all-IsPlanned :
      (recs : List Recording) (w : World V)
      → Distinct id_of recs
      → AllLive recs (rows w)
      → IsPlanned (rows w)
      → IsPlanned (rows (start_all recorder env recs w))
  unfolding start_all
  start_all-IsPlanned [] w d live p = p
  start_all-IsPlanned (rec ∷ recs) w d live p =
      start_all-IsPlanned recs _ d.1
        (AllLive-of_find rec.id recs (rows w) _
          (λ k n. start_recording-find_ne recorder env k rec w n) d.0 live.1)
        (start_recording-IsPlanned recorder env rec w live.0 p)

  start_pending-IsPlanned :
      (w : World V) → IsPlanned (rows w) → IsPlanned (rows (start_pending recorder env w))
  unfolding start_pending Recordings.list_pending
  start_pending-IsPlanned w p =
      let q = remove_missed-IsPlanned (env.clock w.events) _ (tick_clock recorder env w) p in
      start_all-IsPlanned _ _ (Distinct-keep id_of _ _ q.distinct)
        (keep-AllLive _ _ _ (λ r h. status_live r.status "pending" (and_left _ _ h) pending_live)
          (Distinct-find id_of _ q.distinct))
        q

  set_over-IsPlanned :
      (id status message : String) (w : World V)
      → (status ≡ "completed") ⊎ (status ≡ "failed")
      → IsPlanned (rows w)
      → IsPlanned (rows (set_status recorder env id status message w).0)
  set_over-IsPlanned id status message w s p =
      set_status-IsPlanned recorder env id status message w (inr (over status s)) p

  -- What holds after each of the ways that one round can go.
  monitor_one_cases {ℓ} :
      (P : World V → Type ℓ) (rec : Recording) (w : World V)
      → ((id status message : String) (u : World V)
          → rows u ≡ rows w
          → id ≡ rec.id
          → (status ≡ "completed") ⊎ (status ≡ "failed")
          → P (set_status recorder env id status message u).0)
      → ((u : World V) → rows u ≡ rows w → P u)
      → ((u : World V) → rows u ≡ rows w → P (start_recording recorder env rec u))
      → P (monitor_one recorder env rec w)
  unfolding monitor_one
  monitor_one_cases P rec w over_case idle_case start_case =
      elim (Bool-cases (ltb rec.stop_at (env.clock w.events))) [
        | inl done ↦ rw done (over_case rec.id "completed" "" _ refl refl (inl refl))
        | inr going ↦ elim (Bool-cases (recorder.has_session rec.channel_id w.recorder)) [
          | inl there ↦ rw (going, there) (idle_case _ refl)
          | inr gone ↦ elim (Bool-cases (ltb rec.stop_at (env.clock (suc w.events)))) [
            | inl late ↦
                rw (going, gone, late)
                  (over_case rec.id "failed" "recording session lost" _ refl refl (inr refl))
            | inr early ↦ rw (going, gone, early) (start_case _ refl)
          ]
        ]
      ]

  monitor_one-IsPlanned :
      (rec : Recording) (w : World V)
      → IsLive rec.id (rows w)
      → IsPlanned (rows w)
      → IsPlanned (rows (monitor_one recorder env rec w))
  monitor_one-IsPlanned rec w live p =
      monitor_one_cases (λ u. IsPlanned (rows u)) rec w
        (λ id status message u same e s. set_over-IsPlanned id status message u s (rw same p))
        (λ u same. rw same p)
        (λ u same. start_recording-IsPlanned recorder env rec u (rw same live) (rw same p))

  monitor_one-find_ne :
      (j : String) (rec : Recording) (w : World V)
      → j ≢ rec.id
      → find id_of j (rows (monitor_one recorder env rec w)) ≡ find id_of j (rows w)
  monitor_one-find_ne j rec w n =
      monitor_one_cases (λ u. find id_of j (rows u) ≡ find id_of j (rows w)) rec w
        (λ id status message u same e s.
          set_status-find_ne recorder env j id status message u (λ q. n (q ∙ e))
          ∙ ap (find id_of j) same)
        (λ u same. ap (find id_of j) same)
        (λ u same. start_recording-find_ne recorder env j rec u n ∙ ap (find id_of j) same)

  monitor_all-IsPlanned :
      (recs : List Recording) (w : World V)
      → Distinct id_of recs
      → AllLive recs (rows w)
      → IsPlanned (rows w)
      → IsPlanned (rows (monitor_all recorder env recs w))
  unfolding monitor_all
  monitor_all-IsPlanned [] w d live p = p
  monitor_all-IsPlanned (rec ∷ recs) w d live p =
      monitor_all-IsPlanned recs _ d.1
        (AllLive-of_find rec.id recs (rows w) _ (λ k n. monitor_one-find_ne k rec w n) d.0 live.1)
        (monitor_one-IsPlanned rec w live.0 p)

  monitor_active-IsPlanned :
      (w : World V) → IsPlanned (rows w) → IsPlanned (rows (monitor_active recorder env w))
  unfolding monitor_active Recordings.list_by_status
  monitor_active-IsPlanned w p =
      monitor_all-IsPlanned _ _ (Distinct-keep id_of _ _ p.distinct)
        (keep-AllLive _ _ _ (λ r h. status_live r.status "recording" h recording_live)
          (Distinct-find id_of _ p.distinct))
        p

  -- A round of the scheduler keeps the identifiers distinct and the plan free of overlaps, whatever
  -- the clock, the file and the recorder do.
  pub tick-IsPlanned : (w : World V) → IsPlanned (rows w) → IsPlanned (rows (tick recorder env w))
  unfolding tick
  tick-IsPlanned w p = monitor_active-IsPlanned _ (start_pending-IsPlanned w p)
