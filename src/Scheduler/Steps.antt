-- ===== src/Scheduler/Steps.antt =====
-- pkg/service/scheduler.go: the service's writes to the store keep the plan free of overlaps.
use tvproxy.Base.{
  ℕ, String, ◌≡◌, ◌≢◌, refl, ◌⊎◌, inl, inr, true, false, List, [], ◌∷◌, ◌++◌, some, Result, ok, err,
  arith, find, modify, remove, Distinct, Distinct-modify, Distinct-remove, modify-absent,
  remove-absent, find-modify_ne, ◌∙◌, Result-cases, Option-cases, Bool-cases,
}
use tvproxy.Store.Table.{Write}
use tvproxy.Store.Recordings.{Recording, Recordings, id_of, is_excluded, with_status, stamped}
use tvproxy.Store.Recordings
use tvproxy.Store.Recordings.Laws.{Disjoint, Narrows, Disjoint-modify, Disjoint-remove}
use tvproxy.Scheduler.{
  Recorder, Environment, World, Failure, already_recording, other, set_status, set_session,
  remove_row, started, start_recording,
}

abbrev pub rows : {V : Type 0} → World V → List Recording
rows w = w.recordings.rows

-- The identifiers differ, and no two recordings of a user on a channel that are still to be made
-- overlap.
pub record IsPlanned (rs : List Recording) : Type 0 where
  pub distinct : Distinct id_of rs
  pub disjoint : Disjoint rs

-- The recording under this identifier, if there is one, is still to be made.
abbrev pub IsLive : String → List Recording → Type 0
IsLive id rs = (r : Recording) → find id_of id rs ≡ some r → is_excluded r.status ≡ false

modify-IsPlanned :
    (k : String) (f : Recording → Recording) (rs : List Recording)
    → ((r : Recording) → (f r).id ≡ r.id)
    → ((r : Recording) → find id_of k rs ≡ some r → Narrows f r)
    → IsPlanned rs
    → IsPlanned (modify id_of k f rs)
modify-IsPlanned k f rs same narrow p = record {
  distinct = Distinct-modify id_of k f rs same p.distinct;
  disjoint = elim (Option-cases (find id_of k rs)) [
    | inl e ↦ rw (modify-absent id_of k f rs e) p.disjoint
    | inr (a, e) ↦ Disjoint-modify k f a rs e (narrow a e) p.disjoint
  ];
}

update_field-rows :
    (w : Write Recording) (time : ℕ) (id : String) (f : Recording → Recording) (t : Recordings)
    → (Recordings.update_field w time id f t).0.rows
      ≡ modify id_of id (λ r. record (f r) { updated_at = time }) t.rows
unfolding Recordings.update_field
update_field-rows Write.written time id f t =
    ground (arith, modify-absent id_of id (λ r. record (f r) { updated_at = time }) t.rows)
update_field-rows (Write.failed left) time id f t =
    ground (arith, modify-absent id_of id (λ r. record (f r) { updated_at = time }) t.rows)

pub delete-rows :
    (w : Write Recording) (id : String) (t : Recordings)
    → (Recordings.delete w id t).0.rows ≡ remove id_of id t.rows
unfolding Recordings.delete
delete-rows Write.written id t = ground (arith, remove-absent id_of id t.rows)
delete-rows (Write.failed left) id t = ground (arith, remove-absent id_of id t.rows)

pub create-rows :
    (w : Write Recording) (fresh : String) (time : ℕ) (r : Recording) (t : Recordings)
    → (Recordings.create w fresh time r t).0.rows ≡ t.rows ++ stamped fresh time r ∷ []
unfolding Recordings.create
create-rows Write.written fresh time r t = refl
create-rows (Write.failed left) fresh time r t = refl

module _ {V : Type 0} (recorder : Recorder V) (env : Environment) where
  pub set_status-IsPlanned :
      (id status message : String) (w : World V)
      → IsLive id (rows w) ⊎ (is_excluded status ≡ true)
      → IsPlanned (rows w)
      → IsPlanned (rows (set_status recorder env id status message w).0)
  unfolding set_status Recordings.update_status
  set_status-IsPlanned id status message w live p =
      rw (update_field-rows _ _ id (with_status status message) w.recordings) (
        modify-IsPlanned id _ (rows w) (λ r. refl)
          (λ r e.
            (refl, refl, refl, refl, refl, elim live [ inl l ↦ inl (l r e) | inr over ↦ inr over ]))
          p)

  set_session-IsPlanned :
      (id session : String) (w : World V)
      → IsPlanned (rows w)
      → IsPlanned (rows (set_session recorder env id session w))
  unfolding set_session Recordings.update_recording_state
  set_session-IsPlanned id session w p =
      rw
        (update_field-rows _ _ id (λ r. record r { session_id = session; segment_id = "" })
          w.recordings)
        (modify-IsPlanned id _ (rows w) (λ r. refl)
          (λ r e. (
            refl,
            refl,
            refl,
            refl,
            refl,
            elim (Bool-cases (is_excluded r.status)) [ inl over ↦ inr over | inr live ↦ inl live ],
          ))
          p)

  -- A change of one row leaves the others as they were.
  pub set_status-find_ne :
      (j id status message : String) (w : World V)
      → j ≢ id
      → find id_of j (rows (set_status recorder env id status message w).0) ≡ find id_of j (rows w)
  unfolding set_status Recordings.update_status
  set_status-find_ne j id status message w n =
      rw (update_field-rows _ _ id (with_status status message) w.recordings)
        (find-modify_ne id_of j id _ (rows w) (λ r. refl) n)

  set_session-find_ne :
      (j id session : String) (w : World V)
      → j ≢ id
      → find id_of j (rows (set_session recorder env id session w)) ≡ find id_of j (rows w)
  unfolding set_session Recordings.update_recording_state
  set_session-find_ne j id session w n =
      rw
        (update_field-rows _ _ id (λ r. record r { session_id = session; segment_id = "" })
          w.recordings)
        (find-modify_ne id_of j id _ (rows w) (λ r. refl) n)

  failed_excluded : is_excluded "failed" ≡ true
  unfolding is_excluded
  failed_excluded = refl

  started-IsPlanned :
      (rec : Recording) (r : Result Failure (Unit {0})) (w : World V)
      → IsPlanned (rows w)
      → IsPlanned (rows (started recorder env rec r w))
  unfolding started
  started-IsPlanned rec (ok _) w p = set_session-IsPlanned rec.id rec.channel_id w p
  started-IsPlanned rec (err already_recording) w p =
      set_session-IsPlanned rec.id rec.channel_id w p
  started-IsPlanned rec (err (other message)) w p =
      set_status-IsPlanned rec.id "failed" message w (inr failed_excluded) p

  started-find_ne :
      (j : String) (rec : Recording) (r : Result Failure (Unit {0})) (w : World V)
      → j ≢ rec.id
      → find id_of j (rows (started recorder env rec r w)) ≡ find id_of j (rows w)
  unfolding started
  started-find_ne j rec (ok _) w n = set_session-find_ne j rec.id rec.channel_id w n
  started-find_ne j rec (err already_recording) w n =
      set_session-find_ne j rec.id rec.channel_id w n
  started-find_ne j rec (err (other message)) w n = set_status-find_ne j rec.id "failed" message w n

  -- What holds when the status could not be written and after every answer of the recorder holds
  -- after `startRecording`.
  start_recording_cases {ℓ} :
      (P : World V → Type ℓ) (rec : Recording) (w : World V)
      → P (set_status recorder env rec.id "recording" "" w).0
      → ((v : V) (r : Result Failure (Unit {0}))
          → P (
              started recorder env rec r
                (record ((set_status recorder env rec.id "recording" "" w).0) { recorder = v })))
      → P (start_recording recorder env rec w)
  unfolding start_recording
  start_recording_cases P rec w refused_case started_case =
      elim (Result-cases (set_status recorder env rec.id "recording" "" w).1) [
        | inl (_, e) ↦ rw (e, start_recording) (started_case _ _)
        | inr (_, e) ↦ rw (e, start_recording) refused_case
      ]

  pub start_recording-IsPlanned :
      (rec : Recording) (w : World V)
      → IsLive rec.id (rows w)
      → IsPlanned (rows w)
      → IsPlanned (rows (start_recording recorder env rec w))
  start_recording-IsPlanned rec w live p =
      let q = set_status-IsPlanned rec.id "recording" "" w (inl live) p in
      start_recording_cases (λ u. IsPlanned (rows u)) rec w q λ v r. started-IsPlanned rec r _ q

  pub start_recording-find_ne :
      (j : String) (rec : Recording) (w : World V)
      → j ≢ rec.id
      → find id_of j (rows (start_recording recorder env rec w)) ≡ find id_of j (rows w)
  start_recording-find_ne j rec w n =
      let kept = set_status-find_ne j rec.id "recording" "" w n in
      start_recording_cases (λ u. find id_of j (rows u) ≡ find id_of j (rows w)) rec w kept
        λ v r. started-find_ne j rec r _ n ∙ kept

  pub remove_row-IsPlanned :
      (id : String) (w : World V)
      → IsPlanned (rows w)
      → IsPlanned (rows (remove_row recorder env id w).0)
  unfolding remove_row
  remove_row-IsPlanned id w p = rw (delete-rows _ id w.recordings) (record {
    distinct = Distinct-remove id_of id (rows w) p.distinct;
    disjoint = Disjoint-remove id (rows w) p.disjoint;
  })
