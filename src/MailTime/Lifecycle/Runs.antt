-- ===== src/MailTime/Lifecycle/Runs.antt =====
-- What holds of an instance after any sequence of calls.
use mail_time.Prelude.{
  ◌≡◌, refl, ◌∙◌, Bool, true, false, ◌&&◌, List, [], ◌∷◌, Option, none, some, arith, Bool-cases,
  inl, inr, if◌then◌else◌,
}
use mail_time.Js.Text.{Text, has, add, text_eq, text_eq_iff, text_eq_refl, has-append, has-add}
use mail_time.Task.{Task}
use mail_time.MailTime.State.{MailTime}
use mail_time.MailTime.Send.{has_ended}
use mail_time.MailTime.Lifecycle.{
  Call, destroys, pauses, resumes, dispatches, finishes, answer, run, destroy, pause, resume,
  dispatch_task, finish_job, remove_text, scan, sends, IsKept,
}

has-add_other : (xs : List Text) (a u : Text) → has xs u ≡ true → has (add xs a) u ≡ true
unfolding add
has-add_other xs a u h = ground (arith, has-append xs (a ∷ []) u)

has-remove_other :
    (a u : Text) (xs : List Text)
    → text_eq a u ≡ false
    → has xs u ≡ true
    → has (remove_text a xs) u ≡ true
unfolding has remove_text
has-remove_other a u [] ne h = h
has-remove_other a u (x ∷ xs) ne h =
    ground (arith, has-remove_other a u xs ne, text_eq_iff x a, text_eq_iff x u, text_eq_iff a u)

has-remove_self : (a : Text) (xs : List Text) → has (remove_text a xs) a ≡ false
unfolding has remove_text
has-remove_self a [] = refl
has-remove_self a (x ∷ xs) = ground (arith, has-remove_self a xs)

same_in_flight :
    (m : MailTime) (b : Option Bool)
    → ((pause m b).0.in_flight ≡ m.in_flight) × ((resume m b).0.in_flight ≡ m.in_flight)
unfolding pause resume
same_in_flight m none = (refl, refl)
same_in_flight m (some b) = (ground arith, ground arith)

destroy_in_flight : (m : MailTime) (p b : Bool) → (destroy m p b).0.in_flight ≡ m.in_flight
unfolding destroy
destroy_in_flight m p b = ground arith

dispatch_in_flight :
    (m : MailTime) (t : Task) (u : Text)
    → has m.in_flight u ≡ true
    → has (dispatch_task m t).0.in_flight u ≡ true
unfolding dispatch_task
dispatch_in_flight m t u h = ground (arith, has-add_other m.in_flight t.uuid u h)

-- A letter whose job does not end stays in flight.
run_in_flight :
    (m : MailTime) (cs : List Call) (u : Text)
    → has m.in_flight u ≡ true
    → IsKept u cs
    → has (run m cs).in_flight u ≡ true
unfolding run answer finish_job
run_in_flight m [] u h kept = h
run_in_flight m (destroys p b ∷ cs) u h kept =
    run_in_flight (answer m (destroys p b)).0 cs u (rw (destroy_in_flight m p b) h) kept
run_in_flight m (pauses b ∷ cs) u h kept =
    run_in_flight (answer m (pauses b)).0 cs u (rw (same_in_flight m b).0 h) kept
run_in_flight m (resumes b ∷ cs) u h kept =
    run_in_flight (answer m (resumes b)).0 cs u (rw (same_in_flight m b).1 h) kept
run_in_flight m (dispatches t ∷ cs) u h kept =
    run_in_flight (answer m (dispatches t)).0 cs u (dispatch_in_flight m t u h) kept
run_in_flight m (finishes a ∷ cs) u h (ne, kept) =
    run_in_flight (answer m (finishes a)).0 cs u (has-remove_other a u m.in_flight ne h) kept

handed_over :
    (m : MailTime) (t : Task)
    → (dispatch_task m t).1 ≡ true
    → has (dispatch_task m t).0.in_flight t.uuid ≡ true
unfolding dispatch_task
handed_over m t e = ground (arith, e, has-add m.in_flight t.uuid t.uuid, text_eq_refl t.uuid)

held_back :
    (m : MailTime) (t : Task) → has m.in_flight t.uuid ≡ true → (dispatch_task m t).1 ≡ false
unfolding dispatch_task
held_back m t h = ground (arith, h)

goes_out :
    (m : MailTime) (t : Task)
    → m.is_destroyed ≡ false
    → has_ended t ≡ false
    → (dispatch_task (finish_job m t.uuid) t).1 ≡ true
unfolding dispatch_task finish_job
goes_out m t d e = rw (d, e, has-remove_self t.uuid m.in_flight) refl

-- A letter that was handed to the pool is, whatever calls follow, not handed to it a second time
-- before its job has ended, by any copy of its row; once the job has ended, it is, by an instance that is
-- not destroyed and from a copy that has not ended.
pub run_dispatches :
    (m : MailTime) (t t' : Task) (cs : List Call)
    → (dispatch_task m t).1 ≡ true
    → IsKept t'.uuid cs
    → t'.uuid ≡ t.uuid
    → let m' = run (dispatch_task m t).0 cs in
      ((dispatch_task m' t').1 ≡ false)
      × (m'.is_destroyed ≡ false
          → has_ended t' ≡ false
          → (dispatch_task (finish_job m' t'.uuid) t').1 ≡ true)
run_dispatches m t t' cs e kept same = (
  held_back _ t' (run_in_flight _ cs t'.uuid (rw same (handed_over m t e)) kept),
  λ d f. goes_out _ t' d f,
)

-- What stays of a destroyed instance.
answer_destroyed :
    (m : MailTime) (c : Call)
    → m.is_destroyed ≡ true
    → ((answer m c).0.is_destroyed ≡ true) × ((answer m c).0.abort_in_flight ≡ m.abort_in_flight)
unfolding answer destroy pause resume dispatch_task finish_job
answer_destroyed m (destroys p b) e = rw e (refl, refl)
answer_destroyed m (pauses none) e = (e, refl)
answer_destroyed m (pauses (some b)) e = rw e (refl, refl)
answer_destroyed m (resumes none) e = (e, refl)
answer_destroyed m (resumes (some b)) e = rw e (refl, refl)
answer_destroyed m (dispatches t) e = rw e (refl, refl)
answer_destroyed m (finishes u) e = (e, refl)

run_stays :
    (m : MailTime) (cs : List Call)
    → m.is_destroyed ≡ true
    → ((run m cs).is_destroyed ≡ true) × ((run m cs).abort_in_flight ≡ m.abort_in_flight)
unfolding run
run_stays m [] e = (e, refl)
run_stays m (d ∷ cs) e =
    let (still, same) = answer_destroyed m d e in
    let (e', same') = run_stays (answer m d).0 cs still in (e', same' ∙ same)

-- What a destroyed instance does not do any more.
abbrev pub IsSilent : MailTime → Type 0
IsSilent m =
    (scan m ≡ none)
    × ((t : Task) → dispatch_task m t ≡ (m, false))
    × (sends m ≡ false)
    × ((p b : Bool) → destroy m p b ≡ (m, false))
    × ((b : Option Bool) → (pause m b ≡ (m, false)) × (resume m b ≡ (m, false)))

destroyed-IsSilent : (m : MailTime) → m.is_destroyed ≡ true → IsSilent m
unfolding scan dispatch_task sends destroy pause resume
destroyed-IsSilent m e = (rw e refl, λ t. rw e refl, rw e refl, λ p b. rw e refl, λ b. quiet b)
  where
    quiet : (b : Option Bool) → (pause m b ≡ (m, false)) × (resume m b ≡ (m, false))
    quiet none = (refl, refl)
    quiet (some b) = (rw e refl, rw e refl)

-- `destroy` of an instance that is not destroyed succeeds, and neutralizes the sends in flight
-- unless it drains a pool. After it, whatever calls of `destroy`, `pause`, `resume` and `___dispatch`
-- and whatever ends of jobs follow, the instance scans nothing, hands no letter to the pool, starts
-- no `___send` in a job that waited, answers `false` to a further `destroy`, `pause` or `resume`, none
-- of which changes anything, and has not changed its mind on whether the sends in flight are
-- neutralized.
pub run_destroyed :
    (m : MailTime) (has_pool drain : Bool) (cs : List Call)
    → m.is_destroyed ≡ false
    → let m' = run (destroy m has_pool drain).0 cs in
      ((destroy m has_pool drain).1 ≡ true)
      × IsSilent m'
      × (m'.abort_in_flight ≡ (if drain && has_pool then m.abort_in_flight else true))
unfolding destroy
run_destroyed m has_pool drain cs e = elim (Bool-cases (drain && has_pool)) [
  | inl d ↦
      let m1 = record m { is_destroyed = true; is_paused = false } in
      let (e', same) = run_stays m1 cs refl in
      rw (e, d) (refl, destroyed-IsSilent (run m1 cs) e', same)
  | inr d ↦
      let m1 = record m { is_destroyed = true; is_paused = false; abort_in_flight = true } in
      let (e', same) = run_stays m1 cs refl in
      rw (e, d) (refl, destroyed-IsSilent (run m1 cs) e', same)
]
