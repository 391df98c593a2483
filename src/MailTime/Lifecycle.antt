-- ===== src/MailTime/Lifecycle.antt =====
-- index.js, the life of an instance: `destroy`, `pause`, `resume`, `___dispatch` and `___iterate`,
-- without the waiting. `scheduler` is what the scheduler's method of the same name answered, and
-- `none` where there is no scheduler.
pub mod Runs
use mail_time.Prelude.{
  ℕ, ◌≡◌, ◌≢◌, refl, Bool, true, false, not, ◌&&◌, ◌||◌, List, [], ◌∷◌, ◌++◌, Option, none, some,
  arith, if◌then◌else◌, Bool-cases, filter,
}
use mail_time.Js.Text.{Text, has, add, text_eq, text_eq_iff, text_eq_refl, has-add}
use mail_time.Task.{Task}
use mail_time.MailTime.State.{MailTime, Mode, one, batch}
use mail_time.MailTime.Send.{has_ended}

-- A drain leaves the sends in flight to run to their end; without one they are neutralized.
unfoldable pub destroy : MailTime → Bool → Bool → MailTime × Bool
destroy m has_pool drain =
    if m.is_destroyed
    then (m, false)
    else if drain && has_pool
    then (record m { is_destroyed = true; is_paused = false }, true)
    else (record m { is_destroyed = true; is_paused = false; abort_in_flight = true }, true)

unfoldable pub pause : MailTime → Option Bool → MailTime × Bool
pause m none = (m, false)
pause m (some paused) =
    if m.is_destroyed
    then (m, false)
    else ((if paused then record m { is_paused = true } else m), paused)

unfoldable pub resume : MailTime → Option Bool → MailTime × Bool
resume m none = (m, false)
resume m (some resumed) =
    if m.is_destroyed
    then (m, false)
    else ((if resumed then record m { is_paused = false } else m), resumed)

-- Whether the letter was handed to the pool.
unfoldable pub dispatch_task : MailTime → Task → MailTime × Bool
dispatch_task m t =
    if m.is_destroyed
    then (m, false)
    else if has_ended t
    then (m, false)
    else if has m.in_flight t.uuid
    then (m, false)
    else (record m { in_flight = add m.in_flight t.uuid }, true)

-- The pool's job: whether it goes on to `___send`, and its end.
unfoldable pub sends : MailTime → Bool
sends m = not m.is_destroyed

unfoldable pub remove_text : Text → List Text → List Text
remove_text a [] = []
remove_text a (x ∷ xs) = let rest = remove_text a xs in if text_eq x a then rest else x ∷ rest

unfoldable pub finish_job : MailTime → Text → MailTime
finish_job m uuid = record m { in_flight = remove_text uuid m.in_flight }

-- The limit of a scan, `none` for no limit; or no scan.
unfoldable pub scan : MailTime → Option (Option ℕ)
scan m =
    if m.is_destroyed || m.is_paused
    then none
    else some (elim m.mode [ one ↦ some 1 | batch ↦ none ])

-- The calls that an instance takes in its life, and the end of a job of the pool. The Boolean of a
-- dispatch is whether the letter was handed over; the end of a job answers nothing, here `false`.
pub data Call : Type 0 where
  destroys : Bool → Bool → Call
  pauses : Option Bool → Call
  resumes : Option Bool → Call
  dispatches : Task → Call
  finishes : Text → Call

unfoldable pub answer : MailTime → Call → MailTime × Bool
answer m (destroys has_pool drain) = destroy m has_pool drain
answer m (pauses b) = pause m b
answer m (resumes b) = resume m b
answer m (dispatches t) = dispatch_task m t
answer m (finishes uuid) = (finish_job m uuid, false)

unfoldable pub run : MailTime → List Call → MailTime
run m [] = m
run m (c ∷ cs) = run (answer m c).0 cs

-- No call ends the job of the letter.
abbrev pub IsKept : Text → List Call → Type 0
IsKept uuid [] = Unit {0}
IsKept uuid (finishes u ∷ cs) = (text_eq u uuid ≡ false) × IsKept uuid cs
IsKept uuid (c ∷ cs) = IsKept uuid cs
