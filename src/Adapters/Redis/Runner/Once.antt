-- ===== src/Adapters/Redis/Runner/Once.antt =====
-- How often a script runs that adapters/redis.js calls.
use mail_time.Prelude.{◌≡◌, ◌≢◌, refl, ◌⊎◌, inl, inr, Bool, true, false, ◌&&◌, Bool-cases}
use mail_time.Queue.{Answer, returned, threw}
use mail_time.Adapters.Redis.Runner.{
  Outcome, answered, no_script, refused_call, lost, Calls, eval_whole, load_and_eval, run_script,
}

-- The script has run once and this is its answer, or the call has thrown and it has run once or not
-- at all.
abbrev pub IsAtMostOnce : {S : Type 0} → (S → S × Bool) → S → S × Bool × Answer → Type 0
IsAtMostOnce script s (s', loaded, returned b) = (s', b) ≡ script s
IsAtMostOnce script s (s', loaded, threw) = (s' ≡ s) ⊎ (s' ≡ (script s).0)

module _ {S : Type 0} (script : S → S × Bool) (c : Calls) where
  eval_whole_once :
      (s : S) (loaded : Bool) (o : Outcome)
      → c.plain_eval ≡ o
      → IsAtMostOnce script s (eval_whole script c s loaded)
  unfolding eval_whole
  eval_whole_once s loaded o f = elim (Bool-cases c.has_eval) [
    | inr e ↦ rw e (inl refl)
    | inl e ↦ rw (e, f) (ends o)
  ]
    where
      ends :
          (p : Outcome)
          → IsAtMostOnce script s (elim p [
            | answered ↦ ((script s).0, loaded, returned (script s).1)
            | lost ↦ ((script s).0, loaded, threw)
            | _ ↦ (s, loaded, threw)
          ])
      ends answered = refl
      ends lost = inr refl
      ends no_script = inl refl
      ends refused_call = inl refl

  load_and_eval_once :
      (s : S) (loaded : Bool) (o : Outcome)
      → c.second_eval_sha ≡ o
      → o ≢ lost
      → IsAtMostOnce script s (load_and_eval script c s loaded)
  unfolding load_and_eval
  load_and_eval_once s loaded o f ne = elim (Bool-cases (c.has_script_load && c.has_eval_sha)) [
    | inr e ↦ rw e (eval_whole_once s loaded _ refl)
    | inl e ↦ elim (Bool-cases c.loads) [
      | inr l ↦ rw (e, l) (eval_whole_once s loaded _ refl)
      | inl l ↦ rw (e, l, f) (ends o ne)
    ]
  ]
    where
      ends :
          (p : Outcome)
          → p ≢ lost
          → IsAtMostOnce script s (elim p [
            | answered ↦ ((script s).0, true, returned (script s).1)
            | lost ↦ eval_whole script c (script s).0 true
            | _ ↦ eval_whole script c s true
          ])
      ends answered ne' = refl
      ends lost ne' = absurd (ne' refl)
      ends no_script ne' = eval_whole_once s true _ refl
      ends refused_call ne' = eval_whole_once s true _ refl

  -- However the calls of the client end, a lost reply of the first EVALSHA and of EVAL included, but
  -- for a lost reply of the EVALSHA that follows SCRIPT LOAD: `__runScript` either gives the answer of
  -- the script, which has run once, or throws, and the script has run once or not at all.
  pub run_script_once :
      (s : S) (loaded : Bool)
      → c.second_eval_sha ≢ lost
      → IsAtMostOnce script s (run_script script c s loaded)
  unfolding run_script
  run_script_once s loaded ne = elim (Bool-cases (loaded && c.has_eval_sha)) [
    | inr e ↦ rw e (load_and_eval_once s loaded _ refl ne)
    | inl e ↦ rw e (ends c.first_eval_sha)
  ]
    where
      ends :
          (p : Outcome)
          → IsAtMostOnce script s (elim p [
            | answered ↦ ((script s).0, true, returned (script s).1)
            | no_script ↦ load_and_eval script c s false
            | refused_call ↦ (s, true, threw)
            | lost ↦ ((script s).0, true, threw)
          ])
      ends answered = refl
      ends no_script = load_and_eval_once s false _ refl ne
      ends refused_call = inl refl
      ends lost = inr refl

-- No reply of a script that ran is lost.
abbrev pub is_lost : Outcome → Bool
is_lost lost = true
is_lost o = false

replied :
    (o : Outcome) → is_lost o ≡ false → (o ≡ answered) ⊎ ((o ≡ no_script) ⊎ (o ≡ refused_call))
replied answered h = inl refl
replied no_script h = inr (inl refl)
replied refused_call h = inr (inr refl)
replied lost h = cc

abbrev pub Replies : Calls → Type 0
Replies c =
    (is_lost c.first_eval_sha ≡ false)
    × (is_lost c.second_eval_sha ≡ false)
    × (is_lost c.plain_eval ≡ false)

abbrev pub Once : {S : Type 0} → (S → S × Bool) → S → S × Bool × Answer → Type 0
Once script s (s', loaded, returned b) = (s', b) ≡ script s
Once script s (s', loaded, threw) = s' ≡ s

module _ {S : Type 0} (script : S → S × Bool) (c : Calls) (replies : Replies c) where
  eval_whole-Once : (s : S) (loaded : Bool) → Once script s (eval_whole script c s loaded)
  unfolding eval_whole
  eval_whole-Once s loaded = elim (Bool-cases c.has_eval) [
    | inr e ↦ rw e refl
    | inl e ↦ elim (replied c.plain_eval replies.2) [
      | inl f ↦ rw (e, f) refl
      | inr (inl f) ↦ rw (e, f) refl
      | inr (inr f) ↦ rw (e, f) refl
    ]
  ]

  load_and_eval-Once : (s : S) (loaded : Bool) → Once script s (load_and_eval script c s loaded)
  unfolding load_and_eval
  load_and_eval-Once s loaded = elim (Bool-cases (c.has_script_load && c.has_eval_sha)) [
    | inr e ↦ rw e (eval_whole-Once s loaded)
    | inl e ↦ elim (Bool-cases c.loads) [
      | inr l ↦ rw (e, l) (eval_whole-Once s loaded)
      | inl l ↦ elim (replied c.second_eval_sha replies.1) [
        | inl f ↦ rw (e, l, f) refl
        | inr (inl f) ↦ rw (e, l, f) (eval_whole-Once s true)
        | inr (inr f) ↦ rw (e, l, f) (eval_whole-Once s true)
      ]
    ]
  ]

  -- With no reply lost at all, which the contract of the queue builds on: `__runScript`
  -- either throws and the script has not run, or it gives the answer of the script, which has run
  -- once.
  pub run_script-Once : (s : S) (loaded : Bool) → Once script s (run_script script c s loaded)
  unfolding run_script
  run_script-Once s loaded = elim (Bool-cases (loaded && c.has_eval_sha)) [
    | inr e ↦ rw e (load_and_eval-Once s loaded)
    | inl e ↦ elim (replied c.first_eval_sha replies.0) [
      | inl f ↦ rw (e, f) refl
      | inr (inl f) ↦ rw (e, f) (load_and_eval-Once s false)
      | inr (inr f) ↦ rw (e, f) refl
    ]
  ]
