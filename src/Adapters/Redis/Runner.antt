-- ===== src/Adapters/Redis/Runner.antt =====
-- adapters/redis.js, `__runScript`: a script is called by its hash, loaded if Redis does not know it,
-- and sent whole if that fails. How each call of the client ends is a parameter.
pub mod Once
use mail_time.Prelude.{◌≡◌, ◌≢◌, refl, Bool, true, false, ◌&&◌, if◌then◌else◌}
use mail_time.Queue.{Answer, returned, threw}

-- `no_script` is the error NOSCRIPT, `refused_call` another one of a script that did not run, and
-- `lost` one of a script that ran, such as a connection that broke before the reply.
pub data Outcome : Type 0 where
  answered no_script refused_call lost : Outcome

-- What the client can do, whether the hash is known as loaded, and how the four calls end.
pub record Calls : Type 0 where
  pub has_eval_sha : Bool
  pub has_script_load : Bool
  pub has_eval : Bool
  pub first_eval_sha : Outcome
  pub loads : Bool
  pub second_eval_sha : Outcome
  pub plain_eval : Outcome

module _ {S : Type 0} (script : S → S × Bool) (c : Calls) where
  -- `EVAL`; `loaded` is whether the hash is known as loaded afterwards.
  unfoldable pub eval_whole : S → Bool → S × Bool × Answer
  eval_whole s loaded =
      if c.has_eval
      then elim c.plain_eval [
        | answered ↦ ((script s).0, loaded, returned (script s).1)
        | lost ↦ ((script s).0, loaded, threw)
        | _ ↦ (s, loaded, threw)
      ]
      else (s, loaded, threw)

  unfoldable pub load_and_eval : S → Bool → S × Bool × Answer
  unfolding eval_whole
  load_and_eval s loaded =
      if c.has_script_load && c.has_eval_sha
      then (if c.loads
          then elim c.second_eval_sha [
            | answered ↦ ((script s).0, true, returned (script s).1)
            | lost ↦ eval_whole (script s).0 true
            | _ ↦ eval_whole s true
          ]
          else eval_whole s loaded)
      else eval_whole s loaded

  unfoldable pub run_script : S → Bool → S × Bool × Answer
  unfolding load_and_eval
  run_script s loaded =
      if loaded && c.has_eval_sha
      then elim c.first_eval_sha [
        | answered ↦ ((script s).0, true, returned (script s).1)
        | no_script ↦ load_and_eval s false
        | refused_call ↦ (s, true, threw)
        | lost ↦ ((script s).0, true, threw)
      ]
      else load_and_eval s loaded
