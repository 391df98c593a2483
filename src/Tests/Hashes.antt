-- ===== src/Tests/Hashes.antt =====
-- A Redis to run the tests of the scripts over, with one letter due, and the theorems on them at
-- concrete inputs.
use mail_time.Prelude.{
  ℕ, ◌+◌, ◌≤◌, ◌≡◌, refl, Bool, true, [], ◌∷◌, Option, none, some, arith, map, length,
  if◌then◌else◌,
}
use mail_time.Js.Text.{Text, lit, text_eq}
use mail_time.Task.{Task, Lease, Update, no_update}
use mail_time.Queue.{Conforms}
use mail_time.Adapters.Redis.Commands.{Redis, Laws, letter_after, score_after, after_all}
use mail_time.Adapters.Redis.Runner.{Calls, answered, no_script, lost, run_script}
use mail_time.Adapters.Redis.Runner.Once.{IsAtMostOnce, run_script_once}
use mail_time.Adapters.Redis.Scan.{candidates, iterate_script}
use mail_time.Adapters.Redis.Scan.Candidates.{all_pickable, iterate_script-candidates}
use mail_time.Adapters.Redis.Tagged.Contract.{tagged_queue, tagged_queue-Conforms}
use mail_time.Task.{assign}
use mail_time.Adapters.Redis.Scripts.{claim_mode, refuses, update_letter, update_script}
use mail_time.Adapters.Redis.Scripts.Schedule.{place, update_script-place}
use mail_time.Tests.Samples.{letter, settings}

pub record Hashes : Type 0 where
  pub letters : Text → Option Task
  pub scores : Text → Option ℕ

abbrev pub hashes : Redis
hashes = record {
  Store = Hashes;
  letter = λ s k. s.letters k;
  score = λ s k. s.scores k;
  pointer = λ s k. none;
  run = λ s cs. record {
    letters = λ k. after_all (letter_after k) cs (s.letters k);
    scores = λ k. after_all (score_after k) cs (s.scores k);
  };
  due = λ s now limit. lit "u1" ∷ [];
  due_pointers = λ s now limit. [];
}

pub hashes-Laws : Laws hashes
hashes-Laws = record { letter_lem = λ s cs k. refl; score_lem = λ s cs k. refl }

abbrev one_letter : Hashes
one_letter = record {
  letters = λ k. if text_eq (lit "u1") k then some letter else none;
  scores = λ k. if text_eq (lit "u1") k then some 5 else none;
}

-- Redis has forgotten the script, which is then loaded again.
abbrev forgotten : Calls
forgotten = record {
  has_eval_sha = true;
  has_script_load = true;
  has_eval = true;
  first_eval_sha = no_script;
  loads = true;
  second_eval_sha = answered;
  plain_eval = answered;
}

abbrev claiming : Update
claiming = record no_update { is_sending = some true; tries = some 1; sending_at = some 10 }

abbrev unchanged : Task → Task
unchanged t = t

-- The connection breaks after the first EVALSHA has run.
abbrev broken_off : Calls
broken_off = record forgotten { first_eval_sha = lost }

abbrev count_up : ℕ → ℕ × Bool
count_up n = (n + 1, true)

run_script_once_example : IsAtMostOnce count_up 3 (run_script count_up broken_off 3 true)
run_script_once_example = run_script_once count_up broken_off 3 true (λ e. cc)

tagged_queue-Conforms_example :
    Conforms
      (tagged_queue (λ v. []) (lit "q") unchanged hashes settings (λ n. (forgotten, true)))
      (λ s. Unit {0})
tagged_queue-Conforms_example =
    tagged_queue-Conforms (λ v. []) (lit "q") unchanged hashes hashes-Laws settings (λ t. refl)
      (λ n. (forgotten, true)) (λ n. (refl, refl, refl))

abbrev a_lease : Lease
a_lease = record { lease_tries = 1; lease_sending_at = 10 }

iterate_script-candidates_example :
    (candidates unchanged 10 300 3 (iterate_script hashes 10 3 300 2 100 one_letter).1
      ≡ map unchanged (iterate_script hashes 10 3 300 2 100 one_letter).1)
    × (all_pickable 10 300 3 (iterate_script hashes 10 3 300 2 100 one_letter).1 ≡ true)
    × (length (iterate_script hashes 10 3 300 2 100 one_letter).1 ≤ 2)
iterate_script-candidates_example =
    iterate_script-candidates unchanged hashes 10 3 300 2 100 one_letter (λ t. refl) (omega arith)

claimed_by_script :
    (update_script unchanged hashes (lit "u1") claiming claim_mode 10 300 0 0 none one_letter).1
    ≡ true
unfolding update_script update_letter refuses text_eq
claimed_by_script = refl

update_script-place_example :
    (t : Task) × (one_letter.letters (lit "u1") ≡ some t)
    × ((update_script unchanged hashes
            (lit "u1")
            claiming
            claim_mode
            10
            300
            0
            0
            none
            one_letter).0.scores
          (lit "u1")
        ≡ place 300 (assign t claiming))
update_script-place_example =
    update_script-place unchanged hashes hashes-Laws (lit "u1") claiming claim_mode 10 300 0 0 none
      one_letter claimed_by_script
