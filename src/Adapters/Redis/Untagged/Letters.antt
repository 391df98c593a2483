-- ===== src/Adapters/Redis/Untagged/Letters.antt =====
-- adapters/redis.js without hash tags: adding a letter, looking for one to join, the scan, cancelling.
use mail_time.Prelude.{
  ℕ, ◌-◌, Bool, true, false, ◌||◌, List, [], ◌∷◌, Option, none, some, ltb, leb, ◌==◌, if◌then◌else◌,
}
use mail_time.Js.Text.{Text, is_empty}
use mail_time.Js.Value.{Value, str}
use mail_time.Task.{Task, no_update}
use mail_time.Queue.{Answer, returned, threw}
use mail_time.Adapters.Redis.{is_iterate_candidate}
use mail_time.Adapters.Mongo.{Instance}
use mail_time.Adapters.Redis.Keys.{KeyType, sendat, get_key, parse_uuid_from_key}
use mail_time.Adapters.Redis.Client.{Client, Op, Reply, done, stamp, pointer, deletes, failed}
use mail_time.Adapters.Redis.Transaction.{letter_of}
use mail_time.Adapters.Redis.Untagged.{is_closed, concat_key, pushed_keys, update, remove}

module _ (show : Value → Text) (unique_name : Text) (c : Client) where
  abbrev pub is_failed : Reply → Bool
  is_failed failed = true
  is_failed _ = false

  -- One write after the other; `meanwhile` is what the other processes do between two of them. An
  -- exception ends it.
  unfoldable pub write_each : (c.Store → c.Store) → c.Store → List Op → c.Store × Reply
  write_each meanwhile s [] = (s, done)
  write_each meanwhile s (op ∷ ops) =
      let (s', reply) = c.write s (op ∷ []) in
      let rest = write_each meanwhile (meanwhile s') ops in
      if is_failed reply then (s', failed) else rest

  -- A client without `multi` writes the keys one by one.
  unfoldable pub push : Bool → (c.Store → c.Store) → c.Store → Task → c.Store × Reply
  unfolding pushed_keys write_each
  push has_multi meanwhile s t =
      if has_multi
      then c.write s (pushed_keys show unique_name t)
      else write_each meanwhile s (pushed_keys show unique_name t)

  unfoldable pub get_pending_to : Instance → c.Store → Value → ℕ → Option (Option Task)
  get_pending_to m s (str to) send_at = elim (c.get s (concat_key show unique_name (str to))) [
    | none ↦ none
    | some (some (pointer uuid)) ↦
        if is_empty uuid
        then some none
        else elim (c.get s (get_key unique_name KeyType.letter uuid)) [
          | none ↦ none
          | some o ↦ elim (letter_of o) [
            | none ↦ some none
            | some r ↦
                if is_closed r
                  || (ltb send_at r.send_at || (r.is_sending || leb m.max_tries r.tries))
                then some none
                else some (some r)
          ]
        ]
    | some o ↦ some none
  ]
  get_pending_to m s _ send_at = some none

  -- The letter of one key of the scan, if it is to be dispatched; `none` is an exception.
  unfoldable pub candidate : ℕ → ℕ → ℕ → c.Store → Text → Option (Option Task)
  candidate now timeout max_tries s key = elim (c.get s key) [
    | none ↦ none
    | some (some (stamp at)) ↦
        if ltb now at then some none else elim (parse_uuid_from_key key unique_name) [
          | none ↦ some none
          | some uuid ↦
              if is_empty uuid
              then some none
              else elim (c.get s (get_key unique_name KeyType.letter uuid)) [
                | none ↦ none
                | some o ↦ elim (letter_of o) [
                  | none ↦ some none
                  | some r ↦
                      if is_iterate_candidate (some r) now timeout max_tries
                      then some (some r)
                      else some none
                ]
              ]
        ]
    | some o ↦ some none
  ]

  -- The letters that a scan dispatches, of the keys that it comes by, each with the store at its
  -- turn; `left` is how many it may still dispatch, `none` for no limit. An exception ends it.
  unfoldable pub scan_keys : ℕ → ℕ → ℕ → Option ℕ → List (Text × c.Store) → List Task
  unfolding candidate
  scan_keys now timeout max_tries left [] = []
  scan_keys now timeout max_tries none ((key, s) ∷ keys) =
      elim (candidate now timeout max_tries s key) [
        | none ↦ []
        | some none ↦ scan_keys now timeout max_tries none keys
        | some (some r) ↦ r ∷ scan_keys now timeout max_tries none keys
      ]
  scan_keys now timeout max_tries (some n) ((key, s) ∷ keys) =
      let rest = scan_keys now timeout max_tries (some (n - 1)) keys in
      elim (candidate now timeout max_tries s key) [
        | none ↦ []
        | some none ↦ scan_keys now timeout max_tries (some n) keys
        | some (some r) ↦ if leb n 1 then r ∷ [] else r ∷ rest
      ]

  -- A limit that is not a positive number is `none`.
  unfoldable pub iterate : Instance → ℕ → Option ℕ → ℕ → List (Text × c.Store) → List Task
  unfolding scan_keys
  iterate m now limit sending_timeout keys =
      let timeout = if sending_timeout == 0 then 300000 else sending_timeout in
      scan_keys now timeout m.max_tries limit keys

  -- The key leaves the schedule before the letter is looked at.
  unfoldable pub cancel :
      Instance → ℕ → c.Store → (c.Store → c.Store) → (c.Store → c.Store) → Text → c.Store × Answer
  unfolding update remove
  cancel m now s meanwhile later uuid =
      let (s', reply) = c.write s (deletes (get_key unique_name sendat uuid) ∷ []) in
      elim reply [
        | failed ↦ (s', threw)
        | _ ↦ elim (c.get s' (get_key unique_name KeyType.letter uuid)) [
          | none ↦ (s', threw)
          | some o ↦ elim (letter_of o) [
            | none ↦ (s', returned false)
            | some t ↦
                if t.is_sent || t.is_cancelled
                then (s', returned false)
                else if m.keep_history
                then (let (s'', b) =
                      update show unique_name c m now s' meanwhile later t
                        (record no_update { is_cancelled = some true }) in
                    (s'', returned b))
                else remove show unique_name c s' meanwhile t none
          ]
        ]
      ]
