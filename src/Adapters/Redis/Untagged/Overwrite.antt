-- ===== src/Adapters/Redis/Untagged/Overwrite.antt =====
-- An update of adapters/redis.js without hash tags that is neither a claim, nor under a lease, nor
-- an added letter: a plain read and plain writes.
use mail_time.Prelude.{
  ◌≡◌, refl, sym, ap, ◌∙◌, inl, inr, true, false, List, [], ◌∷◌, Option, none, some, if◌then◌else◌,
  Bool-cases,
}
use mail_time.Js.Value.{Value}
use mail_time.Adapters.Redis.Untagged.Updates.{
  after_ops-schedule_ops_other, text_eq_swap, keys_apart,
}
use mail_time.Js.Text.{Text, text_eq_refl}
use mail_time.Task.{Task, Update, assign, strip_internal_update_meta}
use mail_time.Adapters.Redis.Client.{
  Client, Laws, Cell, Op, sets, Reply, done, null_reply, failed, WriteResult, Applied,
}
use mail_time.Adapters.Redis.Transaction.{read, is_done, write_any}
use mail_time.Adapters.Redis.Transaction.Atomic.{read_found}
use mail_time.Adapters.Redis.Untagged.{
  letter_key, sendat_key, schedule_ops, overwrite_letter, overwrite,
}

module _ (c : Client) (laws : Laws c) where
  -- A write that answers has been carried out.
  pub written :
      (s : c.Store) (ops : List Op)
      → is_done (c.write s ops).1 ≡ true
      → Applied c ops s (c.write s ops).0
  written s ops d = finished (c.write s ops).1 d (laws.write_lem s ops)
    where
      finished :
          (reply : Reply)
          → is_done reply ≡ true
          → WriteResult c ops s (c.write s ops).0 reply
          → Applied c ops s (c.write s ops).0
      finished done d' result = result
      finished null_reply d' result = cc
      finished failed d' result = cc

  write_any-Applied :
      (s : c.Store) (ops : List Op)
      → (write_any c s ops).1 ≡ true
      → Applied c ops s (write_any c s ops).0
  unfolding write_any
  write_any-Applied s [] d k = refl
  write_any-Applied s (op ∷ ops) d k = written s (op ∷ ops) d k

  overwritten :
      (show : Value → Text) (unique_name : Text) (s : c.Store) (meanwhile later : c.Store → c.Store)
      (t : Task) (u : Update) (o : Option Task)
      → ((x : c.Store)
          → c.look (later x) (letter_key unique_name t) ≡ c.look x (letter_key unique_name t))
      → (overwrite_letter show unique_name c s meanwhile later t u o).1 ≡ true
      → (r : Task) × (o ≡ some r)
        × (c.look
              (overwrite_letter show unique_name c s meanwhile later t u o).0
              (letter_key unique_name t)
            ≡ some (Cell.letter (assign r (strip_internal_update_meta u))))
  unfolding overwrite_letter
  overwritten show unique_name s meanwhile later t u none keeps h = cc
  overwritten show unique_name s meanwhile later t u (some r) keeps h =
      let key = letter_key unique_name t in
      let r' = assign r (strip_internal_update_meta u) in
      let one = sets key (Cell.letter r') ∷ [] in
      let s' = (c.write (meanwhile s) one).0 in
      elim (Bool-cases (is_done (c.write (meanwhile s) one).1)) [
        | inl d ↦ (
          r,
          refl,
          ap
                (λ b.
                  c.look
                    (if b
                      then write_any c (later s') (schedule_ops (sendat_key unique_name t) r')
                      else (s', false)).0
                    key)
                d
              ∙ write_any-Applied (later s') (schedule_ops (sendat_key unique_name t) r')
                  (sym (
                      ap
                        (λ b.
                          (if b
                            then write_any c (later s') (schedule_ops (sendat_key unique_name t) r')
                            else (s', false)).1)
                        d)
                    ∙ h)
                  key
              ∙ after_ops-schedule_ops_other (c.clock (later s')) key (sendat_key unique_name t) r'
                  _ (text_eq_swap _ _ (keys_apart unique_name t))
              ∙ keeps s'
              ∙ written (meanwhile s) one d key
              ∙ ap (λ b. if b then some (Cell.letter r') else c.look (meanwhile s) key)
                  (text_eq_refl key),
        )
        | inr d ↦
            let bad : true ≡ false =
              sym h
              ∙ ap
                  (λ b.
                    (if b
                      then write_any c (later s') (schedule_ops (sendat_key unique_name t) r')
                      else (s', false)).1)
                  d in
            cc
      ]

-- A plain update without hash tags (neither a claim, nor under a lease, nor an added letter) that
-- answers `true` leaves the update assigned to the letter that it READ, whatever the other
-- processes did between that read and the write, if the letter's key is not touched between its two
-- writes.
pub overwrite-assign :
    (show : Value → Text) (unique_name : Text) (c : Client) (laws : Laws c) (s : c.Store)
    (meanwhile later : c.Store → c.Store) (t : Task) (u : Update)
    → ((x : c.Store)
        → c.look (later x) (letter_key unique_name t) ≡ c.look x (letter_key unique_name t))
    → (overwrite show unique_name c s meanwhile later t u).1 ≡ true
    → (r : Task) × (c.look s (letter_key unique_name t) ≡ some (Cell.letter r))
      × (c.look (overwrite show unique_name c s meanwhile later t u).0 (letter_key unique_name t)
          ≡ some (Cell.letter (assign r (strip_internal_update_meta u))))
unfolding overwrite
overwrite-assign show unique_name c laws s meanwhile later t u keeps h =
    let key = letter_key unique_name t in
    let (r, found, holds) =
      overwritten c laws show unique_name s meanwhile later t u (read c s key) keeps h in
    (r, read_found c laws s key r found, holds)
