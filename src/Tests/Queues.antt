-- ===== src/Tests/Queues.antt =====
-- The other adapters, the life of an instance and the concatenation at concrete inputs.
use mail_time.Prelude.{◌≡◌, refl, true, false, List, [], ◌∷◌, none, some}
use mail_time.Queue.{Conforms, Reports}
use mail_time.Adapters.Rows.{IsUnique}
use mail_time.Adapters.Postgres.Contract.{table_queue, table_queue-Conforms}
use mail_time.MailTime.Send.{has_ended}
use mail_time.Js.Text.{has}
use mail_time.MailTime.Lifecycle.{
  Call, dispatches, pauses, resumes, run, destroy, dispatch_task, finish_job,
}
use mail_time.MailTime.Lifecycle.Runs.{run_dispatches, run_destroyed, IsSilent}
use mail_time.Adapters.Postgres.{or_null, address_column}
use mail_time.Adapters.Postgres.Columns.{normalize_row, columns, items_of, normalize_row-columns}
use mail_time.Js.Text.{lit}
use mail_time.Js.Value.{num, str, arr, end}
use mail_time.Prelude.{inl, inr}
use mail_time.Tests.Table.{list_table, list_table-Laws}
use mail_time.Tests.Samples.{mailer, letter, settings}

table_queue-Conforms_example :
    Conforms (table_queue list_table settings) (λ s. IsUnique s)
    × Reports (table_queue list_table settings) (λ s. IsUnique s)
table_queue-Conforms_example = table_queue-Conforms list_table list_table-Laws settings

abbrev between : List Call
between = pauses (some true) ∷ dispatches letter ∷ resumes none ∷ []

handed : (dispatch_task mailer letter).1 ≡ true
unfolding dispatch_task has
handed = refl

run_dispatches_example :
    let m' = run (dispatch_task mailer letter).0 between in
    ((dispatch_task m' letter).1 ≡ false)
    × (m'.is_destroyed ≡ false
        → has_ended letter ≡ false
        → (dispatch_task (finish_job m' letter.uuid) letter).1 ≡ true)
run_dispatches_example = run_dispatches mailer letter letter between handed tt refl

run_destroyed_example :
    let m' = run (destroy mailer true false).0 between in
    ((destroy mailer true false).1 ≡ true) × IsSilent m' × (m'.abort_in_flight ≡ true)
run_destroyed_example = run_destroyed mailer true false between refl

-- The `send_at` of the letter as a text, and its mail options without what JSON leaves out.
normalize_row-columns_example :
    normalize_row
      (λ s. none)
      (columns letter (num 1) (str (lit "5")) (num 0) (arr (items_of (end ∷ []))))
    ≡ some (record letter {
      to = address_column letter.to;
      template = or_null letter.template;
      concat_subject = or_null letter.concat_subject;
      mail_options = end ∷ [];
    })
normalize_row-columns_example =
    normalize_row-columns (λ s. none) letter (num 1) (str (lit "5")) (num 0)
      (arr (items_of (end ∷ []))) (end ∷ []) (inl refl) (inr (b'5', [], refl, refl, refl))
      (inl refl) refl
