-- ===== src/Tests/Table.antt =====
-- A table to run the tests over: a list of rows.
use mail_time.Prelude.{refl, List, [], ◌∷◌, ◌++◌, some, take}
use mail_time.Task.{Task}
use mail_time.Adapters.Rows.{find_all}
use mail_time.Adapters.Postgres.{Table}
use mail_time.Adapters.Postgres.Rows.{update_all, delete_all, count_all}
use mail_time.Adapters.Postgres.Effects.{Laws}

abbrev pub list_table : Table
list_table = record {
  Store = List Task;
  rows = λ s. s;
  select = λ s q order limit. some (take limit (find_all q s));
  upsert = λ s t. s ++ t ∷ [];
  update_where = λ s q f. (update_all q f s, some (count_all q s));
  delete_where = λ s q. (delete_all q s, some (count_all q s));
}

pub list_table-Laws : Laws list_table
list_table-Laws = record {
  update_where_lem = λ s q f. (refl, refl);
  delete_where_lem = λ s q. (refl, refl);
}
