-- ===== src/Adapters/Mongo/Guards.antt =====
-- The queries of the adapter are the guards of the queue's contract.
use mail_time.Prelude.{
  ℕ, ◌≡◌, fun_ext, ◌∙◌, sym, inl, inr, Bool, true, false, [], ◌∷◌, ◌++◌, Option, none, some, arith,
}
use mail_time.Task.{Task, Update, Lease, MailOption, assign, strip_internal_update_meta}
use mail_time.Queue.{
  Answer, returned, threw, Effect, update_guard, updated, append_guard, lease_guard,
}
use mail_time.Adapters.Mongo.Driver.{Collection}
use mail_time.Adapters.Mongo.Methods.{
  Instance, timeout_of, update, append, set, lease_query, append_query, set_query,
}

pub Effect-congr :
    (g h : Task → Bool) (f : Task → Option Task) (b a : Option Task) (ans : Answer)
    → ((c : Task) → g c ≡ h c)
    → Effect g f b a ans
    → Effect h f b a ans
Effect-congr g h f b a (returned true) e (c, found, y, after) = (c, found, sym (e c) ∙ y, after)
Effect-congr g h f b a (returned false) e r = r
Effect-congr g h f b a threw e (inl r) = inl r
Effect-congr g h f b a threw e (inr (c, found, y, after)) = inr (c, found, sym (e c) ∙ y, after)

pub append_query_lem : (r : Task) → append_query r ≡ append_guard r
unfolding append_query
append_query_lem r = ground arith

pub lease_query_lem : (l : Lease) (r : Task) → lease_query l r ≡ lease_guard l r
unfolding lease_query
lease_query_lem l r = ground arith

module _ (c : Collection) (m : Instance) where
  pub set_query_lem :
      (now : ℕ) (t : Task) (u : Update)
      → u.append_mail_option ≡ none
      → (r : Task) → set_query c m now t u r ≡ update_guard now (timeout_of m) t u r
  unfolding set_query
  set_query_lem now t u e r = ground arith

  pub append_guard_lem :
      (now : ℕ) (t : Task) (u : Update) (mo : MailOption)
      → u.append_mail_option ≡ some mo
      → (r : Task) → append_query r ≡ update_guard now (timeout_of m) t u r
  unfolding append_query
  append_guard_lem now t u mo e r = ground arith

  pub update_none :
      (now : ℕ) (s : c.Store) (t : Task) (u : Update)
      → u.append_mail_option ≡ none
      → update c m now s t u ≡ set c m now s t u
  unfolding update
  update_none now s t u e = ground arith

  pub update_some :
      (now : ℕ) (s : c.Store) (t : Task) (u : Update) (mo : MailOption)
      → u.append_mail_option ≡ some mo
      → update c m now s t u ≡ append c m s t mo
  unfolding update
  update_some now s t u mo e = ground arith

pub updated-none :
    (u : Update)
    → u.append_mail_option ≡ none
    → updated u ≡ (λ r. assign r (strip_internal_update_meta u))
updated-none u e = fun_ext (λ r. ground arith)

pub updated-some :
    (u : Update) (mo : MailOption)
    → u.append_mail_option ≡ some mo
    → updated u ≡ (λ r. record r { mail_options = r.mail_options ++ mo ∷ [] })
updated-some u mo e = fun_ext (λ r. ground arith)
