-- ===== src/System/Attempts.antt =====
-- How many attempts the workers of a letter make, given what they may claim.
use mail_time.Prelude.{
  ℕ, ◌+◌, ◌<◌, ◌≤◌, ◌≡◌, refl, sym, ap, ◌∙◌, Option, none, some, arith, if◌then◌else◌,
}
use mail_time.Js.Text.{Text}
use mail_time.Js.Value.{Value}
use mail_time.Task.{Task, is_some}
use mail_time.Queue.{Queue, Conforms}
use mail_time.MailTime.State.{MailTime}
use mail_time.MailTime.Send.{claim}
use mail_time.MailTime.Send.Phase.{IsAt}
use mail_time.MailTime.Send.Claim.{claim_won}
use mail_time.System.{
  System, Step, Reach, claims, chooses, renews, ends, removes, cancels, appends, others, start,
  later,
}
use mail_time.System.Safety.{Inv}
use mail_time.System.Steps.{Reach-Inv, look-IsAt, guarded}

module _ (show : Value → Text) (q : Queue) (IsSound : q.Store → Type 0) (c : Conforms q IsSound)
    (m : ℕ → MailTime) (key : q.Key) (Picks : Task → Type 0) where
  abbrev Good : System q → Type 0
  Good x = Inv q IsSound key x

  at : (x : System q) (t : Task) → Good x → q.key t ≡ key → IsAt q x.store (q.key t)
  at x t v k = look-IsAt show q IsSound c m key x t v k

  -- Where only snapshots with tries left are given to the workers, a claim that is won leaves the
  -- attempts within the bound.
  claim_bounded :
      (x : System q) (i now max_tries : ℕ) (t : Task)
      → Good x
      → q.key t ≡ key
      → t.tries < max_tries
      → (o : Option Task) → (claim q (m i) now x.store t).1 ≡ o
      → x.attempts ≤ max_tries
      → (if is_some o then x.attempts + 1 else x.attempts) ≤ max_tries
  claim_bounded x i now max_tries t v k lt none e le = le
  claim_bounded x i now max_tries t v k lt (some held) e le =
      let (r, found, guard, after, copy) =
        claim_won q IsSound c (m i) now x.store t held v.sound (at x t v k).1 e in
      let g = guarded now q.timeout t.tries r guard in
      let found' : q.look x.store key ≡ some r = ap (q.look x.store) (sym k) ∙ found in
      omega (arith, v.counted r found', g.1, lt)

  pub Reach-bounded :
      (max_tries : ℕ)
      → ((t : Task) → Picks t → t.tries < max_tries)
      → (x : System q) → Reach show q IsSound m key Picks x
      → x.attempts ≤ max_tries
  Reach-bounded max_tries within x (start s sound there) = omega arith
  Reach-bounded max_tries within y (later {x = x} reach step) =
      steps x y step (Reach-Inv show q IsSound c m key Picks x reach)
        (Reach-bounded max_tries within x reach)
    where
      steps :
          (x' y' : System q)
          → Step show q IsSound m key Picks x' y'
          → Good x'
          → x'.attempts ≤ max_tries
          → y'.attempts ≤ max_tries
      steps x' y' (claims i now t idle k p) v le =
          claim_bounded x' i now max_tries t v k (within t p) _ refl le
      steps x' y' (chooses i t e) v le = le
      steps x' y' (renews i now t r e) v le = le
      steps x' y' (ends i now t attempt e) v le = le
      steps x' y' (removes t k) v le = le
      steps x' y' (cancels now t k) v le = le
      steps x' y' (appends now t mo k) v le = le
      steps x' y' (others s sound e) v le = le
