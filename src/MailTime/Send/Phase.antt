-- ===== src/MailTime/Send/Phase.antt =====
-- What each phase of `___send` does to the row of its letter, over any queue that keeps the
-- contract.
use mail_time.Prelude.{
  ℕ, ◌≡◌, refl, sym, subst, ◌⊎◌, inl, inr, Bool, true, false, not, List, [], ◌∷◌, Option, none,
  some, arith, if◌then◌else◌, length,
}
use mail_time.Task.{Task, MailOption, Update, Lease, with_lease}
use mail_time.Queue.{
  Queue, Conforms, Answer, returned, threw, Effect, is_open, lease_guard, update_guard, updated,
}
use mail_time.MailTime.Errors.{Hook, is_true, failed_update, release_update}
use mail_time.MailTime.Send.{sent_update, partial_update}

-- The lease that a worker holds by its copy of the task.
abbrev pub lease_of : Task → Lease
lease_of t = record { lease_tries = t.tries; lease_sending_at = t.sending_at }

-- A letter has ended when its row is gone, or is sent, failed or cancelled.
abbrev pub is_ended : Option Task → Bool
is_ended none = true
is_ended (some r) = not (is_open r)

-- A sent row is held by nobody.
abbrev pub IsSane : Option Task → Type 0
IsSane none = Unit {0}
IsSane (some r) = r.is_sent ≡ true → r.is_sending ≡ false

-- What one phase may do: from the row before to the row after, with the hooks that it called. The
-- attempts counted stay, an ended letter stays ended and silent, and a hook is called at most once,
-- on a letter that was open and has ended with it.
pub record Phase (b a : Option Task) (hooks : List Hook) : Type 0 where
  pub tries_kept : (r' : Task) → a ≡ some r' → (r : Task) × (b ≡ some r) × (r'.tries ≡ r.tries)
  pub sane : IsSane a
  pub stays_ended : is_ended b ≡ true → (is_ended a ≡ true) × (hooks ≡ [])
  pub hook_ends : (hooks ≡ []) ⊎ ((is_ended a ≡ true) × (length hooks ≡ 1))

-- A row that a worker's calls can be made for.
abbrev pub IsAt : (q : Queue) → q.Store → q.Key → Type 0
IsAt q s k = IsSane (q.look s k) × q.IsKey k

-- What the storage makes of a row shows in no phase.
pub Phase-stored :
    (q : Queue) (IsSound : q.Store → Type 0)
    → Conforms q IsSound
    → (b : Option Task) (r : Task) (hooks : List Hook) → Phase b (some r) hooks
    → Phase b (some (q.stored r)) hooks
Phase-stored q IsSound c b r hooks p =
    subst (λ x. Phase b (some x) hooks) (sym (c.stored_lem r)) (kept (q.stored r).mail_options)
  where
    kept : (mos : List MailOption) → Phase b (some (record r { mail_options = mos })) hooks
    kept mos = record {
      tries_kept = λ r' e. let (r0, found, same) = p.tries_kept r refl in (r0, found, ground arith);
      sane = p.sane;
      stays_ended = p.stays_ended;
      hook_ends = p.hook_ends;
    }

pub still : (b : Option Task) → IsSane b → Phase b b []
still b v = record {
  tries_kept = λ r e. (r, e, refl);
  sane = v;
  stays_ended = λ e. (e, refl);
  hook_ends = inl refl;
}

-- What a guarded change of one row may do to it.
abbrev pub Change : (Task → Bool) → (Task → Option Task) → List Hook → Type 0
Change g f hooks = (r : Task) → IsSane (some r) → g r ≡ true → Phase (some r) (f r) hooks

no_hooks : (b a : Option Task) (hooks : List Hook) → Phase b a hooks → Phase b a []
no_hooks b a hooks p = record {
  tries_kept = p.tries_kept;
  sane = p.sane;
  stays_ended = λ e. ((p.stays_ended e).0, refl);
  hook_ends = inl refl;
}

pub Phase-of_Effect :
    (g : Task → Bool) (f : Task → Option Task) (b a : Option Task) (answer : Answer)
    (hooks : List Hook)
    → IsSane b
    → Change g f hooks
    → Effect g f b a answer
    → Phase b a (if is_true answer then hooks else [])
Phase-of_Effect g f b a (returned true) hooks v change (r, e, y, e') =
    rw (e, e') (change r (rw e at v) y)
Phase-of_Effect g f b a (returned false) hooks v change e = rw e (still b v)
Phase-of_Effect g f b a threw hooks v change (inl e) = rw e (still b v)
Phase-of_Effect g f b a threw hooks v change (inr (r, e, y, e')) =
    rw (e, e') (no_hooks (some r) (f r) hooks (change r (rw e at v) y))

-- The guard of a lease-guarded update is that of the worker's lease.
abbrev pub IsLeaseUpdate : Update → Type 0
IsLeaseUpdate u = (u.append_mail_option ≡ none) × (u.tries ≡ none)

pub lease_update_guard :
    (now timeout : ℕ) (t : Task) (u : Update) (r : Task)
    → t.is_sending ≡ true
    → IsLeaseUpdate u
    → update_guard now timeout t (with_lease t u) r ≡ lease_guard (lease_of t) r
lease_update_guard now timeout t u r h w = ground arith

pub release_Phase :
    (t r : Task) (send_at transport : ℕ)
    → IsSane (some r)
    → lease_guard (lease_of t) r ≡ true
    → Phase (some r) (some (updated (with_lease t (release_update send_at transport)) r)) []
release_Phase t r send_at transport v g = record {
  tries_kept = λ r' e. (r, refl, ground arith);
  sane = ground arith;
  stays_ended = ground arith;
  hook_ends = inl refl;
}

pub partial_Phase :
    (t r : Task) (send_at : ℕ)
    → IsSane (some r)
    → lease_guard (lease_of t) r ≡ true
    → Phase (some r) (some (updated (with_lease t (partial_update send_at t)) r)) []
partial_Phase t r send_at v g = record {
  tries_kept = λ r' e. (r, refl, ground arith);
  sane = ground arith;
  stays_ended = ground arith;
  hook_ends = inl refl;
}

pub sent_Phase :
    (t r : Task) (hook : Hook)
    → IsSane (some r)
    → lease_guard (lease_of t) r ≡ true
    → Phase (some r) (some (updated (with_lease t (sent_update t)) r)) (hook ∷ [])
sent_Phase t r hook v g = record {
  tries_kept = λ r' e. (r, refl, ground arith);
  sane = ground arith;
  stays_ended = λ e. absurd (ground arith);
  hook_ends = inr (ground arith, refl);
}

pub failed_Phase :
    (t r : Task) (hook : Hook)
    → IsSane (some r)
    → lease_guard (lease_of t) r ≡ true
    → Phase (some r) (some (updated (with_lease t (failed_update t)) r)) (hook ∷ [])
failed_Phase t r hook v g = record {
  tries_kept = λ r' e. (r, refl, ground arith);
  sane = ground arith;
  stays_ended = λ e. absurd (ground arith);
  hook_ends = inr (ground arith, refl);
}

pub remove_Phase :
    (l : Lease) (r : Task) (hook : Hook)
    → IsSane (some r)
    → lease_guard l r ≡ true
    → Phase (some r) none (hook ∷ [])
remove_Phase l r hook v g = record {
  tries_kept = λ r' e. cc;
  sane = tt;
  stays_ended = λ e. absurd (ground arith);
  hook_ends = inr (refl, refl);
}
