-- ===== src/MailTime/Pool/Runs.antt =====
-- What holds of a pool after any sequence of calls.
use mail_time.Prelude.{
  ℕ, suc, ◌+◌, ◌-◌, ◌≤◌, ◌<◌, ◌≡◌, ◌≢◌, refl, sym, ap, ◌∙◌, ◌&&◌, List, [], ◌∷◌, ◌++◌, arith, ltb,
  ◌==◌, length, length-append, append_assoc, Bool-cases, inl, inr,
}
use mail_time.MailTime.Pool.{
  Pool, limit_of, create_pool, start_jobs, try_start, dispatch, settle, drain, is_empty_queue,
}

-- From a pool, any calls in any order: the jobs dispatched, the jobs started, how many settled, and
-- the pool then. A job settles after it was started.
pub data Run (p : Pool) : List ℕ → List ℕ → ℕ → Pool → Type 0 where
  begin : Run p [] [] 0 p
  dispatches :
      {ds ss : List ℕ} {k : ℕ} {q : Pool} (j : ℕ)
      → Run p ds ss k q
      → Run p (ds ++ j ∷ []) (ss ++ (dispatch q j).1.started) k (dispatch q j).0
  settles :
      {ds ss : List ℕ} {k : ℕ} {q : Pool}
      → 0 < q.active
      → Run p ds ss k q
      → Run p ds (ss ++ (settle q).1.started) (suc k) (settle q).0
  drains : {ds ss : List ℕ} {k : ℕ} {q : Pool} → Run p ds ss k q → Run p ds ss k (drain q).0

-- At most `limit` jobs run; a job waits only while `limit` run; nobody waits for an idle pool.
pub record IsValid (p : Pool) : Type 0 where
  pub positive : 0 < p.limit
  pub bounded : p.active ≤ p.limit
  pub busy : p.queue ≢ [] → p.active ≡ p.limit
  pub woken : p.active ≡ 0 → p.drain_resolvers ≡ 0

start_jobs_all :
    (limit active : ℕ) (queue : List ℕ)
    → active ≤ limit
    → let r = start_jobs limit active queue in
      (r.0 ≤ limit) × (r.1 ≢ [] → r.0 ≡ limit) × (r.2 ++ r.1 ≡ queue) × (r.0 ≡ active + length r.2)
unfolding start_jobs
start_jobs_all limit active [] h = (h, λ n. absurd (n refl), refl, omega arith)
start_jobs_all limit active (j ∷ queue) h = elim (Bool-cases (ltb active limit)) [
  | inl y ↦
      let (a, b, c, d) = start_jobs_all limit (active + 1) queue (ground arith) in
      rw y (a, b, ap (◌∷◌ j) c, omega arith)
  | inr n ↦ rw n (h, λ _. ground arith, refl, omega arith)
]

create_pool-IsValid : (concurrency : ℕ) → IsValid (create_pool concurrency)
unfolding create_pool limit_of
create_pool-IsValid concurrency = record {
  positive = ground arith;
  bounded = omega arith;
  busy = λ n. absurd (n refl);
  woken = λ _. refl;
}

dispatch-IsValid : (p : Pool) (j : ℕ) → IsValid p → IsValid (dispatch p j).0
unfolding dispatch try_start
dispatch-IsValid p j v =
    let (a, b, c, d) = start_jobs_all p.limit p.active (p.queue ++ j ∷ []) v.bounded in
    record { positive = v.positive; bounded = a; busy = b; woken = λ e. v.woken (omega arith) }

start_jobs_active :
    (limit active j : ℕ) (queue : List ℕ)
    → 0 < limit
    → active ≤ limit
    → (start_jobs limit active (j ∷ queue)).0 ≢ 0
unfolding start_jobs
start_jobs_active limit active j queue h b = elim (Bool-cases (ltb active limit)) [
  | inl y ↦
      rw y (λ z. absurd (omega (arith, (start_jobs_all limit (active + 1) queue (ground arith)).3)))
  | inr n ↦ rw n (λ z. absurd (ground arith))
]

-- A settle that leaves no job running and none queued wakes everybody; with a job queued it starts
-- one.
settle_woken :
    (p : Pool) (queue : List ℕ)
    → IsValid p
    → p.queue ≡ queue
    → (settle p).0.active ≡ 0
    → (settle p).0.drain_resolvers ≡ 0
unfolding settle try_start
settle_woken p [] v e z = unfold start_jobs in ground arith
settle_woken p (j ∷ queue) v e z = absurd (
    start_jobs_active p.limit (p.active - 1) j queue v.positive (omega (arith, v.bounded))
      (ap (λ q. (start_jobs p.limit (p.active - 1) q).0) (sym e) ∙ z))

settle-IsValid : (p : Pool) → 0 < p.active → IsValid p → IsValid (settle p).0
unfolding settle try_start
settle-IsValid p h v =
    let (a, b, c, d) = start_jobs_all p.limit (p.active - 1) p.queue (omega (arith, v.bounded)) in
    record { positive = v.positive; bounded = a; busy = b; woken = settle_woken p p.queue v refl }

idle_queue : (p : Pool) (queue : List ℕ) → IsValid p → p.queue ≡ queue → p.active ≡ 0 → p.queue ≡ []
idle_queue p [] v e z = e
idle_queue p (j ∷ queue) v e z = absurd (omega (arith, v.positive, v.busy (λ n. cc)))

drain-IsValid : (p : Pool) → IsValid p → IsValid (drain p).0
unfolding drain
drain-IsValid p v = elim (Bool-cases (p.active == 0 && is_empty_queue p.queue)) [
  | inl y ↦ rw y v
  | inr n ↦ rw n (record {
    positive = v.positive;
    bounded = v.bounded;
    busy = v.busy;
    woken = λ z. absurd (ground (arith, idle_queue p p.queue v refl z));
  })
]

-- However the calls come, at most `limit` sends run at once, a send is kept waiting only while
-- `limit` others run, and `drain` has nobody waiting once nothing runs.
pub Run-IsValid :
    (concurrency : ℕ) {ds ss : List ℕ} {k : ℕ} {p : Pool}
    → Run (create_pool concurrency) ds ss k p
    → IsValid p
Run-IsValid concurrency begin = create_pool-IsValid concurrency
Run-IsValid concurrency (dispatches {q} j r) = dispatch-IsValid q j (Run-IsValid concurrency r)
Run-IsValid concurrency (settles {q} h r) = settle-IsValid q h (Run-IsValid concurrency r)
Run-IsValid concurrency (drains {q} r) = drain-IsValid q (Run-IsValid concurrency r)

dispatch_counts :
    (p : Pool) (j : ℕ)
    → IsValid p
    → ((dispatch p j).1.started ++ (dispatch p j).0.queue ≡ p.queue ++ j ∷ [])
      × ((dispatch p j).0.active ≡ p.active + length (dispatch p j).1.started)
unfolding dispatch try_start
dispatch_counts p j v =
    let (a, b, c, d) = start_jobs_all p.limit p.active (p.queue ++ j ∷ []) v.bounded in (c, d)

settle_counts :
    (p : Pool)
    → IsValid p
    → ((settle p).1.started ++ (settle p).0.queue ≡ p.queue)
      × ((settle p).0.active ≡ p.active - 1 + length (settle p).1.started)
unfolding settle try_start
settle_counts p v =
    let (a, b, c, d) = start_jobs_all p.limit (p.active - 1) p.queue (omega (arith, v.bounded)) in
    (c, d)

drain_counts : (p : Pool) → ((drain p).0.queue ≡ p.queue) × ((drain p).0.active ≡ p.active)
unfolding drain
drain_counts p = ground arith

-- No job is lost, started twice or overtaken: the jobs started, in order, followed by those still
-- queued, are the jobs dispatched, and the jobs started are those settled and those running.
pub Run-accounts :
    (concurrency : ℕ) {ds ss : List ℕ} {k : ℕ} {p : Pool}
    → Run (create_pool concurrency) ds ss k p
    → (ss ++ p.queue ≡ ds) × (length ss ≡ k + p.active)
unfolding create_pool
Run-accounts concurrency begin = (refl, omega arith)
Run-accounts concurrency (dispatches {ds} {ss} {k} {q} j r) =
    let (e, n) = Run-accounts concurrency r in
    let (f, o) = dispatch_counts q j (Run-IsValid concurrency r) in
    (
      append_assoc ss _ _
          ∙ ap (λ l. ss ++ l) f
          ∙ sym (append_assoc ss _ _)
          ∙ ap (λ l. l ++ j ∷ []) e,
      omega (arith, length-append ss (dispatch q j).1.started),
    )
Run-accounts concurrency (settles {ds} {ss} {k} {q} h r) =
    let (e, n) = Run-accounts concurrency r in
    let (f, o) = settle_counts q (Run-IsValid concurrency r) in
    (
      append_assoc ss _ _ ∙ ap (λ l. ss ++ l) f ∙ e,
      omega (arith, length-append ss (settle q).1.started),
    )
Run-accounts concurrency (drains {ds} {ss} {k} {q} r) =
    let (e, n) = Run-accounts concurrency r in
    let (f, o) = drain_counts q in (ap (λ l. ss ++ l) f ∙ e, omega arith)
