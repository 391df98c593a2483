-- ===== src/MailTime/Pool.antt =====
-- index.js, `createPool`: the bounded pool of concurrent sends. A job is a number. The pool's
-- state is `active`, `queue` and the number of waiting `drainResolvers`; an operation also gives
-- the jobs that it started, in order, and how many waiters of `drain` it resolved.
pub mod Runs
use mail_time.Prelude.{
  ℕ, zero, suc, ◌+◌, ◌-◌, ◌%◌, ◌^◌, max, Bool, true, false, not, ◌&&◌, List, [], ◌∷◌, ◌++◌, ltb,
  ◌==◌, if◌then◌else◌, length,
}

pub record Pool : Type 0 where
  pub limit : ℕ
  pub active : ℕ
  pub queue : List ℕ
  pub drain_resolvers : ℕ

pub record Effects : Type 0 where
  pub started : List ℕ
  pub resolved : ℕ

abbrev pub is_empty_queue : List ℕ → Bool
is_empty_queue [] = true
is_empty_queue (j ∷ q) = false

-- `Math.max(1, concurrency | 0)`: the operator reads the low 32 bits as a signed number.
unfoldable pub limit_of : ℕ → ℕ
limit_of concurrency = let low = concurrency % 2 ^ 32 in if ltb low (2 ^ 31) then max 1 low else 1

unfoldable pub create_pool : ℕ → Pool
create_pool concurrency = record {
  limit = limit_of concurrency;
  active = 0;
  queue = [];
  drain_resolvers = 0;
}

-- The loop of `tryStart`: the new `active`, what stays queued, and the jobs started.
unfoldable pub start_jobs : ℕ → ℕ → List ℕ → ℕ × List ℕ × List ℕ
start_jobs limit active [] = (active, [], [])
start_jobs limit active (j ∷ queue) =
    let rest = start_jobs limit (active + 1) queue in
    if ltb active limit then (rest.0, rest.1, j ∷ rest.2) else (active, j ∷ queue, [])

unfoldable pub try_start : Pool → Pool × List ℕ
try_start p =
    let (active, queue, started) = start_jobs p.limit p.active p.queue in
    (record p { active = active; queue = queue }, started)

unfoldable pub dispatch : Pool → ℕ → Pool × Effects
dispatch p j =
    let (p', started) = try_start (record p { queue = p.queue ++ j ∷ [] }) in
    (p', record { started = started; resolved = 0 })

-- The `finally` of a job.
unfoldable pub settle : Pool → Pool × Effects
settle p =
    let active = p.active - 1 in
    let wake = active == 0 && is_empty_queue p.queue in
    let (p', started) =
      try_start
        (record p { active = active; drain_resolvers = if wake then 0 else p.drain_resolvers }) in
    (p', record { started = started; resolved = if wake then p.drain_resolvers else 0 })

-- `drain()` resolves at once (`true`), or joins the waiters.
unfoldable pub drain : Pool → Pool × Bool
drain p =
    if p.active == 0 && is_empty_queue p.queue
    then (p, true)
    else (record p { drain_resolvers = p.drain_resolvers + 1 }, false)

unfoldable pub size : Pool → ℕ
size p = p.active + length p.queue
