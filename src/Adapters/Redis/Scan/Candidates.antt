-- ===== src/Adapters/Redis/Scan/Candidates.antt =====
-- The letters that the scan of adapters/redis.js with hash tags picks.
use mail_time.Prelude.{
  ℕ, ◌-◌, ◌≤◌, ◌≡◌, refl, sym, ap, inl, inr, Bool, true, false, ◌&&◌, ◌||◌, List, [], ◌∷◌, Option,
  none, some, arith, leb, length, map, subst, Bool-cases, Option-cases,
}
use mail_time.Js.Text.{Text}
use mail_time.Task.{Task}
use mail_time.Adapters.Redis.{is_iterate_candidate}
use mail_time.Adapters.Redis.Commands.{Redis}
use mail_time.Adapters.Redis.Scan.{visit, candidates, expire_pointers, scan_due, iterate_script}

-- What `cjson` keeps of a letter: all but perhaps its mail options.
abbrev pub Recodes : (Task → Task) → Type 0
Recodes recode = (t : Task) → recode t ≡ record t { mail_options = (recode t).mail_options }

-- A letter that may be picked at `now`: one to dispatch, at its time unless its claim has gone stale.
abbrev pub is_pickable : ℕ → ℕ → ℕ → Task → Bool
is_pickable now timeout max_tries t =
    is_iterate_candidate (some t) now timeout max_tries && (t.is_sending || leb t.send_at now)

abbrev pub all_pickable : ℕ → ℕ → ℕ → List Task → Bool
all_pickable now timeout max_tries [] = true
all_pickable now timeout max_tries (t ∷ ts) =
    is_pickable now timeout max_tries t && all_pickable now timeout max_tries ts

visit-is_pickable :
    (now max_tries timeout : ℕ) (uuid : Text) (o : Option Task) (t : Task)
    → (visit now max_tries timeout uuid o).1 ≡ some t
    → is_pickable now timeout max_tries t ≡ true
unfolding visit is_iterate_candidate
visit-is_pickable now max_tries timeout uuid none t e = cc
visit-is_pickable now max_tries timeout uuid (some c) t e = ground (arith, e)

module _ (r : Redis) (now max_tries timeout : ℕ) where
  -- What has been picked may be picked, and is not more than the limit.
  abbrev Good : ℕ → r.Store × List Task → Type 0
  Good limit p = (all_pickable now timeout max_tries p.1 ≡ true) × (length p.1 ≤ limit)

  module _ (limit : ℕ) (uuid : Text) (uuids : List Text) (s : r.Store) where
    passed_over :
        (visit now max_tries timeout uuid (r.letter s uuid)).1 ≡ none
        → scan_due r now max_tries timeout limit (uuid ∷ uuids) s
          ≡ scan_due r now max_tries timeout limit uuids
              (r.run s (visit now max_tries timeout uuid (r.letter s uuid)).0)
    unfolding scan_due
    passed_over e = rw (scan_due, e) refl

    last_picked :
        (t : Task)
        → (visit now max_tries timeout uuid (r.letter s uuid)).1 ≡ some t
        → leb limit 1 ≡ true
        → scan_due r now max_tries timeout limit (uuid ∷ uuids) s
          ≡ (r.run s (visit now max_tries timeout uuid (r.letter s uuid)).0, t ∷ [])
    unfolding scan_due
    last_picked t e f = rw (scan_due, e, f) refl

    picked_before :
        (t : Task)
        → (visit now max_tries timeout uuid (r.letter s uuid)).1 ≡ some t
        → leb limit 1 ≡ false
        → scan_due r now max_tries timeout limit (uuid ∷ uuids) s ≡ (
          (scan_due r now max_tries timeout
              (limit - 1)
              uuids
              (r.run s (visit now max_tries timeout uuid (r.letter s uuid)).0)).0,
          t
              ∷ (scan_due r now max_tries timeout
                  (limit - 1)
                  uuids
                  (r.run s (visit now max_tries timeout uuid (r.letter s uuid)).0)).1,
        )
    unfolding scan_due
    picked_before t e f = rw (scan_due, e, f) refl

  scanned :
      (limit : ℕ) (uuids : List Text) (s : r.Store)
      → 1 ≤ limit
      → Good limit (scan_due r now max_tries timeout limit uuids s)
  unfolding scan_due
  scanned limit [] s h = (refl, omega arith)
  scanned limit (uuid ∷ uuids) s h =
      elim (Option-cases (visit now max_tries timeout uuid (r.letter s uuid)).1) [
        | inl e ↦
            subst (Good limit) (sym (passed_over limit uuid uuids s e)) (scanned limit uuids _ h)
        | inr (t, e) ↦ elim (Bool-cases (leb limit 1)) [
          | inl f ↦
              subst (Good limit) (sym (last_picked limit uuid uuids s t e f))
                (ap (λ b. b && true) (visit-is_pickable now max_tries timeout uuid _ t e), h)
          | inr f ↦
              let (all, few) =
                scanned (limit - 1) uuids
                  (r.run s (visit now max_tries timeout uuid (r.letter s uuid)).0)
                  (ground (arith, f)) in
              subst (Good limit) (sym (picked_before limit uuid uuids s t e f)) (
                rw (visit-is_pickable now max_tries timeout uuid _ t e) all,
                ground (arith, few, h),
              )
        ]
      ]

candidates-map :
    (recode : Task → Task) (now timeout max_tries : ℕ) (ts : List Task)
    → Recodes recode
    → all_pickable now timeout max_tries ts ≡ true
    → candidates recode now timeout max_tries ts ≡ map recode ts
unfolding candidates is_iterate_candidate
candidates-map recode now timeout max_tries [] keeps h = refl
candidates-map recode now timeout max_tries (t ∷ ts) keeps h =
    rw (dispatched_too, candidates-map recode now timeout max_tries ts keeps (ground (arith, h)))
      refl
  where
    dispatched_too : is_iterate_candidate (some (recode t)) now timeout max_tries ≡ true
    dispatched_too = rw (keeps t) (ground (arith, h))

-- If `cjson` keeps of a letter all but perhaps its mail options and the limit is not 0: of the
-- letters that the scan with hash tags picks, `isIterateCandidate` drops none, each that no claim
-- holds is at its time, and there are at most as many as the limit.
pub iterate_script-candidates :
    (recode : Task → Task) (r : Redis) (now max_tries timeout limit scan_limit : ℕ) (s : r.Store)
    → Recodes recode
    → 1 ≤ limit
    → (candidates recode now timeout max_tries
          (iterate_script r now max_tries timeout limit scan_limit s).1
        ≡ map recode (iterate_script r now max_tries timeout limit scan_limit s).1)
      × (all_pickable now timeout max_tries
            (iterate_script r now max_tries timeout limit scan_limit s).1
          ≡ true)
      × (length (iterate_script r now max_tries timeout limit scan_limit s).1 ≤ limit)
unfolding iterate_script
iterate_script-candidates recode r now max_tries timeout limit scan_limit s keeps h =
    let s' : r.Store = r.run s (expire_pointers (r.due_pointers s now 100)) in
    let (all, few) = scanned r now max_tries timeout limit (r.due s' now scan_limit) s' h in
    (candidates-map recode now timeout max_tries _ keeps all, all, few)
