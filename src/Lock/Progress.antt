-- ===== src/Lock/Progress.antt =====
-- packages/lock/src/index.ts: who gets a Mutex as it is unlocked.
use uniqys_kit.Prelude.{
  ℕ, zero, suc, ◌+◌, ◌≤◌, ◌<◌, ◌≡◌, refl, sym, ap, ◌∙◌, List, [], ◌∷◌, ◌++◌, append_assoc,
  append-nil, length, length-append, arith,
}
use uniqys_kit.Lock.Mutex.{
  Mutex, lock, run_queued, unlock, Run, IsExclusive, free, held, lock-IsExclusive,
  unlock-IsExclusive, Run-IsExclusive, lock-order, unlock-order,
}

-- A list that is as long as the first part of it and more has that part.
prefix :
    {A : Type 0} (us vs xs ys : List A)
    → xs ++ ys ≡ us ++ vs
    → length us ≤ length xs
    → (more : List A) × (xs ≡ us ++ more)
prefix [] vs xs ys e long = (xs, refl)
prefix (a ∷ us) vs [] ys e long = absurd (omega (arith, long))
prefix (a ∷ us) vs (x ∷ xs) ys e long =
    let tails : xs ++ ys ≡ us ++ vs = cc in
    let heads : x ≡ a = cc in
    let (more, same) = prefix us vs xs ys tails (omega (arith, long)) in
    (more, rw (heads, same) refl)

module _ {Task : Type 0} where
  -- What may come after a state, with so many unlocks.
  pub data Continues (s : Mutex Task) : ℕ → Mutex Task → Type 0 where
    here : Continues s 0 s
    asks : {k : ℕ} {t : Mutex Task} (task : Task) → Continues s k t → Continues s k (lock task t)
    unlocks :
        {k : ℕ} {t : Mutex Task} (task : Task) (others : List Task)
        → t.holders ≡ task ∷ others
        → Continues s k t
        → Continues s (suc k) (unlock (record t { holders = others }))

  -- What has come of the queue of `s` after `k` unlocks.
  record Served (s : Mutex Task) (k : ℕ) (t : Mutex Task) : Type 0 where
    pub exclusive : IsExclusive t
    pub rest : List Task
    pub order : t.started ++ t.queue ≡ (s.started ++ s.queue) ++ rest
    pub progress : (n : ℕ) → n ≤ k → n ≤ length s.queue → length s.started + n ≤ length t.started

  started-lock :
      (task : Task) (s : Mutex Task)
      → IsExclusive s
      → length s.started ≤ length (lock task s).started
  unfolding lock
  started-lock task s (free started) = omega (arith, length-append started (task ∷ []))
  started-lock task s (held holder queue started) = omega arith

  kept-unlock :
      (s : Mutex Task) (task : Task) (others : List Task)
      → s.holders ≡ task ∷ others
      → IsExclusive s
      → length s.started ≤ length (unlock (record s { holders = others })).started
  unfolding unlock run_queued lock
  kept-unlock s task others e (free started) = omega arith
  kept-unlock s task others e (held holder [] started) = omega arith
  kept-unlock s task others e (held holder (next ∷ queue) started) =
      omega (arith, length-append started (next ∷ []))

  -- An unlock starts the next task, if one waits.
  started-unlock :
      (s : Mutex Task) (task : Task) (others : List Task) (n : ℕ)
      → s.holders ≡ task ∷ others
      → IsExclusive s
      → (n ≤ length s.started)
      → (s.queue ≡ [] → suc n ≤ length s.started)
      → suc n ≤ length (unlock (record s { holders = others })).started
  unfolding unlock run_queued lock
  started-unlock s task others n e (free started) low empty = empty refl
  started-unlock s task others n e (held holder [] started) low empty = empty refl
  started-unlock s task others n e (held holder (next ∷ queue) started) low empty =
      omega (arith, low, length-append started (next ∷ []))

  unlock-progress :
      {s : Mutex Task} {k : ℕ} (t : Mutex Task) (task : Task) (others : List Task) (n : ℕ)
      → t.holders ≡ task ∷ others
      → Served s k t
      → n ≤ suc k
      → n ≤ length s.queue
      → length s.started + n ≤ length (unlock (record t { holders = others })).started
  unlock-progress {s} t task others zero e before low short = omega (
    arith,
    before.progress 0 (omega arith) (omega arith),
    kept-unlock t task others e before.exclusive,
  )
  unlock-progress {s} t task others (suc n) e before low short =
      let so_far = before.progress n (omega (arith, low)) (omega (arith, short)) in
      omega (
        arith,
        started-unlock t task others (length s.started + n) e before.exclusive so_far (λ empty.
            omega (
              arith,
              short,
              ap length before.order,
              ap length empty,
              length-append t.started t.queue,
              length-append (s.started ++ s.queue) before.rest,
              length-append s.started s.queue,
            )),
      )

  served : {s t : Mutex Task} {k : ℕ} → IsExclusive s → Continues s k t → Served s k t
  served {s} exclusive here = record {
    exclusive = exclusive;
    rest = [];
    order = sym (append-nil (s.started ++ s.queue));
    progress = λ n low _. omega (arith, low);
  }
  served {s} exclusive (asks {t = t} task c) =
      let before = served exclusive c in
      record {
        exclusive = lock-IsExclusive task t before.exclusive;
        rest = before.rest ++ (task ∷ []);
        order =
            lock-order task t before.exclusive
            ∙ ap (λ l. l ++ (task ∷ [])) before.order
            ∙ append_assoc (s.started ++ s.queue) before.rest (task ∷ []);
        progress = λ n low short.
            omega (arith, before.progress n low short, started-lock task t before.exclusive);
      }
  served {s} exclusive (unlocks {k} {t} task others e c) =
      let before = served exclusive c in
      record {
        exclusive = unlock-IsExclusive t task others e before.exclusive;
        rest = before.rest;
        order = unlock-order (record t { holders = others }) ∙ before.order;
        progress = λ n. unlock-progress t task others n e before;
      }

  waiting-held :
      (s : Mutex Task) (before after : List Task) (task : Task)
      → IsExclusive s
      → s.queue ≡ before ++ task ∷ after
      → (holder : Task) × (s.holders ≡ holder ∷ [])
  waiting-held s before after task (free started) e =
      absurd (omega (arith, ap length e, length-append before (task ∷ after)))
  waiting-held s before after task (held holder queue started) e = (holder, refl)

  -- If a task waits for a mutex behind others, then one task has the mutex; and after one unlock
  -- more than there are tasks in front, whoever else has asked by then, those in front have been
  -- started, in order, and then the task.
  pub Continues-started :
      (requests : List Task) (s t : Mutex Task) (k : ℕ) (before after : List Task) (task : Task)
      → Run requests s
      → s.queue ≡ before ++ task ∷ after
      → Continues s k t
      → length before < k
      → ((holder : Task) × (s.holders ≡ holder ∷ []))
        × ((more : List Task) × (t.started ≡ s.started ++ before ++ task ∷ more))
  Continues-started requests s t k before after task run waits c enough =
      let exclusive = Run-IsExclusive run in
      let all = served exclusive c in
      let whole : t.started ++ t.queue ≡ (s.started ++ before ++ task ∷ []) ++ (after ++ all.rest) =
        all.order ∙ ap (λ q. (s.started ++ q) ++ all.rest) waits ∙ simp (append_assoc) in
      let size = length-append (s.started ++ before) (task ∷ []) in
      let mine = length-append s.started before in
      let short : suc (length before) ≤ length s.queue =
        omega (arith, ap length waits, length-append before (task ∷ after)) in
      let reached = all.progress (suc (length before)) (omega (arith, enough)) short in
      let (more, same) =
        prefix (s.started ++ before ++ task ∷ []) (after ++ all.rest) t.started t.queue whole
          (omega (arith, reached, size, mine)) in
      (waiting-held s before after task exclusive waits, (more, same ∙ simp (append_assoc)))
