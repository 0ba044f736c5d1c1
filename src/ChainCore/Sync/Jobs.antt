-- ===== src/ChainCore/Sync/Jobs.antt =====
-- packages/chain-core/src/synchronizer.ts: how catchUpBodies splits the missing bodies into jobs.
use uniqys_kit.Prelude.{
  ℕ, zero, suc, ◌+◌, ◌-◌, ◌≤◌, ◌<◌, List, [], ◌∷◌, if◌then◌else◌, ltb, lt→ltb, leb, All, arith,
  Bool-cases, inl, inr,
}

pub record Job : Type 0 where
  pub from : ℕ
  pub to : ℕ

-- Math.max
abbrev pub larger : ℕ → ℕ → ℕ
larger a b = if leb a b then b else a

-- The loop of catchUpBodies, in the order in which the jobs are made; `count` is maxFetchBodies. The
-- fuel is the number of turns.
unfoldable pub split_jobs : ℕ → ℕ → ℕ → ℕ → List Job
split_jobs zero known count to = []
split_jobs (suc fuel) known count to =
    let rest = split_jobs fuel known count (to - count) in
    if ltb known to then record { from = larger (to - count) (known + 1); to = to } ∷ rest else []

-- Each turn takes at least one height off, where bodies are fetched at all.
unfoldable pub jobs : ℕ → ℕ → ℕ → List Job
unfolding split_jobs
jobs known count target = split_jobs target known count target

-- Some job asks for the body.
pub data Fetched (height : ℕ) : List Job → Type 0 where
  now : (j : Job) (js : List Job) → j.from ≤ height → height ≤ j.to → Fetched height (j ∷ js)
  later : (j : Job) (js : List Job) → Fetched height js → Fetched height (j ∷ js)

-- A job asks for missing bodies alone, and for one more than maxFetchBodies at most.
pub record IsInside (known count target : ℕ) (j : Job) : Type 0 where
  pub after : known < j.from
  pub before : j.to ≤ target
  pub some_body : j.from ≤ j.to
  pub few : j.to ≤ j.from + count

split_jobs-Fetched :
    (fuel known count to height : ℕ)
    → 0 < count
    → to ≤ fuel
    → known < height
    → height ≤ to
    → Fetched height (split_jobs fuel known count to)
unfolding split_jobs
split_jobs-Fetched zero known count to height positive enough above below = absurd (omega arith)
split_jobs-Fetched (suc fuel) known count to height positive enough above below =
    rw (lt→ltb known to (omega arith)) (elim (Bool-cases (leb (to - count) height)) [
      | inl h ↦ now _ _ (ground arith) below
      | inr h ↦ later _ _ (
          split_jobs-Fetched fuel known count (to - count) height positive (omega arith) above
            (ground arith))
    ])

split_jobs-IsInside :
    (fuel known count target to : ℕ)
    → to ≤ target
    → All (IsInside known count target) (split_jobs fuel known count to)
unfolding split_jobs
split_jobs-IsInside zero known count target to h = tt
split_jobs-IsInside (suc fuel) known count target to h = elim (Bool-cases (ltb known to)) [
  | inl more ↦ rw more (
    record { after = ground arith; before = h; some_body = ground arith; few = ground arith },
    split_jobs-IsInside fuel known count target (to - count) (omega arith),
  )
  | inr done ↦ rw done tt
]

-- Where bodies are fetched at all, the jobs of catchUpBodies ask for each body above the known
-- height up to the target, and each job asks for at least one body and for bodies in that range
-- alone, from its first to its last height no more than maxFetchBodies apart.
pub jobs-Fetched :
    (known count target height : ℕ)
    → 0 < count
    → known < height
    → height ≤ target
    → Fetched height (jobs known count target)
      × All (IsInside known count target) (jobs known count target)
unfolding jobs
jobs-Fetched known count target height positive above below = (
  split_jobs-Fetched target known count target height positive (omega arith) above below,
  split_jobs-IsInside target known count target target (omega arith),
)
