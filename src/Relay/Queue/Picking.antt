-- ===== src/Relay/Queue/Picking.antt =====
-- What a worker holds: the pick of a job from a list, and the attempts that it takes along.
use postbox.Common.{
  ℕ, zero, suc, ◌+◌, ◌-◌, ◌<◌, ◌≡◌, refl, Option, none, some, List, [], ◌∷◌, ◌++◌, arith, length,
  All,
}
use mathlib.Core.Path.{subst₂}
use postbox.Relay.Queue.{QueueConfig, QueuedJob, put_back, pick}

-- The attempts that are left to the jobs of a list.
abbrev pub left : ℕ → List QueuedJob → ℕ
left max [] = 0
left max (j ∷ js) = (max - j.attempts) + left max js

pub left-append :
    (max : ℕ) (xs ys : List QueuedJob) → left max (xs ++ ys) ≡ left max xs + left max ys
left-append max [] ys = omega arith
left-append max (x ∷ xs) ys = omega (arith, left-append max xs ys)

module _ (cfg : QueueConfig) where
  -- The job has an attempt left.
  abbrev pub Below : QueuedJob → Type 0
  Below j = j.attempts < cfg.max_retries

  -- A job at a position of a list, and the jobs at the others.
  pub record IsPicked (job : QueuedJob) (others held : List QueuedJob) : Type 0 where
    pub below : Below job
    pub others_below : All Below others
    pub shorter : length held ≡ suc (length others)
    pub split :
        left cfg.max_retries held ≡ (cfg.max_retries - job.attempts) + left cfg.max_retries others

  put_back-IsPicked :
      (x : QueuedJob) (xs : List QueuedJob) (job : QueuedJob) (others : List QueuedJob)
      (r : Option (QueuedJob × List QueuedJob))
      → Below x
      → ((j : QueuedJob) (o : List QueuedJob) → r ≡ some (j, o) → IsPicked j o xs)
      → put_back x r ≡ some (job, others)
      → IsPicked job others (x ∷ xs)
  unfolding put_back
  put_back-IsPicked x xs job others none b h e = cc
  put_back-IsPicked x xs job others (some (j, o)) b h e =
      let p = h j o refl in
      let same : j ≡ job = cc in
      let rest : x ∷ o ≡ others = cc in
      subst₂ (λ j o. IsPicked j o (x ∷ xs)) same rest
        (record {
          below = p.below;
          others_below = (b, p.others_below);
          shorter = omega (arith, p.shorter);
          split = omega (arith, p.split);
        })

  pub pick-IsPicked :
      (i : ℕ) (held : List QueuedJob) (job : QueuedJob) (others : List QueuedJob)
      → All Below held
      → pick i held ≡ some (job, others)
      → IsPicked job others held
  unfolding pick
  pick-IsPicked i [] job others h e = cc
  pick-IsPicked zero (x ∷ xs) job others h e =
      let first : x ≡ job = cc in
      let rest : xs ≡ others = cc in
      subst₂ (λ j o. IsPicked j o (x ∷ xs)) first rest
        (record { below = h.0; others_below = h.1; shorter = refl; split = refl })
  pick-IsPicked (suc i) (x ∷ xs) job others h e =
      put_back-IsPicked x xs job others (pick i xs) h.0 (λ j o p. pick-IsPicked i xs j o h.1 p) e
