-- ===== src/Worker/Slots/Balance.antt =====
-- Slots that are taken are within the limit, and come back.
use filecoin_sealer.Prelude.{
  ◌≡◌, refl, ◌≢◌, Option, eq_ℤ_iff, ◌<ℤ◌, ◌⊎◌, none, some, ℤ, pos, eq_ℤ, leb_ℤ, ◌+ℤ◌, ◌-ℤ◌, ◌≤ℤ◌,
  if◌then◌else◌, arith,
}
use filecoin_sealer.Tables.{TaskType, task_eq_refl, task_eq→eq}
use filecoin_sealer.Worker.Slots.Defs.{Slots, returned, unlimited, increment_task, decrement_task}

-- A stage with a limit (none, if it is -1) and a counter between zero and the limit.
pub record IsBounded (t : TaskType) (s : Slots) : Type 0 where
  pub limit : ℤ
  pub count : ℤ
  pub has_limit : s.task_limit t ≡ some limit
  pub has_count : s.task_run t ≡ some count
  pub not_below : pos 0 ≤ℤ count
  pub not_above : (limit ≡ unlimited) ⊎ (count ≤ℤ limit)

-- Taking a slot keeps the counter between zero and the limit, if the stage is limited.
pub increment_task-IsBounded :
    (t : TaskType) (s : Slots) → IsBounded t s → IsBounded t (increment_task t s).1
unfolding increment_task ◌+ℤ◌
increment_task-IsBounded t s b = record {
  limit = b.limit;
  count =
      if eq_ℤ b.limit unlimited
      then b.count
      else if leb_ℤ b.limit b.count
      then b.count
      else b.count +ℤ pos 1;
  has_limit = ground (arith, b.has_limit);
  has_count = ground (arith, b.has_limit, b.has_count, task_eq_refl t);
  not_below = ground (arith, b.not_below);
  not_above = ground (arith, b.not_above);
}

-- A slot was granted: when the stage has a limit, its counter was below it and is now one higher, and
-- when it has none, its counter is as it was.
pub record IsTaken (t : TaskType) (s s' : Slots) : Type 0 where
  pub limited :
      (limit : ℤ)
      → s.task_limit t ≡ some limit
      → limit ≢ unlimited
      → (n : ℤ) × (s.task_run t ≡ some n) × (n <ℤ limit) × (s'.task_run t ≡ some (n +ℤ pos 1))
  pub without_limit : s.task_limit t ≡ some unlimited → s'.task_run t ≡ s.task_run t

module _ (t : TaskType) (s : Slots) where
  no_counter :
      (limit : ℤ)
      → s.task_limit t ≡ some limit
      → limit ≢ unlimited
      → s.task_run t ≡ none
      → (increment_task t s).0 ≢ returned none
  unfolding increment_task
  no_counter limit e apart ec h = ground (arith, e, ec, eq_ℤ_iff limit unlimited)

  counted :
      (limit n : ℤ)
      → s.task_limit t ≡ some limit
      → limit ≢ unlimited
      → s.task_run t ≡ some n
      → (increment_task t s).0 ≡ returned none
      → (n <ℤ limit) × ((increment_task t s).1.task_run t ≡ some (n +ℤ pos 1))
  unfolding increment_task
  counted limit n e apart ec h = (
    ground (arith, e, ec, eq_ℤ_iff limit unlimited),
    ground (arith, e, ec, task_eq_refl t, eq_ℤ_iff limit unlimited),
  )

  unlimited_same :
      s.task_limit t ≡ some unlimited → (increment_task t s).1.task_run t ≡ s.task_run t
  unfolding increment_task
  unlimited_same e = ground (arith, e)

pub increment_task-IsTaken :
    (t : TaskType) (s : Slots)
    → (increment_task t s).0 ≡ returned none
    → IsTaken t s (increment_task t s).1
increment_task-IsTaken t s h = record {
  limited = λ limit e apart. by_count limit e apart (s.task_run t) refl;
  without_limit = λ e. no_limit e;
}
  where
    by_count :
        (limit : ℤ)
        → s.task_limit t ≡ some limit
        → limit ≢ unlimited
        → (c : Option ℤ) → s.task_run t ≡ c
        → (n : ℤ) × (s.task_run t ≡ some n)
          × (n <ℤ limit)
          × ((increment_task t s).1.task_run t ≡ some (n +ℤ pos 1))
    by_count limit e apart none ec = absurd (no_counter t s limit e apart ec h)
    by_count limit e apart (some n) ec =
        let (below, up) = counted t s limit n e apart ec h in (n, ec, below, up)

    no_limit : s.task_limit t ≡ some unlimited → (increment_task t s).1.task_run t ≡ s.task_run t
    no_limit e = unlimited_same t s e

-- Giving a slot back keeps the counter between zero and the limit, if the stage is limited.
pub decrement_task-IsBounded :
    (t : TaskType) (s : Slots) → IsBounded t s → IsBounded t (decrement_task t s).1
unfolding decrement_task ◌-ℤ◌
decrement_task-IsBounded t s b = record {
  limit = b.limit;
  count =
      if eq_ℤ b.limit unlimited
      then b.count
      else if eq_ℤ (pos 0) b.count
      then b.count
      else b.count -ℤ pos 1;
  has_limit = ground (arith, b.has_limit);
  has_count = ground (arith, b.has_limit, b.has_count, task_eq_refl t);
  not_below = ground (arith, b.not_below);
  not_above = ground (arith, b.not_above);
}

-- From a counter in its range, a slot that was taken without an error and then given back leaves
-- the counter of every stage as it was.
pub increment-decrement :
    (t u : TaskType) (s : Slots)
    → IsBounded t s
    → (increment_task t s).0 ≡ returned none
    → (decrement_task t (increment_task t s).1).1.task_run u ≡ s.task_run u
unfolding increment_task decrement_task ◌-ℤ◌ ◌+ℤ◌
increment-decrement t u s b h = ground (arith, task_eq_refl t, task_eq→eq t u)
