-- ===== src/Miner/Failure/Defaults.antt =====
-- The rules of a new installation: each is there once the set-up has run, and running it again
-- adds nothing.
use filecoin_sealer.Prelude.{
  ℕ, suc, ◌≡◌, refl, sym, ap, subst, ◌∙◌, ◌⊎◌, inl, inr, true, false, List, [], ◌∷◌, ◌++◌, arith,
  Member, Member-append_left, All, All-Member, none,
}
use filecoin_sealer.Tables.{
  DbTaskFailed, ExecType, exec_retry, exec_next, exec_other, type_asks_refl, text_asks_refl,
  int_asks_refl,
}
use filecoin_sealer.Database.{
  Db, not_found, failed, Result, ok, err, Engine, Env, >>=-eq-ok, transaction, committed,
  uncommitted, aborted, transaction_committed, Outcome, AlwaysCommits,
}
use filecoin_sealer.Miner.Failure.Defs.{
  exec_asks, same_rule, first_or_create, add_rules, default_rules, init_db_task_failed, init_answer,
}

exec_asks_refl : (e : ExecType) → exec_asks e e ≡ true
unfolding exec_asks
exec_asks_refl exec_retry = refl
exec_asks_refl exec_next = refl
exec_asks_refl (exec_other s) = text_asks_refl s

-- Some row of the table is this rule.
abbrev pub HasRule : List DbTaskFailed → DbTaskFailed → Type 0
HasRule rows w = (f : DbTaskFailed) × Member f rows × (same_rule w f ≡ true)

pub same_rule_refl : (w : DbTaskFailed) → same_rule w w ≡ true
unfolding same_rule
same_rule_refl w = simp (type_asks_refl, exec_asks_refl, text_asks_refl, int_asks_refl)

-- A row that is created holds what was written: its condition finds it.
abbrev pub KeepsRules : Engine DbTaskFailed → Type 0
KeepsRules e = (t : ℕ) (w : DbTaskFailed) → same_rule w (e.fill t w) ≡ true

Member-append_last : {A : Type 0} (x : A) (xs : List A) → Member x (xs ++ x ∷ [])
Member-append_last x [] = inl refl
Member-append_last x (y ∷ xs) = inr (Member-append_last x xs)

module _ (env : Env) (w : DbTaskFailed) (db db' : Db) where
  create_adds :
      (r : Result DbTaskFailed)
      → env.fails.first db.clock (same_rule w) db.task_faileds ≡ r
      → first_or_create env w db ≡ (ok tt, db')
      → (((f : DbTaskFailed) × (r ≡ ok f)) × (db'.task_faileds ≡ db.task_faileds))
        ⊎ ((r ≡ err not_found)
            × (db'.task_faileds ≡ db.task_faileds ++ env.fails.fill (suc db.clock) w ∷ []))
  create_adds (ok f) e h = inl ((f, refl), ground arith)
  create_adds (err not_found) e h = inr (
    refl,
    env.fails.insert_sound (suc db.clock) w db.task_faileds db'.task_faileds (ground arith),
  )
  create_adds (err (failed s)) e h = absurd (ground arith)

  -- One step of the loop adds its rule, and keeps the others.
  first_or_create-HasRule :
      KeepsRules env.fails
      → first_or_create env w db ≡ (ok tt, db')
      → HasRule db'.task_faileds w
        × ((v : DbTaskFailed) → HasRule db.task_faileds v → HasRule db'.task_faileds v)
  first_or_create-HasRule keeps h =
      elim (create_adds (env.fails.first db.clock (same_rule w) db.task_faileds) refl h) [
        | inl ((f, found), same) ↦
            let (there, fits) = env.fails.first_sound _ _ _ _ found in
            (rw same (f, there, fits), λ v has. rw same has)
        | inr (missing, more) ↦
            let new = env.fails.fill (suc db.clock) w in
            (
              rw more (new, Member-append_last new db.task_faileds, keeps (suc db.clock) w),
              λ v has. rw more (has.0, Member-append_left has.0 db.task_faileds _ has.1, has.2),
            )
      ]

  -- A rule that is there is not added again.
  first_or_create_again :
      HasRule db.task_faileds w
      → first_or_create env w db ≡ (ok tt, db')
      → db'.task_faileds ≡ db.task_faileds
  first_or_create_again (f, there, fits) h =
      elim (create_adds (env.fails.first db.clock (same_rule w) db.task_faileds) refl h) [
        | inl (found, same) ↦ same
        | inr (missing, more) ↦ absurd (
            cc (
              fits,
              All-Member (λ x. same_rule w x ≡ false) f db.task_faileds
                  (env.fails.first_missing _ _ _ missing) there,
            ))
      ]

add_rules-HasRule :
    (env : Env) (ws : List DbTaskFailed) (db db' : Db)
    → KeepsRules env.fails
    → add_rules env ws db ≡ (ok tt, db')
    → All (HasRule db'.task_faileds) ws
      × ((v : DbTaskFailed) → HasRule db.task_faileds v → HasRule db'.task_faileds v)
unfolding add_rules
add_rules-HasRule env [] db db' keeps h = (tt, λ v has. rw (ap (λ p. p.1.task_faileds) (sym h)) has)
add_rules-HasRule env (w ∷ ws) db db' keeps h =
    let (_, d, one, rest) = >>=-eq-ok (first_or_create env w) (λ _. add_rules env ws) tt db db' h in
    let (new, old) = first_or_create-HasRule env w db d keeps one in
    let (more, kept) = add_rules-HasRule env ws d db' keeps rest in
    ((kept w new, more), λ v has. kept v (old v has))

add_rules_again :
    (env : Env) (ws : List DbTaskFailed) (db db' : Db)
    → All (HasRule db.task_faileds) ws
    → add_rules env ws db ≡ (ok tt, db')
    → db'.task_faileds ≡ db.task_faileds
unfolding add_rules
add_rules_again env [] db db' all h = ap (λ p. p.1.task_faileds) (sym h)
add_rules_again env (w ∷ ws) db db' all h =
    let (_, d, one, rest) = >>=-eq-ok (first_or_create env w) (λ _. add_rules env ws) tt db db' h in
    let same = first_or_create_again env w db d all.0 one in
    add_rules_again env ws d db' (subst (λ rows. All (HasRule rows) ws) (sym same) all.1) rest
    ∙ same

init_committed :
    (env : Env) (db db' : Db) (o : Outcome (Unit {0}) × Db)
    → transaction env (add_rules env default_rules) db ≡ o
    → AlwaysCommits env
    → init_answer env o ≡ (none, db')
    → transaction env (add_rules env default_rules) db ≡ (committed tt, db')
init_committed env db db' (committed x, d) e c h = ground arith
init_committed env db db' (uncommitted x f, d) e c h =
    absurd (ground (arith, c (add_rules env default_rules db).1.clock))
init_committed env db db' (aborted f, d) e c h = cc

module _ (env : Env) (db db' : Db) (commits : AlwaysCommits env) where
  -- If the database keeps the values of a new rule, then after a set-up without an error every
  -- default rule is in the table or has one there that it matches.
  pub init_db_task_failed-HasRule :
      KeepsRules env.fails
      → init_db_task_failed env db ≡ (none, db')
      → All (HasRule db'.task_faileds) default_rules
  unfolding init_db_task_failed
  init_db_task_failed-HasRule keeps h =
      let done = init_committed env db db' _ refl commits h in
      let (ran, same) = transaction_committed env (add_rules env default_rules) db db' tt done in
      subst (λ rows. All (HasRule rows) default_rules) (sym same.fails_same)
        (add_rules-HasRule env default_rules db (add_rules env default_rules db).1 keeps
          (λ i. (ran i, (add_rules env default_rules db).1))).0

  -- A set-up without an error over a table that has every default rule leaves that table as it was.
  pub init_db_task_failed_again :
      All (HasRule db.task_faileds) default_rules
      → init_db_task_failed env db ≡ (none, db')
      → db'.task_faileds ≡ db.task_faileds
  unfolding init_db_task_failed
  init_db_task_failed_again all h =
      let done = init_committed env db db' _ refl commits h in
      let (ran, same) = transaction_committed env (add_rules env default_rules) db db' tt done in
      same.fails_same
      ∙ add_rules_again env default_rules db (add_rules env default_rules db).1 all
          (λ i. (ran i, (add_rules env default_rules db).1))
