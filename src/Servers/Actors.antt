-- ===== src/Servers/Actors.antt =====
-- miner/server.go and worker/server.go: the entries of ActorTask after any calls, and what is started for
-- them.
use filecoin_sealer.Prelude.{
  ◌≡◌, refl, sym, ap, subst, ◌∙◌, List, [], ◌∷◌, Option, none, some, ℤ, eq_ℤ, eq_ℤ_iff, eq_ℤ_refl,
  if◌then◌else◌, inl, inr, ◌↔◌, Member, Member-append_left, Member-append_right, Member-append,
  Bool-cases, arith,
}
use filecoin_sealer.Servers.Defs.{
  ServerEvent, added, deleted, round, add_to_server, delete_from_server, actor_task, after_events,
  over_actors,
}

module _ {V : Type 0} where
  -- What the actor was added with last, if it was not deleted since.
  abbrev pub last_added : ℤ → List (ServerEvent V) → Option V → Option V
  last_added x [] o = o
  last_added x (added a v ∷ es) o = last_added x es (if eq_ℤ a x then some v else o)
  last_added x (deleted a ∷ es) o = last_added x es (if eq_ℤ a x then none else o)
  last_added x (round ∷ es) o = last_added x es o

  task-add :
      (x a : ℤ) (v : V) (m : List (ℤ × V))
      → actor_task x (add_to_server a v m) ≡ (if eq_ℤ a x then some v else actor_task x m)
  unfolding actor_task add_to_server
  task-add x a v [] = refl
  task-add x a v ((b, w) ∷ m) =
      ground (arith, task-add x a v m, eq_ℤ_iff b a, eq_ℤ_iff b x, eq_ℤ_iff a x)

  task-delete :
      (x a : ℤ) (m : List (ℤ × V))
      → actor_task x (delete_from_server a m) ≡ (if eq_ℤ a x then none else actor_task x m)
  unfolding actor_task delete_from_server
  task-delete x a [] = ground arith
  task-delete x a ((b, w) ∷ m) =
      ground (arith, task-delete x a m, eq_ℤ_iff b a, eq_ℤ_iff b x, eq_ℤ_iff a x)

  task-after_events :
      (x : ℤ) (es : List (ServerEvent V)) (m : List (ℤ × V))
      → actor_task x (after_events es m) ≡ last_added x es (actor_task x m)
  unfolding after_events
  task-after_events x [] m = refl
  task-after_events x (added a v ∷ es) m =
      task-after_events x es (add_to_server a v m) ∙ ap (last_added x es) (task-add x a v m)
  task-after_events x (deleted a ∷ es) m =
      task-after_events x es (delete_from_server a m) ∙ ap (last_added x es) (task-delete x a m)
  task-after_events x (round ∷ es) m = task-after_events x es m

  -- Each actor has one entry.
  abbrev IsMap : List (ℤ × V) → Type 0
  IsMap [] = Unit
  IsMap ((a, v) ∷ m) = (actor_task a m ≡ none) × IsMap m

  add-IsMap : (a : ℤ) (v : V) (m : List (ℤ × V)) → IsMap m → IsMap (add_to_server a v m)
  unfolding add_to_server actor_task
  add-IsMap a v [] k = (refl, tt)
  add-IsMap a v ((b, w) ∷ m) (fresh, k) = elim (Bool-cases (eq_ℤ b a)) [
    | inl e ↦ rw e (ap (λ x. actor_task x m) (sym ((eq_ℤ_iff b a).0 e)) ∙ fresh, k)
    | inr e ↦
        rw e
          (ground (arith, task-add b a v m, fresh, eq_ℤ_iff b a, eq_ℤ_iff a b), add-IsMap a v m k)
  ]

  delete-IsMap : (a : ℤ) (m : List (ℤ × V)) → IsMap m → IsMap (delete_from_server a m)
  unfolding delete_from_server
  delete-IsMap a [] k = tt
  delete-IsMap a ((b, w) ∷ m) (fresh, k) = elim (Bool-cases (eq_ℤ b a)) [
    | inl e ↦ rw e (delete-IsMap a m k)
    | inr e ↦ rw e (ground (arith, task-delete b a m, fresh), delete-IsMap a m k)
  ]

  after_events-IsMap :
      (es : List (ServerEvent V)) (m : List (ℤ × V)) → IsMap m → IsMap (after_events es m)
  unfolding after_events
  after_events-IsMap [] m k = k
  after_events-IsMap (added a v ∷ es) m k = after_events-IsMap es _ (add-IsMap a v m k)
  after_events-IsMap (deleted a ∷ es) m k = after_events-IsMap es _ (delete-IsMap a m k)
  after_events-IsMap (round ∷ es) m k = after_events-IsMap es m k

  module _ {S : Type 0} (starts : ℤ → V → List S) (s : S) where
    abbrev pub Started : List (ℤ × V) → Type 0
    Started m = (a : ℤ) × (v : V) × (actor_task a m ≡ some v) × Member s (starts a v)

    over_actors-Started : (m : List (ℤ × V)) → IsMap m → Member s (over_actors starts m) → Started m
    unfolding actor_task
    over_actors-Started [] k h = absurd h
    over_actors-Started ((a, v) ∷ m) (fresh, k) h =
        elim (Member-append s (starts a v) (over_actors starts m) h) [
          | inl here ↦ (a, v, rw (eq_ℤ_refl a), here)
          | inr later ↦
              let (b, w, e, there) = over_actors-Started m k later in
              (b, w, ground (arith, e, fresh, eq_ℤ_iff a b), there)
        ]

    Started-over_actors :
        (m : List (ℤ × V)) (a : ℤ) (v : V)
        → actor_task a m ≡ some v
        → Member s (starts a v)
        → Member s (over_actors starts m)
    unfolding actor_task
    Started-over_actors [] a v e h = cc
    Started-over_actors ((b, w) ∷ m) a v e h = elim (Bool-cases (eq_ℤ b a)) [
      | inl same ↦
          let at : w ≡ v = cc (rw same at e) in
          Member-append_left s (starts b w) (over_actors starts m) (
            subst (λ x. Member s (starts x w)) (sym ((eq_ℤ_iff b a).0 same))
              (subst (λ x. Member s (starts a x)) (sym at) h))
      | inr other ↦
          Member-append_right s (starts b w) (over_actors starts m)
            (Started-over_actors m a v (rw other at e) h)
    ]

    -- After any calls and rounds, a server starts what the last addition of each actor asks for, and
    -- nothing else.
    pub over_actors_lem :
        (es : List (ServerEvent V))
        → Member s (over_actors starts (after_events es []))
          ↔ ((a : ℤ) × (v : V) × (last_added a es none ≡ some v) × Member s (starts a v))
    unfolding actor_task
    over_actors_lem es = (
      λ h.
          let (a, v, e, m) =
            over_actors-Started (after_events es []) (after_events-IsMap es [] tt) h in
          (a, v, sym (task-after_events a es []) ∙ e, m),
      λ h. Started-over_actors (after_events es []) h.0 h.1 (task-after_events h.0 es [] ∙ h.2) h.3,
    )
