-- ===== src/Servers/Rounds.antt =====
-- miner/server.go and worker/server.go: a round starts the work of the actors that were added last, and
-- of no other.
use filecoin_sealer.Prelude.{
  ◌≡◌, refl, sym, ap, subst, ◌∙◌, String, List, [], ◌∷◌, none, some, ℤ, ◌⊎◌, inl, inr, ◌↔◌, Member,
  Member-append_left, Member-append_right, Member-append,
}
use filecoin_sealer.Tables.{TaskType, pc1, pc2, c1, c2}
use filecoin_sealer.Miner.Send.{Kind, pre_commit, prove_commit}
use filecoin_sealer.Servers.Defs.{
  ServerEvent, after_events, send_of, miner_starts, miner_round, WorkerStart, worker_start,
  worker_starts, worker_round,
}
use filecoin_sealer.Servers.Actors.{last_added, over_actors_lem}

sends_own :
    (k : Kind) (key v : String) (a b : ℤ)
    → Member (send_of k key a) (miner_starts b v)
    → (a ≡ b) × (key ≡ v)
sends_own k key v a b (inl e) = cc
sends_own k key v a b (inr (inl e)) = (cc, cc)
sends_own k key v a b (inr (inr (inl e))) = (cc, cc)
sends_own k key v a b (inr (inr (inr e))) = absurd e

own_sends : (k : Kind) (key : String) (a : ℤ) → Member (send_of k key a) (miner_starts a key)
own_sends prove_commit key a = inr (inl refl)
own_sends pre_commit key a = inr (inr (inl refl))

-- After any additions, deletions and rounds, a round of the miner's server sends both messages of an actor
-- with a key exactly when the actor was added with that key last, and not deleted since.
pub miner_round-sends :
    (es : List (ServerEvent String)) (k : Kind) (key : String) (a : ℤ)
    → Member (send_of k key a) (miner_round (after_events es []))
      ↔ (last_added a es none ≡ some key)
unfolding miner_round
miner_round-sends es k key a =
    let served = over_actors_lem miner_starts (send_of k key a) es in
    (
      λ h.
          let (b, v, e, m) = served.0 h in
          let (same, keys) = sends_own k key v a b m in
          subst (λ x. last_added x es none ≡ some key) (sym same) (e ∙ ap some (sym keys)),
      λ e. served.1 (a, key, e, own_sends k key a),
    )

-- The stages that the worker's server knows.
abbrev pub IsWorkers : TaskType → Type 0
IsWorkers t = (t ≡ pc1) ⊎ ((t ≡ pc2) ⊎ ((t ≡ c1) ⊎ (t ≡ c2)))

one_start :
    (r : WorkerStart) (b : ℤ) (t : TaskType)
    → Member r (worker_start b t)
    → (r.actor ≡ b) × (r.stage ≡ t) × IsWorkers t
one_start r b pc1 (inl e) = (ap (λ x. x.actor) e, ap (λ x. x.stage) e, inl refl)
one_start r b pc2 (inl e) = (ap (λ x. x.actor) e, ap (λ x. x.stage) e, inr (inl refl))
one_start r b c1 (inl e) = (ap (λ x. x.actor) e, ap (λ x. x.stage) e, inr (inr (inl refl)))
one_start r b c2 (inl e) = (ap (λ x. x.actor) e, ap (λ x. x.stage) e, inr (inr (inr refl)))
one_start r b pc1 (inr e) = absurd e
one_start r b pc2 (inr e) = absurd e
one_start r b c1 (inr e) = absurd e
one_start r b c2 (inr e) = absurd e
one_start r b _ e = absurd e

start_one :
    (a : ℤ) (t : TaskType)
    → IsWorkers t
    → Member (record { actor = a; stage = t }) (worker_start a t)
start_one a t (inl e) =
    subst (λ x. Member (record { actor = a; stage = x }) (worker_start a x)) (sym e) (inl refl)
start_one a t (inr (inl e)) =
    subst (λ x. Member (record { actor = a; stage = x }) (worker_start a x)) (sym e) (inl refl)
start_one a t (inr (inr (inl e))) =
    subst (λ x. Member (record { actor = a; stage = x }) (worker_start a x)) (sym e) (inl refl)
start_one a t (inr (inr (inr e))) =
    subst (λ x. Member (record { actor = a; stage = x }) (worker_start a x)) (sym e) (inl refl)

starts_own :
    (r : WorkerStart) (b : ℤ) (ts : List TaskType)
    → Member r (worker_starts b ts)
    → (r.actor ≡ b) × Member r.stage ts × IsWorkers r.stage
unfolding worker_starts
starts_own r b [] h = absurd h
starts_own r b (t ∷ ts) h = elim (Member-append r (worker_start b t) (worker_starts b ts) h) [
  | inl here ↦
      let (actor, stage, w) = one_start r b t here in
      (actor, inl stage, subst IsWorkers (sym stage) w)
  | inr later ↦ let (actor, m, w) = starts_own r b ts later in (actor, inr m, w)
]

own_starts :
    (a : ℤ) (t : TaskType) (ts : List TaskType)
    → Member t ts
    → IsWorkers t
    → Member (record { actor = a; stage = t }) (worker_starts a ts)
unfolding worker_starts
own_starts a t [] m w = absurd m
own_starts a t (u ∷ ts) (inl e) w =
    Member-append_left _ (worker_start a u) (worker_starts a ts)
      (subst (λ x. Member (record { actor = a; stage = t }) (worker_start a x)) e (start_one a t w))
own_starts a t (u ∷ ts) (inr m) w =
    Member-append_right _ (worker_start a u) (worker_starts a ts) (own_starts a t ts m w)

-- After any additions, deletions and rounds, a round of the worker's server starts a stage of an actor
-- exactly when the tasks that the actor was added with last have it, and it is one of the worker's.
pub worker_round-starts :
    (es : List (ServerEvent (List TaskType))) (a : ℤ) (t : TaskType)
    → Member (record { actor = a; stage = t }) (worker_round (after_events es []))
      ↔ ((ts : List TaskType) × (last_added a es none ≡ some ts) × Member t ts × IsWorkers t)
unfolding worker_round
worker_round-starts es a t =
    let served = over_actors_lem worker_starts (record { actor = a; stage = t }) es in
    (
      λ h.
          let (b, ts, e, m) = served.0 h in
          let (same, there, w) = starts_own (record { actor = a; stage = t }) b ts m in
          (ts, subst (λ x. last_added x es none ≡ some ts) (sym same) e, there, w),
      λ h. served.1 (a, h.0, h.1, own_starts a t h.0 h.2 h.3),
    )
