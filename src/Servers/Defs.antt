-- ===== src/Servers/Defs.antt =====
-- miner/server.go and worker/server.go: AddToServer, DeleteFromServer, DisplayServer and the rounds of
-- Server, which both make every 30 seconds over the entries of ActorTask.
use filecoin_sealer.Prelude.{
  String, List, [], ◌∷◌, ◌++◌, map, Option, none, some, ℤ, eq_ℤ, if◌then◌else◌,
}
use filecoin_sealer.Tables.{TaskType, pc1, pc2, c1, c2}
use filecoin_sealer.Miner.Send.{Kind, pre_commit, prove_commit}

-- What a caller or the server itself does.
pub data ServerEvent (V : Type 0) : Type 0 where
  added : ℤ → V → ServerEvent V
  deleted : ℤ → ServerEvent V
  round : ServerEvent V

module _ {V : Type 0} where
  unfoldable pub add_to_server : ℤ → V → List (ℤ × V) → List (ℤ × V)
  add_to_server actor v [] = (actor, v) ∷ []
  add_to_server actor v ((a, w) ∷ m) =
      if eq_ℤ a actor then (actor, v) ∷ m else (a, w) ∷ add_to_server actor v m

  unfoldable pub delete_from_server : ℤ → List (ℤ × V) → List (ℤ × V)
  delete_from_server actor [] = []
  delete_from_server actor ((a, w) ∷ m) =
      if eq_ℤ a actor then delete_from_server actor m else (a, w) ∷ delete_from_server actor m

  -- `ActorTask[actor]`
  unfoldable pub actor_task : ℤ → List (ℤ × V) → Option V
  actor_task actor [] = none
  actor_task actor ((a, w) ∷ m) = if eq_ℤ a actor then some w else actor_task actor m

  abbrev pub after_event : ServerEvent V → List (ℤ × V) → List (ℤ × V)
  after_event (added a v) m = add_to_server a v m
  after_event (deleted a) m = delete_from_server a m
  after_event round m = m

  unfoldable pub after_events : List (ServerEvent V) → List (ℤ × V) → List (ℤ × V)
  unfolding add_to_server delete_from_server
  after_events [] m = m
  after_events (e ∷ es) m = after_events es (after_event e m)

  -- `for actorID, … := range ActorTask`
  abbrev pub over_actors : {S : Type 0} → (ℤ → V → List S) → List (ℤ × V) → List S
  over_actors starts [] = []
  over_actors starts ((a, v) ∷ m) = starts a v ++ over_actors starts m

-- What the miner's server starts, for any sector of the actor.
pub data MinerStart : Type 0 where
  seed_of : ℤ → MinerStart
  send_of : Kind → String → ℤ → MinerStart

abbrev pub miner_starts : ℤ → String → List MinerStart
miner_starts actor key =
    seed_of actor ∷ send_of prove_commit key actor ∷ send_of pre_commit key actor ∷ []

unfoldable pub miner_round : List (ℤ × String) → List MinerStart
miner_round m = over_actors miner_starts m

-- `DisplayServer` of the miner
unfoldable pub miner_display : List (ℤ × String) → List ℤ
miner_display m = map (λ e. e.0) m

-- What the worker's server starts, for any sector of the actor: a stage that is not the worker's is
-- passed over.
pub record WorkerStart : Type 0 where
  pub actor : ℤ
  pub stage : TaskType

abbrev pub worker_start : ℤ → TaskType → List WorkerStart
worker_start actor pc1 = record { actor = actor; stage = pc1 } ∷ []
worker_start actor pc2 = record { actor = actor; stage = pc2 } ∷ []
worker_start actor c1 = record { actor = actor; stage = c1 } ∷ []
worker_start actor c2 = record { actor = actor; stage = c2 } ∷ []
worker_start actor _ = []

unfoldable pub worker_starts : ℤ → List TaskType → List WorkerStart
worker_starts actor [] = []
worker_starts actor (t ∷ ts) = worker_start actor t ++ worker_starts actor ts

unfoldable pub worker_round : List (ℤ × List TaskType) → List WorkerStart
unfolding worker_starts
worker_round m = over_actors worker_starts m
