-- ===== src/Tests/Servers.antt =====
-- Tests of the task servers, and their properties at concrete inputs.
use filecoin_sealer.Prelude.{◌≡◌, refl, String, List, [], ◌∷◌, pos, some, none, ◌↔◌, Member}
use filecoin_sealer.Tables.{TaskType, pc1, c2, seed}
use filecoin_sealer.Servers.{
  ServerEvent, added, deleted, round, add_to_server, delete_from_server, actor_task, after_events,
  miner_round, miner_display, worker_starts, worker_round,
}
use filecoin_sealer.Servers.Actors.{last_added}
use filecoin_sealer.Servers.Rounds.{IsWorkers, worker_round-starts}

ready : Unit {0}
unfolding add_to_server delete_from_server actor_task after_events miner_round miner_display
    worker_starts worker_round
ready = tt

abbrev miner_events : List (ServerEvent String)
miner_events =
    added (pos 1000) "old"
    ∷ added (pos 2000) "other"
    ∷ round
    ∷ added (pos 1000) "new"
    ∷ deleted (pos 2000)
    ∷ []

served : miner_display (after_events miner_events []) ≡ pos 1000 ∷ []
unfolding ready
served = refl

abbrev worker_events : List (ServerEvent (List TaskType))
worker_events = added (pos 1000) (pc1 ∷ seed ∷ c2 ∷ []) ∷ []

worker_serves :
    worker_round (after_events worker_events [])
    ≡ record { actor = pos 1000; stage = pc1 } ∷ record { actor = pos 1000; stage = c2 } ∷ []
unfolding ready
worker_serves = refl

worker_round-starts_example :
    Member (record { actor = pos 1000; stage = c2 }) (worker_round (after_events worker_events []))
    ↔ ((ts : List TaskType) × (last_added (pos 1000) worker_events none ≡ some ts)
        × Member c2 ts
        × IsWorkers c2)
worker_round-starts_example = worker_round-starts worker_events (pos 1000) c2
