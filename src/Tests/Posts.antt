-- ===== src/Tests/Posts.antt =====
-- Tests of the collectors of the miner, and their properties at concrete inputs: the sectors 5, 6 and 7
-- of one actor's partition.
use filecoin_sealer.Prelude.{
  ℕ, ◌≡◌, refl, ◌-ℤ◌, List, [], ◌∷◌, Member, Option, none, some, pos, str_eq,
}
use filecoin_sealer.Window.Listed.{listed}
use filecoin_sealer.Window.Data.{PostTransfer, to_int64}
use filecoin_sealer.Window.Collect.{collected_new, take_transfer}
use filecoin_sealer.Window.Posts.{
  Posts, Collector, post_info, miner_not_handle, new_sync_post_map, start_submit_post, abort_post,
  take_next, stop, submit, take, time_out, PostSteps, here, next, slot,
}
use filecoin_sealer.Window.Posts.Running.{one_collector}
use filecoin_sealer.Window.Posts.Dead.{dead_partition}
use filecoin_sealer.Tests.Window.{message_of}

ready : Unit {0}
unfolding str_eq to_int64 take_transfer start_submit_post abort_post take_next ◌-ℤ◌
ready = tt

abbrev first : PostTransfer (List ℕ)
first = message_of "w1" (5 ∷ []) (record { sector_num = 5; proof = 5 ∷ [] } ∷ [])

abbrev rest : PostTransfer (List ℕ)
rest = message_of "w2" (6 ∷ 7 ∷ []) []

-- The first message starts a goroutine, which takes it and waits for the others.
abbrev submitted : Posts (List ℕ)
submitted = (start_submit_post listed first new_sync_post_map).1

abbrev taken : Posts (List ℕ)
taken = take_next listed 0 submitted

abbrev taken-PostSteps : PostSteps listed new_sync_post_map taken
taken-PostSteps = next (next here (submit first)) (take 0)

abbrev timed_out : Posts (List ℕ)
timed_out = stop 0 taken

abbrev timed_out-PostSteps : PostSteps listed new_sync_post_map timed_out
timed_out-PostSteps = next taken-PostSteps (time_out 0)

-- A message that comes late is accepted, and stays in the channel.
abbrev late : Posts (List ℕ)
late = (start_submit_post listed rest timed_out).1

accepted : (start_submit_post listed rest timed_out).0 ≡ post_info "f01000" 3 (pos 0)
unfolding ready
accepted = refl

unread : late.buffered 0 ≡ rest ∷ []
unfolding ready
unread = refl

-- A worker's error is not handled.
refused :
    start_submit_post listed (record first { err = "no files" }) taken ≡ (miner_not_handle, taken)
unfolding ready
refused = refl

-- When the second worker's message comes in time the loop ends, and the partition is free again.
free : slot (take_next listed 0 (start_submit_post listed rest taken).1) "f01000" (pos 0) ≡ none
unfolding ready
free = refl

abbrev the : Option (Collector (List ℕ)) → Collector (List ℕ)
the (some r) = r
the none = record { addr_info = ""; addr_type = ""; duration = pos 0; vars = collected_new listed }

abbrev goroutine : Collector (List ℕ)
goroutine = the (taken.collecting 0)

runs : taken.collecting 0 ≡ some goroutine
unfolding ready
runs = refl

knows : goroutine.vars.actor ≡ some "f01000"
unfolding ready
knows = refl

one_collector_example : ◌≡◌ {A = ℕ} 0 0
one_collector_example =
    one_collector listed taken 0 0 goroutine goroutine "f01000" taken-PostSteps runs runs knows
      knows refl

holds : slot timed_out "f01000" (pos 0) ≡ some 0
unfolding ready
holds = refl

ended : timed_out.collecting 0 ≡ none
unfolding ready
ended = refl

dead_partition_example :
    (slot late "f01000" (pos 0) ≡ some 0)
    × (late.collecting 0 ≡ none)
    × ((d : ℕ) (r : Collector (List ℕ))
        → late.collecting d ≡ some r
        → r.vars.actor ≡ some "f01000"
        → r.vars.index ≡ pos 0
        → ⊥)
    × ((r : Collector (List ℕ))
        → Member r late.proving
        → r.vars.actor ≡ some "f01000"
        → r.vars.index ≡ pos 0
        → Member r timed_out.proving)
dead_partition_example =
    dead_partition listed "f01000" (pos 0) 0 timed_out late timed_out-PostSteps holds ended
      (next here (submit rest))
