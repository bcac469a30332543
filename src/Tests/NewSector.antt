-- ===== src/Tests/NewSector.antt =====
-- Tests of AddTask and GetTicket.
use filecoin_sealer.Prelude.{got, ◌≡◌, refl, [], ◌∷◌, pos, ◌-ℤ◌, map}
use filecoin_sealer.Tables.{pc1}
use filecoin_sealer.Database.{Db, memory_env}
use filecoin_sealer.Miner.NewSector.{TicketCalls, Ticket, ticket, task_to_add, add_task, get_ticket}
use filecoin_sealer.Tests.Data.{evaluated, tables}

ready : Unit {0}
unfolding ◌-ℤ◌ task_to_add add_task get_ticket
ready = tt

-- A sector that is new, and its ticket from 900 epochs before the head.
abbrev added : Db
added =
    (add_task memory_env (λ z. "5") (pos 1000) (pos 5) pc1 "/miner" "/unsealed" "2KiB" (pos 0)
      "piece" (tables [])).1

abbrev ticket_calls : TicketCalls
ticket_calls = record {
  address = got tt;
  height = got (pos 2000);
  marshal = got tt;
  randomness = λ epoch. got (7 ∷ []);
}

abbrev ticketed : Ticket × Db
ticketed = get_ticket memory_env (λ bytes. "07") (pos 900) ticket_calls (pos 1000) (pos 5) added

answers_ticket : ticketed.0 ≡ ticket (7 ∷ [])
unfolding evaluated ready
answers_ticket = refl

has_ticket : map (λ r. r.ticket_epoch) ticketed.1.task_infos ≡ pos 1100 ∷ []
unfolding evaluated ready
has_ticket = refl

has_path : map (λ r. r.cache_dir_path) added.task_infos ≡ "/miner/t05/cache/s-t05-5" ∷ []
unfolding evaluated ready
has_path = refl
