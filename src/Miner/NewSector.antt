-- ===== src/Miner/NewSector.antt =====
-- miner/miner.go: AddTask, which adds the row of a sector's stage, and GetTicket, which gives the rows
-- of a sector their ticket.
use filecoin_sealer.Prelude.{
  ◌≡◌, refl, ap, ◌∙◌, Called, got, lost, String, List, [], ◌∷◌, ℤ, pos, negsuc, ◌-ℤ◌, ◌>>=◌,
  bind_got, ℕ, eq_ℤ, if◌then◌else◌, map_if,
}
use Prim.Native.String.{◌++◌}
use filecoin_sealer.Tables.{TaskType, DbTaskInfo}
use filecoin_sealer.Database.{Db, DbError, Env, Result, ok, err, insert_info, update_infos}
use filecoin_sealer.Miner.State.{of_sector}

abbrev join : List String → String
join [] = ""
join (t ∷ ts) = t ++ join ts

-- The text of `fmt.Sprintf("%s/t0%d/…/s-t0%d-%d", …)`, where `show` prints a number.
abbrev pub sector_path : (ℤ → String) → String → String → ℤ → ℤ → String
sector_path show root kind actor sector =
    join (root ∷ "/t0" ∷ show actor ∷ kind ∷ "/s-t0" ∷ show actor ∷ "-" ∷ show sector ∷ [])

-- The row that is created; a blank field is filled with the column's default, as `Engine` says.
unfoldable pub task_to_add :
    (ℤ → String) → ℤ → ℤ → TaskType → String → String → String → ℤ → String → DbTaskInfo
task_to_add show actor sector t root unsealed sealer_proof proof_type piece = record {
  id = pos 0;
  sector_num = sector;
  actor_id = actor;
  task_type = t;
  sealer_proof = sealer_proof;
  proof_type = if eq_ℤ proof_type (negsuc 0) then pos 0 else proof_type;
  piece_str = piece;
  cache_dir_path = sector_path show root "/cache" actor sector;
  staged_sector_path = unsealed;
  sealed_sector_path = sector_path show root "/sealed" actor sector;
  worker_id = "";
  host_name = "";
  worker_listen = "";
  phase1_output = [];
  comm_d = "";
  comm_r = "";
  last_req_id = "";
  ticket_epoch = pos 0;
  ticket_hex = "";
  seed_epoch = pos 0;
  seed_hex = "";
  c1_out = [];
  proof = [];
  state = pos 0;
  deadline_inx = 0;
  partition_inx = 0;
}

-- The chain's calls of GetTicket: the miner's address, the height of the head, the address's
-- encoding, and the randomness of an epoch.
pub record TicketCalls : Type 0 where
  pub address : Called (Unit {0})
  pub height : Called ℤ
  pub marshal : Called (Unit {0})
  pub randomness : ℤ → Called (List ℕ)

-- How GetTicket ends: an error of the chain, one of the database, or the ticket.
pub data Ticket : Type 0 where
  no_chain : String → Ticket
  no_update : DbError → Ticket
  ticket : List ℕ → Ticket

abbrev pub ticketed_row : (List ℕ → String) → ℤ → List ℕ → DbTaskInfo → DbTaskInfo
ticketed_row hex epoch rand r = record r { ticket_hex = hex rand; ticket_epoch = epoch }

-- The ticket's epoch and randomness. `lookback` is the library's SealRandomnessLookback.
abbrev pub drawn_ticket : ℤ → TicketCalls → Called (ℤ × List ℕ)
drawn_ticket lookback c = do
  _ ← c.address
  height ← c.height
  _ ← c.marshal
  rand ← c.randomness (height -ℤ lookback)
  got (height -ℤ lookback, rand)

module _ (env : Env) where
  -- AddTask
  unfoldable pub add_task :
      (ℤ → String) → ℤ → ℤ → TaskType → String → String → String → ℤ → String → Db → Result ℤ × Db
  add_task show actor sector t root unsealed sealer_proof proof_type piece db =
      let r = task_to_add show actor sector t root unsealed sealer_proof proof_type piece in
      let (e, db') = insert_info env r db in
      (elim e [ ok _ ↦ ok r.sector_num | err x ↦ err x ], db')

  abbrev pub ticket_answer : List ℕ → Result (Unit {0}) × Db → Ticket × Db
  ticket_answer rand (ok _, db) = (ticket rand, db)
  ticket_answer rand (err e, db) = (no_update e, db)

  abbrev pub put_ticket : (List ℕ → String) → ℤ → ℤ → Called (ℤ × List ℕ) → Db → Ticket × Db
  put_ticket hex actor sector (lost e) db = (no_chain e, db)
  put_ticket hex actor sector (got (epoch, rand)) db =
      ticket_answer rand
        (update_infos env (of_sector actor sector) (ticketed_row hex epoch rand) db)

  -- GetTicket
  unfoldable pub get_ticket : (List ℕ → String) → ℤ → TicketCalls → ℤ → ℤ → Db → Ticket × Db
  get_ticket hex lookback c actor sector db =
      put_ticket hex actor sector (drawn_ticket lookback c) db

  -- What GetTicket leaves: the randomness of `lookback` epochs before the head in every row of the
  -- sector, or the table as it was.
  abbrev pub Ticketed : (List ℕ → String) → ℤ → TicketCalls → ℤ → ℤ → Db → Ticket × Db → Type 0
  Ticketed hex lookback c actor sector db (ticket rand, db') =
      (height : ℤ) × (c.height ≡ got height)
      × (c.randomness (height -ℤ lookback) ≡ got rand)
      × (db'.task_infos
          ≡ map_if (of_sector actor sector) (ticketed_row hex (height -ℤ lookback) rand)
              db.task_infos)
  Ticketed hex lookback c actor sector db (_, db') = db'.task_infos ≡ db.task_infos

drawn_ticket-got :
    (lookback : ℤ) (c : TicketCalls) (epoch : ℤ) (rand : List ℕ)
    → drawn_ticket lookback c ≡ got (epoch, rand)
    → (height : ℤ) × (c.height ≡ got height)
      × (epoch ≡ height -ℤ lookback)
      × (c.randomness (height -ℤ lookback) ≡ got rand)
drawn_ticket-got lookback c epoch rand e =
    let (a, ea, e1) = bind_got c.address _ e in
    let (height, eh, e2) = bind_got c.height _ e1 in
    let (b, eb, e3) = bind_got c.marshal _ e2 in
    let (r, er, e4) = bind_got (c.randomness (height -ℤ lookback)) _ e3 in (height, eh, cc, cc)

module _ (env : Env) (hex : List ℕ → String) (lookback : ℤ) (c : TicketCalls) (actor sector : ℤ)
    (db : Db) where
  update_stores :
      (epoch : ℤ) (rand : List ℕ) (height : ℤ) (r : Result (List DbTaskInfo))
      → c.height ≡ got height
      → epoch ≡ height -ℤ lookback
      → c.randomness (height -ℤ lookback) ≡ got rand
      → env.infos.update db.clock
          (of_sector actor sector)
          (ticketed_row hex epoch rand)
          db.task_infos
        ≡ r
      → Ticketed env hex lookback c actor sector db
          (put_ticket env hex actor sector (got (epoch, rand)) db)
  update_stores epoch rand height (ok rows) eh ee er e = rw e (
    height,
    eh,
    er,
    env.infos.update_sound db.clock (of_sector actor sector) (ticketed_row hex epoch rand)
          db.task_infos rows e
        ∙ ap (λ x. map_if (of_sector actor sector) (ticketed_row hex x rand) db.task_infos) ee,
  )
  update_stores epoch rand height (err x) eh ee er e = rw e refl

  put_ticket-Ticketed :
      (x : Called (ℤ × List ℕ))
      → drawn_ticket lookback c ≡ x
      → Ticketed env hex lookback c actor sector db (put_ticket env hex actor sector x db)
  put_ticket-Ticketed (lost e) h = refl
  put_ticket-Ticketed (got (epoch, rand)) h =
      let (height, eh, ee, er) = drawn_ticket-got lookback c epoch rand h in
      update_stores epoch rand height
        (env.infos.update db.clock (of_sector actor sector) (ticketed_row hex epoch rand)
          db.task_infos)
        eh ee er refl

  -- GetTicket answers a ticket only when it is the randomness of `lookback` epochs before the head,
  -- and every row of the sector then has its text and its epoch, while the other rows stay; on every
  -- error no row changes.
  pub get_ticket-Ticketed :
      Ticketed env hex lookback c actor sector db (get_ticket env hex lookback c actor sector db)
  unfolding get_ticket
  get_ticket-Ticketed = put_ticket-Ticketed (drawn_ticket lookback c) refl
