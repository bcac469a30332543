-- ===== src/Lib.antt =====
-- The sealing pipeline of a Filecoin storage provider: a miner keeps the tasks of its sectors in a
-- database, hands them out, and takes their results; workers draw tasks, run the sealing library on
-- them, and report back.
--
-- A sector passes the stages PC1, PC2, PRECOMMIT, SEED, Commit1, Commit2, COMMIT and PROVING (the
-- two numbered ones after SEED are the two halves of the proof of commitment). Its row in the
-- table `db_task_infos` holds its stage and its state there: INIT (waiting), RUNING, SUCCESS, ERROR
-- or RETRY. A call of QueryTask takes a waiting row to RUNING under a fresh session, a call of
-- RecieveTaskResult with that session takes it to the next stage or to ERROR, and TaskFailedHandle
-- decides from the rules of `db_task_faileds` whether a failure is tried again.
--
-- The parts, and the code that they model:
--   Prelude    shared names, lists, comparisons of texts and integers, and the outcome of a call
--              (Calls), which is a value or the text of an error
--   Tables     the rows and messages of util/mysql.go, util/types.go and util/api.go; the stages
--              and states (Stage), and the condition that gorm makes of a struct (Same)
--   Database   what the program relies on of gorm and MySQL: the statements of a table (Statements),
--              their sequences and transactions (Transaction), what holds of every transaction
--              (Laws), and a database that meets it all (Memory)
--   Miner      the state of miner/miner.go (State); Query is miner/query.go, Receive is
--              RecieveTaskResult of miner/miner.go, Failure is TaskFailedHandle of miner/util.go
--              and InitDbTaskFailed of miner/faileddef.go, Tasks is the other methods on the
--              task table of miner/miner.go, Post is RegisterPoSt and UpdatePoStInfo of
--              miner/util.go and QueryToPoSt of miner/query.go, Send is the two messages of a
--              sector in miner/sendmsgbypri.go: the session (Session) and the receipt
--              (Receipt); Message is miner/sendmsg.go, Transfer the other messages of
--              miner/sendmsgbypri.go; Seed is GetSeedRand and NewSector is AddTask and
--              GetTicket of miner/miner.go
--   Worker     Slots is the counters of worker/worker.go, alone and called from many goroutines
--              (Gate); Process is handleProccess of worker/util.go and the stages of worker/pc1.go,
--              worker/pc2.go and worker/c12.go; Report is deferMinerRecieve of worker/util.go and
--              DeferMinerRecieve of worker/worker.go; Start is the functions that start a stage
--              over worker/query.go, with ChildProcess of worker/worker.go and TaskRun of
--              worker/util.go; Reset is ResetAbortedSession of worker/worker.go; Files is
--              RemoteGetSector and RemoteDelSector of worker/htttphandle.go
--   Window     the window proofs. Deadlines is how winPoStProofsServer of miner/wdpost.go and
--              WinPoStServer, SearchPartitions and RetryWinPoSt of worker/wdpost.go choose the
--              windows; Generate is GeneratePoStProof of worker/wdpost.go, whose message goes to
--              StartSubmitPoSt of miner/wdpost.go: Posts is that function and the map of the
--              collectors, Collect is the loop of submitPoSt, and Message is how it sends the
--              proof; Recoveries is CheckRecoveries. Bits is the sets of sector numbers, Listed a
--              set that meets it, Data the messages of util/api.go; Sealed is the proof that the
--              miner makes from its own rows, partitionWinPoStProof and the goroutines of
--              winPoStProofs of miner/wdpost.go
--   Chain      chain/notify.go: the blocks of one height (Blocks), and the head that is made of
--              them (Heads)
--   Mining     MinerMining of mining/util.go, with the messages of the parent blocks (Parents) and
--              what the block is made of (Made); Publish is publishBlockMsg of mining/util.go, the
--              goroutine of MinerServerNotify of mining/mining.go, and NsaggregateSignatures and
--              NsComputeMsgMeta of util/types.go
--   Keys       keys, addresses and signatures of util/types.go with GenerateAddress of
--              miner/address.go (Defs), and the messages that are signed by a private key (Messages)
--   Servers    miner/server.go and worker/server.go: the actors that are served, and what a round
--              starts for them
--   Tests      runs on concrete inputs
--
-- Functions keep the program's names in lower case with underscores: QueryTask is `query_task`.
--
-- What is not in the repository is a parameter. `Env` is the database: each table is an `Engine`,
-- whose statements answer by the moment they run at and may fail there, with laws for a statement
-- that succeeds; the text that `fmt` prints of a result is a function. A transaction that is rolled
-- back, or whose commit fails, leaves the tables as they were. An update through a row that was read
-- goes by its primary key (`keyed_info`, `keyed_log`), any other one by its condition. The sealing library, the file system
-- and the connection between worker and miner are the outcomes of their calls, in the order of the
-- code. A goroutine that the code starts is a `Job` in the answer of the function that starts it,
-- and the channels of a running task are one sequence of signals.
--
-- The library go-bitfield is the interface `Bitfields`, whose operations may fail; a set is known by
-- the ascending list that its `ForEach` goes over. The counts of such sets are not wrapped, since they
-- are lengths of lists in memory; the numbers of sectors are, where the code casts them. A channel
-- is the number that it was made under, and its contents are a list in the state of the collectors. A
-- goroutine of submitPoSt is `collecting` while it is in its loop, and `proving` once it has left it with
-- proofs.
--
-- The loop of deferMinerRecieve runs at most five rounds in the code, and the wait for a receipt at
-- most ten; the model counts them the same way. The endless loops, of the collectors and of the
-- servers of the chain and of the window proofs, run over the sequence of what they receive. No
-- other loop needs a bound, since each goes over a list.
--
-- The libraries of keys, signatures and addresses are the interface `KeyLib`, whose laws (`IsSound`)
-- say that what they write they read again, and that a signature is good for its key's address. The
-- node's estimate of gas is taken to change nothing but the gas (`PricesOnly`).
--
-- Not modelled: the creation and update times that gorm keeps, which no code reads; the overflow of
-- the counters, which count running tasks; ReFindPoStTable, the lists of actors of the two servers
-- of window proofs, and the trials of miner/wdpost_t.go; ClearProving and
-- the logins of workers; the questions to the chain of miner/state.go; the recovery of a lost
-- sector (worker/recovery.go), which is a script over the sealing library; the commands (cmd), which
-- read flags and connect the parts; the start of the network (chain); and the wrappers of the
-- chain's libraries in util/types.go that only pass calls on.

pub mod Prelude
pub mod Tables
pub mod Database
pub mod Chain
pub mod Mining
pub mod Keys
pub mod Miner
pub mod Window
pub mod Worker
pub mod Servers
mod Tests
