-- ===== src/Window/Deadlines/Defs.antt =====
-- miner/wdpost.go: QueryMinerPoStInfo, winPoStProofs and winPoStProofsServer; worker/wdpost.go:
-- WinPoStServer, SearchPartitions and RetryWinPoSt.
use filecoin_sealer.Prelude.{
  ℕ, suc, ◌==◌, String, Bool, ◌&&◌, not, List, [], ◌∷◌, Option, none, some, ℤ, pos, eq_ℤ, ltb_ℤ,
  leb_ℤ, if◌then◌else◌, Called, got, lost, ◌>>=◌, ◌>>◌,
}
use filecoin_sealer.Window.Data.{DeadLineInfo, Partition, MinerPostInfo}

-- The chain's answers to one call of QueryMinerPoStInfo, in their order.
pub record InfoCalls (B : Type 0) : Type 0 where
  pub address : Called (Unit {0})
  pub marshal : Called (Unit {0})
  pub deadline : Called DeadLineInfo
  pub partitions : Called (List (Partition B))
  pub head : Called (Unit {0})
  pub beacon : Called (List ℕ)

-- The variables of a partition's goroutine: the number, the partition and its deadline.
pub record PartitionRun (B : Type 0) : Type 0 where
  pub di : DeadLineInfo
  pub number : ℕ
  pub partition : Partition B
  pub rand : Option (List ℕ)

module _ {B : Type 0} where
  unfoldable pub query_miner_post_info : InfoCalls B → Called (MinerPostInfo B)
  query_miner_post_info c =
      c.address
      >> (c.marshal
          >> (c.deadline >>= λ di. c.partitions >>= λ ps.
              c.head
              >> (c.beacon >>= λ rand.
                  got (record { di = di; partitions = ps; rand = some rand }))))

  -- The `go` statements over the partitions, from number `i` on.
  abbrev pub runs_from :
      DeadLineInfo → Option (List ℕ) → ℕ → List (Partition B) → List (PartitionRun B)
  runs_from di rand i [] = []
  runs_from di rand i (p ∷ ps) =
      record { di = di; number = i; partition = p; rand = rand } ∷ runs_from di rand (suc i) ps

  -- `winPoStProofs`: its deadline, unless it is the one that was done last, and what it started.
  unfoldable pub win_post_proofs :
      Called (MinerPostInfo B) → ℤ → Called (Option DeadLineInfo × List (PartitionRun B))
  win_post_proofs o dead_ind = o >>= λ mpi. got (
      if eq_ℤ dead_ind (pos mpi.di.index)
      then (none, [])
      else (some mpi.di, runs_from mpi.di mpi.rand 0 mpi.partitions))

-- `deadInd` after a round: a later deadline of the period, or the first one after the last.
abbrev pub dead_after : ℤ → ℕ → ℤ
dead_after dead_ind index =
    let later = if ltb_ℤ dead_ind (pos index) then pos index else dead_ind in
    if index == 0 && eq_ℤ later (pos 47) then pos index else later

module _ {B : Type 0} where
  -- The loop of winPoStProofsServer over the answers of the chain: what each round starts.
  unfoldable pub win_post_proofs_server :
      List (Called (MinerPostInfo B)) → ℤ → List (List (PartitionRun B))
  unfolding win_post_proofs
  win_post_proofs_server [] dead_ind = []
  win_post_proofs_server (o ∷ os) dead_ind = elim (win_post_proofs o dead_ind) [
    | lost e ↦ win_post_proofs_server os dead_ind
    | got r ↦ elim r.0 [
      | none ↦ win_post_proofs_server os dead_ind
      | some di ↦ r.1 ∷ win_post_proofs_server os (dead_after dead_ind di.index)
    ]
  ]

-- `ActorPoStInfo`
pub record ActorPostInfo : Type 0 where
  pub addr_info : String
  pub addr_type : String
  pub di_open : ℤ

abbrev pub blank_deadline : DeadLineInfo
blank_deadline = record {
  current_epoch = pos 0;
  index = 0;
  opens = pos 0;
  close = pos 0;
  challenge = pos 0;
}

module _ {B : Type 0} where
  abbrev pub blank_info : MinerPostInfo B
  blank_info = record { di = blank_deadline; partitions = []; rand = none }

  -- An error leaves the blank answer, which the caller goes on with.
  abbrev pub info_or_blank : Called (MinerPostInfo B) → MinerPostInfo B
  info_or_blank (got mpi) = mpi
  info_or_blank (lost e) = blank_info

  -- `SearchPartitions`
  unfoldable pub search_partitions : MinerPostInfo B → Called (List (PartitionRun B))
  search_partitions mpi = elim mpi.partitions [
    | [] ↦ lost "WinPoStServer len(partitions) == 0"
    | p ∷ ps ↦ got (runs_from mpi.di mpi.rand 0 (p ∷ ps))
  ]

-- The epoch is in the window.
abbrev pub in_window : DeadLineInfo → Bool
in_window di = leb_ℤ di.opens di.current_epoch && ltb_ℤ di.current_epoch di.close

module _ {B : Type 0} where
  -- One actor of a round of WinPoStServer: the search that it starts, and the actor's new entry.
  unfoldable pub win_post_actor :
      Called (MinerPostInfo B) → ActorPostInfo → Option (MinerPostInfo B) × ActorPostInfo
  win_post_actor o info =
      let mpi = info_or_blank o in
      if not (eq_ℤ mpi.di.opens info.di_open) && in_window mpi.di
      then (some mpi, record info { di_open = mpi.di.opens })
      else (none, info)

  -- The rounds of WinPoStServer for one actor: the searches that they start.
  unfoldable pub win_post_server :
      List (Called (MinerPostInfo B)) → ActorPostInfo → List (MinerPostInfo B)
  unfolding win_post_actor
  win_post_server [] info = []
  win_post_server (o ∷ os) info =
      let (started, info') = win_post_actor o info in
      let rest = win_post_server os info' in elim started [ none ↦ rest | some mpi ↦ mpi ∷ rest ]

  unfoldable pub retry_win_post : Called (MinerPostInfo B) → Called (List (PartitionRun B))
  unfolding search_partitions
  retry_win_post o =
      let mpi = info_or_blank o in
      if in_window mpi.di then search_partitions mpi else lost "di.CurrentEpoch"
