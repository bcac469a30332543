-- ===== src/Window/Posts/Defs.antt =====
-- miner/wdpost.go: SyncPoStMap, StartSubmitPoSt, AbortPoSt, and the steps of the goroutines of
-- submitPoSt, which share its two maps.
use filecoin_sealer.Prelude.{
  ℕ, suc, ◌≡◌, ◌==◌, ltb, String, Bool, true, false, List, [], ◌∷◌, ◌++◌, Option, none, some, ℤ,
  ◌-ℤ◌, scale_ℤ, eq_ℤ, str_eq, length, if◌then◌else◌, Called, got, lost,
}
use filecoin_sealer.Window.Bits.{Bitfields}
use filecoin_sealer.Window.Data.{PostTransfer, VanillaProof}
use filecoin_sealer.Window.Collect.{Collected, collected_new, take_transfer}

-- A map, and `m[k] = v`.
abbrev pub put_text {ℓ} : {V : Type ℓ} → String → V → (String → V) → String → V
put_text k v m x = if str_eq x k then v else m x

abbrev pub put_int {ℓ} : {V : Type ℓ} → ℤ → V → (ℤ → V) → ℤ → V
put_int k v m x = if eq_ℤ x k then v else m x

abbrev pub put_nat {ℓ} : {V : Type ℓ} → ℕ → V → (ℕ → V) → ℕ → V
put_nat k v m x = if x == k then v else m x

-- A goroutine of submitPoSt: its arguments and its variables.
pub record Collector (B : Type 0) : Type 0 where
  pub addr_info : String
  pub addr_type : String
  pub duration : ℤ
  pub vars : Collected B

-- `SyncPoStMap`, where a channel is the number that it was made under; the channels' contents, each
-- with the one of its goroutine's `closeCh`; the goroutines that are in their loop, by their channels; and
-- those that have left it with proofs, the last one first, which go on to the partition's proof and its
-- message, and touch the maps no more. A partition without a channel, or with nil, is `none`.
pub record Posts (B : Type 0) : Type 0 where
  pub post_map : String → Option (ℤ → Option ℕ)
  pub close_map : String → Option ℕ
  pub buffered : ℕ → List (PostTransfer B)
  pub closing : ℕ → ℕ
  pub collecting : ℕ → Option (Collector B)
  pub made : ℕ
  pub proving : List (Collector B)

pub data Submitted : Type 0 where
  miner_not_handle : Submitted
  post_info : String → ℕ → ℤ → Submitted
  post_aborted : Submitted
  not_exist : Submitted
  -- A channel is full, and the call waits; StartSubmitPoSt holds the lock then.
  blocked : Submitted

-- `PostMap[actor][index]`, with nil for a missing entry.
abbrev pub channel_of {ℓ} : {C : Type ℓ} → Option (ℤ → Option C) → ℤ → Option C
channel_of none index = none
channel_of (some parts) index = parts index

abbrev pub parts_of {ℓ} : {C : Type ℓ} → Option (ℤ → Option C) → ℤ → Option C
parts_of none = λ _. none
parts_of (some parts) = parts

module _ {B : Type 0} where
  -- `NewSyncPostMap`, when the miner starts.
  abbrev pub new_sync_post_map : Posts B
  new_sync_post_map = record {
    post_map = λ _. none;
    close_map = λ _. none;
    buffered = λ _. [];
    closing = λ _. 0;
    collecting = λ _. none;
    made = 0;
    proving = [];
  }

  -- `ResetSyncPoStMap`: the goroutines go on.
  unfoldable pub reset_sync_post_map : Posts B → Posts B
  reset_sync_post_map m = record m { post_map = λ _. none; close_map = λ _. none }

  -- `partChan <- trnmsg`, on a channel of 1024 places.
  abbrev pub send : ℕ → PostTransfer B → Posts B → Submitted × Posts B
  send c t m =
      if ltb (length (m.buffered c)) 1024
      then (
        post_info t.actor t.dealine t.partition_index,
        record m { buffered = put_nat c (m.buffered c ++ t ∷ []) m.buffered },
      )
      else (blocked, m)

  -- The seconds that a goroutine waits: an epoch has 30.
  abbrev pub duration_of : PostTransfer B → ℤ
  duration_of t = scale_ℤ 30 (t.close_epoch -ℤ t.current_epoch)

  -- `return` in the goroutine of channel c, which leaves the maps as they are.
  abbrev pub stop : ℕ → Posts B → Posts B
  stop c m = record m { collecting = put_nat c none m.collecting }

  -- `if actor == nil { … CloseMap[*actor] = closeCh }`
  abbrev pub announced : ℕ → Option String → PostTransfer B → Posts B → Posts B
  announced c (some a) t m = m
  announced c none t m = record m { close_map = put_text t.actor (some c) m.close_map }

  -- The entry of a collection that has its proofs is set to nil, and the actor's closing channel
  -- is deleted.
  abbrev pub freed : Option String → ℤ → Option (ℤ → Option ℕ) → Posts B → Posts B
  freed none index parts m = m
  freed (some a) index none m = m
  freed (some a) index (some parts) m = record m {
    post_map = put_text a (some (put_int index none parts)) m.post_map;
    close_map = put_text a none m.close_map;
  }

  abbrev pub entry_of : Option String → Posts B → Option (ℤ → Option ℕ)
  entry_of none m = none
  entry_of (some a) m = m.post_map a

  -- After the loop: the goroutine goes on to the proof of the partition, unless there is no proof.
  abbrev pub finish_proofs : ℕ → Collector B → List VanillaProof → Posts B → Posts B
  finish_proofs c r [] m = stop c m
  finish_proofs c r (vp ∷ vps) m =
      let m' = freed r.vars.actor r.vars.index (entry_of r.vars.actor m) m in
      stop c (record m' { proving = r ∷ m'.proving })

  -- What the loop makes of a transfer.
  abbrev pub took : ℕ → Collector B → Called (Collected B × Bool) → Posts B → Posts B
  took c r (lost e) m = stop c m
  took c r (got (s, false)) m = record m {
    collecting = put_nat c (some (record r { vars = s })) m.collecting;
  }
  took c r (got (s, true)) m = finish_proofs c (record r { vars = s }) s.proofs m

  abbrev pub call_abort : Option ℕ → Posts B → Submitted × Posts B
  call_abort none m = (not_exist, m)
  call_abort (some c) m =
      if m.closing c == 0
      then (post_aborted, record m { closing = put_nat c 1 m.closing })
      else (blocked, m)

  -- `AbortPoSt`, with the address that `NsNewIDAddress` made; the channel has one place.
  unfoldable pub abort_post : String → Posts B → Submitted × Posts B
  abort_post actor m = call_abort (m.close_map actor) m

module _ {B : Type 0} (bits : Bitfields B) where
  -- A goroutine at its start.
  abbrev pub begun : PostTransfer B → Collector B
  begun t = record {
    addr_info = t.addr_info;
    addr_type = t.addr_type;
    duration = duration_of t;
    vars = collected_new bits;
  }

  -- A new channel for the partition, and its goroutine.
  abbrev pub spawn : PostTransfer B → Posts B → Posts B
  spawn t m = record m {
    post_map =
        put_text t.actor
          (some (put_int t.partition_index (some m.made) (parts_of (m.post_map t.actor))))
          m.post_map;
    buffered = put_nat m.made [] m.buffered;
    closing = put_nat m.made 0 m.closing;
    collecting = put_nat m.made (some (begun t)) m.collecting;
    made = suc m.made;
  }

  abbrev pub submitted_to : Option ℕ → PostTransfer B → Posts B → Submitted × Posts B
  submitted_to (some c) t m = send c t m
  submitted_to none t m = send m.made t (spawn t m)

  -- `StartSubmitPoSt`
  unfoldable pub start_submit_post : PostTransfer B → Posts B → Submitted × Posts B
  start_submit_post t m =
      if str_eq t.err ""
      then submitted_to (channel_of (m.post_map t.actor) t.partition_index) t m
      else (miner_not_handle, m)

  abbrev pub received : ℕ → Option (Collector B) → List (PostTransfer B) → Posts B → Posts B
  received c none ts m = m
  received c (some r) [] m = m
  received c (some r) (t ∷ ts) m =
      took c r (take_transfer bits t r.vars)
        (announced c r.vars.actor t (record m { buffered = put_nat c ts m.buffered }))

  -- The goroutine of channel c takes its next transfer, if it has one.
  unfoldable pub take_next : ℕ → Posts B → Posts B
  take_next c m = received c (m.collecting c) (m.buffered c) m

  -- What changes the maps, without `ResetSyncPoStMap`: a call of StartSubmitPoSt or of AbortPoSt, a
  -- transfer that a goroutine takes, its time that is up, or its abort.
  pub data PostStep (m : Posts B) : Posts B → Type 0 where
    submit : (t : PostTransfer B) → PostStep m ((start_submit_post t m).1)
    ask_abort : (actor : String) → PostStep m ((abort_post actor m).1)
    take : (c : ℕ) → PostStep m (take_next c m)
    time_out : (c : ℕ) → PostStep m (stop c m)
    give_in :
        (c : ℕ)
        → m.closing c ≡ 1
        → PostStep m (stop c (record m { closing = put_nat c 0 m.closing }))

  pub data PostSteps (m : Posts B) : Posts B → Type 0 where
    here : PostSteps m m
    next : {m' m'' : Posts B} → PostSteps m m' → PostStep m' m'' → PostSteps m m''
