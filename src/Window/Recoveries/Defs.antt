-- ===== src/Window/Recoveries/Defs.antt =====
-- miner/wdpost.go: CheckRecoveries.
use filecoin_sealer.Prelude.{
  ℕ, suc, ◌==◌, String, ◌&&◌, not, List, [], ◌∷◌, Option, none, some, str_eq, if◌then◌else◌, Called,
  got, lost, ◌>>=◌, ◌>>◌,
}
use filecoin_sealer.Window.Bits.{Bitfields}
use filecoin_sealer.Window.Data.{Partition}
use filecoin_sealer.Window.Message.{PushCalls, push_message}

-- `NsRecoveryDeclaration`
pub record Recovery (B : Type 0) : Type 0 where
  pub deadline : ℕ
  pub partition : ℕ
  pub sectors : B

-- The calls of one run, in their order; `send` is SendMsg, for a key that the chain's node keeps.
pub record RecoveryCalls (B : Type 0) : Type 0 where
  pub address : Called String
  pub head : Called (Unit {0})
  pub partitions : Called (List (Partition B))
  pub pushes : PushCalls
  pub send : Called String

-- The declarations of the message, if one was sent, and what the function returns.
pub record Declaration (B : Type 0) : Type 0 where
  pub declared : Option (List (Recovery B))
  pub answer : Called String

module _ {B : Type 0} where
  abbrev pub refuse : String → Declaration B
  refuse e = record { declared = none; answer = lost e }

  abbrev pub declare : List (Recovery B) → Called String → Declaration B
  declare rs (lost e) = refuse e
  declare rs (got cid) = record { declared = some rs; answer = got cid }

module _ {B : Type 0} (bits : Bitfields B) (dl : ℕ) where
  -- The partitions from number `i` on that have faulty sectors that are not recovering.
  unfoldable pub recoveries : ℕ → List (Partition B) → Called (List (Recovery B))
  recoveries i [] = got []
  recoveries i (p ∷ ps) = do
    unrecovered ← bits.subtract p.faulty_sectors p.recovering_sectors
    uc ← bits.count unrecovered
    rest ← recoveries (suc i) ps
    got (
        if uc == 0
        then rest
        else record { deadline = dl; partition = i; sectors = unrecovered } ∷ rest)

  -- The message, with a private key or by the chain's node.
  abbrev pub declare_by : String → String → RecoveryCalls B → List (Recovery B) → Declaration B
  declare_by addr_info addr_type c rs =
      if not (str_eq addr_info "") && str_eq addr_type "pri"
      then declare rs (push_message c.pushes)
      else declare rs c.send

  -- An error of the encoding is answered by another variable, which is nil.
  abbrev pub with_params :
      String → String → RecoveryCalls B → List (Recovery B) → Called String → Declaration B
  with_params addr_info addr_type c rs (lost e) = record { declared = none; answer = got "" }
  with_params addr_info addr_type c rs (got enc) = declare_by addr_info addr_type c rs

  abbrev pub with_recoveries :
      String → String → RecoveryCalls B → Called (List (Recovery B)) → Declaration B
  with_recoveries addr_info addr_type c (lost e) = refuse e
  with_recoveries addr_info addr_type c (got []) = refuse "len(params.Recoveries)==0"
  with_recoveries addr_info addr_type c (got (r ∷ rs)) =
      with_params addr_info addr_type c (r ∷ rs) c.pushes.serialize

  unfoldable pub check_recoveries : String → String → RecoveryCalls B → Declaration B
  unfolding recoveries
  check_recoveries addr_info addr_type c =
      with_recoveries addr_info addr_type c
        (c.address >> (c.head >> (c.partitions >>= λ ps. recoveries 0 ps)))
