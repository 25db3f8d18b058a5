-- ===== src/Api/TopUp.antt =====
-- `WalletTopUp` and `internalizeFunding` of internal/api/wallet.go: the guards of a top up, and its
-- stages, for what each of them answers. The balance and the coins that are read at the end, and the
-- events of the stages, are left out.
pub mod Credit
use Prim.Native.String.{◌++◌ as concat}
use chaos_test.Common.{
  ℕ, ℤ, pos, negsuc, String, Bool, true, false, not, str_eq, Option, none, some, List, [], ◌∷◌,
  ◌++◌, ltb, ◌==◌, if◌then◌else◌,
}
use chaos_test.Common.Text.{itoa}
use chaos_test.Common.Dict.{has}
use chaos_test.Topology.{Inventory, Node, node}
use chaos_test.Observe.Fleet.{Fleet}
use chaos_test.Observe.Snapshot.{Reply, failed, got}
use chaos_test.Api.Funding.{Found, found, no_tip, immature, no_coinbase}

-- What the server has: whether the wallet is enabled, whether there is an arcade client, the node of a
-- request that names none, the inventory and the fleet.
pub record Setting : Type 0 where
  pub wallet_on : Bool
  pub has_arcade : Bool
  pub default_node : String
  pub inv : Inventory
  pub fleet : Fleet

pub record TopUpRequest : Type 0 where
  pub on_node : String
  pub mine : Option Bool
  pub satoshis : ℕ
  pub fee : ℕ
  pub wait_seconds : ℤ
  pub count : ℤ

unfoldable pub clamp_wait : ℤ → ℕ
clamp_wait (negsuc n) = 120
clamp_wait (pos n) = if n == 0 then 120 else if ltb 600 n then 600 else n

-- The defaults of a request.
unfoldable pub with_defaults : TopUpRequest → TopUpRequest
with_defaults req = record req {
  satoshis = if req.satoshis == 0 then 100000 else req.satoshis;
  fee = if req.fee == 0 then 500 else req.fee;
  wait_seconds = pos (clamp_wait req.wait_seconds);
}

-- What the stages answer: the deposit address, the search for a coinbase, the id of the funding
-- transaction, why arcade rejects it, the wait for a mempool, the height of the proof, the BEEF,
-- whether the wallet accepts the credit, and the id of the split.
pub record Answers : Type 0 where
  pub deposit : Reply String
  pub coinbase : Found
  pub spent : Reply String
  pub submit : Reply (Option String)
  pub mempool : Option String
  pub proof : Reply ℕ
  pub beef : Option String
  pub credit : Reply Bool
  pub split : Reply String

pub record Stage : Type 0 where
  pub stage : String
  pub went_well : Bool

pub record TopUpResult : Type 0 where
  pub address : String
  pub satoshis : ℕ
  pub coinbase_tx_id : String
  pub coinbase_height : ℕ
  pub tx_id : String
  pub internalized : Bool
  pub fanout_tx_id : String
  pub steps : List Stage

pub data Trouble : Type 0 where
  client : String → Trouble
  disabled no_arcade unknown_node bad_request : Trouble
  funding_reject proof_timeout internalize immature_chain no_coinbase_left : Trouble

pub record Ended : Type 0 where
  pub trouble : Option Trouble
  pub result : TopUpResult

-- The closure `step`.
unfoldable pub step : String → Bool → TopUpResult → TopUpResult
step name well r = record r { steps = r.steps ++ record { stage = name; went_well = well } ∷ [] }

unfoldable pub stop : Trouble → TopUpResult → Ended
stop why r = record { trouble = some why; result = r }

abbrev pub is_ok : {A : Type 0} → Reply A → Bool
is_ok (failed err) = false
is_ok (got a) = true

-- `split into %d coins`, where more than one is asked for.
unfoldable pub from_split : TopUpRequest → Reply String → TopUpResult → Ended
from_split req split r = elim req.count [
  | negsuc n ↦ record { trouble = none; result = r }
  | pos n ↦
      if ltb 1 n
      then record {
        trouble = none;
        result = record (step (concat "split into " (concat (itoa n) " coins")) (is_ok split) r) {
          fanout_tx_id = elim split [ failed err ↦ r.fanout_tx_id | got id ↦ id ];
        };
      }
      else record { trouble = none; result = r }
]

unfoldable pub from_credit : TopUpRequest → Answers → TopUpResult → Ended
from_credit req a r = elim a.credit [
  | failed err ↦ stop internalize (step "credit it to the wallet" false r)
  | got accepted ↦
      from_split req a.split
        (record (step "credit it to the wallet" true r) { internalized = accepted })
]

unfoldable pub from_beef : TopUpRequest → Answers → TopUpResult → Ended
from_beef req a r = elim a.beef [
  | some err ↦ stop internalize (step "assemble atomic BEEF" false r)
  | none ↦ from_credit req a (step "assemble atomic BEEF" true r)
]

unfoldable pub from_proof : TopUpRequest → Answers → TopUpResult → Ended
from_proof req a r = elim a.proof [
  | failed err ↦ stop proof_timeout (step "wait for the merkle proof" false r)
  | got height ↦ from_beef req a (step "wait for the merkle proof" true r)
]

unfoldable pub from_mempool : TopUpRequest → Bool → Answers → TopUpResult → Ended
from_mempool req mine a r =
    if mine
    then from_proof req a (
        step "wait for it to reach a mempool" (elim a.mempool [ none ↦ true | some err ↦ false ]) r)
    else from_proof req a r

unfoldable pub from_submit : TopUpRequest → Bool → Answers → TopUpResult → Ended
from_submit req mine a r = elim a.submit [
  | failed err ↦ stop funding_reject (step "broadcast the funding transaction" false r)
  | got (some body) ↦ stop funding_reject (step "broadcast the funding transaction" false r)
  | got none ↦ from_mempool req mine a (step "broadcast the funding transaction" true r)
]

unfoldable pub from_spend : TopUpRequest → Bool → Answers → TopUpResult → Ended
from_spend req mine a r = elim a.spent [
  | failed err ↦ stop (client err) (step "build the funding transaction" false r)
  | got id ↦
      from_submit req mine a (record (step "build the funding transaction" true r) { tx_id = id })
]

unfoldable pub from_coinbase : TopUpRequest → Bool → Answers → TopUpResult → Ended
from_coinbase req mine a r = elim a.coinbase [
  | no_tip err ↦ stop (client err) (step "find a spendable coinbase" false r)
  | immature ↦ stop immature_chain (step "find a spendable coinbase" false r)
  | no_coinbase ↦ stop no_coinbase_left (step "find a spendable coinbase" false r)
  | found id h ↦ from_spend req mine a (record (step "find a spendable coinbase" true r) {
    coinbase_tx_id = id;
    coinbase_height = h;
  })
]

abbrev pub no_result : TopUpResult
no_result = record {
  address = "";
  satoshis = 0;
  coinbase_tx_id = "";
  coinbase_height = 0;
  tx_id = "";
  internalized = false;
  fanout_tx_id = "";
  steps = [];
}

unfoldable pub mines : TopUpRequest → Bool
mines req = elim req.mine [ none ↦ true | some b ↦ b ]

-- The stages, for a request with its defaults.
unfoldable pub stages : TopUpRequest → Answers → Ended
stages req a = elim a.deposit [
  | failed err ↦ stop (client err) (step "read deposit address" false no_result)
  | got address ↦
      from_coinbase req (mines req) a (record (step "read deposit address" true no_result) {
        address = address;
        satoshis = req.satoshis;
      })
]

-- What a call comes to: without a result where a guard refuses it.
pub data ToppedUp : Type 0 where
  refused : Trouble → ToppedUp
  finished : Ended → ToppedUp

node_guard : Setting → Option Node → Option Trouble
node_guard st none = some unknown_node
node_guard st (some n) = if has n.name st.fleet.sv then some bad_request else none

-- The guards, in their order.
unfoldable pub guard : Setting → TopUpRequest → Option Trouble
unfolding node_guard
guard st req =
    if not st.wallet_on
    then some disabled
    else if not st.has_arcade
    then some no_arcade
    else node_guard st
        (node (if str_eq req.on_node "" then st.default_node else req.on_node) st.inv)

unfoldable pub top_up : Setting → TopUpRequest → Answers → ToppedUp
top_up st req a = elim (guard st req) [
  | some why ↦ refused why
  | none ↦ finished (stages (with_defaults req) a)
]
