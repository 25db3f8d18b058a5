-- ===== src/Api/TopUp/Credit.antt =====
-- What a top up of internal/api/wallet.go comes to, for what its stages answer.
use chaos_test.Common.{
  sym, ap, ◌∙◌, inl, inr, not, str_eq, Option-cases, ℕ, ◌≡◌, refl, String, Bool, true, false, ◌&&◌,
  Option, none, some, arith, if◌then◌else◌,
}
use chaos_test.Common.Dict.{has}
use chaos_test.Topology.{Node, node}
use chaos_test.Observe.Snapshot.{Reply, failed, got}
use chaos_test.Api.Funding.{Found, found, no_tip, immature, no_coinbase}
use chaos_test.Api.TopUp.{
  TopUpRequest, Answers, TopUpResult, Ended, is_ok, step, stop, from_split, from_credit, from_beef,
  from_proof, from_mempool, from_submit, from_spend, from_coinbase, stages, with_defaults, mines,
  top_up, no_result, Setting, ToppedUp, refused, finished, guard, node_guard,
}

abbrev pub is_nothing {ℓ} : {A : Type ℓ} → Option A → Bool
is_nothing none = true
is_nothing (some a) = false

abbrev pub is_found : Found → Bool
is_found (found id h) = true
is_found (no_tip err) = false
is_found immature = false
is_found no_coinbase = false

abbrev pub is_accepted : Reply (Option String) → Bool
is_accepted (failed err) = false
is_accepted (got none) = true
is_accepted (got (some body)) = false

abbrev pub credited : Reply Bool → Bool
credited (failed err) = false
credited (got b) = b

abbrev pub id_of : Reply String → String
id_of (failed err) = ""
id_of (got id) = id

-- The stages that make the transaction, and those that credit it.
abbrev pub is_built : Answers → Bool
is_built a = is_ok a.deposit && (is_found a.coinbase && is_ok a.spent)

abbrev pub is_credited : Answers → Bool
is_credited a = is_ok a.proof && (is_nothing a.beef && is_ok a.credit)

-- Whether all is well, the id of the transaction, and whether the wallet has the credit.
abbrev pub Sum : Type 0
Sum = Bool × String × Bool

abbrev pub sum_of : Ended → Sum
sum_of o = (is_nothing o.trouble, o.result.tx_id, o.result.internalized)

module _ (req : TopUpRequest) (a : Answers) where
  split-sum :
      (r : TopUpResult) → sum_of (from_split req a.split r) ≡ (true, r.tx_id, r.internalized)
  unfolding from_split step
  split-sum r = ground arith

  -- The rest of a top up, from the credit backwards: the id that it has so far, and the credit.
  abbrev pub rest_of : Bool → TopUpResult → Sum
  rest_of well r = (well, r.tx_id, if well then credited a.credit else r.internalized)

  credit-sum : (r : TopUpResult) → sum_of (from_credit req a r) ≡ rest_of (is_ok a.credit) r
  unfolding from_credit step stop
  credit-sum r = ground (
    arith,
    split-sum (record (step "credit it to the wallet" true r) { internalized = credited a.credit }),
  )

  beef-sum :
      (r : TopUpResult)
      → sum_of (from_beef req a r) ≡ rest_of (is_nothing a.beef && is_ok a.credit) r
  unfolding from_beef step stop
  beef-sum r = ground (arith, credit-sum (step "assemble atomic BEEF" true r))

  proof-sum : (r : TopUpResult) → sum_of (from_proof req a r) ≡ rest_of (is_credited a) r
  unfolding from_proof step stop
  proof-sum r = ground (arith, beef-sum (step "wait for the merkle proof" true r))

  mempool-sum :
      (mine : Bool) (r : TopUpResult)
      → sum_of (from_mempool req mine a r) ≡ rest_of (is_credited a) r
  unfolding from_mempool step
  mempool-sum false r = proof-sum r
  mempool-sum true r =
      proof-sum (
        step "wait for it to reach a mempool" (elim a.mempool [ none ↦ true | some err ↦ false ]) r)

  submit-sum :
      (mine : Bool) (r : TopUpResult)
      → sum_of (from_submit req mine a r) ≡ rest_of (is_accepted a.submit && is_credited a) r
  unfolding from_submit step stop
  submit-sum mine r =
      ground (arith, mempool-sum mine (step "broadcast the funding transaction" true r))

  -- The same for a result that has no id yet.
  abbrev pub whole_of : Bool → Bool → Sum
  whole_of is_there well = (
    is_there && well,
    if is_there then id_of a.spent else "",
    if is_there && well then credited a.credit else false,
  )

  spend-sum :
      (mine : Bool) (r : TopUpResult)
      → r.tx_id ≡ ""
      → r.internalized ≡ false
      → sum_of (from_spend req mine a r)
        ≡ whole_of (is_ok a.spent) (is_accepted a.submit && is_credited a)
  unfolding from_spend step stop
  spend-sum mine r no_id no_credit = ground (
    arith,
    submit-sum mine
        (record (step "build the funding transaction" true r) { tx_id = id_of a.spent }),
  )

  abbrev height_of : Found → ℕ
  height_of (found id h) = h
  height_of (no_tip err) = 0
  height_of immature = 0
  height_of no_coinbase = 0

  abbrev coinbase_of : Found → String
  coinbase_of (found id h) = id
  coinbase_of (no_tip err) = ""
  coinbase_of immature = ""
  coinbase_of no_coinbase = ""

  coinbase-sum :
      (mine : Bool) (r : TopUpResult)
      → r.tx_id ≡ ""
      → r.internalized ≡ false
      → sum_of (from_coinbase req mine a r)
        ≡ whole_of (is_found a.coinbase && is_ok a.spent) (is_accepted a.submit && is_credited a)
  unfolding from_coinbase step stop
  coinbase-sum mine r no_id no_credit = ground (
    arith,
    spend-sum mine
        (record (step "find a spendable coinbase" true r) {
          coinbase_tx_id = coinbase_of a.coinbase;
          coinbase_height = height_of a.coinbase;
        })
        no_id no_credit,
  )

-- Whether the wallet is enabled, arcade is there, and the node that is asked for, or the default one,
-- is a node of the inventory that the fleet has no SV client for.
abbrev is_teranode : Setting → Option Node → Bool
is_teranode st none = false
is_teranode st (some n) = not (has n.name st.fleet.sv)

abbrev wanted : Setting → TopUpRequest → String
wanted st req = if str_eq req.on_node "" then st.default_node else req.on_node

abbrev pub is_ready : Setting → TopUpRequest → Bool
is_ready st req = st.wallet_on && (st.has_arcade && is_teranode st (node (wanted st req) st.inv))

-- The same of a call, which has no result where it is refused.
abbrev pub sum_up : ToppedUp → Sum
sum_up (refused why) = (false, "", false)
sum_up (finished o) = sum_of o

node_guard-ready :
    (st : Setting) (found_node : Option Node)
    → is_nothing (node_guard st found_node) ≡ is_teranode st found_node
unfolding node_guard
node_guard-ready st none = refl
node_guard-ready st (some n) = ground arith

guard-ready : (st : Setting) (req : TopUpRequest) → is_nothing (guard st req) ≡ is_ready st req
unfolding guard
guard-ready st req = ground (arith, node_guard-ready st (node (wanted st req) st.inv))

stages-sum :
    (req : TopUpRequest) (a : Answers)
    → sum_of (stages (with_defaults req) a)
      ≡ whole_of req a (is_built a) (is_accepted a.submit && is_credited a)
unfolding stages step stop
stages-sum req a = ground (
  arith,
  coinbase-sum (with_defaults req) a (mines (with_defaults req))
      (record (step "read deposit address" true no_result) {
        address = id_of a.deposit;
        satoshis = (with_defaults req).satoshis;
      })
      refl refl,
)

-- A top up ends without trouble exactly if the wallet is enabled, arcade is there, the node that is
-- asked for, or else the default one, is in the inventory and no SV node of the fleet, and all stages
-- went well but the wait for a mempool and the split, on which nothing hangs. Where the transaction
-- was built, its id is in the result, also where a later stage failed, and else no id is. The result
-- says that the wallet has the credit exactly if all went well and the wallet accepted it.
pub top_up-sum :
    (st : Setting) (req : TopUpRequest) (a : Answers)
    → sum_up (top_up st req a)
      ≡ whole_of req a (is_ready st req && is_built a) (is_accepted a.submit && is_credited a)
unfolding top_up
top_up-sum st req a = elim (Option-cases (guard st req)) [
  | inl passes ↦
      let ready : true ≡ is_ready st req = sym (ap is_nothing passes) ∙ guard-ready st req in
      rw (passes, top_up) (rw (← ready) (stages-sum req a))
  | inr (why, stops) ↦
      let ready : false ≡ is_ready st req = sym (ap is_nothing stops) ∙ guard-ready st req in
      rw (stops, top_up) (rw (← ready) refl)
]
