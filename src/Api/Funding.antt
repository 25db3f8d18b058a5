-- ===== src/Api/Funding.antt =====
-- internal/api/wallet.go: the waits and the search of a top up, `waitForProof`, `waitForMempool` and
-- `findSpendableCoinbase`.
pub mod Coinbases
pub mod Waits
use Prim.Native.String.{◌++◌ as concat}
use chaos_test.Common.{
  ℕ, zero, suc, ◌+◌, ◌-◌, ◌*◌, ◌/◌, ◌%◌, ◌≤◌, ◌<◌, ◌≡◌, ◌≢◌, ◌⊎◌, refl, sym, ap, ◌∙◌, inl, inr,
  String, Bool, true, false, not, ◌&&◌, ◌||◌, Option, none, some, List, [], ◌∷◌, ◌++◌, arith, ltb,
  leb, ◌==◌, str_eq, if◌then◌else◌, Bool-cases, Option-cases,
}
use chaos_test.Common.Dict.{contains}
use chaos_test.Common.Text.{itoa}
use chaos_test.Common.Rounds.{rounds, IsFirst, rounds-ends}
use chaos_test.Arcade.{TxRecord}
use chaos_test.Observe.Snapshot.{Reply, failed, got}

-- One round of a wait: what arcade and the mempool answer, the clock after that, and the context's
-- error if it ends the pause.
pub record Look : Type 0 where
  pub path : Reply (String × ℕ)
  pub mempool : Reply (List String)
  pub status : Reply String
  pub now : ℕ
  pub over : Option String

-- The end of a round that has not found what it waits for.
unfoldable pub or_late {ℓ} : {A : Type ℓ} → ℕ → String → Look → Option (Reply A)
or_late deadline text l =
    if ltb deadline l.now
    then some (failed text)
    else elim l.over [ some err ↦ some (failed err) | none ↦ none ]

-- `rec.MerklePath != ""`, with the height.
unfoldable pub proven : Reply (String × ℕ) → Option (String × ℕ)
proven (failed err) = none
proven (got (path, height)) = if str_eq path "" then none else some (path, height)

-- `within` is the text of the duration.
unfoldable pub proof_round : String → ℕ → (ℕ → Look) → ℕ → Option (Reply (String × ℕ))
proof_round within deadline looks i = elim (proven (looks i).path) [
  | some p ↦ some (got p)
  | none ↦ or_late deadline (concat "timed out after " within) (looks i)
]

unfoldable pub wait_for_proof : ℕ → String → ℕ → (ℕ → Look) → Option (Reply (String × ℕ))
wait_for_proof fuel within deadline looks = rounds fuel (proof_round within deadline looks) 0

-- Whether a round that goes past its deadline test mines a block.
unfoldable pub mines_in : ℕ → Bool
mines_in i = ltb 0 i && i % 5 == 0

unfoldable pub is_seen : String → Bool
is_seen status =
    str_eq status "SEEN_ON_NETWORK"
    || (str_eq status "SEEN_MULTIPLE_NODES"
        || (str_eq status "ACCEPTED_BY_NETWORK"
            || (str_eq status "MINED" || str_eq status "IMMUTABLE")))

in_mempool : String → Reply (List String) → Bool
in_mempool txid (failed err) = false
in_mempool txid (got ids) = contains ids txid

on_network : Reply String → Bool
on_network (failed err) = false
on_network (got status) = is_seen status

unfoldable pub mempool_round :
    String → String → String → ℕ → (ℕ → Look) → ℕ → Option (Reply (Unit {0}))
unfolding in_mempool on_network
mempool_round node txid within deadline looks i =
    if in_mempool txid (looks i).mempool || on_network (looks i).status
    then some (got tt)
    else or_late deadline
        (concat txid
          (concat " never appeared in " (concat node (concat "'s mempool within " within))))
        (looks i)

unfoldable pub wait_for_mempool :
    ℕ → String → String → String → ℕ → (ℕ → Look) → Option (Reply (Unit {0}))
wait_for_mempool fuel node txid within deadline looks =
    rounds fuel (mempool_round node txid within deadline looks) 0

-- What the search learns of a height: the coinbase's id, and the status that Refresh shows of it.
pub record Coinbase : Type 0 where
  pub found : Reply String
  pub view : Reply String

-- `err != nil || view.Status == "OK"`
unfoldable pub is_spendable : Reply String → Bool
is_spendable (failed err) = true
is_spendable (got status) = str_eq status "OK"

-- `for h := from; h > 0 && h > stop; h--`, in `left` steps.
unfoldable pub search : (ℕ → Coinbase) → ℕ → ℕ → Option (String × ℕ)
search at h zero = none
search at zero (suc left) = none
search at (suc h) (suc left) =
    let below = search at h left in
    elim (at (suc h)).found [
      | failed err ↦ below
      | got txid ↦ if is_spendable (at (suc h)).view then some (txid, suc h) else below
    ]

pub data Found : Type 0 where
  found : String → ℕ → Found
  no_tip : String → Found
  immature no_coinbase : Found

-- The heights from `tip - 100` down, 25 of them; `int(tip) - 100` is below 0 for a lower tip.
unfoldable pub search_from : (ℕ → Coinbase) → ℕ → Found
search_from at tip = elim (search at (tip - 100) 25) [
  | none ↦ no_coinbase
  | some (txid, h) ↦ found txid h
]

-- `mined n` is the tip, or an error, after `n` blocks that are mined for maturity.
unfoldable pub find_spendable_coinbase :
    Reply ℕ → Bool → (mined : ℕ → Reply ℕ) → (ℕ → Coinbase) → Found
find_spendable_coinbase tip mine mined at = elim tip [
  | failed err ↦ no_tip err
  | got h ↦
      if ltb h 101
      then if mine
        then elim (mined (101 - h + 1)) [ failed err ↦ no_tip err | got h' ↦ search_from at h' ]
        else immature
      else search_from at h
]
