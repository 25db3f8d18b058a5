-- ===== src/Observe/Bus/Polling.antt =====
-- What a client that polls `Since` of internal/observe/bus.go sees, with one publisher and with two.
use Prim.Native.Nat.{max}
use mathlib.Core.List.{append-nil, append_assoc}
use chaos_test.Common.{
  ℕ, zero, suc, ◌+◌, ◌-◌, ◌≤◌, ◌≡◌, refl, ap, sym, ◌∙◌, inl, inr, String, List, [], ◌∷◌, ◌++◌,
  arith, ltb, if◌then◌else◌, length, length-append, drop, last_n, keep, All, last_n-append_one,
  drop-nil, drop-append_le, All-drop, All-append, All-map, drop-append_length, Bool-cases,
}
use chaos_test.Observe.Bus.{Bus, Event, Attrs, new_bus, append, publish, since, recent}
use chaos_test.Observe.Bus.World.{numbered}
use chaos_test.Observe.Bus.Window.{trim-last_n}

-- The calls of one publisher, each with its instant.
pub record Call : Type 0 where
  pub now : ℕ
  pub kind : String
  pub node : String
  pub message : String
  pub attrs : Attrs

pub run : Bus → List Call → Bus
run b [] = b
run b (c ∷ cs) = run (publish c.now c.kind c.node c.message c.attrs b).1 cs

-- The events of such calls, numbered from `n + 1`.
pub history : ℕ → List Call → List Event
history n [] = []
history n (c ∷ cs) = numbered (n + 1) c.now c.kind c.node c.message c.attrs ∷ history (n + 1) cs

run-from :
    (b : Bus) (log : List Event) (cs : List Call)
    → b.ring ≡ last_n b.max log
    → (run b cs).ring ≡ last_n b.max (log ++ history b.seq cs)
unfolding run history publish
run-from b log [] h = h ∙ ap (last_n b.max) (sym (append-nil log))
run-from b log (c ∷ cs) h =
    let e : Event = numbered (b.seq + 1) c.now c.kind c.node c.message c.attrs in
    run-from (publish c.now c.kind c.node c.message c.attrs b).1 (log ++ e ∷ []) cs (
      trim-last_n b.max (b.ring ++ e ∷ [])
      ∙ ap (λ r. last_n b.max (r ++ e ∷ [])) h
      ∙ last_n-append_one b.max log e)
    ∙ ap (last_n b.max) (append_assoc log (e ∷ []) (history (b.seq + 1) cs))

drop_to : {k j : ℕ} (e : Event) (es : List Event) → k ≡ suc j → drop k (e ∷ es) ≡ drop j es
drop_to e es h = rw h

-- In a numbered history the test on the number is a position.
keep-drop :
    (after k n : ℕ) (cs : List Call)
    → keep (λ (e : Event). ltb after e.id) (drop k (history n cs))
      ≡ drop (max k (after - n)) (history n cs)
unfolding history
keep-drop after k n [] = rw (drop-nil k, drop-nil (max k (after - n)))
keep-drop after zero n (c ∷ cs) =
    let e : Event = numbered (n + 1) c.now c.kind c.node c.message c.attrs in
    let rest : keep (λ (e : Event). ltb after e.id) (history (n + 1) cs)
        ≡ drop (max zero (after - (n + 1))) (history (n + 1) cs) =
      keep-drop after zero (n + 1) cs in
    elim (Bool-cases (ltb after (n + 1))) [
      | inl new ↦
          let here : max zero (after - n) ≡ 0 = ground arith in
          let there : max zero (after - (n + 1)) ≡ 0 = ground arith in
          rw (new, here) (ap (◌∷◌ e) (rw there at rest))
      | inr old ↦ rw old (rest ∙ sym (drop_to e (history (n + 1) cs) (ground arith)))
    ]
keep-drop after (suc k) n (c ∷ cs) =
    keep-drop after k (n + 1) cs ∙ sym (drop_to _ (history (n + 1) cs) (omega arith))

length-history : (n : ℕ) (cs : List Call) → length (history n cs) ≡ length cs
unfolding history
length-history n [] = refl
length-history n (c ∷ cs) = ap suc (length-history (n + 1) cs)

-- After any calls of one publisher, `Since` returns the events behind the given number, oldest
-- first, less those that the ring has dropped, and nothing else.
pub since-run :
    (size after : ℕ) (cs : List Call)
    → since after (run (new_bus size) cs) ≡ drop (max (length cs - size) after) (history 0 cs)
unfolding since new_bus
since-run size after cs =
    ap (keep (λ (e : Event). ltb after e.id))
      (run-from (new_bus size) [] cs (sym (drop-nil (0 - size))))
    ∙ keep-drop after (length (history 0 cs) - size) 0 cs
    ∙ ap (λ k. drop k (history 0 cs)) (omega (arith, length-history 0 cs))

ring-append :
    (e : Event) (b : Bus)
    → 1 ≤ b.max
    → (append e b).ring ≡ drop (length b.ring + 1 - b.max) b.ring ++ e ∷ []
unfolding append
ring-append e b room =
    trim-last_n b.max (b.ring ++ e ∷ [])
    ∙ ap (λ k. drop (k - b.max) (b.ring ++ e ∷ [])) (length-append b.ring (e ∷ []))
    ∙ drop-append_le _ b.ring (e ∷ []) (omega arith)

-- What stands in a ring whose newest event is `e`.
newest :
    (after : ℕ) (xs : List Event) (e : Event)
    → All (λ (x : Event). x.id ≤ after) xs
    → keep (λ (x : Event). ltb after x.id) (xs ++ e ∷ []) ≡ (if ltb after e.id then e ∷ [] else [])
newest after [] e h = ground arith
newest after (x ∷ xs) e h = ground (arith, newest after xs e h.1)

since-append :
    (after : ℕ) (e : Event) (b : Bus)
    → 1 ≤ b.max
    → All (λ (x : Event). x.id ≤ after) b.ring
    → since after (append e b) ≡ (if ltb after e.id then e ∷ [] else [])
unfolding since
since-append after e b room old =
    ap (keep (λ (x : Event). ltb after x.id)) (ring-append e b room)
    ∙ newest after (drop _ b.ring) e (All-drop (λ (x : Event). x.id ≤ after) _ b.ring old)

recent-append : (e : Event) (b : Bus) → 1 ≤ b.max → recent 1 (append e b) ≡ e ∷ []
unfolding recent
recent-append e b room =
    let xs : List Event = drop (length b.ring + 1 - b.max) b.ring in
    let size : length (xs ++ e ∷ []) ≡ length xs + 1 = length-append xs (e ∷ []) in
    let back : length (xs ++ e ∷ [])
          - (if ltb (length (xs ++ e ∷ [])) 1 then length (xs ++ e ∷ []) else 1)
        ≡ length xs =
      ground arith in
    ap (λ r. last_n (if ltb (length r) 1 then length r else 1) r) (ring-append e b room)
    ∙ ap (λ k. drop k (xs ++ e ∷ [])) back
    ∙ drop-append_length xs (e ∷ [])

ids-append :
    (n : ℕ) (e : Event) (b : Bus)
    → 1 ≤ b.max
    → e.id ≤ n
    → All (λ (x : Event). x.id ≤ n) b.ring
    → All (λ (x : Event). x.id ≤ n) (append e b).ring
ids-append n e b room fits old = rw (ring-append e b room) (
    All-append (λ (x : Event). x.id ≤ n) _ (e ∷ [])
      (All-drop (λ (x : Event). x.id ≤ n) _ b.ring old) (fits, tt))

-- Two publishers may append in the other order than they drew their numbers, here `n + 1` and
-- `n + 2`. A client that polls between the two appends and goes on from the newest number that it
-- has seen then gets nothing, though the event that was overtaken is the newest of the ring.
pub overtaken_missed :
    (n : ℕ) (e f : Event) (b : Bus)
    → e.id ≡ n + 1
    → f.id ≡ n + 2
    → 1 ≤ b.max
    → All (λ (x : Event). x.id ≤ n) b.ring
    → (since n (append f b) ≡ f ∷ [])
      × (since (n + 2) (append e (append f b)) ≡ [])
      × (recent 1 (append e (append f b)) ≡ e ∷ [])
overtaken_missed n e f b first second room old =
    let same : (append f b).max ≡ b.max = unfold append in refl in
    let older : All (λ (x : Event). x.id ≤ n + 2) b.ring =
      All-map (λ (x : Event). x.id ≤ n) (λ (x : Event). x.id ≤ n + 2) (λ x h. omega arith) b.ring
        old in
    (
      ground (arith, since-append n f b room old),
      ground (
        arith,
        since-append (n + 2) e (append f b) (omega arith)
            (ids-append (n + 2) f b room (omega arith) older),
      ),
      recent-append e (append f b) (omega arith),
    )
