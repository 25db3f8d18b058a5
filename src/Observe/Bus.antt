-- ===== src/Observe/Bus.antt =====
-- internal/observe/bus.go: the in-memory ring of events with fan-out to subscribers.
pub mod World
pub mod Window
pub mod Numbers
pub mod Polling
mod Examples
use chaos_test.Common.{
  ℕ, ℤ, ◌+◌, String, Bool, List, [], ◌∷◌, ◌++◌, map, ltb, ◌==◌, if◌then◌else◌, length, last_n, keep,
}

-- The values that the harness puts into an event's `map[string]any`.
pub data Value : Type 0 where
  text : String → Value
  num : ℕ → Value
  int : ℤ → Value
  flag : Bool → Value
  texts : List String → Value

abbrev pub Attrs : Type 0
Attrs = List (String × Value)

-- `time` is an instant in nanoseconds; `none` in `attrs` is Go's nil map.
pub record Event : Type 0 where
  pub id : ℕ
  pub time : ℕ
  pub kind : String
  pub node : String
  pub message : String
  pub attrs : Attrs

-- A buffered Go channel: what was sent and not yet received, and the room for it.
pub record Channel : Type 0 where
  pub buffer : ℕ
  pub queued : List Event

pub record Bus : Type 0 where
  pub seq : ℕ
  pub ring : List Event
  pub max : ℕ
  pub subs : List (ℕ × Channel)
  pub next_sub : ℕ

pub new_bus : ℕ → Bus
new_bus max = record { seq = 0; ring = []; max = max; subs = []; next_sub = 0 }

-- `select { case ch <- e: default: }`
unfoldable pub offer : Event → Channel → Channel
offer e ch =
    if ltb (length ch.queued) ch.buffer then record ch { queued = ch.queued ++ e ∷ [] } else ch

-- The counter is atomic and is read before the lock is taken, so that two calls of `Publish` may
-- draw their numbers in one order and append in the other.
unfoldable pub draw : Bus → ℕ × Bus
draw b = (b.seq + 1, record b { seq = b.seq + 1 })

unfoldable pub trim : ℕ → List Event → List Event
trim max ring = if ltb max (length ring) then last_n max ring else ring

-- The part of `Publish` under the lock.
unfoldable pub append : Event → Bus → Bus
unfolding offer trim
append e b = record b {
  ring = trim b.max (b.ring ++ e ∷ []);
  subs = map (λ (s : ℕ × Channel). (s.0, offer e s.1)) b.subs;
}

unfoldable pub publish : ℕ → String → String → String → Attrs → Bus → Event × Bus
unfolding draw append
publish now kind node msg attrs b =
    let (id, b') = draw b in
    let e : Event = record {
      id = id;
      time = now;
      kind = kind;
      node = node;
      message = msg;
      attrs = attrs;
    } in
    (e, append e b')

unfoldable pub subscribe : ℕ → Bus → ℕ × Bus
subscribe buffer b = (
  b.next_sub,
  record b {
    next_sub = b.next_sub + 1;
    subs = (b.next_sub, record { buffer = buffer; queued = [] }) ∷ b.subs;
  },
)

without : ℕ → List (ℕ × Channel) → List (ℕ × Channel)
without id = keep (λ (s : ℕ × Channel). if s.0 == id then Bool.false else Bool.true)

-- The function that `Subscribe` returns.
unfoldable pub unsubscribe : ℕ → Bus → Bus
unfolding without
unsubscribe id b = record b { subs = without id b.subs }

unfoldable pub since : ℕ → Bus → List Event
since after b = keep (λ (e : Event). ltb after e.id) b.ring

unfoldable pub recent : ℕ → Bus → List Event
recent n b = last_n (if ltb (length b.ring) n then length b.ring else n) b.ring
