-- ===== src/Observe/Bus/World.antt =====
-- internal/observe/bus.go under concurrency: publishers, subscribers and readers of channels in any
-- interleaving of the atomic counter and of the parts under the lock. `held` are the events whose
-- number is drawn and that wait for the lock; `log` is every event appended so far, oldest first.
use chaos_test.Common.{ℕ, ◌≡◌, String, List, [], ◌∷◌, ◌++◌, map, ◌==◌, if◌then◌else◌}
use chaos_test.Observe.Bus.{
  Bus, Event, Channel, Attrs, new_bus, draw, append, subscribe, unsubscribe,
}

pub record World : Type 0 where
  pub bus : Bus
  pub held : List Event
  pub log : List Event

abbrev pub start : ℕ → World
start max = record { bus = new_bus max; held = []; log = [] }

abbrev pub numbered : ℕ → ℕ → String → String → String → Attrs → Event
numbered id now kind node msg attrs = record {
  id = id;
  time = now;
  kind = kind;
  node = node;
  message = msg;
  attrs = attrs;
}

-- A consumer takes the oldest event of its channel.
abbrev pub pop : Channel → Channel
pop ch = record ch { queued = elim ch.queued [ [] ↦ [] | e ∷ rest ↦ rest ] }

abbrev pub receive : ℕ → Bus → Bus
receive id b = record b {
  subs = map (λ (s : ℕ × Channel). if s.0 == id then (s.0, pop s.1) else s) b.subs;
}

pub data Step (w v : World) : Type 0 where
  draws :
      (now : ℕ) (kind node msg : String) (attrs : Attrs)
      → v ≡ record {
        bus = (draw w.bus).1;
        held = w.held ++ numbered (draw w.bus).0 now kind node msg attrs ∷ [];
        log = w.log;
      }
      → Step w v
  appends :
      (before : List Event) (e : Event) (after : List Event)
      → w.held ≡ before ++ e ∷ after
      → v ≡ record { bus = append e w.bus; held = before ++ after; log = w.log ++ e ∷ [] }
      → Step w v
  subscribes : (buffer : ℕ) → v ≡ record w { bus = (subscribe buffer w.bus).1 } → Step w v
  unsubscribes : (id : ℕ) → v ≡ record w { bus = unsubscribe id w.bus } → Step w v
  receives : (id : ℕ) → v ≡ record w { bus = receive id w.bus } → Step w v

pub data Reach (max : ℕ) : World → Type 0 where
  here : Reach max (start max)
  next : {w v : World} → Reach max w → Step w v → Reach max v
