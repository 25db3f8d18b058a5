-- ===== src/Observe/Bus/Window.antt =====
-- The ring of the bus is a window on the log, and a channel never holds more than its buffer.
use chaos_test.Common.{
  ℕ, ◌≤◌, ◌≡◌, refl, sym, ap, ◌∙◌, inl, inr, List, [], ◌∷◌, ◌++◌, map, arith, ltb, if◌then◌else◌,
  Bool-cases, ◌==◌, length, length-append, last_n, last_n_all, drop-nil, All, All-keep,
  last_n-append_one,
}
use chaos_test.Observe.Bus.{
  Event, Channel, new_bus, offer, draw, trim, append, subscribe, unsubscribe,
}
use chaos_test.Observe.Bus.World.{
  World, Step, draws, appends, subscribes, unsubscribes, receives, Reach, here, next, pop,
}

pub trim-last_n : (max : ℕ) (xs : List Event) → trim max xs ≡ last_n max xs
unfolding trim
trim-last_n max xs = elim (Bool-cases (ltb max (length xs))) [
  | inl over ↦ rw over
  | inr under ↦ rw under (sym (last_n_all max xs (ground arith)))
]

offer_bounded :
    (e : Event) (ch : Channel)
    → length ch.queued ≤ ch.buffer
    → length (offer e ch).queued ≤ (offer e ch).buffer
unfolding offer
offer_bounded e ch h = ground (arith, length-append ch.queued (e ∷ []))

abbrev pub Fits : ℕ × Channel → Type 0
Fits s = length s.1.queued ≤ s.1.buffer

pub record IsWindow (max : ℕ) (w : World) : Type 0 where
  pub size : w.bus.max ≡ max
  pub ring : w.bus.ring ≡ last_n w.bus.max w.log
  pub channels : All Fits w.bus.subs

offers_bounded :
    (e : Event) (subs : List (ℕ × Channel))
    → All Fits subs
    → All Fits (map (λ (s : ℕ × Channel). (s.0, offer e s.1)) subs)
offers_bounded e [] h = tt
offers_bounded e (s ∷ subs) h = (offer_bounded e s.1 h.0, offers_bounded e subs h.1)

pop_bounded : (ch : Channel) → length ch.queued ≤ ch.buffer → length (pop ch).queued ≤ ch.buffer
pop_bounded ch h = ground arith

receive_bounded :
    (id : ℕ) (subs : List (ℕ × Channel))
    → All Fits subs
    → All Fits (map (λ (s : ℕ × Channel). if s.0 == id then (s.0, pop s.1) else s) subs)
receive_bounded id [] h = tt
receive_bounded id (s ∷ subs) h = ground (arith, pop_bounded s.1 h.0, receive_bounded id subs h.1)

Step-IsWindow : {max : ℕ} {w v : World} → IsWindow max w → Step w v → IsWindow max v
unfolding draw append subscribe unsubscribe
Step-IsWindow h (draws now kind node msg attrs e) =
    rw e (record { size = h.size; ring = h.ring; channels = h.channels })
Step-IsWindow {w} h (appends before ev after _ e) = rw e (record {
  size = h.size;
  ring =
      trim-last_n w.bus.max (w.bus.ring ++ ev ∷ [])
      ∙ ap (λ r. last_n w.bus.max (r ++ ev ∷ [])) h.ring
      ∙ last_n-append_one w.bus.max w.log ev;
  channels = offers_bounded ev w.bus.subs h.channels;
})
Step-IsWindow h (subscribes buffer e) =
    rw e (record { size = h.size; ring = h.ring; channels = (omega arith, h.channels) })
Step-IsWindow {w} h (unsubscribes id e) =
    rw e (record { size = h.size; ring = h.ring; channels = All-keep Fits _ w.bus.subs h.channels })
Step-IsWindow {w} h (receives id e) =
    rw e
      (record { size = h.size; ring = h.ring; channels = receive_bounded id w.bus.subs h.channels })

-- Whatever the interleaving of publishers, subscribers and readers, the ring holds the last `max`
-- events that were appended, in the order in which they were appended, and no channel holds more
-- events than its buffer.
pub Reach-IsWindow : {max : ℕ} {w : World} → Reach max w → IsWindow max w
unfolding new_bus
Reach-IsWindow here = record { size = refl; ring = sym (drop-nil _); channels = tt }
Reach-IsWindow (next r s) = Step-IsWindow (Reach-IsWindow r) s
