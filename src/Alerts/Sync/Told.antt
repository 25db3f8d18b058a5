-- ===== src/Alerts/Sync/Told.antt =====
-- bsv-regtest/alerts/host.go: what a peer is told over all streams. The host's calls are a list, in
-- the order in which they read and set the marks; its log may be another one at each.
use chaos_test.Common.{
  ℕ, ◌≤◌, ◌≡◌, refl, inl, inr, String, Option, none, some, List, [], ◌∷◌, ◌++◌, map, arith, eq_iff,
  All, All-append, Bool-cases, Option-cases,
}
use chaos_test.Common.Dict.{lookup-insert}
use chaos_test.Alerts.{Bytes}
use chaos_test.Alerts.Log.{Log}
use chaos_test.Alerts.Sync.{
  Message, Stream, Host, wire, set_default_watermark, set_watermark, watermark, latest_message,
  serve, PushResult, Pushed, sent_first, Dialed, failed, push_on, push_to, push,
}
use chaos_test.Alerts.Sync.Capped.{IsOffer, IsAlert, serve_loop-IsOffer, push_loop-Reports}

pub data Call : Type 0 where
  default_is : ℕ → Call
  mark_is : String → ℕ → Call
  pushes : ℕ → Dialed → Call
  serves_to : String → Stream → Call
  log_is : Log → Call

abbrev pub told_to : Option String → List Message → List (String × Message)
told_to none ms = []
told_to (some p) ms = map (λ (m : Message). (p, m)) ms

-- What a call writes, and to whom.
abbrev pub told_by : Call → Host → List (String × Message)
told_by (pushes up_to d) hh = told_to d.peer (push up_to d hh).0.sent
told_by (serves_to p s) hh = told_to (some p) (serve p s hh)
told_by _ hh = []

abbrev pub host_after : Call → Host → Host
host_after (default_is n) hh = set_default_watermark n hh
host_after (mark_is p n) hh = set_watermark p n hh
host_after (pushes up_to d) hh = (push up_to d hh).1
host_after (serves_to p s) hh = hh
host_after (log_is log) hh = record hh { log = log }

pub told : List Call → Host → List (String × Message)
told [] hh = []
told (c ∷ cs) hh = told_by c hh ++ told cs (host_after c hh)

module _ (limit : String → ℕ) where
  -- No mark that a call sets lets a peer learn more than its limit.
  abbrev pub IsWithin : Call → Type 0
  IsWithin (default_is n) = (p : String) → n ≤ limit p
  IsWithin (mark_is p n) = n ≤ limit p
  IsWithin (pushes up_to d) = (p : String) → d.peer ≡ some p → up_to ≤ limit p
  IsWithin (serves_to p s) = Unit
  IsWithin (log_is log) = Unit

  abbrev pub IsCapped : Host → Type 0
  IsCapped hh = (p : String) → watermark p hh ≤ limit p

  abbrev pub KeepsTo : String × Message → Type 0
  KeepsTo (p, m) = m.sequence ≤ limit p

  default-IsCapped :
      (n : ℕ) (hh : Host)
      → ((p : String) → n ≤ limit p)
      → IsCapped hh
      → IsCapped (set_default_watermark n hh)
  unfolding watermark set_default_watermark
  default-IsCapped n hh h capped p = ground (arith, h p, capped p)

  mark-IsCapped :
      (q : String) (n : ℕ) (hh : Host) → n ≤ limit q → IsCapped hh → IsCapped (set_watermark q n hh)
  unfolding watermark set_watermark
  mark-IsCapped q n hh h capped p =
      ground (arith, lookup-insert q p n hh.watermarks, eq_iff q p, h, capped p)

  offers-KeepsTo :
      (p : String) (mark : ℕ) (log : Log) (ms : List Message)
      → mark ≤ limit p
      → All (IsOffer mark log) ms
      → All KeepsTo (told_to (some p) ms)
  offers-KeepsTo p mark log [] h hs = tt
  offers-KeepsTo p mark log (m ∷ ms) h hs =
      (ground (arith, hs.0, h), offers-KeepsTo p mark log ms h hs.1)

  reports-KeepsTo :
      (p : String) (up_to : ℕ) (log : Log) (ms : List Message)
      → up_to ≤ limit p
      → All (IsAlert up_to log) ms
      → All KeepsTo (told_to (some p) ms)
  reports-KeepsTo p up_to log [] h hs = tt
  reports-KeepsTo p up_to log (m ∷ ms) h hs =
      (ground (arith, hs.0, h), reports-KeepsTo p up_to log ms h hs.1)

  push_on-KeepsTo :
      (p : String) (up_to : ℕ) (w : Bytes) (d : Dialed) (log : Log)
      → up_to ≤ limit p
      → All KeepsTo (told_to (some p) (push_on up_to w d log).sent)
  unfolding push_on failed sent_first latest_message
  push_on-KeepsTo p up_to w d log h =
      let start : PushResult = record { peer_latest_before = 0; delivered = [] } in
      let talk = reports-KeepsTo p up_to log _ h (push_loop-Reports up_to log start d.stream).0 in
      elim (Bool-cases d.opens) [
        | inl e ↦ elim (Bool-cases d.can_write) [
          | inl e' ↦ rw (e, e', push_on) (h, talk)
          | inr e' ↦ rw (e, e', push_on) tt
        ]
        | inr e ↦ rw (e, push_on) tt
      ]

  log-IsCapped : (log : Log) (hh : Host) → IsCapped hh → IsCapped (record hh { log = log })
  unfolding watermark
  log-IsCapped log hh capped p = capped p

  Fits : Option String → Pushed × Host → Type 0
  Fits peer r = All KeepsTo (told_to peer r.0.sent) × IsCapped r.1

  nothing_sent : (peer : Option String) → All KeepsTo (told_to peer [])
  nothing_sent none = tt
  nothing_sent (some p) = tt

  push_to-Fits :
      (up_to : ℕ) (w : Bytes) (d : Dialed) (hh : Host) (peer : Option String)
      → ((p : String) → peer ≡ some p → up_to ≤ limit p)
      → IsCapped hh
      → Fits peer (push_to up_to w d hh peer)
  unfolding Fits push_to failed
  push_to-Fits up_to w d hh none h capped = (tt, capped)
  push_to-Fits up_to w d hh (some p) h capped =
      (push_on-KeepsTo p up_to w d hh.log (h p refl), mark-IsCapped p up_to hh (h p refl) capped)

  push-Fits :
      (up_to : ℕ) (d : Dialed) (hh : Host)
      → ((p : String) → d.peer ≡ some p → up_to ≤ limit p)
      → IsCapped hh
      → Fits d.peer (push up_to d hh)
  unfolding Fits push failed
  push-Fits up_to d hh h capped = elim (Option-cases (wire up_to hh.log)) [
    | inl e ↦ rw (e, push) (nothing_sent d.peer, capped)
    | inr (w, e) ↦ rw (e, push) (push_to-Fits up_to w d hh d.peer h capped)
  ]

  call-Fits :
      (c : Call) (hh : Host)
      → IsWithin c
      → IsCapped hh
      → All KeepsTo (told_by c hh) × IsCapped (host_after c hh)
  unfolding Fits serve
  call-Fits (default_is n) hh h capped = (tt, default-IsCapped n hh h capped)
  call-Fits (mark_is p n) hh h capped = (tt, mark-IsCapped p n hh h capped)
  call-Fits (pushes up_to d) hh h capped = push-Fits up_to d hh h capped
  call-Fits (serves_to p s) hh h capped = (
    offers-KeepsTo p (watermark p hh) hh.log (serve p s hh) (capped p)
        (serve_loop-IsOffer (watermark p hh) hh.log s),
    capped,
  )
  call-Fits (log_is log) hh h capped = (tt, log-IsCapped log hh capped)

-- For limits that no default mark exceeds for any peer, and no mark set for a peer and no push to it
-- exceeds for that peer: whatever the peers ask for, and whatever the log comes to hold, no message
-- that the host writes to a peer, be it pushed or served, carries a sequence above the peer's limit.
pub told-KeepsTo :
    (limit : String → ℕ) (cs : List Call) (hh : Host)
    → IsCapped limit hh
    → All (IsWithin limit) cs
    → All (KeepsTo limit) (told cs hh)
unfolding told
told-KeepsTo limit [] hh capped h = tt
told-KeepsTo limit (c ∷ cs) hh capped h =
    let (now, still) = call-Fits limit c hh h.0 capped in
    All-append (KeepsTo limit) (told_by c hh) (told cs (host_after c hh)) now
      (told-KeepsTo limit cs (host_after c hh) still h.1)
