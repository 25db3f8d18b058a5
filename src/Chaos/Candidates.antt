-- ===== src/Chaos/Candidates.antt =====
-- internal/chaos/runtime.go: which of the candidates `firstSocket` takes, what it says where it takes
-- none, and which engine `New` picks.
use mathlib.Core.List.{append_assoc, append-nil}
use mathlib.Core.Path.{subst}
use chaos_test.Common.{
  ◌≡◌, ◌≢◌, refl, ap, sym, ◌∙◌, ◌⊎◌, inl, inr, true, false, List, [], ◌∷◌, ◌++◌, arith, All,
  Bool-cases, if◌then◌else◌,
}
use chaos_test.Chaos.{
  is_empty, Stat, absent, socket, directory, other, join, directory_reason, other_reason,
  directory_text, other_text, scan_sockets,
}
use chaos_test.Logs.Text.{Text, codes}

not_empty : (p more : Text) → is_empty more ≡ false → is_empty (p ++ more) ≡ false
not_empty [] more h = h
not_empty (c ∷ p) more h = refl

module _ (stat : Text → Stat) where
  -- The first of the candidates that is a socket.
  abbrev pub IsFirstSocket : List Text → Text → Type 0
  IsFirstSocket ps p =
      (before : List Text) × (after : List Text) × (ps ≡ before ++ p ∷ after)
      × (stat p ≡ socket)
      × All (λ q. stat q ≢ socket) before

  -- What is said of candidates of which none is a socket: where they all are missing, that; else
  -- something about the first that is not.
  abbrev pub Explains : List Text → (missing : List Text) → Text → Type 0
  Explains ps missing reason =
      All (λ q. stat q ≡ absent) ps
        × (reason ≡ codes "no engine socket at " ++ join (codes ", ") (missing ++ ps))
      ⊎ (before : List Text) × (p : Text) × (after : List Text) × (more : Text) × (ps
          ≡ before ++ p ∷ after)
        × All (λ q. stat q ≡ absent) before
        × (stat p ≢ absent)
        × (reason ≡ p ++ more)

  abbrev pub Found : List Text → List Text → Text → Text × Text → Type 0
  Found ps missing reason r =
      IsFirstSocket ps r.0 × (r.1 ≡ [])
      ⊎ All (λ q. stat q ≢ socket) ps
        × (r.0 ≡ [])
        × ((is_empty reason ≡ false) × (r.1 ≡ reason)
            ⊎ (is_empty reason ≡ true) × Explains ps missing r.1)

  first_step :
      (p : Text) (ps : List Text) (q : Text)
      → stat p ≢ socket
      → IsFirstSocket ps q
      → IsFirstSocket (p ∷ ps) q
  first_step p ps q h (before, after, split, is_socket, others) =
      (p ∷ before, after, ap (◌∷◌ p) split, is_socket, (h, others))

  scan_absent :
      (p : Text) (ps missing : List Text) (reason : Text) (r : Text × Text)
      → stat p ≡ absent
      → Found ps (missing ++ p ∷ []) reason r
      → Found (p ∷ ps) missing reason r
  scan_absent p ps missing reason r h (inl (first, silent)) =
      inl (first_step p ps r.0 (λ e. cc) first, silent)
  scan_absent p ps missing reason r h (inr (others, no_path, inl kept)) =
      inr (((λ e. cc), others), no_path, inl kept)
  scan_absent p ps missing reason r h (inr (others, no_path, inr (clean, inl (all, said)))) = inr (
    ((λ e. cc), others),
    no_path,
    inr (
      clean,
      inl (
        (h, all),
        said
            ∙ ap (λ l. codes "no engine socket at " ++ join (codes ", ") l)
                (append_assoc missing (p ∷ []) ps),
      ),
    ),
  )
  scan_absent p ps missing reason r h
        (inr (
          others,
          no_path,
          inr (clean, inr (before, q, after, more, split, absents, present, said)),
        )) =
      inr (
        ((λ e. cc), others),
        no_path,
        inr (
          clean,
          inr (p ∷ before, q, after, more, ap (◌∷◌ p) split, (h, absents), present, said),
        ),
      )

  scan_present :
      (p : Text) (ps missing : List Text) (reason told more : Text) (r : Text × Text)
      → stat p ≢ socket
      → stat p ≢ absent
      → told ≡ (if is_empty reason then p ++ more else reason)
      → is_empty (p ++ more) ≡ false
      → Found ps missing told r
      → Found (p ∷ ps) missing reason r
  scan_present p ps missing reason told more r hs ha ht hn (inl (first, silent)) =
      inl (first_step p ps r.0 hs first, silent)
  scan_present p ps missing reason told more r hs ha ht hn
        (inr (others, no_path, inl (full, kept))) =
      elim (Bool-cases (is_empty reason)) [
        | inl e ↦
            let is_told : told ≡ p ++ more = ht ∙ rw e in
            inr
              ((hs, others), no_path, inr (e, inr ([], p, ps, more, refl, tt, ha, kept ∙ is_told)))
        | inr e ↦
            let is_reason : told ≡ reason = ht ∙ rw e in
            inr ((hs, others), no_path, inl (e, kept ∙ is_reason))
      ]
  scan_present p ps missing reason told more r hs ha ht hn (inr (others, no_path, inr (clean, _))) =
      let full : is_empty told ≡ false = ground (arith, ht, hn) in cc

  join_step :
      (p : Text) (ps missing : List Text) (reason : Text)
      → ((missing : List Text) (reason : Text)
          → Found ps missing reason (scan_sockets stat ps missing reason))
      → (st : Stat) → stat p ≡ st
      → Found (p ∷ ps) missing reason (scan_sockets stat (p ∷ ps) missing reason)
  unfolding scan_sockets directory_reason other_reason
  join_step p ps missing reason rest absent h =
      let step : scan_sockets stat (p ∷ ps) missing reason
          ≡ scan_sockets stat ps (missing ++ p ∷ []) reason =
        rw (h, scan_sockets) in
      subst (Found (p ∷ ps) missing reason) (sym step)
        (scan_absent p ps missing reason _ h (rest (missing ++ p ∷ []) reason))
  join_step p ps missing reason rest socket h =
      let step : scan_sockets stat (p ∷ ps) missing reason ≡ (p, []) = rw (h, scan_sockets) in
      subst (Found (p ∷ ps) missing reason) (sym step) (inl (([], ps, refl, h, tt), refl))
  join_step p ps missing reason rest directory h =
      let told : Text = if is_empty reason then directory_reason p else reason in
      let step : scan_sockets stat (p ∷ ps) missing reason ≡ scan_sockets stat ps missing told =
        rw (h, scan_sockets) in
      subst (Found (p ∷ ps) missing reason) (sym step) (
        scan_present p ps missing reason told (codes directory_text) _ (λ e. cc) (λ e. cc) refl
          (not_empty p _ refl) (rest missing told))
  join_step p ps missing reason rest other h =
      let told : Text = if is_empty reason then other_reason p else reason in
      let step : scan_sockets stat (p ∷ ps) missing reason ≡ scan_sockets stat ps missing told =
        rw (h, scan_sockets) in
      subst (Found (p ∷ ps) missing reason) (sym step) (
        scan_present p ps missing reason told (codes other_text) _ (λ e. cc) (λ e. cc) refl
          (not_empty p _ refl) (rest missing told))

  pub scan_sockets-Found :
      (ps missing : List Text) (reason : Text)
      → Found ps missing reason (scan_sockets stat ps missing reason)
  unfolding scan_sockets
  scan_sockets-Found [] missing [] = inr (
    tt,
    refl,
    inr (
      refl,
      inl (
        tt,
        ap (λ l. codes "no engine socket at " ++ join (codes ", ") l) (sym (append-nil missing)),
      ),
    ),
  )
  scan_sockets-Found [] missing (c ∷ reason) = inr (tt, refl, inl (refl, refl))
  scan_sockets-Found (p ∷ ps) missing reason =
      join_step p ps missing reason (scan_sockets-Found ps) (stat p) refl
