-- ===== src/Logs/Page/Limits.antt =====
-- What a page of internal/logs/page.go holds back, and that it says so.
use chaos_test.Common.{
  ℕ, ◌+◌, ◌≤◌, ◌≡◌, refl, sym, inl, inr, ℤ, List, arith, ltb, ltb→lt, length, last_n, length-last_n,
  last_n_all, keep, Bool-cases,
}
use chaos_test.Logs.Line.{Line}
use chaos_test.Logs.Parse.{Clock}
use chaos_test.Logs.Filter.{Texts, matches}
use chaos_test.Logs.Page.{Request, page_of, clamp_limit, resume, renumber}

clamp_limit_bounds : (limit : ℤ) → (1 ≤ clamp_limit limit) × (clamp_limit limit ≤ 5000)
unfolding clamp_limit
clamp_limit_bounds limit = ground arith

-- A page holds the newest of the fresh lines that pass the filter, in their order, at most the
-- limit, which lies between 1 and 5000 whatever was asked for; and what it counts as matched is
-- what it holds with what it counts as dropped.
pub page_limits :
    (clock : Clock) (txt : Texts) (req : Request) (window : List Line) (total : ℕ)
    → let p = page_of clock txt req window total in
      let r = resume req window in
      (p.lines
        ≡ last_n
            (clamp_limit req.limit)
            (keep (matches txt req.filter) (renumber r.offset r.fresh)))
      × (length p.lines ≤ clamp_limit req.limit)
      × (1 ≤ clamp_limit req.limit)
      × (clamp_limit req.limit ≤ 5000)
      × (p.matched ≡ length p.lines + p.dropped)
unfolding page_of
page_limits clock txt req window total =
    let n = clamp_limit req.limit in
    let b = clamp_limit_bounds req.limit in
    let hits =
      keep (matches txt req.filter)
        (renumber (resume req window).offset (resume req window).fresh) in
    elim (Bool-cases (ltb n (length hits))) [
      | inl over ↦ rw over (
        refl,
        omega (arith, length-last_n n hits),
        b.0,
        b.1,
        omega (arith, length-last_n n hits, ltb→lt n (length hits) over),
      )
      | inr fine ↦
          rw fine (sym (last_n_all n hits (ground arith)), ground arith, b.0, b.1, omega arith)
    ]
