-- ===== src/Middleware/Qps/Window.antt =====
-- The sliding window of the request counter.
use miniaibrowse_cpp.Common.{
  ℕ, ◌+◌, ◌-◌, ◌*◌, ◌%◌, ◌^◌, ◌≤◌, ◌≡◌, refl, ap, ◌∙◌, List, [], ◌∷◌, ◌++◌, All, bytes_key, ℕ_key,
  ltb, if◌then◌else◌, arith,
}
use miniaibrowse_cpp.Middleware.Qps.{Metrics, purge_old, before, qps_of, get_qps, get_metrics_json}

-- Oldest first, and none below `lo`.
abbrev pub Ordered : ℕ → List ℕ → Type 0
Ordered lo [] = Unit
Ordered lo (hit ∷ hits) = (lo ≤ hit) × Ordered hit hits

abbrev pub within : ℕ → List ℕ → List ℕ
within cutoff [] = []
within cutoff (hit ∷ hits) = if ltb hit cutoff then within cutoff hits else hit ∷ within cutoff hits

Ordered-mono : (lo lo' : ℕ) (hits : List ℕ) → lo' ≤ lo → Ordered lo hits → Ordered lo' hits
Ordered-mono lo lo' [] h o = tt
Ordered-mono lo lo' (hit ∷ hits) h o = (omega arith, o.1)

within_all :
    (cutoff lo : ℕ) (hits : List ℕ) → Ordered lo hits → cutoff ≤ lo → within cutoff hits ≡ hits
within_all cutoff lo [] o h = refl
within_all cutoff lo (hit ∷ hits) o h = ground (arith, within_all cutoff hit hits o.1)

-- On hits in order, purging from the front is filtering.
purge_old-within :
    (cutoff lo : ℕ) (hits : List ℕ) → Ordered lo hits → purge_old cutoff hits ≡ within cutoff hits
unfolding purge_old
purge_old-within cutoff lo [] o = refl
purge_old-within cutoff lo (hit ∷ hits) o =
    ground (arith, purge_old-within cutoff hit hits o.1, within_all cutoff hit hits o.1)

purge_old-Ordered :
    (cutoff lo : ℕ) (hits : List ℕ) → Ordered lo hits → Ordered lo (purge_old cutoff hits)
unfolding purge_old
purge_old-Ordered cutoff lo [] o = tt
purge_old-Ordered cutoff lo (hit ∷ hits) o =
    ground
      (arith, purge_old-Ordered cutoff hit hits o.1, Ordered-mono hit lo (purge_old cutoff hits))

Ordered-append :
    (lo ts : ℕ) (hits : List ℕ)
    → Ordered lo hits
    → lo ≤ ts
    → All (λ hit. hit ≤ ts) hits
    → Ordered lo (hits ++ ts ∷ [])
Ordered-append lo ts [] o h a = (h, tt)
Ordered-append lo ts (hit ∷ hits) o h a = (o.0, Ordered-append hit ts hits o.1 a.0 a.1)

-- While the clock does not run back, a request is counted once, and the hits kept are exactly those of
-- the last ten seconds, oldest first, with the new one.
pub before-within :
    (ts : ℕ) (m : Metrics)
    → Ordered 0 m.hits
    → All (λ hit. hit ≤ ts) m.hits
    → ((before ts m).total ≡ (m.total + 1) % 2 ^ 64)
      × ((before ts m).hits ≡ within (ts - 10000) (m.hits ++ ts ∷ []))
      × Ordered 0 (before ts m).hits
unfolding before
before-within ts m o a =
    let o' = Ordered-append 0 ts m.hits o (omega arith) a in
    (
      refl,
      purge_old-within (ts - 10000) 0 (m.hits ++ ts ∷ []) o',
      purge_old-Ordered (ts - 10000) 0 (m.hits ++ ts ∷ []) o',
    )

-- While the hits are in order, `getQps` is the rate of the hits in its window, and forgets all others.
pub get_qps-within :
    (now window : ℕ) (m : Metrics)
    → Ordered 0 m.hits
    → let kept = within (now - window * 1000) m.hits in
      ((get_qps now window m).0 ≡ qps_of now kept) × ((get_qps now window m).1.hits ≡ kept)
unfolding get_qps
get_qps-within now window m o =
    let e = purge_old-within (now - window * 1000) 0 m.hits o in (ap (qps_of now) e, e)

purge_old_twice :
    (small large : ℕ) (hits : List ℕ)
    → small ≤ large
    → purge_old small (purge_old large hits) ≡ purge_old large hits
unfolding purge_old
purge_old_twice small large [] h = refl
purge_old_twice small large (hit ∷ hits) h = ground (arith, purge_old_twice small large hits h)

-- The three rates of the metrics report are one: the rate over one second, read first, forgets the
-- older hits, so within one tick of the clock the rates over five and sixty seconds repeat it.
pub get_metrics_json_one_window :
    (now : ℕ) (m : Metrics)
    → let report = (get_metrics_json now now now m).0 in
      (report.qps_1s ≡ (get_qps now 1 m).0)
      × (report.qps_5s ≡ report.qps_1s)
      × (report.qps_60s ≡ report.qps_1s)
unfolding get_metrics_json
get_metrics_json_one_window now m =
    let once = purge_old (now - 1 * 1000) m.hits in
    let five : purge_old (now - 5 * 1000) once ≡ once =
      purge_old_twice (now - 5 * 1000) (now - 1 * 1000) m.hits (omega arith) in
    let sixty : purge_old (now - 60 * 1000) once ≡ once =
      purge_old_twice (now - 60 * 1000) (now - 1 * 1000) m.hits (omega arith) in
    (
      refl,
      ap (qps_of now) five,
      ap (λ hits. qps_of now (purge_old (now - 60 * 1000) hits)) five ∙ ap (qps_of now) sixty,
    )
