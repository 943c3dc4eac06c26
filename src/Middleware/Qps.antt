-- ===== src/Middleware/Qps.antt =====
-- HttpServer/include/middleware/QpsMetricsMiddleware.h and
-- HttpServer/src/middleware/QpsMetricsMiddleware.cpp. The file's global state is a record, the clock an
-- argument in milliseconds; a cutoff before the epoch is 0, below which no hit lies. A double is kept as
-- the quotient that it rounds.
pub mod Window
use miniaibrowse_cpp.Common.{
  ℕ, ◌+◌, ◌-◌, ◌*◌, ◌%◌, ◌^◌, List, [], ◌∷◌, ◌++◌, length, bytes_key, ℕ_key, ltb, leb,
  if◌then◌else◌,
}

pub record Metrics : Type 0 where
  pub total : ℕ
  pub hits : List ℕ

-- 0.0, or `hits` over `millis` thousandths of a second.
pub data Qps : Type 0 where
  zero_qps : Qps
  rate : ℕ → ℕ → Qps

unfoldable pub purge_old : ℕ → List ℕ → List ℕ
purge_old cutoff [] = []
purge_old cutoff (hit ∷ hits) = if ltb hit cutoff then purge_old cutoff hits else hit ∷ hits

unfoldable pub before : ℕ → Metrics → Metrics
before ts m = record {
  total = (m.total + 1) % 2 ^ 64;
  hits = purge_old (ts - 10000) (m.hits ++ ts ∷ []);
}

abbrev pub qps_of : ℕ → List ℕ → Qps
qps_of now [] = zero_qps
qps_of now (front ∷ hits) =
    if leb now front then zero_qps else rate (length (front ∷ hits)) (now - front)

-- `getQps` purges the shared deque as it reads it.
unfoldable pub get_qps : ℕ → ℕ → Metrics → Qps × Metrics
get_qps now window_seconds m =
    let hits = purge_old (now - window_seconds * 1000) m.hits in
    (qps_of now hits, record m { hits = hits })

unfoldable pub get_total_requests : Metrics → ℕ
get_total_requests m = m.total

pub record MetricsJson : Type 0 where
  pub total_requests : ℕ
  pub qps_1s : Qps
  pub qps_5s : Qps
  pub qps_60s : Qps

-- The values that `getMetricsJson` prints; each `getQps` reads the clock.
unfoldable pub get_metrics_json : ℕ → ℕ → ℕ → Metrics → MetricsJson × Metrics
unfolding get_qps get_total_requests
get_metrics_json t₁ t₂ t₃ m =
    let (q₁, m₁) = get_qps t₁ 1 m in
    let (q₂, m₂) = get_qps t₂ 5 m₁ in
    let (q₃, m₃) = get_qps t₃ 60 m₂ in
    (record { total_requests = get_total_requests m; qps_1s = q₁; qps_5s = q₂; qps_60s = q₃ }, m₃)
