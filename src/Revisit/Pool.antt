-- ===== src/Revisit/Pool.antt =====
-- The signal pool of prepare_chain/entry.mjs: its query over the signals, and the statement that
-- claims them. Among signals loaded at the same time the query's order is that of the table.
pub mod Claims
use trend_tree.Prelude.{
  ℕ, ◌+◌, ◌*◌, List, [], ◌∷◌, ◌++◌, map, Option, none, some, Bool, true, false, not, ◌&&◌, Text,
  lit, text_eq, is_empty, starts_with, any, count, filter, sort, take, ltb, if◌then◌else◌,
}
use trend_tree.Revisit.Store.{Signal, Candidate}

abbrev pub pool_limit : ℕ
pool_limit = 1600

abbrev pub per_source_cap : ℕ
per_source_cap = 320

abbrev pub lookback_ms : ℕ
lookback_ms = 48 * 3600000

abbrev pub is_some : Option Text → Bool
is_some none = false
is_some (some t) = true

-- `COALESCE(s.METADATA:signal_kind, 'discovery_signal') = 'discovery_signal'`
abbrev pub is_discovery : Option Text → Bool
is_discovery none = true
is_discovery (some k) = text_eq k (lit "discovery_signal")

-- A promoted candidate cites the signal.
unfoldable pub is_promoted : List Candidate → Signal → Bool
is_promoted candidates s =
    any
      (λ c.
        is_some c.promoted_to && any (λ i. text_eq i s.signal_id) c.proposal.supporting_signal_ids)
      candidates

-- The `WHERE` of the query.
unfoldable pub is_eligible : ℕ → List Candidate → Signal → Bool
is_eligible now candidates s =
    ltb now (s.ingested_at + lookback_ms)
    && starts_with s.agent_session_id (lit "sess-")
    && is_discovery s.signal_kind
    && not (is_promoted candidates s)

abbrev pub older : Signal → Signal → Bool
older a b = ltb a.ingested_at b.ingested_at

abbrev pub from_source : Text → Signal → Bool
from_source source s = text_eq s.source_name source

-- `ROW_NUMBER() OVER (PARTITION BY SOURCE_NAME …) <= 320`, over the rows in order; `before` holds
-- those already numbered.
unfoldable pub cap_sources : List Signal → List Signal → List Signal
cap_sources before [] = []
cap_sources before (s ∷ rest) =
    let kept = cap_sources (s ∷ before) rest in
    if ltb (count (from_source s.source_name) before) per_source_cap then s ∷ kept else kept

unfoldable pub pool_rows : ℕ → List Candidate → List Signal → List Signal
unfolding is_eligible is_promoted cap_sources
pool_rows now candidates signals =
    take pool_limit (cap_sources [] (sort older (filter (is_eligible now candidates) signals)))

-- `poolRows.map((r) => r.SIGNAL_ID).filter(Boolean)`
unfoldable pub pool_ids : ℕ → List Candidate → List Signal → List Text
unfolding pool_rows
pool_ids now candidates signals =
    filter (λ i. not (is_empty i)) (map (λ s. s.signal_id) (pool_rows now candidates signals))

-- `UPDATE … SET AGENT_SESSION_ID = ? WHERE SIGNAL_ID IN (…)`
unfoldable pub claim : Text → List Text → List Signal → List Signal
claim session ids [] = []
claim session ids (s ∷ rest) =
    (if any (λ i. text_eq i s.signal_id) ids then record s { agent_session_id = session } else s)
    ∷ claim session ids rest
