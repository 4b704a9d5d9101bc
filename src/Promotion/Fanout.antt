-- ===== src/Promotion/Fanout.antt =====
-- `fire_enrichment_chain`: the workers that share one cursor over the targets, as a step relation.
pub mod Delivery
use trend_tree.Prelude.{
  ℕ, ◌+◌, ◌<◌, ◌≡◌, List, [], ◌∷◌, ◌++◌, map, Option, Bool, true, false, ◌||◌, Text, lit, is_empty,
  starts_with, count, length, min, if◌then◌else◌,
}
use trend_tree.Promotion.Gate.{to_lower}
use trend_tree.Promotion.Targets.{
  Applied, UnenrichedRow, Target, extract_promoted_trend_ids, select_retry_trend_ids,
  build_dispatch_targets,
}

abbrev pub fanout_concurrency : ℕ
fanout_concurrency = 5

-- A response to a POST.
pub record Answer : Type 0 where
  pub target : Target
  pub ok : Bool

-- The targets from the cursor on, those whose POST is under way, those whose response was not ok
-- and whose body is being read, and the two lists of results.
pub record Fanout : Type 0 where
  pub left : List Target
  pub busy : List Target
  pub reading : List Target
  pub dispatched : List Answer
  pub errors : List Target

unfoldable pub worker_count : List Target → ℕ
worker_count targets = min fanout_concurrency (length targets)

-- One step of one worker. An idle worker takes the target at the cursor and moves the cursor. A
-- worker whose POST is under way meets an ok response and is idle again, or another one, whose body
-- it then reads; or a fault or the timeout. A body that is read is only logged; one that cannot be
-- read is a fault of a target that is among the results already.
pub data Step (workers : ℕ) (s : Fanout) : Fanout → Type 0 where
  take_next :
      (t : Target) (ts : List Target)
      → s.left ≡ t ∷ ts
      → length s.busy + length s.reading < workers
      → Step workers s (record s { left = ts; busy = s.busy ++ t ∷ [] })
  answer :
      (before after : List Target) (t : Target)
      → s.busy ≡ before ++ t ∷ after
      → Step workers s (record s {
        busy = before ++ after;
        dispatched = s.dispatched ++ record { target = t; ok = true } ∷ [];
      })
  refuse :
      (before after : List Target) (t : Target)
      → s.busy ≡ before ++ t ∷ after
      → Step workers s (record s {
        busy = before ++ after;
        reading = s.reading ++ t ∷ [];
        dispatched = s.dispatched ++ record { target = t; ok = false } ∷ [];
      })
  read_body :
      (before after : List Target) (t : Target)
      → s.reading ≡ before ++ t ∷ after
      → Step workers s (record s { reading = before ++ after })
  body_fault :
      (before after : List Target) (t : Target)
      → s.reading ≡ before ++ t ∷ after
      → Step workers s (record s { reading = before ++ after; errors = s.errors ++ t ∷ [] })
  fault :
      (before after : List Target) (t : Target)
      → s.busy ≡ before ++ t ∷ after
      → Step workers s (record s { busy = before ++ after; errors = s.errors ++ t ∷ [] })

-- The states after some steps, with their number.
pub data Reach (workers : ℕ) (s : Fanout) : ℕ → Fanout → Type 0 where
  start : Reach workers s 0 s
  more : (n : ℕ) (t u : Fanout) → Reach workers s n t → Step workers t u → Reach workers s (1 + n) u

abbrev pub fan_out : List Target → Fanout
fan_out targets = record { left = targets; busy = []; reading = []; dispatched = []; errors = [] }

-- `/PLACEHOLDER/i.test(url)`
unfoldable pub has_placeholder : Text → Bool
has_placeholder [] = false
has_placeholder (c ∷ cs) = starts_with (to_lower (c ∷ cs)) (lit "placeholder") || has_placeholder cs

-- How a run of the step begins: with nothing to send, without a URL, or with the workers.
pub data Fired : Type 0 where
  nothing_to_send : Fired
  not_configured : List Target → Fired
  fanned : Fanout → Fired

unfoldable pub fire_targets : Text → List Target → Fired
fire_targets url [] = nothing_to_send
fire_targets url (t ∷ ts) =
    if is_empty url || has_placeholder url
    then not_configured (t ∷ ts)
    else fanned (fan_out (t ∷ ts))

unfoldable pub fire_enrichment_chain :
    Option (List Applied) → List UnenrichedRow → ℕ → Bool → Text → Fired
fire_enrichment_chain apply_result unenriched_rows iteration dry_run url = fire_targets url (
    build_dispatch_targets (extract_promoted_trend_ids apply_result)
      (select_retry_trend_ids unenriched_rows iteration dry_run))

-- `dispatched.filter((d) => d.ok).length`
unfoldable pub dispatched_count : Fanout → ℕ
dispatched_count s = count (λ a. a.ok) s.dispatched
