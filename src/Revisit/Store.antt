-- ===== src/Revisit/Store.antt =====
-- What the steps of the workflow read and write: the warehouse tables, the requests sent, and a
-- step as a function of that state which may throw. The statements are the SQL texts that the
-- steps hold; `NULL` is `none`, and an absent text or `null` is the empty text.
use trend_tree.Prelude.{ℕ, List, Option, Bool, Text, Double}
use trend_tree.Revisit.Packing.{ClusterRow}

pub data Status : Type 0 where
  pending done failed : Status

-- STG_REVISIT_BATCH_QUEUE
pub record QueueRow : Type 0 where
  pub chain_id : Text
  pub agent_session_id : Text
  pub batch_index : ℕ
  pub total_batches : ℕ
  pub cluster_rows : List ClusterRow
  pub signal_ids : List Text
  pub signal_count : ℕ
  pub status : Status
  pub candidates_count : ℕ
  pub cost_usd : ℕ
  pub run_duration_ms : ℕ
  pub error : Text

-- STG_EXTERNAL_SIGNALS
pub record Signal : Type 0 where
  pub signal_id : Text
  pub source_name : Text
  pub ingested_at : ℕ
  pub agent_session_id : Text
  pub signal_kind : Option Text

-- A candidate that the cluster agent proposes, and its row of STG_TREND_CANDIDATES.
pub record Proposal : Type 0 where
  pub candidate_id : Text
  pub supporting_signal_ids : List Text

pub record Candidate : Type 0 where
  pub proposal : Proposal
  pub promoted_to : Option Text

-- The row of STG_DISTILLATION_CURSOR that the workflow merges.
pub record Cursor : Type 0 where
  pub last_run_at : ℕ
  pub run_duration_ms : ℕ
  pub signal_count : ℕ
  pub candidate_count : ℕ
  pub cost_usd : ℕ

-- The body of the request to the cluster agent.
pub record Request : Type 0 where
  pub cluster_rows : List ClusterRow
  pub signal_ids : List Text
  pub agent_session_id : Text
  pub chain_id : Text

-- The body that a run receives: from the timer, a manual POST or the previous run of the chain.
-- `dry_run` is whether the field is `true` or "true"; an absent budget is NaN, as `Number` makes it.
pub record Trigger : Type 0 where
  pub mode : Text
  pub chain_id : Text
  pub agent_session_id : Text
  pub dry_run : Bool
  pub budget_per_subagent_usd : Double

pub record Store : Type 0 where
  pub signals : List Signal
  pub candidates : List Candidate
  pub queue : List QueueRow
  pub cursor : Option Cursor
  pub sent : List Request
  pub posted : List Trigger

pub data Fault : Type 0 where
  no_session cluster_url_unset cluster_unreachable lead_url_unset self_post_failed
        cost_not_a_number :
      Fault
  cluster_http : ℕ → Fault

pub data Result (A : Type 0) : Type 0 where
  ok : A → Result A
  err : Fault → Result A

-- A thrown error leaves the writes that were made before it.
abbrev pub Step : Type 0 → Type 0
Step A = Store → Result A × Store

abbrev pub bind : {A B : Type 0} → Result A × Store → (A → Step B) → Result B × Store
bind (ok a, s) f = f a s
bind (err e, s) f = (err e, s)

infixl 5 ◌>>=◌ ◌>>◌
abbrev pub ◌>>=◌ : {A B : Type 0} → Step A → (A → Step B) → Step B
◌>>=◌ m f s = bind (m s) f

abbrev pub ◌>>◌ : {B : Type 0} → Step (Unit {0}) → Step B → Step B
m >> k = m >>= λ _. k

abbrev pub pure : {A : Type 0} → A → Step A
pure a s = (ok a, s)

abbrev pub throw : {A : Type 0} → Fault → Step A
throw e s = (err e, s)
