-- ===== src/Lib.antt =====
-- Trend Tree: a model of the parts of the pipeline that decide what happens to a trend, with
-- the theorems that make them correct.
--
-- The pipeline takes signals of many sources, clusters them into candidates (distillation), promotes
-- candidates to trends (promotion), enriches the trends and sources products for them (sourcing). Each
-- workflow is a sequence of steps over tables of a database; the workflows start one another by HTTP.
--
-- * Revisit (distillation-revisit-p_o7CWWZl): a chain of runs that clusters again the signals that
--   became no trend. Revisit.Pool is the selection and the claim of the signals, Revisit.Packing the
--   `binPack` of prepare_chain, Revisit.Queue the table of batches, Revisit.Store the tables and the
--   messages, and Revisit.Lead the steps and their composition in workflow.yaml: a run takes one
--   batch, sends it to the cluster agent, commits the answer, and posts the next run.
-- * Sourcing (services/lib/sourcing_run.mjs, services/lib/sourcing_poll.mjs, services/ecomm-agent):
--   Sourcing.Pool is `applyFloorAndTopN`, Sourcing.Plan `buildSourcingRunPlan`, Sourcing.Context
--   `normalizeEvent` and `fetchContext`, Sourcing.Run `runSourcing` with its error paths, and
--   Sourcing.Poll `runPoll`, which makes one run for each trend that it claims.
-- * Promotion (agents/lib/promotion_gate.mjs, agents/lib/promotion_verdict.mjs,
--   promotion-p_xMC99jg/fire_enrichment_chain): Promotion.Gate is `classifyCandidate`,
--   Promotion.Verdict `resolveDistillationVerdict`, Promotion.Targets the choice of the trends to
--   enrich, and Promotion.Fanout the concurrent workers that send them.
--   Promotion.Retrigger is normalize_event and eval_and_retrigger, the chain of runs that a promotion
--   starts by itself.
-- * Catalog (services/lib/catalog_transform.mjs, services/lib/catalog_sync.mjs,
--   services/lib/catalog_sql.mjs): Catalog.Doc is `buildEmbedDoc`, Catalog.Feed
--   `normalizeStorefrontProducts`, Catalog.Plan `planCatalogUpsert`, and Catalog.Sync `runCatalogSync`
--   with the statements that it sends and what they make of the table of products.
-- * Agents (services/lib/gemini_loop.mjs): Agents.Loop is `runAgentLoop`, the turns of a model that
--   calls tools.
-- * Lifecycle (services/lib/lifecycle_tick.mjs and `buildDecision` of
--   services/lib/lifecycle_context.mjs): Lifecycle.Collect is `collect`, and Lifecycle.Tick `runTick`,
--   which collects the batch in flight and submits the next one.
-- * Ingest (services/lib/tiktok_ingest.mjs): Ingest.Video reads the links and the ids of videos, and
--   Ingest.Run is `runTikTokIngest`.
-- * Scrape (services/lib/scrape_job_id.mjs): Scrape.JobId is `formatJobId` and `parseJobId`, the ids
--   by which the scrape gateway names a job without keeping any state.
--
-- Prelude holds what these share: Boolean tests, lists, texts, doubles, and the stable sort. A
-- text is the list of its UTF-16 code units. A double is NaN or its place in the order of the
-- doubles, since the source only compares the doubles that are modelled. A step of a workflow
-- takes the tables and gives a result with the new tables. Where the source calls a database, a
-- model or a clock, the answer is an argument of the definition: the field of a `World`, an
-- `Attempt` or a `Tick`, or a `Reply`, which is an answer or the message of what was thrown. A run
-- of Sourcing records the statements that it sends in place of the tables, because a statement
-- whose reply is lost may or may not have been applied. The workers of Promotion.Fanout are a step
-- relation, which admits every order in which their requests end and the bodies of refusals are
-- read. What a sweep of Catalog, a tick of Lifecycle and a run of Ingest send is a list, and a run
-- that breaks off has sent a first part of it; a tick of Lifecycle reads the table of batches, and
-- `Reached` are the tables that ticks make, each of which may break off.
--
-- Two definitions take fuel: `chunk`, with the length of the list, and the chain of promotions,
-- for which the iterations of its first payload are enough, as is proved. `run_turns` counts the
-- turns that are left. The other loops run over lists, a chain of runs over the list of the worlds
-- that its runs meet (the number of pending batches is enough for it to end), and the workers over
-- the steps of a `Reach`, whose number the targets bound.
--
-- Simplified: the ages of a retry are in whole minutes, of which the source takes a sixtieth as
-- hours; the names of sources are ASCII; messages that are only read by people are constructors
-- with their parts, and log lines are left out; the age of the catalog in days, which is only
-- displayed, is left out; the database statements of the revisit steps succeed; the numbers of a
-- callback of the cluster agent are natural numbers, except for its cost, which may be no number;
-- the rows of one MERGE of the catalog are taken in turn, as their keys differ; the columns
-- FIRST_SEEN_AT and UPDATED_AT, and the tokens and the dollars of a cost row, are left out; the
-- iterations of a promotion are whole numbers; the ticks of Lifecycle do not overlap; a time stamp
-- is its milliseconds; the order of the keys in the outcomes of a poll is the order of their first
-- run.
--
-- Parameters: SHA-256, of which a sweep needs that no listing of its feed has a text with the hash
-- of another text that the listing's row holds; the embedding; `JSON.parse` of a model's answer;
-- `new URL`; and the arithmetic of the costs.
--
-- Not modelled: the prompts and the calls of models, the HTTP servers and database drivers, the
-- fetchers of the sources, the SQL procedures, the Python services and the deployment scripts.
mod Prelude
pub mod Revisit
pub mod Sourcing
pub mod Promotion
pub mod Scrape
pub mod Catalog
pub mod Agents
pub mod Lifecycle
pub mod Ingest
