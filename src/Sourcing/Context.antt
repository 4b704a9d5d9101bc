-- ===== src/Sourcing/Context.antt =====
-- What a run is told: `normalizeEvent`, the catalog's freshness and the four reads of
-- `fetchContext`. The answers of the database are given as replies.
use trend_tree.Prelude.{
  ℕ, ◌+◌, ◌>>=◌, List, [], ◌∷◌, map, Option, none, some, Bool, true, false, not, ◌&&◌, ◌||◌, Text,
  is_empty, trim, Double, length, take, drop, all, leb, ltb, ◌==◌, if◌then◌else◌,
}
use trend_tree.Sourcing.Pool.{Entry}

-- A call of an external service: its answer, or the message of what it threw.
pub data Reply {ℓ} (A : Type ℓ) : Type ℓ where
  threw : Text → Reply A
  replied : A → Reply A

abbrev is_hex : ℕ → Bool
is_hex c = (leb b'0' c && leb c b'9') || (leb b'a' c && leb c b'f') || (leb b'A' c && leb c b'F')

-- The first `n` units are hexadecimal digits.
abbrev hex_run : ℕ → Text → Bool
hex_run n s = (length (take n s) == n) && all is_hex (take n s)

abbrev dash_at : ℕ → Text → Bool
dash_at n s = elim (drop n s) [ [] ↦ false | c ∷ _ ↦ c == b'-' ]

-- `UUID_RE.test(s)`
unfoldable pub is_uuid : Text → Bool
is_uuid s =
    hex_run 8 s
    && dash_at 8 s
    && hex_run 4 (drop 9 s)
    && dash_at 13 s
    && hex_run 4 (drop 14 s)
    && dash_at 18 s
    && hex_run 4 (drop 19 s)
    && dash_at 23 s
    && hex_run 12 (drop 24 s)
    && (length s == 36)

abbrev pub id_max_chars : ℕ
id_max_chars = 64

-- The body of a request; a field that is missing or no text is empty.
pub record Body : Type 0 where
  pub trend_id : Text
  pub chain_id : Text
  pub agent_session_id : Text

pub record Event : Type 0 where
  pub trend_id : Text
  pub chain_id : Text
  pub agent_session_id : Text

-- `callerId(raw, field) ?? generated`; none is the error.
unfoldable pub caller_id : Text → Text → Option Text
caller_id raw generated =
    if is_empty raw
    then some generated
    else if ltb id_max_chars (length raw)
    then none
    else some raw

-- None is a `BadRequestError`. The texts beside the body are the ids that would be generated.
unfoldable pub normalize_event : Text → Text → Body → Option Event
normalize_event fresh_chain fresh_session b = if not (is_uuid (trim b.trend_id)) then none else do
  chain ← caller_id b.chain_id fresh_chain
  session ← caller_id b.agent_session_id fresh_session
  some (record { trend_id = trim b.trend_id; chain_id = chain; agent_session_id = session })

-- `MAX(LAST_SEEN_AT)`, an instant in milliseconds
pub data LastSeen : Type 0 where
  no_active_rows unparseable : LastSeen
  seen_at : ℕ → LastSeen

-- The reasons of a decline.
pub data Decline : Type 0 where
  catalog_is_empty last_seen_unreadable catalog_is_stale : Decline

-- `CATALOG_FRESHNESS_MAX_DAYS` in milliseconds
abbrev pub freshness_max_ms : ℕ
freshness_max_ms = 604800000

-- None is fresh.
unfoldable pub check_catalog_freshness : ℕ → LastSeen → Option Decline
check_catalog_freshness now no_active_rows = some catalog_is_empty
check_catalog_freshness now unparseable = some last_seen_unreadable
check_catalog_freshness now (seen_at t) =
    if leb now (t + freshness_max_ms) then none else some catalog_is_stale

pub record RetrievalRow : Type 0 where
  pub catalog_product_id : Text
  pub product_title : Option Text
  pub vendor : Option Text
  pub product_type : Option Text
  pub semantic_score : Double
  pub product_url : Option Text
  pub price : Option Double
  pub image_url : Option Text
  pub available : Option Bool

-- The text that only the selector reads, `embed_doc`, is left out.
unfoldable pub pool_entry_from_retrieval_row : RetrievalRow → Entry
pool_entry_from_retrieval_row r = record {
  catalog_product_id = r.catalog_product_id;
  details = record {
    product_handle = some r.catalog_product_id;
    product_title = r.product_title;
    product_type = r.product_type;
    vendor = r.vendor;
    product_url = r.product_url;
    price_at_match = r.price;
    image_url_at_match = r.image_url;
    available_at_match = r.available;
    catalog_payload = none;
  };
  semantic_score = r.semantic_score;
}

-- A missing prompt has the empty template.
pub record Context : Type 0 where
  pub declined : Option Decline
  pub trend_found : Bool
  pub pool : List Entry
  pub template : Text

-- The answers to the four reads: the freshness, whether the trend has a vector, the retrieval, and
-- the active prompt.
pub record Reads : Type 0 where
  pub last_seen : Reply LastSeen
  pub trend_found : Reply Bool
  pub retrieval : Reply (List RetrievalRow)
  pub template : Reply Text

abbrev empty_context : Option Decline → Context
empty_context d = record { declined = d; trend_found = false; pool = []; template = [] }

-- The pool and the prompt are awaited together.
unfoldable pub gather : Reply (List RetrievalRow) → Reply Text → Reply Context
gather (threw m) _ = threw m
gather (replied _) (threw m) = threw m
gather (replied rows) (replied t) = replied (record {
  declined = none;
  trend_found = true;
  pool = map pool_entry_from_retrieval_row rows;
  template = t;
})

unfoldable pub read_trend : Reads → Reply Context
read_trend r = elim r.trend_found [
  | threw m ↦ threw m
  | replied false ↦ replied (empty_context none)
  | replied true ↦ gather r.retrieval r.template
]

unfoldable pub fetch_context : ℕ → Reads → Reply Context
fetch_context now r = elim r.last_seen [
  | threw m ↦ threw m
  | replied seen ↦ elim (check_catalog_freshness now seen) [
    | some d ↦ replied (empty_context (some d))
    | none ↦ read_trend r
  ]
]
