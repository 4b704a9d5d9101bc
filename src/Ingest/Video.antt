-- ===== src/Ingest/Video.antt =====
-- The links of videos, and the time that an id carries.
use trend_tree.Prelude.{
  ℕ, ◌+◌, ◌*◌, ◌-◌, ◌/◌, [], ◌∷◌, Option, none, some, Bool, true, false, not, ◌&&◌, ◌||◌, Text, lit,
  text_eq, is_empty, starts_with, drop, leb, ◌==◌, if◌then◌else◌, all,
}
use mathlib.Core.List.{reverse}

abbrev pub is_digit : ℕ → Bool
is_digit c = leb b'0' c && leb c b'9'

-- What `new URL(link)` gives: `bare` is the URL without its search and its hash.
pub record Url : Type 0 where
  pub hostname : Text
  pub pathname : Text
  pub bare : Text

pub record VideoLink : Type 0 where
  pub signal_id : Text
  pub video_id : Text

abbrev ends_with : Text → Text → Bool
ends_with s w = starts_with (reverse s) (reverse w)

-- `/(^|\.)tiktok\.com$/`
unfoldable pub is_tiktok_host : Text → Bool
is_tiktok_host h = text_eq h (lit "tiktok.com") || ends_with h (lit ".tiktok.com")

-- Digits to the end, or to a slash at the end; the first argument are those that are read.
unfoldable pub read_id : Text → Text → Option Text
read_id digits [] = if is_empty digits then none else some (reverse digits)
read_id digits (c ∷ cs) =
    let rest = read_id (c ∷ digits) cs in
    if is_digit c
    then rest
    else if c == b'/' && is_empty cs && not (is_empty digits)
    then some (reverse digits)
    else none

-- The rest of a user's name, of which a unit is read or not, and what follows it.
unfoldable pub read_user : Bool → Text → Option Text
read_user some_read [] = none
read_user some_read (c ∷ cs) =
    let rest = read_user true cs in
    if not (c == b'/')
    then rest
    else if some_read && starts_with (c ∷ cs) (lit "/video/")
    then read_id [] (drop 7 (c ∷ cs))
    else none

-- `/^\/@[^/]+\/video\/(\d+)\/?$/`
unfoldable pub video_id_of : Text → Option Text
video_id_of path = if starts_with path (lit "/@") then read_user false (drop 2 path) else none

abbrev link_of : Text → Option Text → Option VideoLink
link_of bare none = none
link_of bare (some id) = some (record { signal_id = bare; video_id = id })

abbrev link_at : Url → Option VideoLink
link_at u = if is_tiktok_host u.hostname then link_of u.bare (video_id_of u.pathname) else none

abbrev parsed_link : Option Url → Option VideoLink
parsed_link none = none
parsed_link (some u) = link_at u

-- `parseVideoLink`; `parse_url` is `new URL`, none if it throws.
unfoldable pub parse_video_link : (Text → Option Url) → Text → Option VideoLink
parse_video_link parse_url link = parsed_link (parse_url link)

unfoldable pub decimal : ℕ → Text → ℕ
decimal n [] = n
decimal n (c ∷ cs) = decimal (n * 10 + (c - b'0')) cs

-- `decodeVideoTime`, in seconds
unfoldable pub decode_video_time : Text → Option ℕ
decode_video_time id =
    let seconds = decimal 0 id / 4294967296 in
    if is_empty id || not (all is_digit id)
    then none
    else if seconds == 0
    then none
    else some seconds

pub data TimeSource : Type 0 where
  from_video_id from_fetch : TimeSource

pub record PostTime : Type 0 where
  pub at_ms : ℕ
  pub source : TimeSource

abbrev pub query_window_ms : ℕ
query_window_ms = 24 * 60 * 60 * 1000

abbrev pub future_skew_ms : ℕ
future_skew_ms = 5 * 60 * 1000

abbrev pub fetch_time : ℕ → PostTime
fetch_time fetched_at = record { at_ms = fetched_at; source = from_fetch }

abbrev time_in_window : ℕ → Option ℕ → PostTime
time_in_window fetched_at none = fetch_time fetched_at
time_in_window fetched_at (some seconds) =
    if leb fetched_at (seconds * 1000 + query_window_ms)
      && leb (seconds * 1000) (fetched_at + future_skew_ms)
    then record { at_ms = seconds * 1000; source = from_video_id }
    else fetch_time fetched_at

-- `postTime`; the times are in milliseconds.
unfoldable pub post_time : Text → ℕ → PostTime
post_time id fetched_at = time_in_window fetched_at (decode_video_time id)
