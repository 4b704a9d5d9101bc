-- ===== src/Catalog/Doc.antt =====
-- `buildEmbedDoc` of catalog_transform.mjs: the text that a product is embedded by.
use trend_tree.Prelude.{
  ℕ, zero, suc, ◌+◌, ◌*◌, ◌-◌, ◌/◌, ◌%◌, List, [], ◌∷◌, ◌++◌, map, Option, none, some, Bool, true,
  false, not, ◌&&◌, ◌||◌, Text, lit, text_eq, is_empty, is_space, trim, starts_with, any, filter,
  length, take, drop, leb, ltb, ◌==◌, if◌then◌else◌,
}

abbrev pub body_char_cap : ℕ
body_char_cap = 600

-- `s.replace(/<[^>]*>/g, " ")`; the Boolean says that a tag is open.
unfoldable pub strip_tags : Bool → Text → Text
strip_tags b [] = []
strip_tags true (c ∷ cs) = elim (c == b'>') [
  | true ↦ strip_tags false cs
  | false ↦ strip_tags true cs
]
strip_tags false (c ∷ cs) = elim (c == b'<' && any (λ d. d == b'>') cs) [
  | true ↦ b' ' ∷ strip_tags true cs
  | false ↦ c ∷ strip_tags false cs
]

-- What an entity stands for, and how many units follow its `&`.
pub record Entity : Type 0 where
  pub decoded : Text
  pub units : ℕ

abbrev entity : ℕ → ℕ → Option Entity
entity c n = some (record { decoded = c ∷ []; units = n })

-- `/&(amp|lt|gt|quot|apos|nbsp);/`, after the `&`
unfoldable pub named_entity : Text → Option Entity
named_entity s =
    if starts_with s (lit "amp;")
    then entity b'&' 4
    else if starts_with s (lit "lt;")
    then entity b'<' 3
    else if starts_with s (lit "gt;")
    then entity b'>' 3
    else if starts_with s (lit "quot;")
    then entity b'"' 5
    else if starts_with s (lit "apos;")
    then entity 39 5
    else if starts_with s (lit "nbsp;")
    then entity b' ' 5
    else none

-- The value of a digit below the base.
unfoldable pub digit_value : ℕ → ℕ → Option ℕ
digit_value base c =
    let d =
      if leb b'0' c && leb c b'9'
      then c - b'0'
      else if leb b'a' c && leb c b'f'
      then c - b'a' + 10
      else if leb b'A' c && leb c b'F'
      then c - b'A' + 10
      else base in
    if ltb d base then some d else none

-- The digits that `parseInt` reads, with their number, up to a semicolon.
pub record Numeral : Type 0 where
  pub value : ℕ
  pub digits : ℕ

unfoldable pub read_digits : ℕ → ℕ → ℕ → Text → Option Numeral
read_digits base value digits [] = none
read_digits base value digits (c ∷ cs) =
    if c == b';'
    then (if digits == 0 then none else some (record { value = value; digits = digits }))
    else elim (digit_value base c) [
      | none ↦ none
      | some d ↦ read_digits base (value * base + d) (suc digits) cs
    ]

-- `decodeCodePoint`: its UTF-16 units, none beyond the last code point.
unfoldable pub decode_code_point : ℕ → Text
decode_code_point n =
    if ltb 0x10ffff n
    then []
    else if ltb n 0x10000
    then n ∷ []
    else (0xd800 + (n - 0x10000) / 0x400) ∷ (0xdc00 + (n - 0x10000) % 0x400) ∷ []

-- `/&#x([0-9a-fA-F]+);/` or `/&#([0-9]+);/`, after the `&`, by the prefix and the base.
unfoldable pub numeric_entity : Text → ℕ → Text → Option Entity
numeric_entity prefix base s =
    if starts_with s prefix
    then elim (read_digits base 0 0 (drop (length prefix) s)) [
      | none ↦ none
      | some n ↦
          some
            (record { decoded = decode_code_point n.value; units = length prefix + n.digits + 1 })
    ]
    else none

-- A global replacement of the entities that `read` finds; the number says how many units are still
-- a part of the last one.
unfoldable pub replace_entities : (Text → Option Entity) → ℕ → Text → Text
replace_entities read n [] = []
replace_entities read (suc n) (c ∷ cs) = replace_entities read n cs
replace_entities read zero (c ∷ cs) = elim (if c == b'&' then read cs else none) [
  | none ↦ c ∷ replace_entities read 0 cs
  | some e ↦ e.decoded ++ replace_entities read e.units cs
]

-- `s.replace(/C+/g, " ")` for a class C; the Boolean says that the unit before is of the class.
unfoldable pub collapse : (ℕ → Bool) → Bool → Text → Text
collapse p b [] = []
collapse p b (c ∷ cs) =
    let rest = collapse p (p c) cs in if p c then (if b then rest else b' ' ∷ rest) else c ∷ rest

unfoldable pub strip_html : Text → Text
strip_html s =
    let named = replace_entities named_entity 0 (strip_tags false s) in
    let hex = replace_entities (numeric_entity (lit "#x") 16) 0 named in
    let dec = replace_entities (numeric_entity (lit "#") 10) 0 hex in
    trim (collapse is_space false dec)

-- `s.split(",")`; the first argument is the part that is being read.
unfoldable pub split_commas : Text → Text → List Text
split_commas part [] = part ∷ []
split_commas part (c ∷ cs) = elim (c == b',') [
  | true ↦ part ∷ split_commas [] cs
  | false ↦ split_commas (part ++ c ∷ []) cs
]

unfoldable pub parse_tags : Text → List Text
parse_tags s = filter (λ t. not (is_empty t)) (map trim (split_commas [] s))

-- `xs.join(sep)`
unfoldable pub join : Text → List Text → Text
join sep [] = []
join sep (x ∷ []) = x
join sep (x ∷ y ∷ ys) = x ++ (sep ++ join sep (y ∷ ys))

unfoldable pub is_empty_type : Text → Bool
is_empty_type s = is_empty (trim s) || text_eq (trim s) (lit "0")

-- A product of the catalog, as its feed is normalized.
pub record Product : Type 0 where
  pub tier : Text
  pub catalog_product_id : Text
  pub title : Text
  pub vendor : Text
  pub type : Text
  pub tags : Text
  pub body_html : Text

abbrev only_if : Bool → Text → List Text
only_if true s = s ∷ []
only_if false s = []

abbrev is_blank : ℕ → Bool
is_blank c = (c == b' ') || (c == 9)

unfoldable pub build_embed_doc : Product → Text
build_embed_doc p =
    let body = take body_char_cap (strip_html p.body_html) in
    let segments =
      (trim p.title ++ lit ".")
      ∷ (only_if (not (is_empty_type p.type)) (lit "Type: " ++ (trim p.type ++ lit "."))
          ++ ((lit "Vendor: " ++ (trim p.vendor ++ lit "."))
              ∷ (lit "Tags: " ++ (join (lit ", ") (parse_tags p.tags) ++ lit "."))
              ∷ only_if (not (is_empty body)) body)) in
    trim (collapse is_blank false (join (lit " ") segments))
