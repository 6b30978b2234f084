-- ===== src/Pipeline/Scan/Parse.antt =====
-- `_parse_findings` of review_agent/pipeline/scan.py. `upper` is `str.upper`, `sha256` the hash of
-- hashlib in hexadecimal digits. An exception other than KeyError and ValueError leaves the function:
-- `crashed`. An identifier or a priority that is neither missing nor of its usual type (text, integer)
-- counts as such a crash.
pub mod Laws
pub mod Digits
use Prim.Native.String.{String}
use review_agent_v.Prelude.{
  Text, txt, text_eq, ℕ, zero, suc, ◌+◌, ◌/◌, ◌%◌, ltb, Bool, true, false, Option, none, some, List,
  [], ◌∷◌, ◌++◌, map, find?, if◌then◌else◌,
}
use review_agent_v.Prelude.Json.{
  ℤ, pos, negsuc, Json, null, bool, num, str, arr, obj, Items, nil, cons, items, of_list, Fields,
  end, field, get, get_or, truthy,
}
use review_agent_v.Core.Enums.{
  Pillar, Severity, FindingSource, FindingStatus, by_value, pillar_value, severity_value, pillars,
  severities,
}
use review_agent_v.Core.Models.{Finding, Anchor}
use review_agent_v.Util.Md.{text_hash, line_range_snippet}

-- The result of a step that may raise: KeyError and ValueError are `skip`.
pub data Parsed {ℓ} (A : Type ℓ) : Type ℓ where
  parsed : A → Parsed A
  skip crash : Parsed A

infixl 5 ◌>>=◌
unfoldable pub ◌>>=◌ {ℓ κ} : {A : Type ℓ} {B : Type κ} → Parsed A → (A → Parsed B) → Parsed B
parsed a >>= f = f a
skip >>= f = skip
crash >>= f = crash

-- str(i): the decimal digits, from enough fuel.
unfoldable pub digits : ℕ → ℕ → Text
digits zero n = []
digits (suc fuel) n =
    let more = digits fuel (n / 10) in
    if ltb n 10 then (b'0' + n) ∷ [] else more ++ (b'0' + n % 10) ∷ []

unfoldable pub show : ℕ → Text
unfolding digits
show n = digits (suc n) n

abbrev or_skip : {A : Type 0} → Option A → Parsed A
or_skip none = skip
or_skip (some a) = parsed a

-- item["…"] on a value that need not be a dict
unfoldable pub subscript : String → Json → Parsed Json
unfolding get
subscript k (obj d) = or_skip (get k d)
subscript k _ = crash

-- Pillar(v)
unfoldable pub pillar_of : Json → Parsed Pillar
unfolding pillar_value text_eq
pillar_of (str s) = or_skip (by_value pillar_value pillars s)
pillar_of _ = skip

-- Severity(v.upper()); the call of `replace` there replaces a text by itself.
unfoldable pub severity_of : (Text → Text) → Json → Parsed Severity
unfolding severity_value text_eq
severity_of upper (str s) = or_skip (by_value severity_value severities (upper s))
severity_of upper _ = crash

-- item.get("anchor", {}) or {}
unfoldable pub anchor_of : Fields → Parsed Fields
unfolding truthy get_or
anchor_of item = elim (get_or "anchor" (obj end) item) [
  | obj d ↦ parsed d
  | v ↦ if truthy v then crash else parsed end
]

-- An integer, for arithmetic: booleans are integers.
abbrev int_of : Json → Parsed ℤ
int_of (num n) = parsed n
int_of (bool true) = parsed (pos 1)
int_of (bool false) = parsed (pos 0)
int_of _ = crash

abbrev pub last_of : Json → List Json → Json
last_of v [] = v
last_of v (w ∷ ws) = last_of w ws

-- line_range_snippet(normalized, line_range[0], line_range[-1])
unfoldable pub quoted : Text → Option Json → Parsed Json
unfolding truthy
quoted normalized (some (arr (cons v vs))) = do
  start ← int_of v
  stop ← int_of (last_of v (items vs))
  parsed (str (line_range_snippet normalized start stop 120))
quoted normalized (some (obj (field k v d))) = skip
quoted normalized (some v) = if truthy v then crash else parsed (str [])
quoted normalized none = parsed (str [])

-- `if not snippet and line_range: snippet = …`, where the snippet is falsy
abbrev keep_falsy : Json → Option Json → Parsed Json → Parsed Json
keep_falsy given none from_lines = parsed given
keep_falsy given (some range) from_lines = if truthy range then from_lines else parsed given

unfoldable pub snippet_of : Text → Fields → Parsed Json
unfolding quoted get get_or truthy
snippet_of normalized anchor =
    let given = get_or "snippet" (str []) anchor in
    let from_lines = quoted normalized (get "line_range" anchor) in
    elim (truthy given) [
      | true ↦ parsed given
      | false ↦ keep_falsy given (get "line_range" anchor) from_lines
    ]

abbrev keys : Fields → List Json
keys end = []
keys (field k v d) = str (txt k) ∷ keys d

abbrev chars : Text → List Json
chars [] = []
chars (c ∷ s) = str (c ∷ []) ∷ chars s

-- tuple(line_range) if line_range else None
unfoldable pub line_range_of : Option Json → Parsed (Option Items)
unfolding truthy
line_range_of none = parsed none
line_range_of (some (arr (cons v vs))) = parsed (some (cons v vs))
line_range_of (some (obj (field k v d))) = parsed (some (of_list (keys (field k v d))))
line_range_of (some (str (c ∷ s))) = parsed (some (of_list (chars (c ∷ s))))
line_range_of (some v) = if truthy v then crash else parsed none

-- text_hash(snippet) if snippet else None
unfoldable pub hash_of : (Text → Text) → Json → Parsed (Option Text)
unfolding truthy text_hash
hash_of sha256 (str (c ∷ s)) = parsed (some (text_hash sha256 (c ∷ s)))
hash_of sha256 v = if truthy v then crash else parsed none

-- item.get("id") or f"{prefix}{i}"
unfoldable pub id_of : Text → ℕ → Json → Parsed Text
unfolding truthy show
id_of prefix i (str (c ∷ s)) = parsed (c ∷ s)
id_of prefix i v = if truthy v then crash else parsed (prefix ++ show i)

unfoldable pub priority_of : Json → Parsed (Option ℤ)
priority_of null = parsed none
priority_of (num n) = parsed (some n)
priority_of _ = crash

-- A finding is kept, a skipped item left out; an exception ends the loop.
abbrev pub keep : Parsed Finding → Option (List Finding) → Option (List Finding)
keep (parsed f) (some fs) = some (f ∷ fs)
keep skip rest = rest
keep _ _ = none

module _ (upper sha256 : Text → Text) (normalized now : Text) (source : FindingSource)
    (prefix : Text) where
  unfoldable pub parse_fields : ℕ → Fields → Parsed Finding
  unfolding get get_or
  parse_fields i item = do
    pillar_value ← subscript "pillar" (obj item)
    pillar ← pillar_of pillar_value
    severity_value ← subscript "severity" (obj item)
    severity ← severity_of upper severity_value
    anchor_raw ← anchor_of item
    snippet ← snippet_of normalized anchor_raw
    line_range ← line_range_of (get "line_range" anchor_raw)
    hash ← hash_of sha256 snippet
    fid ← id_of prefix i (get_or "id" null item)
    priority ← priority_of (get_or "priority" null item)
    parsed (record {
      id = fid;
      round = 1;
      created_at = now;
      source = source;
      pillar = pillar;
      severity = severity;
      issue = get_or "issue" (str []) item;
      suggest = get_or "suggest" (str []) item;
      anchor = record {
        source = txt "normalized.md";
        section = get_or "section" null anchor_raw;
        line_range = line_range;
        text_hash = hash;
        snippet = snippet;
      };
      status = FindingStatus.opened;
      simulated_question = get_or "simulated_question" null item;
      priority = priority;
      reply = none;
      replied_at = none;
      unresolvable_reason = none;
      extra = end;
      escalated_to_open_items = false;
    })

  unfoldable pub parse_item : ℕ → Json → Parsed Finding
  parse_item i (obj item) = parse_fields i item
  parse_item i _ = crash

  -- The loop over `enumerate(raw_findings, start=1)`; `none` is the exception that leaves it.
  unfoldable pub parse_items : ℕ → List Json → Option (List Finding)
  parse_items i [] = some []
  parse_items i (item ∷ rest) = keep (parse_item i item) (parse_items (suc i) rest)

  -- `extract` has given `env`: a list has no findings.
  unfoldable pub parse_findings : Json → Option (List Finding)
  unfolding get_or
  parse_findings (obj env) = elim (get_or "findings" (arr nil) env) [
    | arr xs ↦ parse_items 1 (items xs)
    | str [] ↦ some []
    | obj end ↦ some []
    | _ ↦ none
  ]
  parse_findings _ = some []
