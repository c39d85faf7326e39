-- ===== src/Script/Nesting.antt =====
-- `checkScriptNesting` (script_nesting.go). An index into the source is the bytes from there on: `index++`
-- drops one byte, `index += 2` two, and an index past the end is the empty list.
pub mod Fuel
pub mod Bounds
use mihomo_extension_sidecar.Common.{
  ℕ, zero, suc, ◌+◌, ◌-◌, ◌==◌, ltb, leb, Bool, true, false, not, ◌&&◌, ◌||◌, List, [], ◌∷◌, Option,
  some, none, Bytes, if◌then◌else◌, length, drop,
}

abbrev pub max_script_nesting_depth : ℕ
max_script_nesting_depth = 256

abbrev in_range : ℕ → ℕ → ℕ → Bool
in_range low high c = leb low c && leb c high

unfoldable pub is_value_end : ℕ → Bool
is_value_end c =
    in_range b'a' b'z' c || in_range b'A' b'Z' c || in_range b'0' b'9' c || c == b'_' || c == b'$'

-- The flag says that a backslash came before.
unfoldable pub skip_quoted : ℕ → Bool → Bytes → Bytes
skip_quoted quote escaped [] = []
skip_quoted quote true (c ∷ cs) = skip_quoted quote false cs
skip_quoted quote false (c ∷ cs) = elim (c == 92) [
  | true ↦ skip_quoted quote true cs
  | false ↦ elim (c == quote || c == 10) [ true ↦ cs | false ↦ skip_quoted quote false cs ]
]

unfoldable pub skip_values : Bytes → Bytes
skip_values [] = []
skip_values (c ∷ cs) = elim (is_value_end c) [ true ↦ skip_values cs | false ↦ c ∷ cs ]

-- The flags: inside a character class, and behind a backslash.
unfoldable pub skip_regex_literal : Bool → Bool → Bytes → Bytes
unfolding skip_values
skip_regex_literal class escaped [] = []
skip_regex_literal class true (c ∷ cs) = skip_regex_literal class false cs
skip_regex_literal class false (c ∷ cs) = elim (c == 92) [
  | true ↦ skip_regex_literal class true cs
  | false ↦ elim (c == 10) [
    | true ↦ cs
    | false ↦ elim (c == b'/' && not class) [
      | true ↦ skip_values cs
      | false ↦
          skip_regex_literal (if c == 91 then true else if c == 93 then false else class) false cs
    ]
  ]
]

unfoldable pub skip_line : Bytes → Bytes
skip_line [] = []
skip_line (c ∷ cs) = elim (c == 10) [ true ↦ c ∷ cs | false ↦ skip_line cs ]

-- To behind the end of a block comment.
unfoldable pub skip_block : Bytes → Bytes
skip_block [] = []
skip_block (c ∷ []) = []
skip_block (c ∷ d ∷ ds) = elim (c == b'*' && d == b'/') [ true ↦ ds | false ↦ skip_block (d ∷ ds) ]

-- The local variables of the scan.
pub record Scan : Type 0 where
  pub depth : ℕ
  pub deepest : ℕ
  pub unary : ℕ
  pub longest_unary : ℕ
  pub templates : List ℕ
  pub regex_allowed : Bool

abbrev pub start : Scan
start = record {
  depth = 0;
  deepest = 0;
  unary = 0;
  longest_unary = 0;
  templates = [];
  regex_allowed = true;
}

abbrev deepen : Scan → Scan
deepen s = record s {
  depth = s.depth + 1;
  deepest = if ltb s.deepest (s.depth + 1) then s.depth + 1 else s.deepest;
  regex_allowed = true;
}

abbrev prefix : Scan → Scan
prefix s = record s {
  unary = s.unary + 1;
  longest_unary = if ltb s.longest_unary (s.unary + 1) then s.unary + 1 else s.longest_unary;
  regex_allowed = true;
}

abbrev begins : ℕ → Bytes → Bool
begins c [] = false
begins c (d ∷ ds) = d == c

in_template : Scan → List ℕ → Bool
in_template s [] = false
in_template s (t ∷ ts) = s.depth == t

abbrev pop : List ℕ → List ℕ
pop [] = []
pop (t ∷ ts) = ts

-- A byte of template text.
template_step : Scan → ℕ → Bytes → Scan × Bytes
template_step s c cs =
    if c == 92
    then (s, drop 1 cs)
    else if c == b'`'
    then (record s { templates = pop s.templates; regex_allowed = false }, cs)
    else if c == b'$' && begins b'{' cs
    then (deepen s, drop 1 cs)
    else (s, cs)

slash_step : Scan → Bytes → Scan × Bytes
unfolding skip_line skip_block skip_regex_literal
slash_step s cs =
    if begins b'/' cs
    then (s, skip_line cs)
    else if begins b'*' cs
    then (s, skip_block (drop 1 cs))
    else if s.regex_allowed
    then (record s { regex_allowed = false; unary = 0 }, skip_regex_literal false false cs)
    else (record s { regex_allowed = true; unary = 0 }, cs)

abbrev opens : ℕ → Bool
opens c = c == b'(' || c == 91 || c == b'{'

abbrev closes : ℕ → Bool
closes c = c == b')' || c == 93 || c == b'}'

abbrev blank : ℕ → Bool
blank c = c == 32 || c == 9 || c == 13 || c == 10

-- A byte of code.
code_step : Scan → ℕ → Bytes → Scan × Bytes
unfolding slash_step skip_quoted
code_step s c cs =
    if blank c
    then (s, cs)
    else if c == b'/'
    then slash_step s cs
    else if c == 39 || c == 34
    then (record s { regex_allowed = false; unary = 0 }, skip_quoted c false cs)
    else if c == b'`'
    then (record s { templates = s.depth ∷ s.templates }, cs)
    else if opens c
    then (record (deepen s) { unary = 0 }, cs)
    else if closes c
    then (record s { depth = s.depth - 1; regex_allowed = false; unary = 0 }, cs)
    else if c == b'!' || c == b'~' || c == b'+' || c == b'-'
    then (prefix s, cs)
    else (record s { regex_allowed = not (is_value_end c); unary = 0 }, cs)

-- One round of the loop, at a byte and the bytes behind it.
unfoldable pub step : Scan → ℕ → Bytes → Scan × Bytes
unfolding in_template template_step code_step
step s c cs = if in_template s s.templates then template_step s c cs else code_step s c cs

unfoldable pub scan : ℕ → Scan → Bytes → Option Scan
unfolding step
scan fuel s [] = some s
scan zero s (c ∷ cs) = none
scan (suc fuel) s (c ∷ cs) = let (s', rest) = step s c cs in scan fuel s' rest

pub data Verdict : Type 0 where
  accepted : Verdict
  too_deep : ℕ → Verdict
  too_many_prefixes : ℕ → Verdict

abbrev pub verdict : Scan → Verdict
verdict s =
    if ltb max_script_nesting_depth s.deepest
    then too_deep s.deepest
    else if ltb max_script_nesting_depth s.longest_unary
    then too_many_prefixes s.longest_unary
    else accepted

judged : Option Scan → Option Verdict
judged none = none
judged (some s) = some (verdict s)

-- `checkScriptNesting`; none only if the fuel ran out.
unfoldable pub check_script_nesting : Bytes → Option Verdict
unfolding scan judged
check_script_nesting source = judged (scan (length source) start source)
