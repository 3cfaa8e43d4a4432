-- ===== src/Workflow/Expr.antt =====
-- `Interpolate` and the conditions of pkg/workflowspec/expr.go. `match_expr` is what the regular expression
-- `exprPattern` takes apart; a byte that is no ASCII space starts or continues a rune that is no space, as
-- RE2's `\s` has it. `strconv.Atoi`, `strconv.Itoa` and `strings.TrimSpace` are those of Go's library.
pub mod Placeholders
pub mod Values
mod Examples
use Prim.Native.Nat.{◌/◌}
use mathlib.Core.List.{reverse}
use asgard.Prelude.{
  ℕ, zero, suc, ◌+◌, ◌-◌, ◌*◌, ◌%◌, ℤ, pos, negsuc, Bool, true, false, not, ◌&&◌, ◌||◌, List, [],
  ◌∷◌, ◌++◌, Text, bytes, Option, none, some, length, leb, ltb, ◌==◌, text_eq, if◌then◌else◌,
  exists, first, cut_prefix, split_on, join_with,
}
use asgard.Workflow.{
  NodeType, agent, command, llm, workflow, human, function, NodeSpec, WorkflowDefinition, among,
}
use asgard.Workflow.Results.{NodeStatus, skipped, NodeResult, status_text, reason_text}

-- The bytes up to the first `}`, and those behind it.
unfoldable pub cut_brace : Text → Option (Text × Text)
cut_brace [] = none
cut_brace (b ∷ s) =
    let rest = cut_brace s in
    if b == 125
    then some ([], s)
    else elim rest [ none ↦ none | some (key, after) ↦ some (b ∷ key, after) ]

-- `Interpolate`, on fuel: one turn of the loop for each byte is enough.
unfoldable pub interpolate_from : (Text → Option Text) → ℕ → Text → Text
unfolding cut_prefix cut_brace
interpolate_from resolve zero text = []
interpolate_from resolve (suc fuel) [] = []
interpolate_from resolve (suc fuel) (b ∷ text) = elim (cut_prefix (bytes "${") (b ∷ text)) [
  | none ↦ b ∷ interpolate_from resolve fuel text
  | some rest ↦ elim (cut_brace rest) [
    | none ↦ b ∷ text
    | some (key, after) ↦ elim (resolve key) [
      | some v ↦ v ++ interpolate_from resolve fuel after
      | none ↦ bytes "${" ++ key ++ 125 ∷ interpolate_from resolve fuel after
    ]
  ]
]

unfoldable pub interpolate : Text → (Text → Option Text) → Text
unfolding interpolate_from
interpolate text resolve = interpolate_from resolve (length text) text

-- `\s`
unfoldable pub is_space : ℕ → Bool
is_space b = b == 32 || b == 9 || b == 10 || b == 12 || b == 13

unfoldable pub skip_spaces : Text → Text
unfolding is_space
skip_spaces [] = []
skip_spaces (b ∷ s) = let rest = skip_spaces s in if is_space b then rest else b ∷ s

unfoldable pub between : ℕ → ℕ → ℕ → Bool
between low high b = leb low b && leb b high

-- `[A-Za-z0-9_\-.\[\]]`
unfoldable pub is_path_byte : ℕ → Bool
unfolding between
is_path_byte b =
    between 65 90 b
    || between 97 122 b
    || between 48 57 b
    || b == 95
    || b == 45
    || b == 46
    || b == 91
    || b == 93

unfoldable pub span_path : Text → Text × Text
unfolding is_path_byte
span_path [] = ([], [])
span_path (b ∷ s) =
    let (path, rest) = span_path s in if is_path_byte b then (b ∷ path, rest) else ([], b ∷ s)

-- `(\S(?:.*\S)?)\s*$`
unfoldable pub literal_of : Text → Option Text
unfolding skip_spaces
literal_of s =
    let raw = reverse (skip_spaces (reverse (skip_spaces s))) in
    if length raw == 0 || exists (λ b. b == 10) raw then none else some raw

-- The alternatives of the operator, in the order of the pattern.
abbrev pub operators : List Text
operators = bytes "==" ∷ bytes "!=" ∷ bytes ">=" ∷ bytes "<=" ∷ bytes ">" ∷ bytes "<" ∷ []

unfoldable pub match_operator : Text → Text → Option (Text × Text)
unfolding cut_prefix literal_of
match_operator s op = elim (cut_prefix op s) [
  | none ↦ none
  | some rest ↦ elim (literal_of rest) [ none ↦ none | some literal ↦ some (op, literal) ]
]

unfoldable pub match_expr : Text → Option (Text × Text × Text)
unfolding skip_spaces span_path match_operator
match_expr expr =
    let (path, rest) = span_path (skip_spaces expr) in
    if length path == 0 then none else elim (first (match_operator (skip_spaces rest)) operators) [
      | none ↦ none
      | some (op, literal) ↦ some (path, op, literal)
    ]

-- The node and the field of a path.
unfoldable pub path_parts : List Text → Option (Text × Text)
unfolding join_with
path_parts (root ∷ node ∷ field ∷ fields) =
    if text_eq root (bytes "nodes") then some (node, join_with 46 (field ∷ fields)) else none
path_parts _ = none

unfoldable pub parse_expr_target : Text → Option (Text × Text)
unfolding match_expr path_parts split_on
parse_expr_target expr = elim (match_expr expr) [
  | none ↦ none
  | some (path, op, literal) ↦ path_parts (split_on 46 path)
]

-- `strings.TrimSpace`: the encodings of the runes that Go's `unicode.IsSpace` accepts.
abbrev pub space_runes : List Text
space_runes =
    (9 ∷ [])
    ∷ (10 ∷ [])
    ∷ (11 ∷ [])
    ∷ (12 ∷ [])
    ∷ (13 ∷ [])
    ∷ (32 ∷ [])
    ∷ (194 ∷ 133 ∷ [])
    ∷ (194 ∷ 160 ∷ [])
    ∷ (225 ∷ 154 ∷ 128 ∷ [])
    ∷ (226 ∷ 128 ∷ 128 ∷ [])
    ∷ (226 ∷ 128 ∷ 129 ∷ [])
    ∷ (226 ∷ 128 ∷ 130 ∷ [])
    ∷ (226 ∷ 128 ∷ 131 ∷ [])
    ∷ (226 ∷ 128 ∷ 132 ∷ [])
    ∷ (226 ∷ 128 ∷ 133 ∷ [])
    ∷ (226 ∷ 128 ∷ 134 ∷ [])
    ∷ (226 ∷ 128 ∷ 135 ∷ [])
    ∷ (226 ∷ 128 ∷ 136 ∷ [])
    ∷ (226 ∷ 128 ∷ 137 ∷ [])
    ∷ (226 ∷ 128 ∷ 138 ∷ [])
    ∷ (226 ∷ 128 ∷ 168 ∷ [])
    ∷ (226 ∷ 128 ∷ 169 ∷ [])
    ∷ (226 ∷ 128 ∷ 175 ∷ [])
    ∷ (226 ∷ 129 ∷ 159 ∷ [])
    ∷ (227 ∷ 128 ∷ 128 ∷ [])
    ∷ []

unfoldable pub trim_left : List Text → ℕ → Text → Text
unfolding cut_prefix
trim_left runes zero s = s
trim_left runes (suc fuel) s = elim (first (λ r. cut_prefix r s) runes) [
  | none ↦ s
  | some rest ↦ trim_left runes fuel rest
]

abbrev reversed_runes : List Text → List Text
reversed_runes [] = []
reversed_runes (r ∷ runes) = reverse r ∷ reversed_runes runes

unfoldable pub trim_space : Text → Text
unfolding trim_left
trim_space s =
    let t = trim_left space_runes (length s) s in
    reverse (trim_left (reversed_runes space_runes) (length t) (reverse t))
