-- ===== src/Workflow/Expr/Values.antt =====
-- What a condition of pkg/workflowspec/expr.go says of the settled results: `ResolveNodeValue`, `parseLiteral`,
-- `compareOrdered` and `EvaluateSimpleExpr`. `none` is an error; a nil map of upstreams is `none`.
use Prim.Native.Nat.{◌/◌}
use asgard.Prelude.{
  ℕ, zero, suc, ◌+◌, ◌-◌, ◌*◌, ◌%◌, ℤ, pos, negsuc, Bool, true, false, not, ◌||◌, List, [], ◌∷◌,
  ◌++◌, Text, bytes, Option, none, some, length, leb, ltb, ◌==◌, text_eq, if◌then◌else◌, first,
  cut_prefix, split_on,
}
use asgard.Workflow.{
  NodeType, agent, command, llm, workflow, human, function, NodeSpec, WorkflowDefinition,
}
use asgard.Workflow.Results.{NodeResult, status_text, reason_text}
use asgard.Workflow.Expr.{between, path_parts, match_expr, trim_space}

-- The number of a run of decimal digits.
unfoldable pub digits : ℕ → Text → Option ℕ
unfolding between
digits n [] = some n
digits n (b ∷ s) = let rest = digits (10 * n + (b - 48)) s in if between 48 57 b then rest else none

abbrev pub max_int : ℕ
max_int = 9223372036854775807

unfoldable pub non_negative : ℕ → Option ℤ
non_negative n = if leb n max_int then some (pos n) else none

unfoldable pub negated : ℕ → Option ℤ
negated zero = some (pos 0)
negated (suc n) = if leb n max_int then some (negsuc n) else none

-- The digits behind a sign, which must be some.
unfoldable pub signed : (ℕ → Option ℤ) → Text → Option ℤ
unfolding digits
signed value [] = none
signed value (b ∷ s) = elim (digits 0 (b ∷ s)) [ none ↦ none | some n ↦ value n ]

-- `strconv.Atoi` for an `int` of 64 bits
unfoldable pub atoi : Text → Option ℤ
unfolding non_negative negated signed
atoi [] = none
atoi (b ∷ s) =
    if b == 45
    then signed negated s
    else (if b == 43 then signed non_negative s else signed non_negative (b ∷ s))

-- The decimal digits of a number, on fuel: it has no more digits than its successor.
unfoldable pub decimal : ℕ → ℕ → Text
decimal zero n = []
decimal (suc fuel) n =
    let rest = decimal fuel (n / 10) in
    if ltb n 10 then (n + 48) ∷ [] else rest ++ ((n % 10 + 48) ∷ [])

-- `strconv.Itoa`: an `int` of 64 bits has at most 19 digits.
unfoldable pub itoa : ℤ → Text
unfolding decimal
itoa (pos n) = decimal 20 n
itoa (negsuc n) = 45 ∷ decimal 20 (suc n)

unfoldable pub equal_ints : ℤ → ℤ → Bool
equal_ints (pos m) (pos n) = m == n
equal_ints (negsuc m) (negsuc n) = m == n
equal_ints _ _ = false

unfoldable pub below : ℤ → ℤ → Bool
below (pos m) (pos n) = ltb m n
below (pos _) (negsuc _) = false
below (negsuc _) (pos _) = true
below (negsuc m) (negsuc n) = ltb n m

-- `a > b` and `a >= b` are the tests of the swapped sides.
unfoldable pub compare_ordered : Text → ℤ → ℤ → Option Bool
unfolding equal_ints below
compare_ordered op a b =
    if text_eq op (bytes "==")
    then some (equal_ints a b)
    else (if text_eq op (bytes "!=")
        then some (not (equal_ints a b))
        else (if text_eq op (bytes ">")
            then some (below b a)
            else (if text_eq op (bytes ">=")
                then some (not (below a b))
                else (if text_eq op (bytes "<")
                    then some (below a b)
                    else (if text_eq op (bytes "<=") then some (not (below b a)) else none)))))

-- The text without its last byte, when that byte is the quote.
unfoldable pub unquoted : ℕ → Text → Option Text
unquoted quote [] = none
unquoted quote (b ∷ []) = if b == quote then some [] else none
unquoted quote (b ∷ c ∷ s) = elim (unquoted quote (c ∷ s)) [ none ↦ none | some t ↦ some (b ∷ t) ]

unfoldable pub parse_literal : Text → Option Text
unfolding unquoted
parse_literal [] = none
parse_literal (b ∷ s) = elim (unquoted b s) [
  | none ↦ some (b ∷ s)
  | some t ↦ if b == 39 || b == 34 then some t else some (b ∷ s)
]

unfoldable pub type_text : NodeType → Text
type_text agent = bytes "agent"
type_text command = bytes "command"
type_text llm = bytes "llm"
type_text workflow = bytes "workflow"
type_text human = bytes "human"
type_text function = bytes "function"

unfoldable pub iteration_of : Text → List (Text × ℕ) → Option ℕ
iteration_of loop iterations =
    first (λ e. let (id, n) = e in if text_eq id loop then some n else none) iterations

-- `nodes.<id>.loop_iteration.<loop>`
unfoldable pub resolve_iteration : Text → NodeResult → Option Text
unfolding iteration_of itoa
resolve_iteration loop res = if length loop == 0 then none else elim res.loop_iterations [
  | none ↦ none
  | some iterations ↦ elim (iteration_of loop iterations) [
    | none ↦ none
    | some n ↦ some (itoa (pos n))
  ]
]

unfoldable pub spec_field : Text → Text → NodeSpec → Option Text
unfolding type_text
spec_field id field n =
    if not (text_eq n.id id)
    then none
    else (if text_eq field (bytes "output_file")
        then some n.output_file
        else (if text_eq field (bytes "agent_id")
            then some n.agent_id
            else (if text_eq field (bytes "type") then some (type_text n.node_type) else none)))

unfoldable pub resolve_spec : Text → Text → Option WorkflowDefinition → Option Text
unfolding spec_field
resolve_spec id field none = none
resolve_spec id field (some defn) = first (spec_field id field) defn.nodes

unfoldable pub error_text : Option Text → Text
error_text none = []
error_text (some e) = e

unfoldable pub resolve_field : Text → Text → NodeResult → Option WorkflowDefinition → Option Text
unfolding error_text resolve_iteration resolve_spec
resolve_field id field res defn =
    if text_eq field (bytes "status")
    then some (status_text res.status)
    else (if text_eq field (bytes "exit_code")
        then some (itoa res.exit_code)
        else (if text_eq field (bytes "output")
            then some res.output
            else (if text_eq field (bytes "skip_reason")
                then some (reason_text res.skip_reason)
                else (if text_eq field (bytes "error")
                    then some (error_text res.error)
                    else elim (cut_prefix (bytes "loop_iteration.") field) [
                      | some loop ↦ resolve_iteration loop res
                      | none ↦ resolve_spec id field defn
                    ]))))

unfoldable pub resolve_node_value :
    Text → (Text → Option NodeResult) → Option WorkflowDefinition → Option Text
unfolding path_parts resolve_field
resolve_node_value path upstreams defn = elim (path_parts (split_on 46 path)) [
  | none ↦ none
  | some (id, field) ↦ elim (upstreams id) [
    | none ↦ none
    | some res ↦ resolve_field id field res defn
  ]
]

unfoldable pub compare_texts : Text → Text → Text → Option Bool
compare_texts op left literal =
    if text_eq op (bytes "==")
    then some (text_eq left literal)
    else (if text_eq op (bytes "!=") then some (not (text_eq left literal)) else none)

-- The comparison of the two sides: as integers when both are.
unfoldable pub compare : Text → Text → Text → Option Bool
unfolding atoi trim_space compare_ordered compare_texts
compare op left literal = elim (atoi (trim_space left)) [
  | none ↦ compare_texts op (trim_space left) (trim_space literal)
  | some a ↦ elim (atoi (trim_space literal)) [
    | none ↦ compare_texts op (trim_space left) (trim_space literal)
    | some b ↦ compare_ordered op a b
  ]
]

unfoldable pub checks : Text → Option Bool
unfolding parse_literal
checks raw = elim (parse_literal raw) [ none ↦ none | some literal ↦ some true ]

unfoldable pub evaluate_parts :
    Text × Text × Text → Option (Text → Option NodeResult) → Option WorkflowDefinition → Option Bool
unfolding checks resolve_node_value parse_literal compare
evaluate_parts (path, op, raw) none defn = checks raw
evaluate_parts (path, op, raw) (some upstreams) defn =
    elim (resolve_node_value path upstreams defn) [
      | none ↦ none
      | some left ↦ elim (parse_literal raw) [
        | none ↦ none
        | some literal ↦ compare op left literal
      ]
    ]

unfoldable pub evaluate_simple_expr :
    Text → Option (Text → Option NodeResult) → Option WorkflowDefinition → Option Bool
unfolding match_expr evaluate_parts
evaluate_simple_expr expr upstreams defn = elim (match_expr expr) [
  | none ↦ none
  | some parts ↦ evaluate_parts parts upstreams defn
]
