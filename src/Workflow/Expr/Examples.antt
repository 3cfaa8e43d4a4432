-- ===== src/Workflow/Expr/Examples.antt =====
-- Tests of pkg/workflowspec/expr.go.
use asgard.Prelude.{
  ◌≡◌, refl, ℕ, ℤ, pos, negsuc, Bool, true, false, List, [], ◌∷◌, ◌++◌, Text, bytes, Option, none,
  some, text_eq, if◌then◌else◌,
}
use asgard.Workflow.Results.{NodeResult, succeeded, skipped, no_reason, condition_false, settled}
use asgard.Workflow.Expr.{interpolate, parse_expr_target, match_expr}
use asgard.Workflow.Expr.Placeholders.{Lacks, expansion, interpolate-append}
use asgard.Workflow.Expr.Values.{evaluate_simple_expr, atoi, itoa, parse_literal}

abbrev one_known : Text → Option Text
one_known key = if text_eq key (bytes "name") then some (bytes "asgard") else none

abbrev upstreams : Text → Option NodeResult
upstreams id =
    if text_eq id (bytes "build")
    then some (settled succeeded no_reason none)
    else (if text_eq id (bytes "lint") then some (settled skipped condition_false none) else none)

interpolate_test :
    interpolate (bytes "a ${name} ${HOME} ${") one_known ≡ bytes "a asgard ${HOME} ${"
unfolding interpolate text_eq
interpolate_test = refl

target_test :
    parse_expr_target (bytes " nodes.foo.status == 'SKIPPED' ") ≡ some (bytes "foo", bytes "status")
unfolding parse_expr_target asgard.Prelude.first asgard.Prelude.exists text_eq
target_test = refl

-- The operator is the shorter one when nothing is left of the literal.
operator_test : match_expr (bytes "a >=") ≡ some (bytes "a", bytes ">", bytes "=")
unfolding match_expr asgard.Prelude.first asgard.Prelude.exists
operator_test = refl

evaluate_test :
    evaluate_simple_expr (bytes "nodes.build.exit_code == 0") (some upstreams) none ≡ some true
unfolding evaluate_simple_expr asgard.Prelude.first asgard.Prelude.exists asgard.Prelude.split_on
    text_eq
evaluate_test = refl

skipped_test :
    evaluate_simple_expr (bytes "nodes.lint.status=='SKIPPED'") (some upstreams) none ≡ some true
unfolding evaluate_simple_expr asgard.Prelude.first asgard.Prelude.exists asgard.Prelude.split_on
    text_eq asgard.Workflow.Results.status_text
skipped_test = refl

unsettled_test :
    evaluate_simple_expr (bytes "nodes.test.exit_code == 0") (some upstreams) none ≡ none
unfolding evaluate_simple_expr asgard.Prelude.first asgard.Prelude.exists asgard.Prelude.split_on
    text_eq
unsettled_test = refl

syntax_test : evaluate_simple_expr (bytes "nodes.test.exit_code < 'x'") none none ≡ some true
unfolding evaluate_simple_expr asgard.Prelude.first asgard.Prelude.exists
syntax_test = refl

ordered_texts_test :
    evaluate_simple_expr (bytes "nodes.build.status > 3") (some upstreams) none ≡ none
unfolding evaluate_simple_expr asgard.Prelude.first asgard.Prelude.exists asgard.Prelude.split_on
    text_eq asgard.Workflow.Results.status_text
ordered_texts_test = refl

atoi_test : atoi (bytes "-9223372036854775808") ≡ some (negsuc 9223372036854775807)
unfolding atoi
atoi_test = refl

overflow_test : atoi (bytes "9223372036854775808") ≡ none
unfolding atoi
overflow_test = refl

itoa_test : itoa (negsuc 119) ≡ bytes "-120"
unfolding itoa
itoa_test = refl

literal_test : parse_literal (bytes "'a b'") ≡ some (bytes "a b")
unfolding parse_literal
literal_test = refl

lacking_dollar : Lacks 36 (bytes "a ")
lacking_dollar = (refl, (refl, tt))

lacking_brace : Lacks 125 (bytes "name")
lacking_brace = (refl, (refl, (refl, (refl, tt))))

interpolate-append_example :
    interpolate (bytes "a " ++ (bytes "${" ++ bytes "name" ++ 125 ∷ bytes " ${HOME}")) one_known
    ≡ bytes "a " ++ (expansion one_known (bytes "name") ++ interpolate (bytes " ${HOME}") one_known)
interpolate-append_example =
    interpolate-append one_known (bytes "a ") (bytes "name") (bytes " ${HOME}") lacking_dollar
      lacking_brace
