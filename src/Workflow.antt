-- ===== src/Workflow.antt =====
-- Workflow definitions, pkg/workflowspec/definition.go and types.go: what their validation and the engine's
-- scheduling read. Texts are the strings of the YAML source. A Go map from loop ids is the list of the loops: the first loop with an id
-- is the only one, since the validation refuses a second one.
pub mod Loops
pub mod Cycles
pub mod Results
pub mod Expr
use asgard.Prelude.{
  Text, List, [], Option, none, some, Bool, true, false, ◌||◌, bytes, ℕ, exists, first, text_eq,
  if◌then◌else◌,
}
use asgard.Prelude.{ℤ}

-- The fields of an incoming edge of a node.
pub record NodeDependency : Type 0 where
  pub node_id : Text
  pub when : Text
  pub counts_loop : Text
  pub resets_loop : Text

-- The values of `NodeType` that a validated definition has.
pub data NodeType : Type 0 where
  agent : NodeType
  command : NodeType
  llm : NodeType
  workflow : NodeType
  human : NodeType
  function : NodeType

-- The fields of `NodeSpec` that the validation, the conditions and the scheduling read.
pub record NodeSpec : Type 0 where
  pub id : Text
  pub node_type : NodeType
  pub depends : List NodeDependency
  pub join : Text
  pub on_skip : Text
  pub on_fail : Text
  pub agent_id : Text
  pub output_file : Text
  pub options : List Text

-- A node of which only the id and the edges are set.
abbrev pub plain_node : Text → List NodeDependency → NodeSpec
plain_node id depends = record {
  id = id;
  node_type = command;
  depends = depends;
  join = [];
  on_skip = [];
  on_fail = [];
  agent_id = [];
  output_file = [];
  options = [];
}

pub record LoopSpec : Type 0 where
  pub id : Text
  pub nodes : List Text
  pub parent : Text
  pub max_iterations : ℤ
  pub on_exhausted : Text

pub record WorkflowDefinition : Type 0 where
  pub nodes : List NodeSpec
  pub loops : List LoopSpec
  pub max_node_executions : ℤ

-- `loopContainsNode`, and the lookups in the sets of ids.
unfoldable pub among : Text → List Text → Bool
among id ids = exists (λ other. text_eq other id) ids

-- `loops[id]`
unfoldable pub find_loop : Text → List LoopSpec → Option LoopSpec
find_loop id loops = first (λ l. if text_eq l.id id then some l else none) loops

-- `AllowsFail` and `AllowsSkip`
unfoldable pub allows_fail : NodeSpec → Bool
allows_fail n = text_eq n.on_fail (bytes "run") || text_eq n.join (bytes "always")

unfoldable pub allows_skip : NodeSpec → Bool
allows_skip n = text_eq n.on_skip (bytes "run") || text_eq n.join (bytes "always")
