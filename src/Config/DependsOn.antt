-- ===== src/Config/DependsOn.antt =====
-- The two forms of `depends_on`, `UnmarshalYAML` and what it calls in internal/config/dependency.go,
-- over the nodes of the YAML library. What the library decodes a sequence to is an argument.
pub mod Forms
use supavisor.Prelude.{
  Bool, true, false, Option, none, some, List, [], ◌∷◌, if◌then◌else◌, Str, text, str_eq,
}
use supavisor.Config.{
  Dependency, DependencyCondition, condition_started, condition_healthy, condition_completed,
}
use supavisor.Config.Result.{
  Result, ok, err, ◌>>=◌, ◌>>◌, guard, invalid_depends_on, invalid_entry, unknown_entry_key,
  invalid_condition,
}

pub data NodeKind : Type 0 where
  sequence_node mapping_node scalar_node : NodeKind

-- A mapping has its keys and values by turns.
mutual
  pub data Node : Type 0 where
    node : (kind : NodeKind) (tag value : Str) (content : Nodes) → Node

  pub data Nodes : Type 0 where
    no_nodes : Nodes
    and_nodes : Node → Nodes → Nodes

abbrev value_of : Node → Str
value_of (node kind tag value content) = value

abbrev pub condition_text : DependencyCondition → Str
condition_text condition_started = text "started"
condition_text condition_healthy = text "healthy"
condition_text condition_completed = text "completed"

unfoldable pub condition_of : Str → Str → Result DependencyCondition
condition_of name value =
    if str_eq value (condition_text condition_started)
    then ok condition_started
    else if str_eq value (condition_text condition_healthy)
    then ok condition_healthy
    else if str_eq value (condition_text condition_completed)
    then ok condition_completed
    else err (invalid_condition name value)

-- The loop, with the condition so far.
unfoldable pub parse_dependency_condition :
    Str → DependencyCondition → Nodes → Result DependencyCondition
parse_dependency_condition name condition no_nodes = ok condition
parse_dependency_condition name condition (and_nodes key no_nodes) = ok condition
parse_dependency_condition name condition (and_nodes key (and_nodes value content)) =
    guard (str_eq (value_of key) (text "condition")) (unknown_entry_key name (value_of key))
    >> (condition_of name (value_of value) >>= λ c. parse_dependency_condition name c content)

abbrev is_mapping : NodeKind → Bool
is_mapping mapping_node = true
is_mapping sequence_node = false
is_mapping scalar_node = false

-- The body of the loop.
abbrev pub parse_entry : Str → Node → Result DependencyCondition
parse_entry name (node kind tag value content) =
    if str_eq tag (text "!!null")
    then ok condition_started
    else if is_mapping kind
    then parse_dependency_condition name condition_started content
    else err (invalid_entry name)

unfoldable pub parse_dependency_mapping : Nodes → Result (List Dependency)
parse_dependency_mapping no_nodes = ok []
parse_dependency_mapping (and_nodes key no_nodes) = ok []
parse_dependency_mapping (and_nodes key (and_nodes value content)) =
    parse_entry (value_of key) value >>= λ c. parse_dependency_mapping content >>= λ deps.
    ok (record { name = value_of key; condition = c } ∷ deps)

unfoldable pub started_all : List Str → List Dependency
started_all [] = []
started_all (name ∷ names) =
    record { name = name; condition = condition_started } ∷ started_all names

abbrev of_names : Option (List Str) → Result (List Dependency)
of_names none = err invalid_depends_on
of_names (some names) = ok (started_all names)

unfoldable pub unmarshal_yaml : (Node → Option (List Str)) → Node → Result (List Dependency)
unmarshal_yaml decode (node sequence_node tag value content) =
    of_names (decode (node sequence_node tag value content))
unmarshal_yaml decode (node mapping_node tag value content) = parse_dependency_mapping content
unmarshal_yaml decode (node scalar_node tag value content) = err invalid_depends_on
