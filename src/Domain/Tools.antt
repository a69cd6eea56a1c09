-- ===== src/Domain/Tools.antt =====
-- src/patchloop/domain.py: `ToolCall`, `ToolResult` and `AgentStep`. The arguments and the output are opaque; the
-- argument error, the error kind and the duration stand in the `detail` of each.
use patch_loop.Common.{List, Option, ℕ, Key, Bool, true, false, ◌&&◌, ◌==◌}

pub record ToolCall : Type 0 where
  pub id : Key
  pub name : Key
  pub arguments : Key
  pub detail : Key

pub record ToolResult : Type 0 where
  pub call_id : Key
  pub tool_name : Key
  pub success : Bool
  pub output : Key
  pub detail : Key

abbrev pub same_bool : Bool → Bool → Bool
same_bool true b = b
same_bool false true = false
same_bool false false = true

-- `==` of the model classes.
abbrev pub same_call : ToolCall → ToolCall → Bool
same_call a b =
    a.id == b.id && (a.name == b.name && (a.arguments == b.arguments && a.detail == b.detail))

abbrev pub same_result : ToolResult → ToolResult → Bool
same_result a b =
    a.call_id == b.call_id
    && (a.tool_name == b.tool_name
        && (same_bool a.success b.success && (a.output == b.output && a.detail == b.detail)))

-- A committed observation.
abbrev pub Observation : Type 0
Observation = ToolCall × ToolResult

abbrev pub same_observation : Observation → Observation → Bool
same_observation (c, r) (c', r') = same_call c c' && same_result r r'

-- A step of the agent's loop; `body` is its progress (status, decision, results and times), and the
-- model's response is opaque.
pub record AgentStep : Type 0 where
  pub id : Key
  pub task_id : Key
  pub index : ℕ
  pub model_response : Option Key
  pub effect_ids : List Key
  pub consumed_input_sequence : ℕ
  pub body : Key
