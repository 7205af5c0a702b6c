-- ===== src/Capability.antt =====
-- apps/api/app/domain/capability.py and apps/api/app/tools/envelope.py: the authority of a task,
-- and what an envelope permits a tool to do. A frozen set of capabilities is the test that says
-- whether a capability is in it.
pub mod Permits
mod Examples
use loop_agent.Prelude.{
  ℕ, nat_eq, String, Bool, true, false, Option, none, some, List, [], ◌∷◌, ◌==◌, ◌&&◌, ◌||◌, not,
  any, all, contains, if◌then◌else◌, is_some,
}

pub data Capability : Type 0 where
  fs_read fs_write exec net_shell net_browser email_read email_send : Capability
  calendar_read calendar_write vision research_read qa_browser : Capability
  memory_read memory_write task_spawn : Capability

abbrev pub all_capabilities : List Capability
all_capabilities =
    fs_read ∷ fs_write ∷ exec ∷ net_shell ∷ net_browser ∷ email_read ∷ email_send ∷ calendar_read
    ∷ calendar_write ∷ vision ∷ research_read ∷ qa_browser ∷ memory_read ∷ memory_write ∷ task_spawn
    ∷ []

unfoldable pub capability_value : Capability → String
capability_value fs_read = "fs.read"
capability_value fs_write = "fs.write"
capability_value exec = "exec"
capability_value net_shell = "net.shell"
capability_value net_browser = "net.browser"
capability_value email_read = "email.read"
capability_value email_send = "email.send"
capability_value calendar_read = "calendar.read"
capability_value calendar_write = "calendar.write"
capability_value vision = "vision"
capability_value research_read = "research.read"
capability_value qa_browser = "qa.browser"
capability_value memory_read = "memory.read"
capability_value memory_write = "memory.write"
capability_value task_spawn = "task.spawn"

abbrev pub CapabilitySet : Type 0
CapabilitySet = Capability → Bool

abbrev pub index : Capability → ℕ
index fs_read = 0
index fs_write = 1
index exec = 2
index net_shell = 3
index net_browser = 4
index email_read = 5
index email_send = 6
index calendar_read = 7
index calendar_write = 8
index vision = 9
index research_read = 10
index qa_browser = 11
index memory_read = 12
index memory_write = 13
index task_spawn = 14

abbrev pub same : Capability → Capability → Bool
same a b = nat_eq (index a) (index b)

-- The set of the listed capabilities, and `a <= b` of two sets.
abbrev pub set_of : List Capability → CapabilitySet
set_of cs c = any (same c) cs

abbrev pub subset : List Capability → CapabilitySet → Bool
subset cs b = all b cs

find_capability : List Capability → String → Option Capability
unfolding capability_value
find_capability [] s = none
find_capability (c ∷ cs) s = if capability_value c == s then some c else find_capability cs s

-- `parse_capabilities`; `none` is the `ValueError` of an unknown name.
unfoldable pub parse_capabilities : List String → Option (List Capability)
unfolding find_capability
parse_capabilities [] = some []
parse_capabilities (s ∷ ss) = elim (find_capability all_capabilities s) [
  | none ↦ none
  | some c ↦ elim (parse_capabilities ss) [ none ↦ none | some cs ↦ some (c ∷ cs) ]
]

-- `tool in CONTROL_TOOLS`
abbrev pub is_control : String → Bool
is_control tool = contains ("finish" ∷ "ask_user" ∷ []) tool

-- `TOOL_CAPABILITIES.get(tool)`
unfoldable pub tool_capabilities : String → Option (List Capability)
tool_capabilities tool =
    if tool == "read_file"
    then some (fs_read ∷ [])
    else if tool == "write_file"
    then some (fs_write ∷ [])
    else if tool == "edit_file"
    then some (fs_read ∷ fs_write ∷ [])
    else if tool == "run_command"
    then some (exec ∷ [])
    else if tool == "remember"
    then some (memory_write ∷ [])
    else if tool == "spawn"
    then some (task_spawn ∷ [])
    else if tool == "read_inbox"
    then some (email_read ∷ [])
    else if tool == "send_email"
    then some (email_send ∷ [])
    else if tool == "list_events"
    then some (calendar_read ∷ [])
    else if tool == "create_event"
    then some (calendar_write ∷ [])
    else if tool == "see_image"
    then some (vision ∷ fs_read ∷ [])
    else none

-- `tool in EXECUTOR_TOOLS`
abbrev pub executor_tools : List String
executor_tools = "read_file" ∷ "write_file" ∷ "edit_file" ∷ "run_command" ∷ []

abbrev pub is_executor : String → Bool
is_executor tool = contains executor_tools tool

-- `LEGACY_DEFAULT_CAPABILITIES`
abbrev legacy_default : List Capability
legacy_default = fs_read ∷ fs_write ∷ exec ∷ memory_read ∷ memory_write ∷ task_spawn ∷ []

-- The capabilities that the tools of the list need, with those for memory.
needed : List String → CapabilitySet
unfolding tool_capabilities
needed [] c = set_of (memory_read ∷ memory_write ∷ []) c
needed (tool ∷ tools) c =
    let rest = needed tools c in
    elim (tool_capabilities tool) [ none ↦ rest | some cs ↦ set_of cs c || rest ]

pub record LegacyFlags : Type 0 where
  pub allow_egress : Bool
  pub use_browser : Bool
  pub use_email : Bool
  pub use_calendar : Bool
  pub use_vision : Bool

base_capabilities : Option (List String) → CapabilitySet
unfolding needed
base_capabilities none c = set_of legacy_default c
base_capabilities (some tools) c = needed tools c

unfoldable pub legacy_capabilities : Option (List String) → LegacyFlags → CapabilitySet
unfolding base_capabilities
legacy_capabilities tools f c =
    base_capabilities tools c
    || f.allow_egress && same c net_shell
    || f.use_browser && same c net_browser
    || f.use_email && set_of (email_read ∷ email_send ∷ []) c
    || f.use_calendar && set_of (calendar_read ∷ calendar_write ∷ []) c
    || f.use_vision && set_of (vision ∷ fs_read ∷ []) c

-- The egress hosts of an envelope, which its host policy matches, are those of the `Hosts` module.
pub record CapabilityEnvelope : Type 0 where
  pub capabilities : CapabilitySet
  pub egress_hosts : List String
  pub legacy_allowed_tools : Option (List String)

-- `[tool for tool in tools if tool in EXECUTOR_TOOLS]`
executors_of : List String → List String
executors_of [] = []
executors_of (t ∷ ts) = let rest = executors_of ts in if is_executor t then t ∷ rest else rest

legacy_tools : Option (List String) → Option (List String)
unfolding executors_of
legacy_tools none = none
legacy_tools (some tools) = some (executors_of tools)

-- `from_tools`, the hosts already normalized.
unfoldable pub from_tools : Option (List String) → Bool → List String → CapabilityEnvelope
unfolding legacy_tools legacy_capabilities
from_tools tools egress hosts = record {
  capabilities = legacy_capabilities tools (record {
    allow_egress = egress;
    use_browser = false;
    use_email = false;
    use_calendar = false;
    use_vision = false;
  });
  egress_hosts = hosts;
  legacy_allowed_tools = legacy_tools tools;
}

-- `tool in EXECUTOR_TOOLS and legacy_allowed_tools is not None and tool not in …`
pub legacy_blocks : Option (List String) → String → Bool
legacy_blocks none tool = false
legacy_blocks (some tools) tool = is_executor tool && not (contains tools tool)

-- `required`, and whether the capabilities cover it
required_for : Option (List Capability) → Option Capability → Option (List Capability)
required_for (some cs) provider = some cs
required_for none (some c) = some (c ∷ [])
required_for none none = none

covers : Option (List Capability) → CapabilitySet → Bool
covers none b = false
covers (some cs) b = subset cs b

unfoldable pub permits : CapabilityEnvelope → String → Option Capability → Bool
unfolding legacy_blocks required_for covers
permits e tool provider =
    if is_control tool
    then true
    else if legacy_blocks e.legacy_allowed_tools tool
    then false
    else covers (required_for (tool_capabilities tool) provider) e.capabilities

pub egress_allowed : CapabilityEnvelope → Bool
egress_allowed e = e.capabilities net_shell
