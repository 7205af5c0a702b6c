-- ===== src/Capability/Examples.antt =====
-- Tests of envelopes, and their theorems at concrete envelopes.
use loop_agent.Prelude.{◌≡◌, ◌↔◌, refl, true, false, none, some, [], ◌∷◌, contains, arith}
use loop_agent.Capability.{
  CapabilityEnvelope, permits, from_tools, parse_capabilities, tool_capabilities, fs_read, exec,
  legacy_blocks, set_of,
}
use loop_agent.Capability.Permits.{IsWithin, from_tools_exact}

abbrev reader : CapabilityEnvelope
reader = record {
  capabilities = set_of (fs_read ∷ []);
  egress_hosts = [];
  legacy_allowed_tools = none;
}

abbrev runner : CapabilityEnvelope
runner = record reader { capabilities = set_of (fs_read ∷ exec ∷ []) }

unknown_name : parse_capabilities ("fs.read" ∷ "fs.erase" ∷ []) ≡ none
unfolding parse_capabilities
unknown_name = refl

unknown_tool : permits runner "erase_disk" none ≡ false
unfolding permits tool_capabilities
unknown_tool = refl

-- Writing is listed, and reading is not, though editing brings the capability to read.
edit_only : permits (from_tools (some ("edit_file" ∷ [])) false []) "read_file" none ≡ false
unfolding permits from_tools
edit_only = refl

reader-IsWithin : IsWithin reader runner
unfolding legacy_blocks
reader-IsWithin = record { fewer = λ c h. ground arith; tools = λ t h. h }

from_tools_exact_example :
    (permits (from_tools (some ("edit_file" ∷ [])) false []) "read_file" none ≡ true)
    ↔ (contains ("edit_file" ∷ []) "read_file" ≡ true)
from_tools_exact_example = from_tools_exact ("edit_file" ∷ []) [] false "read_file" none refl
