-- ===== src/Policy.antt =====
-- apps/api/app/tools/policy.py: what the command of a shell step is judged by. Regular expressions
-- are a parameter, given their patterns as the source writes them.
pub mod Tables
pub mod Verdicts
use Prim.Native.String.{◌++◌ as append, [], ◌∷◌}
use Prim.Native.Char.{code}
use loop_agent.Prelude.{
  String, Bool, true, false, not, Option, none, some, List, ◌++◌, any, contains, ◌==◌, ◌&&◌, nat_eq,
  if◌then◌else◌,
}
use loop_agent.Prelude.Text.{strip}
use loop_agent.Policy.Tables.{deny, network, allow_prefixes, net_in_code, script_arg, interpreters}

-- `re.search` of a pattern, whether the case matters not; the second groups of all matches; `re.sub`
-- of a pattern by a text; the first part of `re.split`; `shlex.split`, where it does not raise;
-- `str.split()`; and `repr`.
pub record Library : Type 0 where
  pub search : String → String → Bool
  pub second_groups : String → String → List String
  pub sub : String → String → String → String
  pub split_first : String → String → String
  pub shlex : String → Option (List String)
  pub words : String → List String
  pub repr : String → String

pub data Verdict : Type 0 where
  allow needs_approval denied : Verdict

-- `"; ".join(inners)`
unfoldable pub join : String → List String → String
join sep List.[] = ""
join sep (List.◌∷◌ s List.[]) = s
join sep (List.◌∷◌ s (List.◌∷◌ t ts)) = append s (append sep (join sep (List.◌∷◌ t ts)))

-- What follows the last slash: `first.rsplit("/", 1)[-1]`.
unfoldable pub after_slash : String → String → String
after_slash held [] = held
after_slash held (c ∷ s) =
    if nat_eq (code c) 47 then after_slash "" s else after_slash (append held (c ∷ [])) s

unfoldable pub base_name : String → String
unfolding after_slash
base_name s = after_slash "" s

-- The reason of the first pattern that is found.
unfoldable pub first_match : Library → List (String × String) → String → Option String
first_match lib List.[] text = none
first_match lib (List.◌∷◌ (pattern, reason) ps) text =
    if lib.search pattern text then some reason else first_match lib ps text

-- `if inners`
unfoldable pub appended : List String → String
unfolding join
appended List.[] = ""
appended inners = append "; " (join "; " inners)

-- `_deny_scan_text`
unfoldable pub deny_scan_text : Library → String → String
unfolding appended
deny_scan_text lib command =
    append (lib.sub "(['\\\"]).*?\\1" " " command)
      (appended (lib.second_groups "-[a-z]*[ce]\\s+(['\\\"])(.*?)\\1" command))

-- `first in _ALLOW_PREFIXES`, for a command that no pattern denies
unfoldable pub judge_first : Library → String → Verdict × String
judge_first lib first =
    if contains allow_prefixes first
    then (allow, "allowlisted command")
    else (needs_approval, append (lib.repr first) " is not on the allowlist")

unfoldable pub judge : Library → String → Option String → Verdict × String
unfolding base_name judge_first
judge lib cmd (some reason) = (denied, reason)
judge lib cmd none = judge_first lib (base_name (lib.split_first "\\s+" cmd))

unfoldable pub evaluate_command : Library → String → Verdict × String
unfolding deny_scan_text first_match judge strip
evaluate_command lib command =
    let cmd = strip command in
    if cmd == ""
    then (denied, "empty command")
    else judge lib cmd (first_match lib deny (deny_scan_text lib cmd))

unfoldable pub network_command_reason : Library → String → Option String
unfolding first_match
network_command_reason lib command = first_match lib network command

unfoldable pub code_network_reason : Library → String → Option String
code_network_reason lib text =
    if lib.search net_in_code text then some "network code in script" else none

-- The tokens that name a script.
unfoldable pub named_scripts : Library → List String → List String
named_scripts lib List.[] = List.[]
named_scripts lib (List.◌∷◌ t ts) =
    let rest = named_scripts lib ts in if lib.search script_arg t then List.◌∷◌ t rest else rest

-- The first argument that is no flag.
abbrev pub is_flag : String → Bool
is_flag [] = false
is_flag (c ∷ s) = nat_eq (code c) 45

unfoldable pub first_argument : List String → Option String
first_argument List.[] = none
first_argument (List.◌∷◌ t ts) = let rest = first_argument ts in if is_flag t then rest else some t

unfoldable pub with_argument : List String → Option String → List String
with_argument paths none = paths
with_argument paths (some t) = if contains paths t then paths else paths ++ List.◌∷◌ t List.[]

unfoldable pub tokens_of : Library → String → Option (List String) → List String
tokens_of lib command none = lib.words command
tokens_of lib command (some tokens) = tokens

unfoldable pub scripts_of : Library → List String → List String
unfolding base_name first_argument named_scripts with_argument
scripts_of lib List.[] = List.[]
scripts_of lib (List.◌∷◌ program arguments) =
    let paths = named_scripts lib (List.◌∷◌ program arguments) in
    if contains interpreters (base_name program)
    then with_argument paths (first_argument arguments)
    else paths

unfoldable pub script_paths_in : Library → String → List String
unfolding scripts_of tokens_of
script_paths_in lib command = scripts_of lib (tokens_of lib command (lib.shlex command))
