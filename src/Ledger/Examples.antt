-- ===== src/Ledger/Examples.antt =====
-- Tests of the ledger over a toy hash, and the theorems at concrete ledgers.
use Prim.Native.String.{◌++◌ as append}
use loop_agent.Prelude.{String, ◌≡◌, ◌⊎◌, refl, true, false, none, some, [], ◌∷◌, map}
use loop_agent.Json.{Value, end, field, str}
use loop_agent.Ledger.{
  Step, genesis_prefix, verify_from, hash_matches, step_hash, verify_chain, genesis_hash,
}
use loop_agent.Ledger.Tamper.{Agree, Collision, verify_chain_unique}
use loop_agent.Ledger.Legacy.{rethink, verify_chain-rethink}

abbrev zeros : String
zeros = "0000000000000000000000000000000000000000000000000000000000000000"

-- A hash that maps every text to one of the right length.
abbrev toy : String → String
toy s = zeros

abbrev dumps : Value → String
dumps v = "{}"

abbrev uuid : String
uuid = "123e4567-e89b-12d3-a456-426614174000"

abbrev first_step : Step
first_step = record {
  number = 1;
  tool = "run_command";
  tool_args = field "command" (str "ls") end;
  observation = "exit code 0";
  status = "ok";
  tokens = 120;
  thought = "";
  prev_hash = some zeros;
  hash = zeros;
}

-- A step that does not link to the genesis is reported by its number.
broken :
    verify_chain toy dumps uuid ((record first_step { prev_hash = none; number = 7 }) ∷ [])
    ≡ (false, some 7)
unfolding verify_chain verify_from
broken = refl

verify_chain_unique_example :
    Agree dumps (first_step ∷ []) ((record first_step { tokens = 1 }) ∷ [])
    ⊎ Collision toy dumps
        (append genesis_prefix uuid)
        (first_step ∷ [])
        ((record first_step { tokens = 1 }) ∷ [])
unfolding verify_chain verify_from genesis_hash hash_matches step_hash
verify_chain_unique_example =
    verify_chain_unique toy dumps uuid (first_step ∷ []) ((record first_step { tokens = 1 }) ∷ [])
      (λ x. refl) refl refl refl refl

verify_chain-rethink_example :
    verify_chain toy dumps uuid (map (rethink (λ s. "as planned")) (first_step ∷ [])) ≡ (true, none)
unfolding verify_chain verify_from genesis_hash hash_matches step_hash
verify_chain-rethink_example =
    verify_chain-rethink toy dumps (λ s. "as planned") uuid (first_step ∷ []) (refl, tt) refl
