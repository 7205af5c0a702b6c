-- ===== src/Proxy/Examples.antt =====
-- A revocation that arrives between the check of a connection and its relay.
use loop_agent.Prelude.{ℕ, String, ◌≡◌, refl, true, List, [], ◌∷◌, contains}
use loop_agent.Proxy.{
  Event, connected, asked, resumed, revocation_stored, writers_closed, relaying, run, started,
}
use loop_agent.Proxy.Race.{run_closes}

abbrev one_run : ℕ → String
one_run c = "run-a"

abbrev late_revocation : List Event
late_revocation =
    connected 0 ∷ asked 0 ∷ revocation_stored "run-a" ∷ writers_closed "run-a" ∷ resumed 0 ∷ []

late_relaying : (run one_run late_revocation started).phase 0 ≡ relaying
unfolding run
late_relaying = refl

late_swept : contains (run one_run late_revocation started).swept (one_run 0) ≡ true
unfolding run
late_swept = refl

run_closes_example : (run one_run late_revocation started).closed 0 ≡ true
run_closes_example = run_closes one_run late_revocation 0 late_relaying late_swept
