-- ===== src/Agents/Tests/Clean.antt =====
-- The whole graph on that product.
use project_main.Prelude.{none, some}
use project_main.Schema.{us}
use project_main.Agents.State.{BatchState}
use project_main.Agents.Graph.{World, Outcome, finished, run, initial_state, full_fuel, drive}
use project_main.Agents.Graph.Termination.{Settled, drive-start_Settled}
use project_main.Agents.Tests.World.{env, world}

drive-start_Settled_example :
    Settled (drive 4 env (run full_fuel env (initial_state 1 (some 3) us) world))
drive-start_Settled_example = drive-start_Settled env world 1 (some 3) us

abbrev state_of : Outcome → BatchState
state_of (finished t w) = t
state_of _ = initial_state 1 none us

abbrev world_of : Outcome → World
world_of (finished t w) = w
world_of _ = world

abbrev outcome : Outcome
outcome = run full_fuel env (initial_state 1 (some 3) us) world
