-- ===== src/Users/Tests.antt =====
-- Two users who are each other's managers.
use project_main.Prelude.{◌≡◌, some, List, [], ◌∷◌}
use project_main.Users.{User, get_manager_chain}
use project_main.Users.Chain.{IsChain, get_manager_chain-IsChain}

abbrev circle : List User
circle =
    record { user_id = 1; manager_id = some 2 } ∷ record { user_id = 2; manager_id = some 1 } ∷ []

get_manager_chain-IsChain_example :
    (us : List User) × (get_manager_chain circle 1 ≡ some us) × IsChain circle (1 ∷ []) 1 us
get_manager_chain-IsChain_example = get_manager_chain-IsChain circle 1
