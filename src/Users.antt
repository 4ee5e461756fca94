-- ===== src/Users.antt =====
-- backend/domains/users (repository.py: get_manager_chain; service.py): the approval line of a user
-- is the chain of managers above it.
pub mod Chain
mod Tests
use project_main.Prelude.{
  ℕ, zero, suc, String, Bool, true, false, Option, none, some, List, [], ◌∷◌, ◌==◌, if◌then◌else◌,
  find, any, length, Result, ok, err, value_error,
}

-- The columns of users that the chain reads.
pub record User : Type 0 where
  pub user_id : ℕ
  pub manager_id : Option ℕ

abbrev pub is_user : ℕ → User → Bool
is_user id u = id == u.user_id

-- `SELECT manager_id WHERE user_id = ..`
unfoldable pub manager_of : List User → ℕ → Option ℕ
manager_of users id = elim (find (is_user id) users) [ none ↦ none | some u ↦ u.manager_id ]

-- The next manager, unless it is missing, visited already, or no user.
unfoldable pub next_manager : List User → List ℕ → ℕ → Option User
next_manager users visited current = elim (manager_of users current) [
  | none ↦ none
  | some m ↦ if any (λ v. m == v) visited then none else find (is_user m) users
]

abbrev pub extend : User → Option (List User) → Option (List User)
extend u none = none
extend u (some chain) = some (u ∷ chain)

-- `while True`, with a bound on the rounds; none means that the bound was too low.
unfoldable pub chain_from : ℕ → List User → List ℕ → ℕ → Option (List User)
chain_from zero users visited current = none
chain_from (suc n) users visited current = elim (next_manager users visited current) [
  | none ↦ some []
  | some u ↦ extend u (chain_from n users (u.user_id ∷ visited) u.user_id)
]

-- `get_manager_chain`: a round more than there are users is enough.
unfoldable pub get_manager_chain : List User → ℕ → Option (List User)
get_manager_chain users id = chain_from (suc (length users)) users (id ∷ []) id

-- `UserService.get_user`
unfoldable pub get_user : List User → ℕ → Result User
get_user users id = elim (find (is_user id) users) [ none ↦ err value_error | some u ↦ ok u ]
