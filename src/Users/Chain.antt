-- ===== src/Users/Chain.antt =====
-- The chain of managers (backend/domains/users/repository.py: get_manager_chain) ends, also where the
-- managers go round in a circle.
use project_main.Prelude.{
  ℕ, zero, suc, ◌≤◌, ◌<◌, ◌≡◌, refl, Bool, false, not, some, List, [], ◌∷◌, ◌==◌, ==_iff, arith,
  find, any, count, count_le_length, length, Bool-cases, Option-cases, inl, inr, sym, subst, ap,
  ◌∙◌, none-ne-some, find-passes, none, ◌⊎◌, true,
}
use project_main.Users.{User, is_user, manager_of, next_manager, chain_from, get_manager_chain}

abbrev seen : List ℕ → ℕ → Bool
seen visited id = any (λ v. id == v) visited

abbrev unseen : List ℕ → User → Bool
unseen visited u = not (seen visited u.user_id)

-- The manager of the user, if there is one, was visited or is no user.
abbrev pub IsEnd : List User → List ℕ → ℕ → Type 0
IsEnd users visited current =
    (m : ℕ)
    → manager_of users current ≡ some m
    → (any (λ v. m == v) visited ≡ true) ⊎ (find (is_user m) users ≡ none)

-- Each user of the chain is the manager of the one before, and none of those before; the last has no
-- manager that could follow.
abbrev pub IsChain : List User → List ℕ → ℕ → List User → Type 0
IsChain users visited current [] = IsEnd users visited current
IsChain users visited current (u ∷ us) =
    (manager_of users current ≡ some u.user_id)
    × (any (λ v. u.user_id == v) visited ≡ false)
    × IsChain users (u.user_id ∷ visited) u.user_id us

next_manager-some :
    (users : List User) (visited : List ℕ) (current : ℕ) (u : User)
    → next_manager users visited current ≡ some u
    → (manager_of users current ≡ some u.user_id)
      × (seen visited u.user_id ≡ false)
      × (find (is_user u.user_id) users ≡ some u)
unfolding next_manager
next_manager-some users visited current u h = elim (Option-cases (manager_of users current)) [
  | inl e ↦ absurd (none-ne-some (rw (e, next_manager) at h))
  | inr (m, e) ↦ elim (Bool-cases (seen visited m)) [
    | inl k ↦ absurd (none-ne-some (rw k at (rw (e, next_manager) at h)))
    | inr k ↦
        let found = rw k at (rw (e, next_manager) at h) in
        let same = (==_iff m u.user_id).0 (find-passes (is_user m) users u found) in
        (
          e ∙ ap some same,
          subst (λ x. seen visited x ≡ false) same k,
          subst (λ x. find (is_user x) users ≡ some u) same found,
        )
  ]
]

next_manager-none :
    (users : List User) (visited : List ℕ) (current : ℕ)
    → next_manager users visited current ≡ none
    → IsEnd users visited current
unfolding next_manager
next_manager-none users visited current h m e = elim (Bool-cases (seen visited m)) [
  | inl k ↦ inl k
  | inr k ↦ inr (rw k at (rw (e, next_manager) at h))
]

-- Visiting a user that was not seen leaves fewer to see.
count-unseen_mono :
    (users : List User) (visited : List ℕ) (m : ℕ)
    → count (unseen (m ∷ visited)) users ≤ count (unseen visited) users
count-unseen_mono [] visited m = omega arith
count-unseen_mono (w ∷ users) visited m = ground (arith, count-unseen_mono users visited m)

count-unseen_lt :
    (users : List User) (visited : List ℕ) (u : User)
    → find (is_user u.user_id) users ≡ some u
    → seen visited u.user_id ≡ false
    → count (unseen (u.user_id ∷ visited)) users < count (unseen visited) users
count-unseen_lt [] visited u found free = absurd (none-ne-some found)
count-unseen_lt (w ∷ users) visited u found free = elim (Bool-cases (is_user u.user_id w)) [
  | inl e ↦
      let same = ap (seen visited) ((==_iff u.user_id w.user_id).0 e) in
      let rest = count-unseen_mono users visited u.user_id in
      let met = (==_iff w.user_id u.user_id).1 (sym ((==_iff u.user_id w.user_id).0 e)) in
      ground (arith, free, same, rest, met)
  | inr e ↦ let rest = count-unseen_lt users visited u (rw e at found) free in ground (arith, rest)
]

-- With more rounds than unseen users the loop ends, with a chain.
chain_from-IsChain :
    (n : ℕ) (users : List User) (visited : List ℕ) (current : ℕ)
    → count (unseen visited) users < n
    → (us : List User) × (chain_from n users visited current ≡ some us)
      × IsChain users visited current us
unfolding chain_from
chain_from-IsChain zero users visited current h = absurd (omega (arith, h))
chain_from-IsChain (suc n) users visited current h =
    elim (Option-cases (next_manager users visited current)) [
      | inl e ↦ ([], rw (e, chain_from) refl, next_manager-none users visited current e)
      | inr (u, e) ↦
          let (manages, fresh, found) = next_manager-some users visited current u e in
          let (us, returned, chain) =
            chain_from-IsChain n users (u.user_id ∷ visited) u.user_id
              (omega (arith, count-unseen_lt users visited u found fresh)) in
          (u ∷ us, rw (e, chain_from) (rw returned refl), (manages, fresh, chain))
    ]

-- The chain of every user is found, whatever the managers are: each in it is the manager of the one
-- before, nobody is in it twice, nor the user, and it ends only where there is no manager, or where the
-- manager is in it already or is no user.
pub get_manager_chain-IsChain :
    (users : List User) (id : ℕ)
    → (us : List User) × (get_manager_chain users id ≡ some us) × IsChain users (id ∷ []) id us
unfolding get_manager_chain
get_manager_chain-IsChain users id =
    chain_from-IsChain (suc (length users)) users (id ∷ []) id
      (omega (arith, count_le_length (unseen (id ∷ [])) users))
