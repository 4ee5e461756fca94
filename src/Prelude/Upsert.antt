-- ===== src/Prelude/Upsert.antt =====
-- `INSERT ... ON CONFLICT (key) DO UPDATE` on a table whose rows have a text as their key.
use Prim.Native.String.{String}
use mathlib.Core.Path.{◌≡◌, refl, sym, ap, subst, ◌∙◌}
use mathlib.Core.Logic.{inl, inr}
use mathlib.Core.Bool.{Bool, false}
use mathlib.Core.Option.{Option, none, some}
use mathlib.Core.List.{List, [], ◌∷◌, ◌++◌, map}
use native.Mathlib.Omega.{arith}
use project_main.Prelude.Tests.{
  str_eq, str_eq_iff, if◌then◌else◌, Bool-cases, Option-cases, some-injective,
}
use project_main.Prelude.Lists.{find, update_where}

module _ {A : Type 0} (key : A → String) where
  abbrev pub keyed : String → A → Bool
  keyed c x = str_eq c (key x)

  -- The row with the key is updated, or else the new one inserted.
  abbrev pub upsert_into : Option A → String → A → (A → A) → List A → List A
  upsert_into none c new f xs = xs ++ new ∷ []
  upsert_into (some x) c new f xs = update_where (keyed c) f xs

  unfoldable pub upsert : String → A → (A → A) → List A → List A
  upsert c new f xs = upsert_into (find (keyed c) xs) c new f xs

  -- The row that `RETURNING` gives.
  abbrev pub upserted : Option A → A → (A → A) → A
  upserted none new f = new
  upserted (some x) new f = f x

  find-append_none :
      (c : String) (xs ys : List A)
      → find (keyed c) xs ≡ none
      → find (keyed c) (xs ++ ys) ≡ find (keyed c) ys
  find-append_none c [] ys h = refl
  find-append_none c (x ∷ xs) ys h = ground (arith, find-append_none c xs ys)

  find-append_other :
      (c : String) (xs : List A) (y : A)
      → keyed c y ≡ false
      → find (keyed c) (xs ++ y ∷ []) ≡ find (keyed c) xs
  find-append_other c [] y h = rw h
  find-append_other c (x ∷ xs) y h = ground (arith, find-append_other c xs y h)

  module _ (f : A → A) (same : (x : A) → key (f x) ≡ key x) where
    find-update_same :
        (c : String) (xs : List A) (x : A)
        → find (keyed c) xs ≡ some x
        → find (keyed c) (update_where (keyed c) f xs) ≡ some (f x)
    find-update_same c [] x h = cc
    find-update_same c (y ∷ ys) x h = elim (Bool-cases (keyed c y)) [
      | inl e ↦
          let kept = ap (str_eq c) (same y) ∙ e in
          let eq : some y ≡ some x = rw e at h in
          rw e (rw kept (ap (λ o. some (f o)) (some-injective eq)))
      | inr e ↦ rw e (rw e (find-update_same c ys x (rw e at h)))
    ]

    find-update_other :
        (c d : String) (xs : List A)
        → str_eq d c ≡ false
        → find (keyed d) (update_where (keyed c) f xs) ≡ find (keyed d) xs
    find-update_other c d [] h = refl
    find-update_other c d (y ∷ ys) h = elim (Bool-cases (keyed c y)) [
      | inl e ↦
          let at_d : keyed d y ≡ false =
            subst (λ k. str_eq d k ≡ false) ((str_eq_iff c (key y)).0 e) h in
          let kept = ap (str_eq d) (same y) ∙ at_d in
          rw e (rw kept (rw at_d (find-update_other c d ys h)))
      | inr e ↦ rw e (ap (λ o. if keyed d y then some y else o) (find-update_other c d ys h))
    ]

    keys-update : (p : A → Bool) (xs : List A) → map key (update_where p f xs) ≡ map key xs
    keys-update p [] = refl
    keys-update p (x ∷ xs) = elim (Bool-cases (p x)) [
      | inl e ↦ rw e (rw (same x) (ap (λ ks. key x ∷ ks) (keys-update p xs)))
      | inr e ↦ rw e (ap (λ ks. key x ∷ ks) (keys-update p xs))
    ]

    -- After it the row with the key is the one that is returned.
    pub find-upsert :
        (c : String) (new : A) (xs : List A)
        → key new ≡ c
        → find (keyed c) (upsert c new f xs) ≡ some (upserted (find (keyed c) xs) new f)
    unfolding upsert
    find-upsert c new xs e = elim (Option-cases (find (keyed c) xs)) [
      | inl k ↦
          let is_new = (str_eq_iff c (key new)).1 (sym e) in
          rw (k, upsert) (find-append_none c xs (new ∷ []) k ∙ rw is_new refl)
      | inr (x, k) ↦ rw (k, upsert) (find-update_same c xs x k)
    ]

    -- Rows with other keys stay.
    pub find-upsert_other :
        (c d : String) (new : A) (xs : List A)
        → key new ≡ c
        → str_eq d c ≡ false
        → find (keyed d) (upsert c new f xs) ≡ find (keyed d) xs
    unfolding upsert
    find-upsert_other c d new xs e h = elim (Option-cases (find (keyed c) xs)) [
      | inl k ↦ rw (k, upsert) (find-append_other d xs new (ap (str_eq d) e ∙ h))
      | inr (x, k) ↦ rw (k, upsert) (find-update_other c d xs h)
    ]

    -- Where there is a row with the key, none is added.
    pub keys-upsert :
        (c : String) (new x : A) (xs : List A)
        → find (keyed c) xs ≡ some x
        → map key (upsert c new f xs) ≡ map key xs
    unfolding upsert
    keys-upsert c new x xs k = rw (k, upsert) (keys-update (keyed c) xs)
