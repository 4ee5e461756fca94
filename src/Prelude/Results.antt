-- ===== src/Prelude/Results.antt =====
-- The outcome of code that may raise: a value, or the exception.
use Prim.Native.Nat.{ℕ}
use mathlib.Core.Path.{◌≡◌, refl}
use mathlib.Core.Logic.{◌≢◌}
use mathlib.Core.Bool.{Bool, true, false}

-- `http n` is an HTTPException with status n, `cycle_error` a SupplyChainCycleError, and `unfinished`
-- the outcome of a query that does not end.
pub data Error : Type 0 where
  value_error key_error : Error
  integrity_error no_result_found cycle_error unfinished : Error
  http : ℕ → Error

-- What a call returns, or the exception that it raises.
pub data Result {ℓ} (T : Type ℓ) : Type ℓ where
  err : Error → Result T
  ok : T → Result T

-- `if test: raise e`
abbrev pub raise_if : Bool → Error → Result (Unit {0})
raise_if true e = err e
raise_if false e = ok tt

infixl 5 ◌>>=◌ ◌>>◌
-- The next statement is run on the value of the one before, unless that has raised.
abbrev pub ◌>>=◌ {ℓ κ} : {S : Type ℓ} {T : Type κ} → Result S → (S → Result T) → Result T
err e >>= next = err e
ok s >>= next = next s

-- A statement whose value is not used.
abbrev pub ◌>>◌ {ℓ} : {T : Type ℓ} → Result (Unit {0}) → Result T → Result T
first >> next = first >>= λ _. next

-- Of two statements that return, the first has returned a value on which the second returns.
pub >>=-eq-ok {ℓ κ} :
    {S : Type ℓ} {T : Type κ} (m : Result S) (next : S → Result T) {t : T}
    → (m >>= next) ≡ ok t
    → (s : S) × (m ≡ ok s) × (next s ≡ ok t)
>>=-eq-ok (err e) next h = cc
>>=-eq-ok (ok s) next h = (s, refl, h)

pub ok-injective {ℓ} : {A : Type ℓ} {a b : A} → ok a ≡ ok b → a ≡ b
ok-injective h = cc

pub err-ne-ok {ℓ} : {A : Type ℓ} {e : Error} {a : A} → err e ≢ ok a
err-ne-ok h = cc

pub raise_if-ok {ℓ} :
    {A : Type ℓ} (b : Bool) (m : Result A) {a : A}
    → (raise_if b value_error >> m) ≡ ok a
    → (b ≡ false) × (m ≡ ok a)
raise_if-ok true m h = cc
raise_if-ok false m h = (refl, h)

pub raise_if-eq-ok {ℓ} :
    {A : Type ℓ} (b : Bool) (x : Error) (m : Result A) {a : A}
    → (raise_if b x >> m) ≡ ok a
    → (b ≡ false) × (m ≡ ok a)
raise_if-eq-ok true x m h = cc
raise_if-eq-ok false x m h = (refl, h)

pub raise_if-passed : (b : Bool) → raise_if b value_error ≡ ok tt → b ≡ false
raise_if-passed true h = cc
raise_if-passed false h = refl

abbrev pub value_or {ℓ} : {A : Type ℓ} → Result A → A → A
value_or (ok a) default = a
value_or (err e) default = default
