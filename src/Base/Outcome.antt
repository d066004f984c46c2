-- ===== src/Base/Outcome.antt =====
-- The outcome of Go code: a value, an error of type `E`, or a run-time panic.
use mathlib.Core.Path.{◌≡◌, refl, subst}
use mathlib.Core.Bool.{Bool, true, false}
use mathlib.Core.Option.{Option, none, some}
use native.Mathlib.Omega.{arith}
use amish.Base.Tests.{if◌then◌else◌}

pub data Result {ℓ} (E : Type 0) (A : Type ℓ) : Type ℓ where
  panic : Result E A
  err : E → Result E A
  ok : A → Result E A

infixl 5 ◌>>=◌ ◌>>◌
abbrev pub ◌>>=◌ {ℓ κ} :
    {E : Type 0} {A : Type ℓ} {B : Type κ} → Result E A → (A → Result E B) → Result E B
panic >>= next = panic
err e >>= next = err e
ok a >>= next = next a

abbrev pub ◌>>◌ {ℓ} : {E : Type 0} {B : Type ℓ} → Result E (Unit {0}) → Result E B → Result E B
first >> second = first >>= λ _. second

-- `if !b { return e }`
abbrev pub guard : {E : Type 0} → Bool → E → Result E (Unit {0})
guard b e = if b then ok tt else err e

-- A missing map entry or a failed type assertion, turned into an error.
abbrev pub require {ℓ} : {E : Type 0} {A : Type ℓ} → Option A → E → Result E A
require none e = err e
require (some a) e = ok a

-- `fmt.Errorf("%w: …", e, err)`: the error of one package, wrapped in another's.
abbrev pub map_err {ℓ} : {E F : Type 0} {A : Type ℓ} → (E → F) → Result E A → Result F A
map_err f (ok a) = ok a
map_err f (err e) = err (f e)
map_err f panic = panic

-- A successful bind, taken apart.
pub >>=-eq-ok {ℓ κ} :
    {E : Type 0} {A : Type ℓ} {B : Type κ} {b : B} (run : Result E A) (next : A → Result E B)
    → (run >>= next) ≡ ok b
    → (a : A) × (run ≡ ok a) × (next a ≡ ok b)
>>=-eq-ok panic next whole = ground arith
>>=-eq-ok (err e) next whole = ground arith
>>=-eq-ok (ok a) next whole = (a, refl, whole)

-- What holds of a run: `P` of its value, `F` of its error. Of a panic it says nothing.
pub data Ensures {ℓ κ} {E : Type 0} {A : Type ℓ} (P : A → Type κ) (F : E → Type 0)
    : Result E A → Type (ℓ ⊔ κ) where
  holds : {a : A} → P a → Ensures P F (ok a)
  fails : {e : E} → F e → Ensures P F (err e)
  panics : Ensures P F panic

module _ {ℓ κ} {E : Type 0} {A : Type ℓ} {P : A → Type κ} {F : E → Type 0} where
  pub Ensures-ok : {r : Result E A} {a : A} → Ensures P F r → r ≡ ok a → P a
  Ensures-ok (holds h) e = subst P (cc) h
  Ensures-ok (fails h) e = cc
  Ensures-ok panics e = cc

  pub Ensures-err : {r : Result E A} {e : E} → Ensures P F r → r ≡ err e → F e
  Ensures-err (holds h) e = cc
  Ensures-err (fails h) e = subst F (cc) h
  Ensures-err panics e = cc

  pub Ensures-if :
      (b : Bool) {x y : Result E A}
      → (b ≡ true → Ensures P F x)
      → (b ≡ false → Ensures P F y)
      → Ensures P F (if b then x else y)
  Ensures-if true hx hy = hx refl
  Ensures-if false hx hy = hy refl

  pub Ensures->>= {ℓ' κ'} :
      {B : Type ℓ'} {Q : B → Type κ'} {r : Result E A} {f : A → Result E B}
      → Ensures P F r
      → ((a : A) → P a → Ensures Q F (f a))
      → Ensures Q F (r >>= f)
  Ensures->>= (holds {a} h) k = k a h
  Ensures->>= (fails h) k = fails h
  Ensures->>= panics k = panics

  pub Ensures-require :
      (o : Option A) (e : E) → ((a : A) → o ≡ some a → P a) → F e → Ensures P F (require o e)
  Ensures-require none e h he = fails he
  Ensures-require (some a) e h he = holds (h a refl)

-- From what is known of each outcome.
pub Ensures-intro {ℓ κ} :
    {E : Type 0} {A : Type ℓ} {P : A → Type κ} {F : E → Type 0} (r : Result E A)
    → ((a : A) → r ≡ ok a → P a)
    → ((e : E) → r ≡ err e → F e)
    → Ensures P F r
Ensures-intro (ok a) hp hf = holds (hp a refl)
Ensures-intro (err e) hp hf = fails (hf e refl)
Ensures-intro panic hp hf = panics

pub Ensures-map_err {ℓ κ} :
    {E F : Type 0} {A : Type ℓ} {P : A → Type κ} {G : F → Type 0} (f : E → F) (r : Result E A)
    → ((a : A) → r ≡ ok a → P a)
    → ((e : E) → G (f e))
    → Ensures P G (map_err f r)
Ensures-map_err f (ok a) hp hf = holds (hp a refl)
Ensures-map_err f (err e) hp hf = fails (hf e)
Ensures-map_err f panic hp hf = panics

pub Ensures-weaken {ℓ κ κ'} :
    {E : Type 0} {A : Type ℓ} {P : A → Type κ} {Q : A → Type κ'} {F G : E → Type 0} {r : Result E A}
    → ((a : A) → P a → Q a)
    → ((e : E) → F e → G e)
    → Ensures P F r
    → Ensures Q G r
Ensures-weaken f g (holds {a} h) = holds (f a h)
Ensures-weaken f g (fails {e} h) = fails (g e h)
Ensures-weaken f g panics = panics

pub Ensures-guard :
    {E : Type 0} {F : E → Type 0} (b : Bool) (e : E) → F e → Ensures (λ _. b ≡ true) F (guard b e)
Ensures-guard true e h = holds refl
Ensures-guard false e h = fails h
