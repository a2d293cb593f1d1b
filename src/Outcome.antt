-- ===== src/Outcome.antt =====
-- The outcome of a Go function that returns `(A, error)`, with the two ways in which it may fail to
-- return: a panic, and a loop that its model cut off. Shared by the components.
use altair.Prelude.{◌≡◌, refl, Option, none, some}

pub data Outcome {ℓ κ} (E : Type ℓ) (A : Type κ) : Type (ℓ ⊔ κ) where
  panic no_fuel : Outcome E A
  err : E → Outcome E A
  ok : A → Outcome E A

infixl 5 ◌>>=◌
-- `if err != nil { return err }` after each call.
abbrev pub ◌>>=◌ {ℓ κ μ} :
    {F : Type ℓ} {X : Type κ} {Y : Type μ} → Outcome F X → (X → Outcome F Y) → Outcome F Y
panic >>= next = panic
no_fuel >>= next = no_fuel
err failure >>= next = err failure
ok result >>= next = next result

abbrev pub or_panic {ℓ κ} : {E : Type ℓ} {A : Type κ} → Option A → Outcome E A
or_panic none = panic
or_panic (some a) = ok a

-- A failure wrapped in another error.
abbrev pub wrap_err {ℓ κ μ} :
    {E : Type ℓ} {F : Type κ} {A : Type μ} → (E → F) → Outcome E A → Outcome F A
wrap_err f (ok a) = ok a
wrap_err f (err e) = err (f e)
wrap_err f panic = panic
wrap_err f no_fuel = no_fuel

-- The run ends in a result with `P` or in one of the errors, never by a panic or a cut-off loop.
abbrev pub Meets {ℓ κ} : {E : Type ℓ} {A : Type κ} → (A → Type 0) → Outcome E A → Type 0
Meets P (ok a) = P a
Meets P (err e) = Unit
Meets P panic = ⊥
Meets P no_fuel = ⊥

pub bind-Meets {ℓ κ μ} :
    {E : Type ℓ} {A : Type κ} {B : Type μ} (P : A → Type 0) (Q : B → Type 0) (m : Outcome E A)
    (f : A → Outcome E B)
    → Meets P m
    → ((a : A) → P a → Meets Q (f a))
    → Meets Q (m >>= f)
bind-Meets P Q (ok a) f h k = k a h
bind-Meets P Q (err e) f h k = tt
bind-Meets P Q panic f h k = h
bind-Meets P Q no_fuel f h k = h

pub ok_injective {ℓ κ} :
    {E : Type ℓ} {A : Type κ} {a b : A} → ◌≡◌ {A = Outcome E A} (ok a) (ok b) → a ≡ b
ok_injective h = cc

-- A function that returned a value has had one from its first call.
pub >>=_inversion {ℓ κ μ} :
    {F : Type ℓ} {X : Type κ} {Y : Type μ} (call : Outcome F X) (next : X → Outcome F Y)
    {result : Y}
    → (call >>= next) ≡ ok result
    → (got : X) × (call ≡ ok got) × (next got ≡ ok result)
>>=_inversion panic next returned = cc
>>=_inversion no_fuel next returned = cc
>>=_inversion (err failure) next returned = cc
>>=_inversion (ok got) next returned = (got, refl, returned)

pub wrap_err_inversion {ℓ κ μ} :
    {E : Type ℓ} {F : Type κ} {A : Type μ} (f : E → F) (m : Outcome E A) {a : A}
    → wrap_err f m ≡ ok a
    → m ≡ ok a
wrap_err_inversion f (ok a) h = cc
wrap_err_inversion f (err e) h = cc
wrap_err_inversion f panic h = cc
wrap_err_inversion f no_fuel h = cc
