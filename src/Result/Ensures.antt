-- ===== src/Result/Ensures.antt =====
-- Total correctness: the call returns a value, and the value has the property.
use regatta.Prelude.{◌≡◌, arith}
use regatta.Result.{Result, ok, err, panic, ◌>>=◌}

-- The empty type, at every level.
pub data Impossible {κ} : Type κ where

pub absurd_of {κ ℓ} : {A : Type ℓ} → Impossible {κ} → A
absurd_of h = elim h [ ]

abbrev pub Ensures {ℓ κ} : {A : Type ℓ} → (A → Type κ) → Result A → Type κ
Ensures P (ok a) = P a
Ensures P (err e) = Impossible
Ensures P panic = Impossible

pub Ensures-bind {ℓ ℓ' κ κ'} :
    {A : Type ℓ} {B : Type ℓ'} (P : A → Type κ) (Q : B → Type κ') (m : Result A) (f : A → Result B)
    → Ensures P m
    → ((a : A) → P a → Ensures Q (f a))
    → Ensures Q (m >>= f)
Ensures-bind P Q (ok a) f h k = k a h
Ensures-bind P Q (err e) f h k = absurd_of h
Ensures-bind P Q panic f h k = absurd_of h

-- What a call ensures is had by the value that it returned.
pub Ensures-value {ℓ κ} :
    {A : Type ℓ} (P : A → Type κ) {m : Result A} {a : A} → Ensures P m → m ≡ ok a → P a
Ensures-value P {m = ok b} h e = ground arith
Ensures-value P {m = err x} h e = absurd_of h
Ensures-value P {m = panic} h e = absurd_of h

pub Ensures-map {ℓ κ κ'} :
    {A : Type ℓ} (P : A → Type κ) (Q : A → Type κ') (m : Result A)
    → ((a : A) → P a → Q a)
    → Ensures P m
    → Ensures Q m
Ensures-map P Q (ok a) f h = f a h
Ensures-map P Q (err e) f h = absurd_of h
Ensures-map P Q panic f h = absurd_of h
