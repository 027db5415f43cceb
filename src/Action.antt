-- ===== src/Action.antt =====
-- Code with a state and a result: the state stays as it was left where an error ends the code.
pub mod Success
use regatta.Result.{Result, ok, err, panic}

abbrev pub Action : Type 0 → Type 0 → Type 0
Action S A = S → S × Result A

-- What follows a result, if it is no error.
abbrev pub next : {S A B : Type 0} → (A → Action S B) → S × Result A → S × Result B
next k (s, ok a) = k a s
next k (s, err e) = (s, err e)
next k (s, panic) = (s, panic)

infixl 5 ◌>>=◌ ◌>>◌
abbrev pub ◌>>=◌ : {S A B : Type 0} → Action S A → (A → Action S B) → Action S B
(m >>= k) s = next k (m s)

abbrev pub ◌>>◌ : {S B : Type 0} → Action S (Unit {0}) → Action S B → Action S B
m >> k = m >>= λ _. k

-- A result that leaves the state.
abbrev pub lift : {S A : Type 0} → Result A → Action S A
lift r s = (s, r)

-- An error that the code goes on with.
abbrev pub try : {S A : Type 0} → Action S A → Action S (Result A)
try m s = let (s', r) = m s in (s', ok r)
