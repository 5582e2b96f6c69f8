-- ===== src/Base/Outcome.antt =====
-- The outcome of a C function that returns `bool` and updates an object of type `S` in place.

-- `ok` is `return true` with the values of the out parameters, `failed` is `return false`.
-- `fault` is undefined behaviour, an access outside an object. `stuck` has no counterpart in the
-- program: a loop of the model was given too little fuel.
pub data Run (S E A : Type 0) : Type 0 where
  ok : A → S → Run S E A
  failed : E → S → Run S E A
  fault : Run S E A
  stuck : Run S E A

abbrev pub Cmd : Type 0 → Type 0 → Type 0 → Type 0
Cmd S E A = S → Run S E A

abbrev pub and_then : {S E A B : Type 0} → Run S E A → (A → Cmd S E B) → Run S E B
and_then (ok a s) k = k a s
and_then (failed e s) k = failed e s
and_then fault k = fault
and_then stuck k = stuck

infixl 5 ◌>>=◌ ◌>>◌
abbrev pub ◌>>=◌ : {S E A B : Type 0} → Cmd S E A → (A → Cmd S E B) → Cmd S E B
◌>>=◌ m k s = and_then (m s) k

abbrev pub ◌>>◌ : {S E A B : Type 0} → Cmd S E A → Cmd S E B → Cmd S E B
◌>>◌ m k s = and_then (m s) (λ _. k)

abbrev pub pure : {S E A : Type 0} → A → Cmd S E A
pure = ok

-- A function whose failure says more, called where that is not asked for.
abbrev pub forget : {S E A : Type 0} → Run S E A → Run S (Unit {0}) A
forget (ok a s) = ok a s
forget (failed e s) = failed tt s
forget fault = fault
forget stuck = stuck
