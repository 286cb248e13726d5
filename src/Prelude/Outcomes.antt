-- ===== src/Prelude/Outcomes.antt =====
-- A Go function's `(value, error)`: a value, or an error of the component's own type.
use mathlib.Core.Path.{◌≡◌, refl}
use mathlib.Core.Logic.{◌⊎◌, inl, inr}
use native.Mathlib.Omega.{arith}

pub data Result (E A : Type 0) : Type 0 where
  ok : A → Result E A
  err : E → Result E A

module _ {E A B : Type 0} where
  infixl 5 ◌>>=◌
  -- `if err != nil { return err }` and the rest of the function.
  abbrev pub ◌>>=◌ : Result E A → (A → Result E B) → Result E B
  err reason >>= rest = err reason
  ok value >>= rest = rest value

  pub >>=-ok :
      (first : Result E A) (rest : A → Result E B) {b : B}
      → (first >>= rest) ≡ ok b
      → (value : A) × (first ≡ ok value) × (rest value ≡ ok b)
  >>=-ok (err reason) rest e = cc
  >>=-ok (ok value) rest e = (value, refl, e)

  pub >>=-err :
      (first : Result E A) (rest : A → Result E B) {reason : E}
      → (first >>= rest) ≡ err reason
      → (first ≡ err reason) ⊎ ((value : A) × (first ≡ ok value) × (rest value ≡ err reason))
  >>=-err (err reason) rest e = inl (cc)
  >>=-err (ok value) rest e = inr (value, refl, e)

-- Wraps an error of a callee into one of the caller.
module _ {E F A : Type 0} where
  abbrev pub map_err : (E → F) → Result E A → Result F A
  map_err wrap (err reason) = err (wrap reason)
  map_err wrap (ok value) = ok value

  pub map_err-ok :
      (wrap : E → F) (result : Result E A) (value : A)
      → map_err wrap result ≡ ok value
      → result ≡ ok value
  map_err-ok wrap (err reason) value e = cc
  map_err-ok wrap (ok other) value e = ground arith
