-- ===== src/Prelude/Exec.antt =====
-- Code that mutates state and may throw: what was written before a throw stays written.
use mathlib.Core.Path.{◌≡◌, ap}
use bank_managment_system.Prelude.Text.{Bytes}

-- The standard exceptions that the program throws, with their what().
pub data Exception : Type 0 where
  invalid_argument overflow_error underflow_error domain_error out_of_range : Bytes → Exception
  logic_error runtime_error : Bytes → Exception

abbrev pub what : Exception → Bytes
what (invalid_argument m) = m
what (overflow_error m) = m
what (underflow_error m) = m
what (domain_error m) = m
what (out_of_range m) = m
what (logic_error m) = m
what (runtime_error m) = m

-- A call returns or throws.
pub data Throws {ℓ} (A : Type ℓ) : Type ℓ where
  ok : A → Throws A
  throw : Exception → Throws A

abbrev pub Exec {ℓ κ} : Type ℓ → Type κ → Type (ℓ ⊔ κ)
Exec S A = S → Throws A × S

module _ {ℓ κ} {S : Type ℓ} {A : Type κ} where
  abbrev pub pure : A → Exec S A
  pure a s = (ok a, s)

  abbrev pub gets : (S → A) → Exec S A
  gets f s = (ok (f s), s)

  abbrev pub lift : Throws A → Exec S A
  lift r s = (r, s)

  abbrev pub recover : (Exception → Exec S A) → Throws A → S → Throws A × S
  recover handler (ok a) s = (ok a, s)
  recover handler (throw ex) s = handler ex s

  -- try { body } catch (const std::exception& ex) { handler }
  abbrev pub try_catch : Exec S A → (Exception → Exec S A) → Exec S A
  try_catch body handler s = let (r, s') = body s in recover handler r s'

  pub try-ok :
      (body : Exec S A) (handler : Exception → Exec S A) (s s' : S) (a : A)
      → body s ≡ (ok a, s')
      → try_catch body handler s ≡ (ok a, s')
  try-ok body handler s s' a e = ap (λ (r : Throws A × S). recover handler r.0 r.1) e

  pub try-throw :
      (body : Exec S A) (handler : Exception → Exec S A) (s s' : S) (ex : Exception)
      → body s ≡ (throw ex, s')
      → try_catch body handler s ≡ handler ex s'
  try-throw body handler s s' ex e = ap (λ (r : Throws A × S). recover handler r.0 r.1) e

module _ {ℓ κ μ} {S : Type ℓ} {A : Type κ} {B : Type μ} where
  abbrev pub continue : (A → Exec S B) → Throws A → S → Throws B × S
  continue f (ok a) s = f a s
  continue f (throw ex) s = (throw ex, s)

  infixl 5 ◌>>=◌ ◌>>◌
  abbrev pub ◌>>=◌ : Exec S A → (A → Exec S B) → Exec S B
  ◌>>=◌ m f s = let (r, s') = m s in continue f r s'

  abbrev pub ◌>>◌ : Exec S A → Exec S B → Exec S B
  ◌>>◌ m n s = let (r, s') = m s in continue (λ _. n) r s'

  pub bind-ok :
      (m : Exec S A) (f : A → Exec S B) (s s' : S) (a : A) → m s ≡ (ok a, s') → (m >>= f) s ≡ f a s'
  bind-ok m f s s' a e = ap (λ (r : Throws A × S). continue f r.0 r.1) e

  pub bind-throw :
      (m : Exec S A) (f : A → Exec S B) (s s' : S) (ex : Exception)
      → m s ≡ (throw ex, s')
      → (m >>= f) s ≡ (throw ex, s')
  bind-throw m f s s' ex e = ap (λ (r : Throws A × S). continue f r.0 r.1) e

  pub then-ok :
      (m : Exec S A) (n : Exec S B) (s s' : S) (a : A) → m s ≡ (ok a, s') → (m >> n) s ≡ n s'
  then-ok m n s s' a e = ap (λ (r : Throws A × S). continue (λ _. n) r.0 r.1) e

  pub then-throw :
      (m : Exec S A) (n : Exec S B) (s s' : S) (ex : Exception)
      → m s ≡ (throw ex, s')
      → (m >> n) s ≡ (throw ex, s')
  then-throw m n s s' ex e = ap (λ (r : Throws A × S). continue (λ _. n) r.0 r.1) e

abbrev pub modify {ℓ} : {S : Type ℓ} → (S → S) → Exec S (Unit {0})
modify f s = (ok tt, f s)
