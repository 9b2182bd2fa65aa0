-- ===== src/Exec.antt =====
-- Statements that change an object and may throw, as in C++: state passing with a result, where
-- what was written before an exception stays written.
use samurai_kirby_server.Prelude.{Bool, true, false, ◌&&◌, ◌≡◌, refl, ap, ◌∙◌, Option, none, some}

pub data Exception : Type 0 where
  -- `value()` of an empty std::optional
  bad_optional_access : Exception
  -- std::bad_function_call, of a call of an empty std::function
  bad_function_call : Exception
  -- what C++ leaves undefined: a read past the end of a vector, or a call through a pointer to an
  -- object that was destroyed. No handler catches it, and nothing is said of what comes after.
  undefined_behaviour : Exception
  -- std::runtime_error, which the loop of the server catches
  runtime_error : Exception
  -- SerializeException, a nlohmann::json::exception
  serialize_exception : Exception

pub data Result (A : Type 0) : Type 0 where
  ok : A → Result A
  err : Exception → Result A

abbrev pub is_ok : {A : Type 0} → Result A → Bool
is_ok (ok a) = true
is_ok (err e) = false

abbrev pub Exec : Type 0 → Type 0 → Type 0
Exec S A = S → Result A × S

module _ {S : Type 0} where
  abbrev pub pure : {A : Type 0} → A → Exec S A
  pure a s = (ok a, s)

  abbrev pub throw : {A : Type 0} → Exception → Exec S A
  throw e s = (err e, s)

  abbrev pub continue : {A B : Type 0} → Result A → S → (A → Exec S B) → Result B × S
  continue (ok a) s f = f a s
  continue (err e) s f = (err e, s)

  infixl 5 ◌>>=◌ ◌>>◌
  abbrev pub ◌>>=◌ : {A B : Type 0} → Exec S A → (A → Exec S B) → Exec S B
  ◌>>=◌ m f s = continue (m s).0 (m s).1 f

  abbrev pub ◌>>◌ : {B : Type 0} → Exec S (Unit {0}) → Exec S B → Exec S B
  m >> k = m >>= λ _. k

  -- `value()` of an optional.
  abbrev pub value : {A : Type 0} → Option A → Exec S A
  value none = throw bad_optional_access
  value (some a) = pure a

  abbrev pub gets : {A : Type 0} → (S → A) → Exec S A
  gets f s = (ok (f s), s)

  -- A statement that returns, returns `true`.
  abbrev pub ended : Result (Unit {0}) × S → Result Bool × S
  ended o = continue o.0 o.1 (λ _. pure true)

  pub ended-and :
      (o : Result (Unit {0}) × S)
      → continue (ended o).0 (ended o).1 (λ (b : Bool). pure (true && b)) ≡ ended o
  ended-and (ok a, t) = refl
  ended-and (err x, t) = refl

  -- Two loops, one after the other, are both ended when two statements are.
  pub then-ended :
      (o : Result (Unit {0}) × S) (loop : Exec S Bool) (pass : Exec S (Unit {0}))
      → (o.0 ≡ ok tt → loop o.1 ≡ ended (pass o.1))
      → continue (ended o).0 (ended o).1 (λ b. loop >>= λ later. pure (b && later))
        ≡ ended (continue o.0 o.1 (λ _. pass))
  then-ended (ok a, t) loop pass same =
      ap (λ (o : Result Bool × S). continue o.0 o.1 (λ b. pure (true && b))) (same refl)
      ∙ ended-and (pass t)
  then-ended (err x, t) loop pass same = refl
