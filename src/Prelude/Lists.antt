-- ===== src/Prelude/Lists.antt =====
-- Lists measured by native numbers, and predicates on all the members of a list.
use Prim.Native.Nat.{ℕ, suc}
use mathlib.Core.List.{List, [], ◌∷◌, ◌++◌}

module _ {ℓ} {A : Type ℓ} where
  abbrev pub length : List A → ℕ
  length [] = 0
  length (x ∷ xs) = suc (length xs)

  -- The list without its first element: std::queue::pop.
  abbrev pub pop : List A → List A
  pop [] = []
  pop (x ∷ xs) = xs

  abbrev pub All {κ} : (A → Type κ) → List A → Type κ
  All P [] = Unit
  All P (x ∷ xs) = P x × All P xs

  pub All-append {κ} : (P : A → Type κ) (xs ys : List A) → All P xs → All P ys → All P (xs ++ ys)
  All-append P [] ys hx hy = hy
  All-append P (x ∷ xs) ys hx hy = (hx.0, All-append P xs ys hx.1 hy)

  pub All-map {κ μ} :
      (P : A → Type κ) (Q : A → Type μ) (xs : List A) → ((x : A) → P x → Q x) → All P xs → All Q xs
  All-map P Q [] f h = tt
  All-map P Q (x ∷ xs) f (here, h) = (f x here, All-map P Q xs f h)

  pub All-zip {κ μ} :
      (P : A → Type κ) (Q : A → Type μ) (xs : List A)
      → All P xs
      → All Q xs
      → All (λ x. P x × Q x) xs
  All-zip P Q [] h k = tt
  All-zip P Q (x ∷ xs) (a, h) (b, k) = ((a, b), All-zip P Q xs h k)

  pub All-last {κ} : (P : A → Type κ) (xs : List A) (y : A) → All P (xs ++ y ∷ []) → P y
  All-last P [] y h = h.0
  All-last P (x ∷ xs) y h = All-last P xs y h.1
