-- ===== src/Prelude/UnorderedMap.antt =====
-- std::unordered_map<int, T> as an association list: what `operator[]`, `erase` and iteration do.
use Prim.Native.Nat.{ℕ}
use mathlib.Core.Path.{◌≡◌}
use mathlib.Core.List.{List, [], ◌∷◌}
use native.Mathlib.Omega.{arith}
use mathlib.Core.List.{map}
use mathlib.Core.Path.{ap}
use mathlib.Core.Bool.{Bool, true, false, ◌||◌}
use samurai_kirby_server.Prelude.Tests.{◌==◌, if◌then◌else◌}

unfoldable pub among : ℕ → List ℕ → Bool
among k [] = false
among k (j ∷ ks) = j == k || among k ks

module _ {ℓ} {V : Type ℓ} where
  -- The value that `m[k]` refers to, `d` being the default value that it inserts.
  unfoldable pub at : V → ℕ → List (ℕ × V) → V
  at d k [] = d
  at d k ((j, v) ∷ m) = if j == k then v else at d k m

  -- The map after `m[k]` has been given the value `f m[k]`.
  unfoldable pub update : V → ℕ → (V → V) → List (ℕ × V) → List (ℕ × V)
  update d k f [] = (k, f d) ∷ []
  update d k f ((j, v) ∷ m) = if j == k then (j, f v) ∷ m else (j, v) ∷ update d k f m

  unfoldable pub erase : ℕ → List (ℕ × V) → List (ℕ × V)
  erase k [] = []
  erase k ((j, v) ∷ m) = if j == k then erase k m else (j, v) ∷ erase k m

  pub at-update :
      (d : V) (k j : ℕ) (f : V → V) (m : List (ℕ × V))
      → at d j (update d k f m) ≡ (if k == j then f (at d k m) else at d j m)
  unfolding at update
  at-update d k j f [] = ground arith
  at-update d k j f ((i, v) ∷ m) = ground (arith, at-update d k j f m)

  -- The keys, in the order in which they are iterated.
  abbrev pub keys : List (ℕ × V) → List ℕ
  keys m = map (λ (entry : ℕ × V). entry.0) m

  abbrev pub has_key : ℕ → List (ℕ × V) → Bool
  has_key k m = among k (keys m)

  pub keys-update :
      (d : V) (k : ℕ) (f : V → V) (m : List (ℕ × V))
      → has_key k m ≡ true
      → keys (update d k f m) ≡ keys m
  unfolding update among
  keys-update d k f [] h = ground arith
  keys-update d k f ((j, v) ∷ m) h = ground (arith, keys-update d k f m)

  pub has_key-update :
      (d : V) (k j : ℕ) (f : V → V) (m : List (ℕ × V))
      → has_key j (update d k f m) ≡ (k == j || has_key j m)
  unfolding update among
  has_key-update d k j f [] = ground arith
  has_key-update d k j f ((i, v) ∷ m) = ground (arith, has_key-update d k j f m)

  -- Only what becomes of the value that is there matters.
  pub update-agree :
      (d : V) (k : ℕ) (f g : V → V) (m : List (ℕ × V))
      → f (at d k m) ≡ g (at d k m)
      → update d k f m ≡ update d k g m
  unfolding update at
  update-agree d k f g [] h = ap (λ v. (k, v) ∷ []) h
  update-agree d k f g ((j, v) ∷ m) h = ground (arith, update-agree d k f g m)
