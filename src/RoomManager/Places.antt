-- ===== src/RoomManager/Places.antt =====
-- The first room that passes a test, and predicates on all rooms.
use mathlib.Core.Option.{some-injective}
use samurai_kirby_server.Prelude.{
  subst, All-append, subst, ◌≡◌, refl, ap, inl, inr, none, some, Bool, true, false, List, [], ◌∷◌,
  ◌++◌, All, Bool-cases, Option-cases, arith,
}
use samurai_kirby_server.Room.State.{Room}
use samurai_kirby_server.RoomManager.{Place, find_if}

abbrev pub rooms_of : Place → List Room
rooms_of p = p.before ++ p.room ∷ p.after

-- The place that `find_if` returns: the first room that passes.
pub record IsFirst (test : Room → Bool) (rooms : List Room) (p : Place) : Type 0 where
  pub split : rooms ≡ rooms_of p
  pub passes : test p.room ≡ true
  pub earlier : All (λ r. test r ≡ false) p.before

pub find_if-IsFirst :
    (test : Room → Bool) (rooms : List Room) (p : Place)
    → find_if test rooms ≡ some p
    → IsFirst test rooms p
unfolding find_if
find_if-IsFirst test [] p h = cc
find_if-IsFirst test (r ∷ rest) p h = elim (Bool-cases (test r)) [
  | inl e ↦
      subst (IsFirst test (r ∷ rest)) (some-injective _ _ (rw e at h))
        (record { split = refl; passes = e; earlier = tt })
  | inr e ↦ elim (Option-cases (find_if test rest)) [
    | inl n ↦ absurd (ground arith)
    | inr (q, f) ↦
        let i = find_if-IsFirst test rest q f in
        subst (IsFirst test (r ∷ rest)) (some-injective _ _ (rw (e, f) at h))
          (record { split = ap (◌∷◌ r) i.split; passes = i.passes; earlier = (e, i.earlier) })
  ]
]

pub find_if-none :
    (test : Room → Bool) (rooms : List Room)
    → find_if test rooms ≡ none
    → All (λ r. test r ≡ false) rooms
unfolding find_if
find_if-none test [] h = tt
find_if-none test (r ∷ rest) h = (ground arith, find_if-none test rest (ground arith))

module _ {ℓ} (P : Room → Type ℓ) where
  pub All-before : (xs ys : List Room) → All P (xs ++ ys) → All P xs
  All-before [] ys h = tt
  All-before (x ∷ xs) ys h = (h.0, All-before xs ys h.1)

  pub All-after : (xs ys : List Room) → All P (xs ++ ys) → All P ys
  All-after [] ys h = h
  All-after (x ∷ xs) ys h = All-after xs ys h.1

-- The rooms where the one at a place is another, or is gone.
module _ (P : Room → Type 0) (p : Place) (rooms : List Room) where
  pub All-replace :
      (r : Room) → rooms ≡ rooms_of p → All P rooms → P r → All P (p.before ++ r ∷ p.after)
  All-replace r e a h =
      let b = subst (All P) e a in
      All-append P p.before (r ∷ p.after) (All-before P p.before (p.room ∷ p.after) b)
        (h, (All-after P p.before (p.room ∷ p.after) b).1)

  pub All-drop : rooms ≡ rooms_of p → All P rooms → All P (p.before ++ p.after)
  All-drop e a =
      let b = subst (All P) e a in
      All-append P p.before p.after (All-before P p.before (p.room ∷ p.after) b)
        (All-after P p.before (p.room ∷ p.after) b).1

  pub All-found : rooms ≡ rooms_of p → All P rooms → P p.room
  All-found e a = (All-after P p.before (p.room ∷ p.after) (subst (All P) e a)).0
