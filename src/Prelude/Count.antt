-- ===== src/Prelude/Count.antt =====
-- How often a number stands in a list, and lists that differ in order only, by a test.
use Prim.Native.Nat.{ℕ, ◌+◌}
use mathlib.Core.Path.{◌≡◌, refl}
use mathlib.Core.Bool.{Bool, true, false}
use mathlib.Core.List.{List, [], ◌∷◌, ◌++◌}
use native.Mathlib.Omega.{arith}
use mochivm.Prelude.Tests.{◌==◌, if◌then◌else◌, Bool-cases, ==-eq}
use mathlib.Core.Logic.{inl, inr}

abbrev pub count : ℕ → List ℕ → ℕ
count x [] = 0
count x (y ∷ ys) = let n = count x ys in if x == y then 1 + n else n

-- `xs` pushed on `ys` one after the other: the last one comes first.
abbrev pub pushed : (xs ys : List ℕ) → List ℕ
pushed [] ys = ys
pushed (x ∷ xs) ys = pushed xs (x ∷ ys)

pub pushed-append : (us bs cs : List ℕ) → pushed (us ++ bs) cs ≡ pushed bs (pushed us cs)
pushed-append [] bs cs = refl
pushed-append (a ∷ us) bs cs = pushed-append us bs (a ∷ cs)

pub count-pushed : (x : ℕ) (xs ys : List ℕ) → count x (pushed xs ys) ≡ count x xs + count x ys
count-pushed x [] ys = omega arith
count-pushed x (z ∷ xs) ys = ground (arith, count-pushed x xs (z ∷ ys))

-- The list without the first `x`, which it is said to hold.
abbrev pub without : ℕ → List ℕ → List ℕ
without x [] = []
without x (y ∷ ys) = let rest = y ∷ without x ys in if x == y then ys else rest

abbrev pub holds : ℕ → List ℕ → Bool
holds x [] = false
holds x (y ∷ ys) = let rest = holds x ys in if x == y then true else rest

abbrev pub reordered : (xs ys : List ℕ) → Bool
reordered [] [] = true
reordered [] (y ∷ ys) = false
reordered (x ∷ xs) ys = let rest = reordered xs (without x ys) in if holds x ys then rest else false

count-without :
    (z x : ℕ) (ys : List ℕ) → holds x ys ≡ true → count z ys ≡ count z (x ∷ without x ys)
count-without z x [] h = cc
count-without z x (y ∷ ys) h = elim (Bool-cases (x == y)) [
  | inl e ↦ rw e (let same = ==-eq x y e in ground arith)
  | inr ne ↦ ground (arith, count-without z x ys)
]

pub count-reordered : (z : ℕ) (xs ys : List ℕ) → reordered xs ys ≡ true → count z xs ≡ count z ys
count-reordered z [] [] h = refl
count-reordered z [] (y ∷ ys) h = cc
count-reordered z (x ∷ xs) ys h =
    ground (arith, count-without z x ys, count-reordered z xs (without x ys))

abbrev pub distinct : List ℕ → Bool
distinct [] = true
distinct (x ∷ xs) = let rest = distinct xs in if holds x xs then false else rest

count_absent : (z : ℕ) (xs : List ℕ) → holds z xs ≡ false → count z xs ≡ 0
count_absent z [] h = refl
count_absent z (x ∷ xs) h = ground (arith, count_absent z xs)

pub count-distinct :
    (z : ℕ) (xs : List ℕ) → distinct xs ≡ true → count z xs ≡ (if holds z xs then 1 else 0)
count-distinct z [] h = refl
count-distinct z (x ∷ xs) h = elim (Bool-cases (z == x)) [
  | inl e ↦
      let same = ==-eq z x e in
      rw e (let none : count z xs ≡ 0 = count_absent z xs (ground arith) in omega arith)
  | inr ne ↦ rw ne (ground (arith, count-distinct z xs))
]
