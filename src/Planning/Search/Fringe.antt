-- ===== src/Planning/Search/Fringe.antt =====
-- The fringe of planselector/TaskAssignmentProblem.cpp as a list sorted by the upper utility bound.
use alica_engine.Common.{
  suc, ◌≡◌, refl, ◌⊎◌, inl, inr, true, false, List, [], ◌∷◌, none, some, length, All, Has, arith,
  Bool-cases,
}
use alica_engine.Common.Int.{◌≤ℤ◌}
use alica_engine.Planning.PartialAssignment.{PartialAssignment, compare}
use alica_engine.Planning.Search.{insert, pop_back}

-- The first one has no greater upper bound than the second one.
abbrev pub Below : PartialAssignment → PartialAssignment → Type 0
Below p q = p.utility.upper ≤ℤ q.utility.upper

abbrev pub Sorted : List PartialAssignment → Type 0
Sorted [] = Unit
Sorted (x ∷ xs) = All (Below x) xs × Sorted xs

compare-true : (x y : PartialAssignment) → compare x y ≡ true → Below x y
unfolding compare
compare-true x y h = ground arith

compare-false : (x y : PartialAssignment) → compare x y ≡ false → Below y x
unfolding compare
compare-false x y h = ground arith

pub All-map :
    {P Q : PartialAssignment → Type 0} (xs : List PartialAssignment)
    → ((x : PartialAssignment) → P x → Q x)
    → All P xs
    → All Q xs
All-map [] f h = tt
All-map (x ∷ xs) f h = (f x h.0, All-map xs f h.1)

pub All-insert :
    (P : PartialAssignment → Type 0) (x : PartialAssignment) (ys : List PartialAssignment)
    → P x
    → All P ys
    → All P (insert x ys)
unfolding insert
All-insert P x [] p h = (p, tt)
All-insert P x (y ∷ ys) p h = elim (Bool-cases (compare x y)) [
  | inl e ↦ rw (e, insert) (p, h)
  | inr e ↦ rw (e, insert) (h.0, All-insert P x ys p h.1)
]

pub insert-Sorted :
    (x : PartialAssignment) (ys : List PartialAssignment) → Sorted ys → Sorted (insert x ys)
unfolding insert
insert-Sorted x [] h = (tt, tt)
insert-Sorted x (y ∷ ys) h = elim (Bool-cases (compare x y)) [
  | inl e ↦
      let le = compare-true x y e in
      rw (e, insert) ((le, All-map ys (λ z m. omega (arith, le)) h.0), h)
  | inr e ↦
      rw (e, insert) (All-insert (Below y) x ys (compare-false x y e) h.0, insert-Sorted x ys h.1)
]

pub Has-insert_new :
    (P : PartialAssignment → Type 0) (x : PartialAssignment) (ys : List PartialAssignment)
    → P x
    → Has P (insert x ys)
unfolding insert
Has-insert_new P x [] p = inl p
Has-insert_new P x (y ∷ ys) p = elim (Bool-cases (compare x y)) [
  | inl e ↦ rw (e, insert) (inl p)
  | inr e ↦ rw (e, insert) (inr (Has-insert_new P x ys p))
]

pub Has-insert_old :
    (P : PartialAssignment → Type 0) (x : PartialAssignment) (ys : List PartialAssignment)
    → Has P ys
    → Has P (insert x ys)
unfolding insert
Has-insert_old P x [] h = absurd h
Has-insert_old P x (y ∷ ys) (inl p) = elim (Bool-cases (compare x y)) [
  | inl e ↦ rw (e, insert) (inr (inl p))
  | inr e ↦ rw (e, insert) (inl p)
]
Has-insert_old P x (y ∷ ys) (inr m) = elim (Bool-cases (compare x y)) [
  | inl e ↦ rw (e, insert) (inr (inr m))
  | inr e ↦ rw (e, insert) (inr (Has-insert_old P x ys m))
]

pub length-insert :
    (x : PartialAssignment) (ys : List PartialAssignment) → length (insert x ys) ≡ suc (length ys)
unfolding insert
length-insert x [] = refl
length-insert x (y ∷ ys) = ground (arith, length-insert x ys)

-- What `pop_back` splits a list into.
pub record Pops (xs rest : List PartialAssignment) (p : PartialAssignment) : Type 1 where
  pub shorter : length xs ≡ suc (length rest)
  pub all : (P : PartialAssignment → Type 0) → All P xs → All P rest × P p
  pub has : (P : PartialAssignment → Type 0) → Has P xs → P p ⊎ Has P rest
  pub sorted : Sorted xs → Sorted rest × All (λ x. Below x p) rest

-- Either the list is empty, or `pop_back` splits it.
abbrev pub Popped : List PartialAssignment → Type 1
Popped xs =
    ((pop_back xs ≡ none) × (xs ≡ []))
    ⊎ ((rest : List PartialAssignment) × (p : PartialAssignment) × (pop_back xs ≡ some (rest, p))
        × Pops xs rest p)

pub pop_back-cases : (xs : List PartialAssignment) → Popped xs
unfolding pop_back
pop_back-cases [] = inl (refl, refl)
pop_back-cases (x ∷ xs) = elim (pop_back-cases xs) [
  | inl (e, empty) ↦ inr (
    [],
    x,
    rw (e, pop_back) refl,
    rw empty
        (record { shorter = refl; all = λ P h. (tt, h.0); has = λ P h. h; sorted = λ h. (tt, tt) }),
  )
  | inr (rest, p, e, pops) ↦ inr (
    x ∷ rest,
    p,
    rw (e, pop_back) refl,
    record {
      shorter = omega (arith, pops.shorter);
      all = λ P h. let (r, l) = pops.all P h.1 in ((h.0, r), l);
      has = λ P h. elim h [
        | inl here ↦ inr (inl here)
        | inr later ↦ elim (pops.has P later) [ inl l ↦ inl l | inr r ↦ inr (inr r) ]
      ];
      sorted = λ h.
          let (r, l) = pops.all (Below x) h.0 in
          let (s, below) = pops.sorted h.1 in ((r, s), (l, below));
    },
  )
]
