-- ===== src/Planning/Search/Expand.antt =====
-- What `expand` of planselector/PartialAssignment.cpp does to the fringe and to the pool.
use alica_engine.Common.{
  ℕ, zero, suc, ◌+◌, ◌-◌, ◌≤◌, ◌≡◌, refl, ◌⊎◌, inl, inr, true, List, [], ◌∷◌, Option, none, some,
  length, get_elem?, All, leb, arith, Bool-cases, Option-cases,
}
use mathlib.Core.Path.{subst}
use alica_engine.Common.Int.{pos, ltb_ℤ}
use alica_engine.Model.{Interval}
use alica_engine.Planning.PartialAssignment.{PartialAssignment}
use alica_engine.Planning.Search.{
  Pool, get_next, insert, Expansion, is_worth, child, try_child, expand_loop,
}
use alica_engine.Planning.Search.Fringe.{
  Sorted, All-insert, insert-Sorted, Has-insert_new, Has-insert_old, length-insert,
}
use alica_engine.Common.{Has}

-- The property holds of the expansion, if there is one.
abbrev pub OnSome : (Expansion → Type 0) → Option Expansion → Type 0
OnSome Q none = Unit
OnSome Q (some e) = Q e

pub OnSome-and :
    (P Q : Expansion → Type 0) (o : Option Expansion)
    → OnSome P o
    → OnSome Q o
    → OnSome (λ e. P e × Q e) o
OnSome-and P Q none p q = tt
OnSome-and P Q (some e) p q = (p, q)

-- The fringe and the free places of the pool.
abbrev pub measure : List PartialAssignment → Pool → ℕ
measure fringe pool = length fringe + (pool.size - pool.cur_index)

get_next-cases :
    (pool : Pool)
    → (get_next pool ≡ none)
      ⊎ ((next : Pool) × (get_next pool ≡ some next)
          × (suc (next.size - next.cur_index) ≡ pool.size - pool.cur_index))
unfolding get_next
get_next-cases pool = elim (Bool-cases (leb pool.size (pool.cur_index + 1))) [
  | inl e ↦ inl (rw e refl)
  | inr e ↦ inr (record pool { cur_index = pool.cur_index + 1 }, simp e refl, ground arith)
]

module _ (eval : PartialAssignment → Interval) (pa : PartialAssignment) where
  -- The case principle of the loop's body.
  try_child-cases :
      (Q : Expansion → Type 0) (i : ℕ) (dc : Interval) (e : Expansion)
      → Q e
      → ((next : Pool)
          → suc (next.size - next.cur_index) ≡ e.pool.size - e.pool.cur_index
          → is_worth (child eval pa i) ≡ true
          → Q (record {
            container = insert (child eval pa i) e.container;
            pool = next;
            change = true;
          }))
      → ((next : Pool)
          → suc (next.size - next.cur_index) ≡ e.pool.size - e.pool.cur_index
          → Q (record e { pool = next }))
      → OnSome Q (try_child eval pa i dc e)
  unfolding try_child
  try_child-cases Q i dc e same adds takes = elim (Bool-cases (ltb_ℤ (pos 0) dc.upper)) [
    | inr full ↦ rw full same
    | inl room ↦ elim (get_next-cases e.pool) [
      | inl out ↦ rw (room, out) tt
      | inr (next, some_, less) ↦ elim (Bool-cases (is_worth (child eval pa i))) [
        | inl worth ↦ rw (room, some_, worth) (adds next less worth)
        | inr not_worth ↦ rw (room, some_, not_worth) (takes next less)
      ]
    ]
  ]

  -- The loop keeps what its body keeps.
  expand_loop-keeps :
      (Q : Expansion → Type 0)
      → ((i : ℕ) (dc : Interval) (e : Expansion) → Q e → OnSome Q (try_child eval pa i dc e))
      → (i : ℕ) (dcs : List Interval) (e : Expansion) → Q e
      → OnSome Q (expand_loop eval pa i dcs e)
  unfolding expand_loop
  expand_loop-keeps Q keeps i [] e q = q
  expand_loop-keeps Q keeps i (dc ∷ dcs) e q = elim (Option-cases (try_child eval pa i dc e)) [
    | inl out ↦ rw (out, expand_loop) tt
    | inr (e', on) ↦
        rw (on, expand_loop)
          (expand_loop-keeps Q keeps (suc i) dcs e' (subst (OnSome Q) on (keeps i dc e q)))
  ]

  pub loop-Sorted :
      (i : ℕ) (dcs : List Interval) (e : Expansion)
      → Sorted e.container
      → OnSome (λ e'. Sorted e'.container) (expand_loop eval pa i dcs e)
  loop-Sorted =
      expand_loop-keeps (λ e'. Sorted e'.container)
        (λ i dc e h.
          try_child-cases (λ e'. Sorted e'.container) i dc e h
            (λ next less worth. insert-Sorted (child eval pa i) e.container h) (λ next less. h))

  pub loop-All :
      (P : PartialAssignment → Type 0)
      → ((i : ℕ) → P (child eval pa i))
      → (i : ℕ) (dcs : List Interval) (e : Expansion) → All P e.container
      → OnSome (λ e'. All P e'.container) (expand_loop eval pa i dcs e)
  loop-All P each =
      expand_loop-keeps (λ e'. All P e'.container)
        (λ i dc e h.
          try_child-cases (λ e'. All P e'.container) i dc e h
            (λ next less worth. All-insert P (child eval pa i) e.container (each i) h)
            (λ next less. h))

  pub loop-Has :
      (P : PartialAssignment → Type 0) (i : ℕ) (dcs : List Interval) (e : Expansion)
      → Has P e.container
      → OnSome (λ e'. Has P e'.container) (expand_loop eval pa i dcs e)
  loop-Has P =
      expand_loop-keeps (λ e'. Has P e'.container)
        (λ i dc e h.
          try_child-cases (λ e'. Has P e'.container) i dc e h
            (λ next less worth. Has-insert_old P (child eval pa i) e.container h) (λ next less. h))

  pub loop-measure :
      (m i : ℕ) (dcs : List Interval) (e : Expansion)
      → measure e.container e.pool ≤ m
      → OnSome (λ e'. measure e'.container e'.pool ≤ m) (expand_loop eval pa i dcs e)
  loop-measure m =
      expand_loop-keeps (λ e'. measure e'.container e'.pool ≤ m)
        (λ i dc e h.
          try_child-cases (λ e'. measure e'.container e'.pool ≤ m) i dc e h
            (λ next less worth. omega (arith, length-insert (child eval pa i) e.container))
            (λ next less. omega arith))

  try_child-adds :
      (P : PartialAssignment → Type 0) (i : ℕ) (dc : Interval) (e : Expansion)
      → ltb_ℤ (pos 0) dc.upper ≡ true
      → is_worth (child eval pa i) ≡ true
      → P (child eval pa i)
      → OnSome (λ e'. Has P e'.container) (try_child eval pa i dc e)
  unfolding try_child
  try_child-adds P i dc e room worth p = elim (get_next-cases e.pool) [
    | inl out ↦ rw (room, out) tt
    | inr (next, some_, less) ↦
        rw (room, some_, worth) (Has-insert_new P (child eval pa i) e.container p)
  ]

  -- A child that there is room for, and that is worth it, gets into the fringe.
  pub loop-adds :
      (P : PartialAssignment → Type 0) (j i : ℕ) (dcs : List Interval) (dc : Interval)
      (e : Expansion)
      → get_elem? dcs j ≡ some dc
      → ltb_ℤ (pos 0) dc.upper ≡ true
      → is_worth (child eval pa (i + j)) ≡ true
      → P (child eval pa (i + j))
      → OnSome (λ e'. Has P e'.container) (expand_loop eval pa i dcs e)
  unfolding expand_loop
  loop-adds P j i [] dc e at room worth p = absurd (cc)
  loop-adds P zero i (c ∷ dcs) dc e at room worth p =
      elim (Option-cases (try_child eval pa i c e)) [
        | inl out ↦ rw (out, expand_loop) tt
        | inr (e', on) ↦
            let k : i + 0 ≡ i = omega arith in
            let c' : c ≡ dc = cc in
            rw (on, expand_loop)
              (loop-Has P (suc i) dcs e' (
                subst (OnSome (λ e'. Has P e'.container)) on (
                  try_child-adds P i c e (rw c' room)
                    (subst (λ (n : ℕ). is_worth (child eval pa n) ≡ true) k worth)
                    (subst (λ (n : ℕ). P (child eval pa n)) k p))))
      ]
  loop-adds P (suc j) i (c ∷ dcs) dc e at room worth p =
      elim (Option-cases (try_child eval pa i c e)) [
        | inl out ↦ rw (out, expand_loop) tt
        | inr (e', on) ↦
            let k : i + suc j ≡ suc i + j = omega arith in
            rw (on, expand_loop)
              (loop-adds P j (suc i) dcs dc e' at room
                (subst (λ (n : ℕ). is_worth (child eval pa n) ≡ true) k worth)
                (subst (λ (n : ℕ). P (child eval pa n)) k p))
      ]
