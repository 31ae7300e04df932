-- ===== src/Constraint/UniqueVarStore/Partition.antt =====
-- The unification lists partition the variables, and `addVarTo` merges one variable into a class.
use mathlib.Core.Bool.{false≢true}
use mathlib.Core.List.{append-nil, append_assoc}
use alica_engine.Common.{
  ap, sym, ◌∙◌, Option-cases, ℕ, ◌+◌, ◌≤◌, ◌<◌, ◌≡◌, refl, ◌≢◌, inl, inr, true, false, List, [],
  ◌∷◌, ◌++◌, none, some, any, contains, occurrences, All, if◌then◌else◌, arith, Bool-cases,
  count_of_any, count_of_not_any, length, ◌==◌,
}
use alica_engine.Constraint.UniqueVarStore.{
  Group, Store, add, add_checked, add_var_to, front, get_all_rep, group_of, get_rep,
}

-- How often a variable stands in the store.
abbrev pub total : ℕ → Store → ℕ
total v [] = 0
total v (g ∷ s) = occurrences v g + total v s

abbrev pub IsNonempty : Group → Type 0
IsNonempty [] = ⊥
IsNonempty (v ∷ g) = Unit

-- A variable stands in one list at most, and no list is empty.
pub record IsPartition (s : Store) : Type 0 where
  pub once : (v : ℕ) → total v s ≤ 1
  pub nonempty : All IsNonempty s

total-append : (v : ℕ) (s t : Store) → total v (s ++ t) ≡ total v s + total v t
total-append v [] t = omega arith
total-append v (g ∷ s) t = omega (arith, total-append v s t)

IsNonempty-append : (s t : Store) → All IsNonempty s → All IsNonempty t → All IsNonempty (s ++ t)
IsNonempty-append [] t hs ht = ht
IsNonempty-append (g ∷ s) t hs ht = (hs.0, IsNonempty-append s t hs.1 ht)

pub total_of_absent : (v : ℕ) (s : Store) → any (contains v) s ≡ false → total v s ≡ 0
total_of_absent v [] h = refl
total_of_absent v (g ∷ s) h = ground (arith, count_of_not_any (λ x. x == v) g, total_of_absent v s)

pub group_of_absent : (v : ℕ) (s : Store) → group_of v s ≡ none → total v s ≡ 0
group_of_absent v [] h = refl
group_of_absent v (g ∷ s) h = ground (arith, count_of_not_any (λ x. x == v) g, group_of_absent v s)

pub absent_of_total : (v : ℕ) (s : Store) → total v s ≡ 0 → group_of v s ≡ none
absent_of_total v [] h = refl
absent_of_total v (g ∷ s) h = ground (arith, count_of_any (λ x. x == v) g, absent_of_total v s)

add-IsPartition : (v : ℕ) (s : Store) → total v s ≡ 0 → IsPartition s → IsPartition (add v s)
unfolding add
add-IsPartition v s h p = record {
  once = λ u. ground (arith, total-append u s ((v ∷ []) ∷ []), p.once u);
  nonempty = IsNonempty-append s _ p.nonempty (tt, tt);
}

pub add_checked-IsPartition : (v : ℕ) (s : Store) → IsPartition s → IsPartition (add_checked v s)
unfolding add_checked
add_checked-IsPartition v s p = elim (Bool-cases (any (contains v) s)) [
  | inl e ↦ rw (e, add_checked) p
  | inr e ↦ rw (e, add_checked) (add-IsPartition v s (total_of_absent v s e) p)
]

add_var_to-absent :
    (r t : ℕ) (s : Store) → any (contains r) s ≡ false → add_var_to r t s ≡ s ++ (t ∷ r ∷ []) ∷ []
unfolding add_var_to
add_var_to-absent r t [] h = refl
add_var_to-absent r t (g ∷ s) h = ground (arith, add_var_to-absent r t s)

total-add_var_to :
    (v r t : ℕ) (s : Store)
    → any (contains r) s ≡ true
    → total v (add_var_to r t s) ≡ total v s + occurrences v (t ∷ [])
unfolding add_var_to
total-add_var_to v r t [] h = absurd (cc)
total-add_var_to v r t (g ∷ s) h = ground (arith, total-add_var_to v r t s)

IsNonempty-add_var_to : (r t : ℕ) (s : Store) → All IsNonempty s → All IsNonempty (add_var_to r t s)
unfolding add_var_to
IsNonempty-add_var_to r t [] h = (tt, tt)
IsNonempty-add_var_to r t (g ∷ s) h = elim (Bool-cases (contains r g)) [
  | inl e ↦ rw (e, add_var_to) (tt, h.1)
  | inr e ↦ rw (e, add_var_to) (h.0, IsNonempty-add_var_to r t s h.1)
]

-- Adding a new variable to the list of another keeps the lists a partition, also when that other
-- variable is not in the store yet.
pub add_var_to-IsPartition :
    (r t : ℕ) (s : Store) → IsPartition s → total t s ≡ 0 → t ≢ r → IsPartition (add_var_to r t s)
add_var_to-IsPartition r t s p new ne = record {
  once = λ v. elim (Bool-cases (any (contains r) s)) [
    | inl e ↦ ground (arith, total-add_var_to v r t s e, p.once v)
    | inr e ↦ ground (
      arith,
      add_var_to-absent r t s e,
      total-append v s ((t ∷ r ∷ []) ∷ []),
      p.once v,
      total_of_absent r s e,
    )
  ];
  nonempty = IsNonempty-add_var_to r t s p.nonempty;
}

-- The list of a variable, or the list that `addVarTo` starts for it.
abbrev pub class_of : ℕ → Store → Group
class_of r s = elim (group_of r s) [ some g ↦ g | none ↦ r ∷ [] ]

class_of_absent : (v r : ℕ) (s : Store) → total v s ≡ 0 → v ≢ r → contains v (class_of r s) ≡ false
class_of_absent v r [] h ne = ground arith
class_of_absent v r (g ∷ s) h ne = elim (Bool-cases (contains v g)) [
  | inl e ↦ absurd (omega (arith, count_of_any (λ x. x == v) g e))
  | inr e ↦ ground (arith, class_of_absent v r s)
]

group_of-add_var_to_of_once :
    (v r t : ℕ) (s : Store)
    → ((u : ℕ) → total u s ≤ 1)
    → total t s ≡ 0
    → group_of v (add_var_to r t s)
      ≡ (if contains v (t ∷ class_of r s) then some (t ∷ class_of r s) else group_of v s)
unfolding add_var_to
group_of-add_var_to_of_once v r t [] once new = refl
group_of-add_var_to_of_once v r t (g ∷ s) once new = elim (Bool-cases (contains r g)) [
  | inl e ↦ ground (arith)
  | inr e ↦ ground (
    arith,
    group_of-add_var_to_of_once v r t s (λ u. omega (arith, once u)),
    class_of_absent v r s,
    once v,
    count_of_any (λ x. x == v) g,
    count_of_not_any (λ x. x == r) g,
    count_of_not_any (λ x. x == t) g,
  )
]

-- `addVarTo` unifies the new variable with the whole list of the representing one, of which it
-- becomes the representative, and leaves the list of every other variable as it was.
pub group_of-add_var_to :
    (v r t : ℕ) (s : Store)
    → IsPartition s
    → total t s ≡ 0
    → group_of v (add_var_to r t s)
      ≡ (if contains v (t ∷ class_of r s) then some (t ∷ class_of r s) else group_of v s)
group_of-add_var_to v r t s p new = group_of-add_var_to_of_once v r t s p.once new

front_of_nonempty :
    (g : Group) → IsNonempty g → (v : ℕ) × (front g ≡ some v) × (contains v g ≡ true)
unfolding front
front_of_nonempty [] h = absurd h
front_of_nonempty (v ∷ g) h = (v, refl, ground arith)

group_of-contains : (v : ℕ) (s : Store) (g : Group) → group_of v s ≡ some g → contains v g ≡ true
group_of-contains v [] g h = absurd (cc)
group_of-contains v (x ∷ s) g h = ground (arith, group_of-contains v s g)

group_of_total :
    (v w : ℕ) (s : Store) (g : Group) → group_of v s ≡ some g → contains w g ≡ true → 0 < total w s
group_of_total v w [] g h c = absurd (cc)
group_of_total v w (x ∷ s) g h c =
    ground (arith, group_of_total v w s g, count_of_any (λ y. y == w) g)

group_of_member :
    (v w : ℕ) (s : Store) (g : Group)
    → ((u : ℕ) → total u s ≤ 1)
    → group_of v s ≡ some g
    → contains w g ≡ true
    → group_of w s ≡ some g
group_of_member v w [] g once h c = absurd (cc)
group_of_member v w (x ∷ s) g once h c = ground (
  arith,
  group_of_member v w s g (λ u. omega (arith, once u)),
  once w,
  group_of_total v w s g,
  count_of_any (λ y. y == w) x,
)

group_of-IsNonempty : (v : ℕ) (s : Store) (g : Group) → group_of v s ≡ some g → IsNonempty g
group_of-IsNonempty v s [] h = absurd (false≢true (group_of-contains v s [] h))
group_of-IsNonempty v s (x ∷ g) h = tt

group_of-add : (v : ℕ) (s : Store) → group_of v s ≡ none → group_of v (add v s) ≡ some (v ∷ [])
unfolding add
group_of-add v [] h = ground arith
group_of-add v (g ∷ s) h = ground (arith, group_of-add v s)

get_rep_new : (v : ℕ) (s : Store) → group_of v s ≡ none → get_rep v s ≡ (some v, add v s)
unfolding get_rep
get_rep_new v s e = rw (e, get_rep)

get_rep_old : (v : ℕ) (s : Store) (g : Group) → group_of v s ≡ some g → get_rep v s ≡ (front g, s)
unfolding get_rep
get_rep_old v s g e = rw (e, get_rep)

-- `getRep` answers with a variable of the same list, adds an unknown variable, keeps the
-- partition, and gives the same answer, with no further change, for that variable and when it is
-- asked again.
pub get_rep_stable :
    (v : ℕ) (s : Store)
    → IsPartition s
    → let (rep, s') = get_rep v s in
      IsPartition s'
      × ((w : ℕ) × (rep ≡ some w) × (group_of w s' ≡ group_of v s') × (get_rep w s' ≡ (rep, s')))
      × (get_rep v s' ≡ (rep, s'))
unfolding front
get_rep_stable v s p = elim (Option-cases (group_of v s)) [
  | inl e ↦
      let again = get_rep_old v (add v s) (v ∷ []) (group_of-add v s e) in
      rw (get_rep_new v s e)
        (add-IsPartition v s (group_of_absent v s e) p, (v, refl, refl, again), again)
  | inr (g, e) ↦
      let (w, head, member) = front_of_nonempty g (group_of-IsNonempty v s g e) in
      let found = group_of_member v w s g p.once e member in
      rw (get_rep_old v s g e)
        (p, (w, head, found ∙ sym e, get_rep_old w s g found), get_rep_old v s g e)
]

get_all_rep_lem :
    (s : Store) (o : List ℕ)
    → All IsNonempty s
    → (vs : List ℕ) × (get_all_rep s o ≡ some (o ++ vs)) × (length vs ≡ length s)
unfolding get_all_rep
get_all_rep_lem [] o h = ([], ground (arith, append-nil o), refl)
get_all_rep_lem (g ∷ s) o h =
    let (v, head, _) = front_of_nonempty g h.0 in
    let (vs, e, n) = get_all_rep_lem s (o ++ v ∷ []) h.1 in
    (v ∷ vs, rw (head, get_all_rep) (e ∙ ap some (append_assoc o (v ∷ []) vs)), omega arith)
