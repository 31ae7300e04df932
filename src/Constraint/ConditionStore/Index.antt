-- ===== src/Constraint/ConditionStore/Index.antt =====
-- The map of constraintmodul/ConditionStore.cpp holds exactly the active conditions that mention a
-- variable.
use alica_engine.Common.{
  ℕ, ◌+◌, ◌-◌, ◌≤◌, ◌≡◌, refl, inl, inr, Bool, true, false, not, List, [], ◌∷◌, ◌++◌, some,
  contains, occurrences, count-append, erase_if, keep, if◌then◌else◌, ◌==◌, arith, Bool-cases,
  eq_of_==, count_of_not_any, count_of_any, ltb,
}
use alica_engine.Constraint.ConditionStore.{
  Condition, VarConditions, ConditionStore, clear, push_var, push_all, push_quantifiers,
  add_condition, drop_var, drop_all, drop_quantifiers, remove_condition, conditions_of,
}

-- How often a condition mentions a variable, and how often the map holds it under the variable.
abbrev pub in_quantifiers : ℕ → List (List ℕ) → ℕ
in_quantifiers v [] = 0
in_quantifiers v (q ∷ qs) = occurrences v q + in_quantifiers v qs

abbrev pub mentions : ℕ → Condition → ℕ
mentions v con = occurrences v con.variables + in_quantifiers v con.quantifiers

abbrev pub held : ℕ → ℕ → List VarConditions → ℕ
held c v m = occurrences c (conditions_of v m)

held-push_var :
    (c v con w : ℕ) (m : List VarConditions)
    → held c v (push_var con w m) ≡ held c v m + (if w == v then if con == c then 1 else 0 else 0)
unfolding push_var conditions_of
held-push_var c v con w [] = ground arith
held-push_var c v con w (x ∷ xs) = elim (Bool-cases (x.variable == w)) [
  | inl same ↦
      rw (same, push_var) (ground (arith, count-append (λ y. y == c) x.conditions (con ∷ [])))
  | inr other ↦ rw (other, push_var) (ground (arith, held-push_var c v con w xs))
]

held-push_all :
    (c v con : ℕ) (vs : List ℕ) (m : List VarConditions)
    → held c v (push_all con vs m) ≡ held c v m + (if con == c then occurrences v vs else 0)
unfolding push_all
held-push_all c v con [] m = ground arith
held-push_all c v con (w ∷ vs) m =
    ground (arith, held-push_all c v con vs (push_var con w m), held-push_var c v con w m)

held-push_quantifiers :
    (c v con : ℕ) (qs : List (List ℕ)) (m : List VarConditions)
    → held c v (push_quantifiers con qs m)
      ≡ held c v m + (if con == c then in_quantifiers v qs else 0)
unfolding push_quantifiers
held-push_quantifiers c v con [] m = ground arith
held-push_quantifiers c v con (q ∷ qs) m =
    ground (arith, held-push_quantifiers c v con qs (push_all con q m), held-push_all c v con q m)

occurrences-keep :
    (c con : ℕ) (l : List ℕ)
    → occurrences c (keep (λ y. not (y == con)) l) ≡ (if con == c then 0 else occurrences c l)
occurrences-keep c con [] = ground arith
occurrences-keep c con (x ∷ l) = ground (arith, occurrences-keep c con l)

held-drop_var :
    (c v con w : ℕ) (m : List VarConditions)
    → held c v (drop_var con w m)
      ≡ (if w == v then if con == c then 0 else held c v m else held c v m)
unfolding drop_var conditions_of
held-drop_var c v con w [] = ground arith
held-drop_var c v con w (x ∷ xs) = elim (Bool-cases (x.variable == w)) [
  | inl same ↦ rw (same, drop_var) (ground (arith, occurrences-keep c con x.conditions))
  | inr other ↦ rw (other, drop_var) (ground (arith, held-drop_var c v con w xs))
]

held-drop_all :
    (c v con : ℕ) (vs : List ℕ) (m : List VarConditions)
    → held c v (drop_all con vs m)
      ≡ (if con == c then if ltb 0 (occurrences v vs) then 0 else held c v m else held c v m)
unfolding drop_all
held-drop_all c v con [] m = ground arith
held-drop_all c v con (w ∷ vs) m =
    ground (arith, held-drop_all c v con vs (drop_var con w m), held-drop_var c v con w m)

held-drop_quantifiers :
    (c v con : ℕ) (qs : List (List ℕ)) (m : List VarConditions)
    → held c v (drop_quantifiers con qs m)
      ≡ (if con == c then if ltb 0 (in_quantifiers v qs) then 0 else held c v m else held c v m)
unfolding drop_quantifiers
held-drop_quantifiers c v con [] m = ground arith
held-drop_quantifiers c v con (q ∷ qs) m =
    ground (arith, held-drop_quantifiers c v con qs (drop_all con q m), held-drop_all c v con q m)

-- The map of the store holds a condition under a variable as often as the condition mentions the
-- variable, if the condition is active, and not at all otherwise. No condition is active twice. Each
-- number `c` stands for the condition `known c`.
pub record IsIndexed (known : ℕ → Condition) (s : ConditionStore) : Type 0 where
  pub once : (c : ℕ) → occurrences c s.active_conditions ≤ 1
  pub index :
      (c v : ℕ)
      → held c v s.active_var2_cond_map
        ≡ (if ltb 0 (occurrences c s.active_conditions) then mentions v (known c) else 0)

pub clear-IsIndexed : (known : ℕ → Condition) (s : ConditionStore) → IsIndexed known (clear s)
unfolding clear conditions_of
clear-IsIndexed known s = record { once = λ c. omega arith; index = λ c v. refl }

occurrences-erase :
    (c k : ℕ) (l : List ℕ)
    → occurrences c (erase_if (λ y. y == k) l)
      ≡ (if k == c then occurrences c l - 1 else occurrences c l)
occurrences-erase c k [] = ground arith
occurrences-erase c k (x ∷ l) = elim (Bool-cases (x == k)) [
  | inl same ↦ rw same (ground arith)
  | inr other ↦ rw other (ground (arith, occurrences-erase c k l))
]

module _ (known : ℕ → Condition) (k : ℕ) (s : ConditionStore) where
  added-IsIndexed :
      contains k s.active_conditions ≡ false
      → IsIndexed known s
      → IsIndexed known (record {
        active_conditions = s.active_conditions ++ k ∷ [];
        active_var2_cond_map =
            push_quantifiers k
              (known k).quantifiers
              (push_all k (known k).variables s.active_var2_cond_map);
      })
  added-IsIndexed new h =
      let none_yet = count_of_not_any (λ x. x == k) s.active_conditions new in
      record {
        once = λ c.
            ground
              (arith, h.once c, count-append (λ x. x == c) s.active_conditions (k ∷ []), none_yet);
        index = λ c v. elim (Bool-cases (k == c)) [
          | inl same ↦ rw (← eq_of_== k c same) (
              ground (
                arith,
                h.index k v,
                none_yet,
                held-push_quantifiers k v k (known k).quantifiers
                    (push_all k (known k).variables s.active_var2_cond_map),
                held-push_all k v k (known k).variables s.active_var2_cond_map,
                count-append (λ x. x == k) s.active_conditions (k ∷ []),
              ))
          | inr other ↦ ground (
            arith,
            h.index c v,
            other,
            held-push_quantifiers c v k (known k).quantifiers
                (push_all k (known k).variables s.active_var2_cond_map),
            held-push_all c v k (known k).variables s.active_var2_cond_map,
            count-append (λ x. x == c) s.active_conditions (k ∷ []),
          )
        ];
      }

  removed-IsIndexed :
      contains k s.active_conditions ≡ true
      → IsIndexed known s
      → IsIndexed known (record {
        active_conditions = erase_if (λ c. c == k) s.active_conditions;
        active_var2_cond_map =
            drop_quantifiers k
              (known k).quantifiers
              (drop_all k (known k).variables s.active_var2_cond_map);
      })
  removed-IsIndexed active h =
      let some_ = count_of_any (λ x. x == k) s.active_conditions active in
      record {
        once = λ c. ground (arith, h.once c, occurrences-erase c k s.active_conditions);
        index = λ c v. elim (Bool-cases (k == c)) [
          | inl same ↦ rw (← eq_of_== k c same) (
              ground (
                arith,
                h.index k v,
                h.once k,
                some_,
                held-drop_quantifiers k v k (known k).quantifiers
                    (drop_all k (known k).variables s.active_var2_cond_map),
                held-drop_all k v k (known k).variables s.active_var2_cond_map,
                occurrences-erase k k s.active_conditions,
              ))
          | inr other ↦ ground (
            arith,
            h.index c v,
            other,
            held-drop_quantifiers c v k (known k).quantifiers
                (drop_all k (known k).variables s.active_var2_cond_map),
            held-drop_all c v k (known k).variables s.active_var2_cond_map,
            occurrences-erase c k s.active_conditions,
          )
        ];
      }

if_IsIndexed :
    (known : ℕ → Condition) (b : Bool) (s t : ConditionStore)
    → (b ≡ true → IsIndexed known s)
    → (b ≡ false → IsIndexed known t)
    → IsIndexed known (if b then s else t)
if_IsIndexed known true s t hs ht = hs refl
if_IsIndexed known false s t hs ht = ht refl

-- `addCondition` keeps the map an index of the active conditions.
pub add_condition-IsIndexed :
    (known : ℕ → Condition) (k : ℕ) (s : ConditionStore)
    → (known k).id ≡ k
    → IsIndexed known s
    → IsIndexed known (add_condition (some (known k)) s)
unfolding add_condition
add_condition-IsIndexed known k s named h = simp named (
    if_IsIndexed known _ _ _ (λ _. h)
      (λ _. if_IsIndexed known _ _ _ (λ _. h) (λ new. added-IsIndexed known k s new h)))

-- `removeCondition` keeps the map an index of the active conditions.
pub remove_condition-IsIndexed :
    (known : ℕ → Condition) (k : ℕ) (s : ConditionStore)
    → (known k).id ≡ k
    → IsIndexed known s
    → IsIndexed known (remove_condition (known k) s)
unfolding remove_condition
remove_condition-IsIndexed known k s named h =
    simp named (if_IsIndexed known _ _ _ (λ active. removed-IsIndexed known k s active h) (λ _. h))
