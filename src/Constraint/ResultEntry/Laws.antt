-- ===== src/Constraint/ResultEntry/Laws.antt =====
-- Insertion, lookup and exchange of the values in constraintmodul/ResultEntry.cpp.
use alica_engine.Common.{
  ℕ, ◌%◌, ◌<◌, Bool, List, [], ◌∷◌, if◌then◌else◌, ◌==◌, ◌≡◌, refl, ap, arith,
}
use alica_engine.Common.Int.{ℤ}
use alica_engine.Constraint.ResultEntry.{
  Variant, unset, VarValue, ValueEntry, ResultEntry, put, add_value, is_recent, find_value,
  get_value, serialize_to, load_from,
}

abbrev pub has_vid : ℕ → ValueEntry → Bool
has_vid vid e = e.vid == vid

-- What a value tells a reader who wants nothing older than `earliest`.
abbrev pub seen : ℤ → VarValue → Variant
seen earliest x = if is_recent x.last_update earliest then x.val else unset

pub find_value-put :
    (earliest : ℤ) (w v : ℕ) (x : VarValue) (es : List ValueEntry)
    → find_value earliest w (put v x es)
      ≡ (if v == w then seen earliest x else find_value earliest w es)
unfolding find_value put
find_value-put earliest w v x [] = refl
find_value-put earliest w v x (e ∷ es) =
    let ih : find_value earliest w (put v x es)
        ≡ (if v == w then seen earliest x else find_value earliest w es) =
      find_value-put earliest w v x es in
    ground arith

-- Reading after writing: the value that `addValue` stores is the one `getValue` returns for its
-- variable, unless it is too old for the reader, and every other variable reads as before.
pub get_value-add_value :
    (earliest : ℤ) (w v : ℕ) (x : Variant) (t : ℕ) (r : ResultEntry)
    → get_value w earliest (add_value v x t r) ≡ (
        if v == w
        then seen earliest (record { val = x; last_update = t })
        else get_value w earliest r)
unfolding get_value add_value
get_value-add_value earliest w v x t r =
    find_value-put earliest w v (record { val = x; last_update = t }) r.values

abbrev variant_of : List ℕ → ℕ → Variant
variant_of raw type = record { type = type; raw = raw }

small : (n : ℕ) → n < 256 → n % 256 ≡ n
small n h = omega arith

pub load_from-serialize_to : (v : Variant) → v.type < 256 → load_from (serialize_to v) ≡ v
unfolding load_from serialize_to
load_from-serialize_to v h = ap (variant_of v.raw) (small v.type h)
