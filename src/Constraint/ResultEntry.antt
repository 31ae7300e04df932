-- ===== src/Constraint/ResultEntry.antt =====
-- constraintmodul/ResultEntry.cpp and collections/Variant.h: the values that one agent's solver
-- found for the variables. An unordered_map is a list of entries with one per variable.
pub mod Laws
use alica_engine.Common.{ℕ, ◌%◌, Bool, not, List, [], ◌∷◌, ◌++◌, if◌then◌else◌, ◌==◌}
use alica_engine.Common.Int.{ℤ, pos, ltb_ℤ}

-- `raw` holds the bytes of the union. A `type` is the number of its enumerator (TypeDouble is 0),
-- so that the cast of each byte is one.
pub record Variant : Type 0 where
  pub type : ℕ
  pub raw : List ℕ

abbrev pub type_none : ℕ
type_none = 6

-- `Variant()`; its union is not initialised, and is empty here.
abbrev pub unset : Variant
unset = record { type = type_none; raw = [] }

unfoldable pub is_set : Variant → Bool
is_set v = not (v.type == type_none)

unfoldable pub serialize_to : Variant → List ℕ
serialize_to v = v.type % 256 ∷ v.raw

-- An array is never empty, so the first clause is not reached.
unfoldable pub load_from : List ℕ → Variant
load_from [] = unset
load_from (b ∷ arr) = record { type = b; raw = arr }

pub record VarValue : Type 0 where
  pub val : Variant
  pub last_update : ℕ

pub record SolverVar : Type 0 where
  pub id : ℕ
  pub value : List ℕ

pub record ValueEntry : Type 0 where
  pub vid : ℕ
  pub var_value : VarValue

pub record ResultEntry : Type 0 where
  pub id : ℕ
  pub values : List ValueEntry

unfoldable pub put : ℕ → VarValue → List ValueEntry → List ValueEntry
put vid x [] = record { vid = vid; var_value = x } ∷ []
put vid x (e ∷ es) =
    let rest = put vid x es in if e.vid == vid then (record e { var_value = x }) ∷ es else e ∷ rest

unfoldable pub add_value : ℕ → Variant → ℕ → ResultEntry → ResultEntry
unfolding put
add_value vid val time r = record r {
  values = put vid (record { val = val; last_update = time }) r.values;
}

unfoldable pub clear : ResultEntry → ResultEntry
clear r = record r { values = [] }

-- `_lastUpdate > earliest`, where `earliest` can lie before the clock's origin.
unfoldable pub is_recent : ℕ → ℤ → Bool
is_recent t earliest = ltb_ℤ earliest (pos t)

unfoldable pub communicatable : ℤ → List ValueEntry → List SolverVar
unfolding is_recent serialize_to
communicatable earliest [] = []
communicatable earliest (e ∷ es) =
    let rest = communicatable earliest es in
    if is_recent e.var_value.last_update earliest
    then record { id = e.vid; value = serialize_to e.var_value.val } ∷ rest
    else rest

-- Appends to `o_result`.
unfoldable pub get_communicatable_results : ℤ → ResultEntry → List SolverVar → List SolverVar
unfolding communicatable
get_communicatable_results earliest r o_result = o_result ++ communicatable earliest r.values

unfoldable pub find_value : ℤ → ℕ → List ValueEntry → Variant
unfolding is_recent
find_value earliest vid [] = unset
find_value earliest vid (e ∷ es) =
    let rest = find_value earliest vid es in
    if e.vid == vid
    then if is_recent e.var_value.last_update earliest then e.var_value.val else unset
    else rest

unfoldable pub get_value : ℕ → ℤ → ResultEntry → Variant
unfolding find_value
get_value vid earliest r = find_value earliest vid r.values
