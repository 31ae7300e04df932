-- ===== src/Model.antt =====
-- The part of the plan model that the engine reads at run time: model/EntryPoint.h, model/Plan.h,
-- model/State.h. Model elements are instantiated once for each id, so that an id stands for the
-- pointer.
use alica_engine.Common.{ℕ, Bool, ◌&&◌, List, ◌==◌, All, ◌≢◌, ◌∷◌, []}
use alica_engine.Common.Int.{ℤ, leb_ℤ}

-- `Interval<int>` of alica_solver_interface/Interval.h.
pub record Interval : Type 0 where
  pub lower : ℤ
  pub upper : ℤ

-- `Interval::contains`.
unfoldable pub contains : Interval → ℤ → Bool
contains i p = leb_ℤ i.lower p && leb_ℤ p i.upper

pub data StateType : Type 0 where
  normal success failure : StateType

pub record State : Type 0 where
  pub id : ℕ
  pub entry_point : ℕ  -- the index of the state's entry point in its plan
  pub state_type : StateType

pub record EntryPoint : Type 0 where
  pub id : ℕ
  pub index : ℕ
  pub state : ℕ  -- the initial state
  pub cardinality : Interval
  pub success_required : Bool
  pub plan : ℕ

pub record Plan : Type 0 where
  pub id : ℕ
  pub entry_points : List EntryPoint

-- Pointer equality of entry points.
abbrev pub is_entry_point : EntryPoint → EntryPoint → Bool
is_entry_point e x = e.id == x.id

-- No entry point stands twice in a plan.
abbrev pub Distinct : List EntryPoint → Type 0
Distinct [] = Unit
Distinct (x ∷ xs) = All (λ y. x.id ≢ y.id) xs × Distinct xs
