-- ===== src/Collections/SuccessMarks/Tests.antt =====
-- Marks of two plans, sent and read again.
use alica_engine.Common.{
  ℕ, ◌≡◌, refl, false, [], ◌∷◌, Option, none, some, if◌then◌else◌, ◌==◌, arith,
}
use alica_engine.Common.Int.{pos}
use alica_engine.Model.{EntryPoint}
use alica_engine.Collections.SuccessMarks.{SuccessMarks, update, succeeded, to_id_grp}
use alica_engine.Collections.SuccessMarks.Message.{IsWellFormed, update-to_id_grp}

abbrev entry_point : ℕ → ℕ → EntryPoint
entry_point p i = record {
  id = i;
  index = 0;
  state = 100;
  cardinality = record { lower = pos 0; upper = pos 3 };
  success_required = false;
  plan = p;
}

-- The repository knows the entry points 7 of plan 1 and 8 of plan 2.
abbrev find : ℕ → Option EntryPoint
find id =
    if id == 7 then some (entry_point 1 7) else if id == 8 then some (entry_point 2 8) else none

abbrev marks : SuccessMarks
marks =
    record { plan = 1; entry_points = entry_point 1 7 ∷ [] }
    ∷ record { plan = 2; entry_points = entry_point 2 8 ∷ [] }
    ∷ []

marks-IsWellFormed : IsWellFormed find marks
marks-IsWellFormed = (((refl, refl), tt), (omega arith, tt), (((refl, refl), tt), tt, tt))

update-to_id_grp_example :
    succeeded 2 (entry_point 2 8) (update find (to_id_grp marks))
    ≡ succeeded 2 (entry_point 2 8) marks
update-to_id_grp_example = update-to_id_grp find 2 (entry_point 2 8) marks marks-IsWellFormed
