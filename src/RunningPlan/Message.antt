-- ===== src/RunningPlan/Message.antt =====
-- RunningPlan::toMessage: the states of a tree of running plans as a list of ids, in which -1 and -2
-- enclose the children of a running plan.
use alica_engine.Common.{
  ℕ, zero, suc, ◌+◌, ◌||◌, List, [], ◌∷◌, ◌++◌, Option, none, some, if◌then◌else◌, ltb,
}
use alica_engine.Common.Int.{ℤ, pos, negsuc}
use alica_engine.RunningPlan.{World, is_retired}

-- -1 and -2.
abbrev pub open_ : ℤ
open_ = negsuc 0

abbrev pub close : ℤ
close = negsuc 1

-- The message so far, and the deepest running plan met so far with its depth.
pub record Told : Type 0 where
  pub message : List ℤ
  pub deepest_node : ℕ
  pub depth : ℕ

abbrev pub push : ℤ → Told → Told
push id t = record t { message = t.message ++ id ∷ [] }

abbrev pub note_depth : ℕ → ℕ → Told → Told
note_depth p cur_depth t =
    if ltb t.depth cur_depth then record t { deepest_node = p; depth = cur_depth } else t

abbrev pub tell_each : (ℕ → Told → Told) → List ℕ → Told → Told
tell_each f [] t = t
tell_each f (c ∷ cs) t = tell_each f cs (f c t)

-- The children, if there are any.
abbrev pub tell_children : (ℕ → Told → Told) → List ℕ → Told → Told
tell_children f [] t = t
tell_children f (c ∷ cs) t = push close (tell_each f (c ∷ cs) (push open_ t))

abbrev pub tell_state : (ℕ → Told → Told) → ℕ → ℕ → Option ℕ → List ℕ → Told → Told
tell_state f p cur_depth none cs t = t
tell_state f p cur_depth (some s) cs t =
    tell_children f cs (note_depth p cur_depth (push (pos s) t))

-- The first argument bounds the depth.
unfoldable pub to_message : ℕ → World → ℕ → ℕ → Told → Told
to_message zero w cur_depth p t = t
to_message (suc d) w cur_depth p t =
    let told =
      tell_state (to_message d w (cur_depth + 1)) p cur_depth (w.plan_at p).state
        (w.plan_at p).children t in
    if (w.plan_at p).behaviour || is_retired (w.plan_at p) then t else told
