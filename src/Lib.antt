-- ===== src/Lib.antt =====
-- A model of the ALICA engine (alica_engine), the run-time system for multi-agent plans, with the
-- theorems about its components.
--
-- A team of agents executes a tree of plans. In each plan the agents are allocated to entry points
-- (tasks), and every agent computes the allocation by itself. Parts of the engine keep the shared
-- data: the allocation of one plan, the agents that are done, the changes of the allocation, the
-- authority over it, and the variables of the plan's constraints.
--
--   Constraint.UniqueVarStore
--                alica_engine/src/engine/constraintmodul/UniqueVarStore.cpp: variables that parameters
--                of plans unify, as lists whose first variable represents the list. A store is a list
--                of lists; `init_with`, `add`, `add_checked`, `add_var_to`, `get_all_rep`, `get_rep`,
--                `get_index_of`, `setup_solver_vars` and `get_solver_variable` are the methods.
--   Constraint.ConditionStore
--                constraintmodul/ConditionStore.cpp: the active conditions, with an index from variables
--                to the conditions that mention them.
--   Constraint.ResultEntry
--                constraintmodul/ResultEntry.cpp and collections/Variant.h: the values that a solver
--                found for the variables, with the time of each.
--   Constraint.VariableSyncModule
--                constraintmodul/VariableSyncModule.cpp: how agents publish these values and integrate
--                those of others. The seeds, which are floating-point numbers, are left out.
--   Model        model/EntryPoint.h, Plan.h, State.h and Interval.h, as records with the fields that
--                the engine reads.
--   Collections.SuccessCollection
--                collections/SuccessCollection.cpp: the agents that have finished a task, for each
--                entry point.
--   Collections.SuccessMarks
--                collections/SuccessMarks.cpp: the tasks that an agent has finished, by plan, and the
--                entry point ids that it sends about them.
--   Assignment   Assignment.cpp and Assignment.h: for each entry point the agents that work on it and
--                their states. The queries stand in Assignment, the changes in Assignment.Edit, and
--                the lists of one entry point in Assignment.Pairs.
--   Authority.Difference
--                allocationauthority/AllocationDifference.cpp and EntryPointRobotPair.cpp: the pairs of
--                an entry point and an agent that a change of the allocation adds and takes away.
--   Authority.History
--                the ring of the last differences of CycleManager.cpp, and `detectAllocationCycle`.
--   Authority.CycleManager
--                the rest of allocationauthority/CycleManager.cpp: which agent has the authority over
--                the allocation. `Events` is the life of a manager as a list of events.
--
--   Planning.PartialAssignment
--                planselector/PartialAssignment.cpp: an allocation under construction, with the
--                cardinalities that are left for each entry point. `Planning.Consistent` says what the
--                numbers mean, and `Planning.Goal` what a complete allocation is.
--   Planning.Search
--                planselector/TaskAssignmentProblem.cpp, with `PartialAssignment::expand` and
--                PartialAssignmentPool.h: the best-first search for the next best allocation.
--
--   Synchronisation
--                syncmodule/Synchronisation.cpp and SyncRow.cpp: how agents agree to take a transition
--                together. The own condition stands in Synchronisation, messages and the clock in
--                Synchronisation.Receive, and a life as a list of events in Synchronisation.Events.
--
--   RunningPlan  RunningPlan.cpp and RunningPlan.h: plans and behaviours in execution, in a store by
--                address. RunningPlan.Status has the operations on one of them, RunningPlan.Tree those
--                that work on its children, and RunningPlan.Message what it tells of itself.
--   RuleBook     RuleBook.cpp: the rules that move an agent through its plans. RuleBook.Rules has the
--                transitions and allocations, RuleBook.Failures the rules about failures,
--                RuleBook.Authority what `CycleManager::applyAssignment` does, and RuleBook.Visit the
--                order of the rules and its bound.
--   TeamManager  teammanager/TeamManager.cpp and Agent.cpp: the agents of the team and their activity.
--   TeamObserver TeamObserver.cpp and SimplePlanTree.cpp: the messages of the other agents, the plan trees
--                that are read from them, and the successes that the team knows about.
--   AuthorityManager
--                allocationauthority/AuthorityManager.cpp: the queue of the messages about the authority
--                over allocations, and the walk through the running plans that hands them over.
--   RoleAssignment
--                StaticRoleAssignment.cpp: the role of each active robot.
--   SyncModule   syncmodule/SyncModule.cpp: the synchronisations of an agent, and the transitions that it
--                may take in step.
--
-- Conventions. Model elements and agent ids are instantiated once for each id, so that a number stands
-- for the pointer; a null pointer is `none`. An index out of range, which is undefined behaviour in the
-- source, has no effect, or the answer `none` or false, as each definition says. Mutable objects are
-- passed in and out. Times are numbers of nanoseconds. Loops are structural recursion on the list that
-- they walk over; `detectAllocationCycle`, whose index wraps around, is recursion on the rounds left,
-- which the source counts as well, one round for every entry of the ring. The search of
-- `calcNextBestPartialAssignment` runs on fuel, and so do the loops of `RuleBook::visit`, with two rounds
-- more than the configured bound on consecutive changes. What goes down the tree of running plans takes
-- a depth, which has to exceed the height of the tree. Utilities are whole numbers in the unit in which
-- `PartialAssignment::compare` rounds them, and `int` does not overflow.
--
-- Parameters: the user's conditions and behaviours are functions of the store of running plans, and the
-- plan selector and the sync module are given to the rules by their answers; the order of agent ids, which another package defines, is assumed to be a strict total
-- order where that matters; the two factors of the authority interval are functions, with the bounds
-- named where they are used; a solver's `createVariable` is a function. The utility
-- function of a plan is any function from allocations to intervals. The search is optimal only among the
-- goals that no allocation on their way undervalues, since UtilityFunction::getSimilarity is no bound for
-- the extensions of an allocation.
--
-- Not modelled: threads, messages on the wire and logging; the XML parser and writer; the rounding of
-- floating-point utilities; the plan selector, which is a parameter of the rules; RunningPlan::tick and
-- recursiveUpdateAssignment, of which the latter is a parameter of the tick of TeamObserver; the reading of
-- the team from the configuration; robot properties, of which the default role is a parameter.

pub mod Common
pub mod Constraint
pub mod Model
pub mod Collections
pub mod Assignment
pub mod Authority
pub mod Planning
pub mod Synchronisation
pub mod RunningPlan
pub mod RuleBook
pub mod TeamManager
pub mod TeamObserver
pub mod AuthorityManager
pub mod RoleAssignment
pub mod SyncModule
