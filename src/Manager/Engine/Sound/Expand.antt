-- ===== src/Manager/Engine/Sound/Expand.antt =====
-- rystemd/src/manager/mod.rs: `expand_start_job` keeps what Follows says, where the calls that it makes
-- do.
use rystemd.Prelude.{ℕ, ◌≡◌, refl, Option, none, some, List, Text, Bool}
use rystemd.Unit.Config.{Condition}
use rystemd.Manager.Action.Keeps.{Keeps}
use rystemd.Manager.Jobs.{JobKind, JobMode, WaitEntry, Job}
use rystemd.Manager.Engine.{Manager, Outside, M}
use rystemd.Manager.Engine.Calls.{Call}
use rystemd.Manager.Engine.Expand.{
  pending, enqueue_start_job_mode, refuse, wait_requisite, stop_conflict, pull_in, wait_after,
  wait_before, mark_dependency, commit, order, gather, expand_dependencies, refuse_condition,
  expand_start_job,
}
use rystemd.Manager.Engine.Follows.{Follows, follows_rules}

module _ (s : Manager) (outside : Outside) (rec : Call → M Unit)
    (rec_keeps : (c : Call) → Keeps (Follows s) (rec c)) where
  pending-Follows : (p : JobKind → Bool) (name : Text) → Keeps (Follows s) (pending p name)
  unfolding pending
  pending-Follows p name = search follows_rules depth 20

  pub enqueue_start_job_mode-Follows :
      (name : Text) (mode : JobMode)
      → Keeps (Follows s) (enqueue_start_job_mode outside rec name mode)
  unfolding enqueue_start_job_mode
  enqueue_start_job_mode-Follows name mode = search (follows_rules, rec_keeps) depth 20

  refuse-Follows : (id : ℕ) (msg : Text) → Keeps (Follows s) (refuse outside rec id msg)
  unfolding refuse
  refuse-Follows id msg = search (follows_rules, rec_keeps) depth 20

  wait_requisite-Follows :
      (waiting : List WaitEntry) (r : Text)
      → Keeps (Follows s) (wait_requisite outside rec waiting r)
  unfolding wait_requisite
  wait_requisite-Follows waiting r = search (follows_rules, pending-Follows) depth 20

  stop_conflict-Follows : (c : Text) → Keeps (Follows s) (stop_conflict outside rec c)
  unfolding stop_conflict
  stop_conflict-Follows c = search (follows_rules, rec_keeps, pending-Follows) depth 20

  pull_in-Follows :
      (needs : List Text) (waiting : List WaitEntry) (d : Text)
      → Keeps (Follows s) (pull_in outside rec needs waiting d)
  unfolding pull_in
  pull_in-Follows needs waiting d =
      search (follows_rules, pending-Follows, enqueue_start_job_mode-Follows) depth 20

  wait_after-Follows :
      (waiting : List WaitEntry) (a : Text) → Keeps (Follows s) (wait_after outside rec waiting a)
  unfolding wait_after
  wait_after-Follows waiting a = search (follows_rules, pending-Follows) depth 20

  wait_before-Follows :
      (waiting : List WaitEntry) (b : Text) → Keeps (Follows s) (wait_before outside rec waiting b)
  unfolding wait_before
  wait_before-Follows waiting b = search (follows_rules, pending-Follows) depth 20

  mark_dependency_unit : (dep : Option Text) (j : Job) → (mark_dependency dep j).unit ≡ j.unit
  mark_dependency_unit none j = refl
  mark_dependency_unit (some d) j = refl

  commit-Follows :
      (id : ℕ) (waiting : List WaitEntry) → Keeps (Follows s) (commit outside rec id waiting)
  unfolding commit
  commit-Follows id waiting = search (follows_rules, rec_keeps, mark_dependency_unit) depth 20

  order-Follows :
      (id : ℕ) (name : Text) (waiting : List WaitEntry)
      → Keeps (Follows s) (order outside rec id name waiting)
  unfolding order
  order-Follows id name waiting =
      search (follows_rules, wait_after-Follows, wait_before-Follows, commit-Follows) depth 30

  gather-Follows :
      (id : ℕ) (name : Text) (needs weak : List Text) (requisites : List WaitEntry)
      → Keeps (Follows s) (gather outside rec id name needs weak requisites)
  unfolding gather
  gather-Follows id name needs weak requisites =
      search (follows_rules, refuse-Follows, stop_conflict-Follows, pull_in-Follows, order-Follows)
        depth 30

  expand_dependencies-Follows :
      (id : ℕ) (name : Text) → Keeps (Follows s) (expand_dependencies outside rec id name)
  unfolding expand_dependencies
  expand_dependencies-Follows id name =
      search (follows_rules, refuse-Follows, wait_requisite-Follows, gather-Follows) depth 30

  refuse_condition-Follows :
      (id : ℕ) (name : Text) (bad : Condition)
      → Keeps (Follows s) (refuse_condition outside rec id name bad)
  unfolding refuse_condition
  refuse_condition-Follows id name bad = search (follows_rules, rec_keeps) depth 20

  pub expand_start_job-Follows : (id : ℕ) → Keeps (Follows s) (expand_start_job outside rec id)
  unfolding expand_start_job
  expand_start_job-Follows id =
      search (follows_rules, refuse-Follows, expand_dependencies-Follows, refuse_condition-Follows)
        depth 30
