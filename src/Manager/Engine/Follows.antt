-- ===== src/Manager/Engine/Follows.antt =====
-- How the state of manager/mod.rs may change from one time to a later one, for the writes that the job
-- engine is built from.
use rystemd.Prelude.{
  ℕ, ◌+◌, ◌^◌, ◌≤◌, ◌≡◌, ◌≢◌, refl, sym, subst, ap, ◌∙◌, ◌⊎◌, inl, inr, Bool, true, false, Option,
  none, some, List, [], ◌==◌, arith, if◌then◌else◌, Text, text_eq, text_eq_iff, text_key, nat_key,
  Map, get, insert, adjust, get-insert, get-insert_cases, get-adjust_same, get-adjust_other,
  get-adjust_cases, Bool-cases, Option-cases,
}
use rystemd.Manager.State.{ActiveState, SubState, UnitResult, ManagedUnit, set_active}
use rystemd.Manager.State.Active.{IsStamped, set_active-IsStamped}
use rystemd.Manager.Timer.{TimerWheel}
use rystemd.Manager.Action.Keeps.{
  Keeps, Keeps-modify, Keeps-change, Keeps-bind, Keeps-unwrap, Keeps-gets, Keeps-if, keeps_rules,
}
use rystemd.Manager.Jobs.{JobKind, JobMode, WaitEntry, Job, JobTable, release_waiting}
use rystemd.Manager.Jobs.Follows.{
  TableFollows, new_job-TableFollows, drop_job-TableFollows, change_job-TableFollows,
  release_waiting-TableFollows, point_unit-TableFollows, retire-TableFollows,
}
use rystemd.Manager.Engine.{
  Manager, ask, find_unit, the_unit, update_unit, entered, enter, unit_active, unit_operational,
  has_unit, find_job, the_job, find_unit_job, change_table, update_job, update_job_if, create_job,
  put_job, close_job, retire_found, point_job, point_found, drop_unit_job, drop_found,
}
use rystemd.Manager.Engine.Timers.{change_wheel}

-- The later state's table follows the earlier one's; its units have stamps that agree with their
-- states; no unit is dropped; and a shutdown is not taken back.
-- Every unit's stamps agree with its state.
abbrev pub Stamped : Manager → Type 0
Stamped m = (n : Text) (u : ManagedUnit) → get n m.units ≡ some u → IsStamped u

pub record Follows (s m : Manager) : Type 0 where
  pub table : TableFollows s.table m.table
  pub stamped : Stamped s → Stamped m
  pub known :
      (n : Text) (u : ManagedUnit)
      → get n s.units ≡ some u
      → (u' : ManagedUnit) × (get n m.units ≡ some u')
  pub down : s.shutting_down ≡ true → m.shutting_down ≡ true

-- What the stamps are of.
abbrev pub stamps : ManagedUnit → ActiveState × Option ℕ × Option ℕ × Option ℕ × Option ℕ
stamps u = (u.active, u.invocation_id, u.restart_at, u.active_enter, u.inactive_enter)

pub stamps-IsStamped : (u u' : ManagedUnit) → stamps u' ≡ stamps u → IsStamped u → IsStamped u'
stamps-IsStamped u u' e v = record {
  invoked = λ h.
      let (i, p) = v.invoked (
        subst (λ a. (a ≡ ActiveState.active) ⊎ (a ≡ ActiveState.activating)) (ap (λ x. x.0) e) h) in
      (i, ground arith);
  not_restarting = λ h.
      let p = v.not_restarting (
        subst (λ a. (a ≡ ActiveState.active) ⊎ (a ≡ ActiveState.activating)) (ap (λ x. x.0) e) h) in
      ground arith;
  entered = λ h. let (t, p, q) = v.entered (ground arith) in (t, ground arith, ground arith);
  never_entered = λ h. let (t, p) = v.never_entered (ground arith) in (t, ground arith);
  left = λ h.
      let (t, p) =
        v.left (
          subst (λ a. (a ≡ ActiveState.inactive) ⊎ (a ≡ ActiveState.failed)) (ap (λ x. x.0) e) h) in
      (t, ground arith);
}

-- A write drops no unit.
adjust_known :
    (m : Manager) (name : Text) (f : ManagedUnit → ManagedUnit) (n : Text) (w : ManagedUnit)
    → get n m.units ≡ some w
    → (u' : ManagedUnit) × (get n (adjust name f m.units) ≡ some u')
adjust_known m name f n w g = elim (Bool-cases (text_eq name n)) [
  | inl e ↦ (
    f w,
    subst (λ x. get x (adjust name f m.units) ≡ some (f w)) ((text_eq_iff name n).0 e)
        (get-adjust_same name f m.units w
          (subst (λ x. get x m.units ≡ some w) (sym ((text_eq_iff name n).0 e)) g)),
  )
  | inr e ↦ (w, ground (arith, get-adjust_other name n f m.units, text_eq_iff name n))
]

module _ (s : Manager) where
  adjust-Follows :
      (m : Manager) (name : Text) (f : ManagedUnit → ManagedUnit) (i : ℕ)
      → ((u : ManagedUnit) → IsStamped u → IsStamped (f u))
      → Follows s m
      → Follows s (record m { units = adjust name f m.units; next_invocation = i })
  adjust-Follows m name f i k v = record {
    table = v.table;
    stamped = λ a n u h.
        let (w, g, c) = get-adjust_cases name n f m.units u h in
        elim c [
          | inl e ↦ subst IsStamped (sym e) (v.stamped a n w g)
          | inr e ↦ subst IsStamped (sym e) (k w (v.stamped a n w g))
        ];
    known = λ n u h. let (w, g) = v.known n u h in adjust_known m name f n w g;
    down = v.down;
  }

  -- A write of the fields that are not looked at.
  pub rest-Follows :
      (m m' : Manager)
      → Follows s m
      → m'.table ≡ m.table
      → m'.units ≡ m.units
      → m'.shutting_down ≡ m.shutting_down
      → Follows s m'
  rest-Follows m m' v t u d = record {
    table = subst (TableFollows s.table) (sym t) v.table;
    stamped = λ a n w h. v.stamped a n w (subst (λ x. get n x ≡ some w) u h);
    known = λ n w h. let (w', g) = v.known n w h in (w', subst (λ x. get n x ≡ some w') (sym u) g);
    down = λ h. d ∙ v.down h;
  }

  pub ask-Follows : {A : Type 0} → (f : ℕ → A) → Keeps (Follows s) (ask f)
  unfolding ask
  ask-Follows f = Keeps-change _ λ m v. rest-Follows m _ v refl refl refl

  -- A write that leaves the stamps.
  pub update_unit-Follows :
      (name : Text) (f : ManagedUnit → ManagedUnit)
      → ((u : ManagedUnit) → stamps (f u) ≡ stamps u)
      → Keeps (Follows s) (update_unit name f)
  unfolding update_unit the_unit find_unit
  update_unit-Follows name f same = Keeps-bind _ _ (search keeps_rules) λ _. Keeps-modify _ λ m v.
      adjust-Follows m name f m.next_invocation (λ u w. stamps-IsStamped u (f u) (same u) w) v

  pub enter-Follows :
      (name : Text) (system_now : ℕ → ℕ) (state : ActiveState) (sub : SubState)
      (result : UnitResult)
      → Keeps (Follows s) (enter name system_now state sub result)
  unfolding enter the_unit find_unit
  enter-Follows name system_now state sub result = Keeps-bind _ _ (search keeps_rules) λ u.
      Keeps-bind _ _ (ask-Follows system_now) λ now.
        Keeps-modify (entered name now state sub result u) λ m v.
          adjust-Follows m name _ (set_active now m.next_invocation state sub result u).1
            (λ w h. set_active-IsStamped now m.next_invocation sub result w h state) v

  table-Follows :
      (m : Manager) (t : JobTable)
      → TableFollows s.table t
      → Follows s m
      → Follows s (record m { table = t })
  table-Follows m t k v = record { table = k; stamped = v.stamped; known = v.known; down = v.down }

  pub update_job_if-Follows :
      (id : ℕ) (f : Job → Job)
      → ((j : Job) → (f j).unit ≡ j.unit)
      → Keeps (Follows s) (update_job_if id f)
  unfolding update_job_if change_table
  update_job_if-Follows id f keeps =
      Keeps-modify _
        λ m v. table-Follows m _ (change_job-TableFollows s.table m.table v.table id f keeps) v

  pub update_job-Follows :
      (id : ℕ) (f : Job → Job)
      → ((j : Job) → (f j).unit ≡ j.unit)
      → Keeps (Follows s) (update_job id f)
  unfolding update_job the_job find_job
  update_job-Follows id f keeps =
      Keeps-bind _ _ (search keeps_rules) λ _. update_job_if-Follows id f keeps

  pub release_waiting-Follows :
      (unit : Text) → Keeps (Follows s) (change_table (release_waiting unit))
  unfolding change_table
  release_waiting-Follows unit =
      Keeps-modify _
        λ m v. table-Follows m _ (release_waiting-TableFollows s.table m.table v.table unit) v

  put_job-Follows :
      (kind : JobKind) (unit : Text) (waiting : List WaitEntry) (mode : JobMode)
      → Keeps (Follows s) (put_job kind unit waiting mode)
  unfolding put_job
  put_job-Follows kind unit waiting mode = Keeps-change _ λ m v.
      table-Follows m _ (new_job-TableFollows s.table m.table v.table kind unit waiting mode) v

  pub create_job-Follows :
      (kind : JobKind) (unit : Text) (waiting : List WaitEntry) (mode : JobMode)
      → Keeps (Follows s) (create_job kind unit waiting mode)
  unfolding create_job
  create_job-Follows kind unit waiting mode = search (keeps_rules, put_job-Follows)

  close_job_found :
      (id : ℕ) (ok : Bool) (error : Job → Option Text) (m : Manager)
      → Follows s m
      → (found : Option Job) → get id m.table.jobs ≡ found
      → TableFollows s.table (retire_found id ok error found m.table)
  close_job_found id ok error m v none e = v.table
  close_job_found id ok error m v (some job) e =
      retire-TableFollows s.table m.table v.table id job ok (error job) e

  pub close_job-Follows :
      (id : ℕ) (ok : Bool) (error : Job → Option Text) → Keeps (Follows s) (close_job id ok error)
  unfolding close_job
  close_job-Follows id ok error =
      Keeps-change _
        λ m v. table-Follows m _ (close_job_found id ok error m v (get id m.table.jobs) refl) v

  point_job_found :
      (id : ℕ) (m : Manager)
      → Follows s m
      → (found : Option Job) → get id m.table.jobs ≡ found
      → TableFollows s.table (point_found id found m.table)
  point_job_found id m v none e = v.table
  point_job_found id m v (some job) e = point_unit-TableFollows s.table m.table v.table id job e

  pub point_job-Follows : (id : ℕ) → Keeps (Follows s) (point_job id)
  unfolding point_job change_table
  point_job-Follows id =
      Keeps-modify _ λ m v. table-Follows m _ (point_job_found id m v (get id m.table.jobs) refl) v

  drop_unit_job_found :
      (name : Text) (m : Manager)
      → Follows s m
      → (found : Option ℕ) → get name m.table.unit_job ≡ found
      → TableFollows s.table (drop_found name found m.table)
  drop_unit_job_found name m v none e = v.table
  drop_unit_job_found name m v (some id) e = drop_job-TableFollows s.table m.table v.table id name e

  pub drop_unit_job-Follows : (name : Text) → Keeps (Follows s) (drop_unit_job name)
  unfolding drop_unit_job change_table
  drop_unit_job-Follows name =
      Keeps-modify _
        λ m v. table-Follows m _ (drop_unit_job_found name m v (get name m.table.unit_job) refl) v

  pub change_wheel-Follows : (f : TimerWheel → TimerWheel) → Keeps (Follows s) (change_wheel f)
  unfolding change_wheel
  change_wheel-Follows f = Keeps-modify _ λ m v. rest-Follows m _ v refl refl refl

  -- The reads.
  pub find_unit-Follows : (name : Text) → Keeps (Follows s) (find_unit name)
  unfolding find_unit
  find_unit-Follows name = search keeps_rules

  pub the_unit-Follows : (name : Text) → Keeps (Follows s) (the_unit name)
  unfolding the_unit find_unit
  the_unit-Follows name = search keeps_rules

  pub has_unit-Follows : (name : Text) → Keeps (Follows s) (has_unit name)
  unfolding has_unit
  has_unit-Follows name = search keeps_rules

  pub unit_active-Follows : (name : Text) → Keeps (Follows s) (unit_active name)
  unfolding unit_active
  unit_active-Follows name = search keeps_rules

  pub unit_operational-Follows : (name : Text) → Keeps (Follows s) (unit_operational name)
  unfolding unit_operational
  unit_operational-Follows name = search keeps_rules

  pub find_job-Follows : (id : ℕ) → Keeps (Follows s) (find_job id)
  unfolding find_job
  find_job-Follows id = search keeps_rules

  pub the_job-Follows : (id : ℕ) → Keeps (Follows s) (the_job id)
  unfolding the_job find_job
  the_job-Follows id = search keeps_rules

  pub find_unit_job-Follows : (name : Text) → Keeps (Follows s) (find_unit_job name)
  unfolding find_unit_job
  find_unit_job-Follows name = search keeps_rules

pub ruleset follows_rules = (
  keeps_rules, ask-Follows, update_unit-Follows, enter-Follows, update_job-Follows,
  update_job_if-Follows, release_waiting-Follows, create_job-Follows, close_job-Follows,
  point_job-Follows, drop_unit_job-Follows, change_wheel-Follows, find_unit-Follows,
  the_unit-Follows, has_unit-Follows, unit_active-Follows, unit_operational-Follows,
  find_job-Follows, the_job-Follows, find_unit_job-Follows, refl,
)
