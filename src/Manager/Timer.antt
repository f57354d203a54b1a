-- ===== src/Manager/Timer.antt =====
-- rystemd/src/manager/timer.rs: the timer wheel. `heap` is the `BinaryHeap<Reverse<(Instant, u64)>>`
-- as the list that successive pops give; an `Instant` is a number of nanoseconds.
pub mod Order
pub mod Invariant
pub mod Due
pub mod Deadline
pub mod Rearm
pub mod Cancelled
mod Tests
use rystemd.Prelude.{
  ℕ, ◌+◌, ◌%◌, ◌^◌, ◌≡◌, Bool, true, false, not, ◌&&◌, ◌||◌, Option, none, some, List, [], ◌∷◌, ltb,
  leb, ◌==◌, if◌then◌else◌, any, Text, text_eq, Map, get, insert, remove, retain_values, values,
  nat_key,
}

pub data TimerKind : Type 0 where
  start_timeout stop_timeout restart_delay : TimerKind
  calendar_elapse : ℕ → TimerKind
  monotonic_elapse : TimerKind

-- The derived `PartialEq`.
unfoldable pub kind_eq : TimerKind → TimerKind → Bool
kind_eq start_timeout start_timeout = true
kind_eq stop_timeout stop_timeout = true
kind_eq restart_delay restart_delay = true
kind_eq (calendar_elapse i) (calendar_elapse j) = i == j
kind_eq monotonic_elapse monotonic_elapse = true
kind_eq _ _ = false

pub record TimerEntry : Type 0 where
  pub when : ℕ
  pub id : ℕ
  pub kind : TimerKind
  pub unit : Text

pub record TimerWheel : Type 0 where
  pub heap : List (ℕ × ℕ)
  pub entries : Map ℕ TimerEntry
  pub next_id : ℕ

abbrev pub default : TimerWheel
default = record { heap = []; entries = []; next_id = 0 }

-- The lexicographic order of the pairs.
abbrev pub pair_leb : ℕ × ℕ → ℕ × ℕ → Bool
pair_leb p q = ltb p.0 q.0 || (p.0 == q.0 && leb p.1 q.1)

unfoldable pub heap_push : ℕ × ℕ → List (ℕ × ℕ) → List (ℕ × ℕ)
heap_push p [] = p ∷ []
heap_push p (q ∷ h) = if pair_leb p q then p ∷ q ∷ h else q ∷ heap_push p h

unfoldable pub schedule : ℕ → TimerKind → Text → TimerWheel → ℕ × TimerWheel
schedule when kind unit w =
    let id = (w.next_id + 1) % 2 ^ 64 in
    (
      id,
      record {
        heap = heap_push (when, id) w.heap;
        entries = insert id (record { when = when; id = id; kind = kind; unit = unit }) w.entries;
        next_id = id;
      },
    )

unfoldable pub cancel : ℕ → TimerWheel → TimerWheel
cancel id w = record w { entries = remove id w.entries }

unfoldable pub cancel_by_unit : Text → TimerWheel → TimerWheel
cancel_by_unit unit w = record w {
  entries = retain_values (λ e. not (text_eq e.unit unit)) w.entries;
}

unfoldable pub cancel_by_kind : Text → TimerKind → TimerWheel → TimerWheel
cancel_by_kind unit kind w = record w {
  entries = retain_values (λ e. not (text_eq e.unit unit && kind_eq e.kind kind)) w.entries;
}

-- The `while let` loop of `next_deadline`: the deadline, and the heap that is left.
unfoldable pub deadline_loop : List (ℕ × ℕ) → Map ℕ TimerEntry → Option ℕ × List (ℕ × ℕ)
deadline_loop [] entries = (none, [])
deadline_loop ((when, id) ∷ h) entries = elim (get id entries) [
  | some e ↦ (some e.when, (when, id) ∷ h)
  | none ↦ deadline_loop h entries
]

unfoldable pub next_deadline : TimerWheel → Option ℕ × TimerWheel
unfolding deadline_loop
next_deadline w = let (when, h) = deadline_loop w.heap w.entries in (when, record w { heap = h })

pub record Popped : Type 0 where
  pub out : List TimerEntry
  pub heap : List (ℕ × ℕ)
  pub entries : Map ℕ TimerEntry

-- `out.push(e)` when the pop finds a live entry.
abbrev pub push_found : Option TimerEntry → List TimerEntry → List TimerEntry
push_found none out = out
push_found (some e) out = e ∷ out

-- The `while let` loop of `pop_due`, the entries in the order in which they are pushed.
unfoldable pub due_loop : ℕ → List (ℕ × ℕ) → Map ℕ TimerEntry → Popped
due_loop now [] entries = record { out = []; heap = []; entries = entries }
due_loop now ((when, id) ∷ h) entries =
    let rest = due_loop now h (remove id entries) in
    if ltb now when then record { out = []; heap = (when, id) ∷ h; entries = entries } else record {
      out = push_found (get id entries) rest.out;
      heap = rest.heap;
      entries = rest.entries;
    }

unfoldable pub pop_due : ℕ → TimerWheel → List TimerEntry × TimerWheel
unfolding due_loop
pop_due now w =
    let r = due_loop now w.heap w.entries in
    (r.out, record { heap = r.heap; entries = r.entries; next_id = w.next_id })

unfoldable pub is_service_timer : TimerKind → Bool
is_service_timer (calendar_elapse _) = true
is_service_timer monotonic_elapse = true
is_service_timer _ = false

unfoldable pub has_service_timers : TimerWheel → Bool
has_service_timers w = any (λ e. is_service_timer e.kind) (values w.entries)
