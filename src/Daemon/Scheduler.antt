-- ===== src/Daemon/Scheduler.antt =====
-- src/daemon/scheduler.rs: a bounded queue of jobs, their records and their stop switches. `V` is
-- the type of JSON values. The two hash maps are association lists, searched by id; the
-- channel is the list of the jobs that wait in it.
pub mod Records
pub mod Cancel
pub mod Enqueue
use navin_engine.Prelude.{
  ℕ, suc, ◌+◌, ◌%◌, ◌^◌, String, Bool, true, false, Option, none, some, List, [], ◌∷◌, ◌++◌, ◌==◌,
  ltb, if◌then◌else◌, Result, ok, err, length,
}
use navin_engine.Prelude.Text.{concat, show}

pub data JobState : Type 0 where
  queued running completed failed cancelled : JobState

abbrev pub state_name : JobState → String
state_name queued = "queued"
state_name running = "running"
state_name completed = "completed"
state_name failed = "failed"
state_name cancelled = "cancelled"

pub record JobRecord : Type 0 where
  pub id : ℕ
  pub kind : String
  pub state : JobState
  pub detail : Option String

pub record Job (V : Type 0) : Type 0 where
  pub id : ℕ
  pub kind : String
  pub params : V

abbrev pub queue_depth : ℕ
queue_depth = 64

-- A `watch::Sender<bool>`: what it says, and how many receivers it has.
pub record Switch : Type 0 where
  pub value : Bool
  pub receivers : ℕ

-- `watch::channel(false).0`, whose receiver is dropped at once
abbrev pub fresh_switch : Switch
fresh_switch = record { value = false; receivers = 0 }

-- `send(true)` fails, and stores nothing, when nobody listens.
abbrev pub send_true : Switch → Switch
send_true x = if x.receivers == 0 then x else record x { value = true }

abbrev pub subscribe : Switch → Switch
subscribe x = record x { receivers = x.receivers + 1 }

pub record Scheduler (V : Type 0) : Type 0 where
  pub next_id : ℕ
  pub records : List JobRecord
  pub stops : List (ℕ × Switch)
  pub queue : List (Job V)

-- `HashMap::get`
abbrev pub get_record : ℕ → List JobRecord → Option JobRecord
get_record id [] = none
get_record id (r ∷ rs) = if r.id == id then some r else get_record id rs

-- `HashMap::insert`
abbrev pub insert_record : JobRecord → List JobRecord → List JobRecord
insert_record r [] = r ∷ []
insert_record r (x ∷ xs) = if x.id == r.id then r ∷ xs else x ∷ insert_record r xs

-- The record that `get_mut` found, changed.
abbrev pub set_in : ℕ → JobState → Option String → List JobRecord → List JobRecord
set_in id state detail [] = []
set_in id state detail (x ∷ xs) =
    if x.id == id
    then record x { state = state; detail = detail } ∷ xs
    else x ∷ set_in id state detail xs

abbrev pub state_in : Option JobRecord → Option JobState
state_in none = none
state_in (some r) = some r.state

abbrev pub get_stop : ℕ → List (ℕ × Switch) → Option Switch
get_stop id [] = none
get_stop id (x ∷ xs) = if x.0 == id then some x.1 else get_stop id xs

-- `entry(id).or_insert_with(…)`, and what is done with the switch
abbrev pub on_stop : (Switch → Switch) → ℕ → List (ℕ × Switch) → List (ℕ × Switch)
on_stop f id [] = (id, f fresh_switch) ∷ []
on_stop f id (x ∷ xs) = if x.0 == id then (x.0, f x.1) ∷ xs else x ∷ on_stop f id xs

abbrev pub send_stop : ℕ → List (ℕ × Switch) → List (ℕ × Switch)
send_stop id xs = on_stop send_true id xs

-- `HashMap::remove`
abbrev pub remove_stop : ℕ → List (ℕ × Switch) → List (ℕ × Switch)
remove_stop id [] = []
remove_stop id (x ∷ xs) = if x.0 == id then xs else x ∷ remove_stop id xs

abbrev is_cancelled_state : Option JobState → Bool
is_cancelled_state (some cancelled) = true
is_cancelled_state _ = false

module _ {V : Type 0} where
  abbrev pub new : Scheduler V
  new = record { next_id = 1; records = []; stops = []; queue = [] }

  -- The state of a job, as `snapshot` reports it.
  abbrev pub state_of : ℕ → Scheduler V → Option JobState
  state_of id s = state_in (get_record id s.records)

  -- The job goes to the channel when there is room.
  abbrev pub enqueue_if : Bool → String → V → Scheduler V → Result String ℕ × Scheduler V
  enqueue_if room kind params s =
      let id = s.next_id in
      let job : Job V = record { id = id; kind = kind; params = params } in
      let r : JobRecord = record { id = id; kind = kind; state = queued; detail = none } in
      let s' = record s { next_id = (id + 1) % 2 ^ 64; records = insert_record r s.records } in
      if room
      then (ok id, record s' { queue = s.queue ++ job ∷ [] })
      else (err "engine queue is full, retry later", s')

  -- `enqueue`: the record is there before `try_send` is tried, and it stays when that fails.
  unfoldable pub enqueue : String → V → Scheduler V → Result String ℕ × Scheduler V
  enqueue kind params s = enqueue_if (ltb (length s.queue) queue_depth) kind params s

  abbrev pub set_state : ℕ → JobState → Option String → Scheduler V → Scheduler V
  set_state id state detail s = record s { records = set_in id state detail s.records }

  -- `stop_signal`: the switch is made on first use, and has one receiver more.
  abbrev pub stop_signal : ℕ → Scheduler V → Scheduler V
  stop_signal id s = record s { stops = on_stop subscribe id s.stops }

  abbrev pub cancel_in : ℕ → Scheduler V → Option JobState → Result String JobState × Scheduler V
  cancel_in id s none = (err (concat ("no job " ∷ show id ∷ [])), s)
  cancel_in id s (some queued) =
      (ok queued, set_state id cancelled (some "cancelled before it started") s)
  cancel_in id s (some running) = (ok running, record s { stops = send_stop id s.stops })
  cancel_in id s (some done) =
      (err (concat ("job " ∷ show id ∷ " is already " ∷ state_name done ∷ [])), s)

  unfoldable pub cancel : ℕ → Scheduler V → Result String JobState × Scheduler V
  cancel id s = cancel_in id s (state_of id s)

  abbrev pub is_cancelled : ℕ → Scheduler V → Bool
  is_cancelled id s = is_cancelled_state (state_of id s)

  abbrev pub forget_stop : ℕ → Scheduler V → Scheduler V
  forget_stop id s = record s { stops = remove_stop id s.stops }
