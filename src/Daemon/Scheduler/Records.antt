-- ===== src/Daemon/Scheduler/Records.antt =====
-- src/daemon/scheduler.rs: what a change of the records does to the state of each job.
use navin_engine.Prelude.{
  ℕ, ◌≡◌, arith, String, Option, none, some, List, [], ◌∷◌, ◌==◌, if◌then◌else◌,
}
use navin_engine.Daemon.Scheduler.{JobState, JobRecord, get_record, insert_record, set_in, state_in}

abbrev pub state_at : ℕ → List JobRecord → Option JobState
state_at id rs = state_in (get_record id rs)

-- A state put in the place of the one that was there, if any was.
abbrev pub replaced : JobState → Option JobState → Option JobState
replaced s none = none
replaced s (some old) = some s

pub state_at-insert_record :
    (id : ℕ) (r : JobRecord) (rs : List JobRecord)
    → state_at id (insert_record r rs) ≡ (if r.id == id then some r.state else state_at id rs)
state_at-insert_record id r [] = ground arith
state_at-insert_record id r (x ∷ xs) = let ih = state_at-insert_record id r xs in ground arith

pub state_at-set_in :
    (id i : ℕ) (s : JobState) (detail : Option String) (rs : List JobRecord)
    → state_at id (set_in i s detail rs)
      ≡ (if i == id then replaced s (state_at id rs) else state_at id rs)
state_at-set_in id i s detail [] = ground arith
state_at-set_in id i s detail (x ∷ xs) = let ih = state_at-set_in id i s detail xs in ground arith
