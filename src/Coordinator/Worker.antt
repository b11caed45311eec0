-- ===== src/Coordinator/Worker.antt =====
-- The cleanup thread: the loop of `cleanupWorker`, its start in `DeleteFile` and its end in the
-- destructor. A step of the thread is one test of the flag, one nap or one round of the cleanup, and
-- between two of them the other threads may run handlers.
pub mod Cycle
pub mod Stopping
pub mod Flag
pub mod Ends
pub mod Threads
mod Tests
use toy_dfs.Prelude.{ℕ, suc, Bool, true, false, not, ◌&&◌, List, [], ◌∷◌, ltb, if◌then◌else◌}
use toy_dfs.Coordinator.{Coordinator}
use toy_dfs.Coordinator.Environment.{Environment}
use toy_dfs.Coordinator.Deletion.{cleanup_round}
use toy_dfs.Coordinator.System.{Request, Answer, handle}

abbrev pub naps : ℕ
naps = 60

-- Where the thread stands: before it starts; at the test of the `while`; at the test of the `for`
-- after so many naps; in a nap; at the `if`; before `cleanupTombstones`; at its end.
pub data Place : Type 0 where
  not_started : Place
  at_while : Place
  at_for : ℕ → Place
  asleep : ℕ → Place
  at_if : Place
  at_cleanup : Place
  ended : Place

-- The destructor has not begun, waits in `join`, or is done.
pub data Phase : Type 0 where
  serving : Phase
  joining : Phase
  destroyed : Phase

-- The service with its thread. The flag `running_` is a field of the coordinator.
pub record Service (W : Type 0) : Type 0 where
  pub coordinator : Coordinator
  pub world : W
  pub place : Place
  pub phase : Phase

abbrev pub at : {W : Type 0} → Coordinator → W → Place → Phase → Service W
at c w p ph = record { coordinator = c; world = w; place = p; phase = ph }

module _ {W : Type 0} (env : Environment W) where
  -- One step of the thread, at the time `now`.
  unfoldable pub work : ℕ → Service W → Service W
  work now s = elim s.place [
    | not_started ↦ s
    | at_while ↦ record s { place = if s.coordinator.running then at_for 0 else ended }
    | at_for i ↦ record s {
      place = if ltb i naps && s.coordinator.running then asleep i else at_if;
    }
    | asleep i ↦ record s { place = at_for (suc i) }
    | at_if ↦ record s { place = if s.coordinator.running then at_cleanup else ended }
    | at_cleanup ↦
        let (c, w, log) = cleanup_round env.client now s.coordinator s.world in
        record s { coordinator = c; world = w; place = at_while }
    | ended ↦ s
  ]

  -- The steps at these times.
  unfoldable pub work_all : List ℕ → Service W → Service W
  unfolding work
  work_all [] s = s
  work_all (now ∷ times) s = work_all times (work now s)

  -- A handler. `DeleteFile` starts the thread as it sets the flag for the first time.
  unfoldable pub serve : Request → Service W → Answer × Service W
  serve request s =
      let (answer, c, w) = handle env request s.coordinator s.world in
      (
        answer,
        record s {
          coordinator = c;
          world = w;
          place = if not s.coordinator.running && c.running then at_while else s.place;
        },
      )

-- The destructor up to the `join`, which it comes to only if the flag was set.
unfoldable pub stop : {W : Type 0} → Service W → Service W
stop s =
    if s.coordinator.running
    then record s { coordinator = record s.coordinator { running = false }; phase = joining }
    else record s { phase = destroyed }

abbrev pub has_ended : Place → Bool
has_ended not_started = false
has_ended at_while = false
has_ended (at_for i) = false
has_ended (asleep i) = false
has_ended at_if = false
has_ended at_cleanup = false
has_ended ended = true

-- `join` returns once the thread is at its end.
unfoldable pub join : {W : Type 0} → Service W → Service W
join s = if has_ended s.place then record s { phase = destroyed } else s
