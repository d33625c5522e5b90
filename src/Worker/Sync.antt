-- ===== src/Worker/Sync.antt =====
-- How the processes of main.c start and stop together: the memory that they share, where each of
-- them is in `worker_process`, and where `main` is after it has forked them. Each read and write
-- of the shared memory is one step.
pub mod Barrier
pub mod Turns
pub mod Ending
pub mod Hang
pub mod Stopping
pub mod Progress
use view_sync.Prelude.{ℕ, zero, suc, ◌+◌, ◌%◌, ◌<◌, ◌≡◌, ◌≢◌, Bool, true, false}
use view_sync.System.{update}
use view_sync.Worker.{num_workers}

-- `scanning k` has seen that the workers before `k` are ready.
pub data Phase : Type 0 where
  forked waiting broadcasting waiting_turn printing passed gone failed : Phase
  scanning : ℕ → Phase

-- `main` kills and waits for one worker after the other.
pub data Parent : Type 0 where
  testing leaving paused finished : Parent
  killing reaping : ℕ → Parent

-- `sync_state`, and for each process its place and its `running`.
pub record Group : Type 0 where
  pub sync_state : ℕ → ℕ
  pub phases : ℕ → Phase
  pub running : ℕ → Bool
  pub parent : Parent
  pub parent_running : Bool

-- The memory is cleared before the first fork.
abbrev pub forked_all : Group
forked_all = record {
  sync_state = λ k. 0;
  phases = λ i. forked;
  running = λ i. true;
  parent = testing;
  parent_running = true;
}

abbrev pub moved : Group → ℕ → Phase → Group
moved g i p = record g { phases = update g.phases i p }

-- An error ends the process in its setup, and from `cbc_start` on, where the threads run.
pub data MayFail : Phase → Type 0 where
  in_setup : MayFail forked
  in_loop : MayFail broadcasting
  in_wait : MayFail waiting_turn
  in_print : MayFail printing
  in_stop : MayFail passed

-- `waitpid` returns.
pub data IsOver : Phase → Type 0 where
  over_gone : IsOver gone
  over_failed : IsOver failed

pub data Step (g : Group) : Group → Type 0 where
  announces :
      (i : ℕ)
      → i < num_workers
      → g.phases i ≡ forked
      → Step g (record (moved g i waiting) { sync_state = update g.sync_state i 1 })
  looks :
      (i : ℕ)
      → i < num_workers
      → g.phases i ≡ waiting
      → g.running i ≡ true
      → Step g (moved g i (scanning 0))
  gives_up :
      (i : ℕ)
      → i < num_workers
      → g.phases i ≡ waiting
      → g.running i ≡ false
      → Step g (moved g i broadcasting)
  sees_ready :
      (i k : ℕ)
      → i < num_workers
      → g.phases i ≡ scanning k
      → k < num_workers
      → g.sync_state k ≢ 0
      → Step g (moved g i (scanning (suc k)))
  sees_unready :
      (i k : ℕ)
      → i < num_workers
      → g.phases i ≡ scanning k
      → k < num_workers
      → g.sync_state k ≡ 0
      → Step g (moved g i waiting)
  goes :
      (i : ℕ)
      → i < num_workers
      → g.phases i ≡ scanning num_workers
      → Step g (moved g i broadcasting)
  stops :
      (i : ℕ)
      → i < num_workers
      → g.phases i ≡ broadcasting
      → g.running i ≡ false
      → Step g (moved g i waiting_turn)
  takes_turn :
      (i : ℕ)
      → i < num_workers
      → g.phases i ≡ waiting_turn
      → g.sync_state num_workers ≡ i
      → Step g (moved g i printing)
  passes :
      (i : ℕ)
      → i < num_workers
      → g.phases i ≡ printing
      → Step g (record (moved g i passed) {
        sync_state = update g.sync_state num_workers ((g.sync_state num_workers + 1) % num_workers);
      })
  exits : (i : ℕ) → i < num_workers → g.phases i ≡ passed → Step g (moved g i gone)
  fails : (i : ℕ) → i < num_workers → MayFail (g.phases i) → Step g (moved g i failed)
  signalled : (i : ℕ) → i < num_workers → Step g (record g { running = update g.running i false })
  leaves : g.parent ≡ testing → g.parent_running ≡ true → Step g (record g { parent = leaving })
  pauses : g.parent ≡ leaving → Step g (record g { parent = paused })
  parent_signalled : g.parent ≢ paused → Step g (record g { parent_running = false })
  wakes : g.parent ≡ paused → Step g (record g { parent = testing; parent_running = false })
  starts : g.parent ≡ testing → g.parent_running ≡ false → Step g (record g { parent = killing 0 })
  kills :
      (k : ℕ)
      → g.parent ≡ killing k
      → k < num_workers
      → Step g (record g { parent = reaping k; running = update g.running k false })
  reaps :
      (k : ℕ)
      → g.parent ≡ reaping k
      → IsOver (g.phases k)
      → Step g (record g { parent = killing (suc k) })
  finishes : g.parent ≡ killing num_workers → Step g (record g { parent = finished })

pub data Reach (from : Group) : Group → Type 0 where
  begin : Reach from from
  later : {g h : Group} → Reach from g → Step g h → Reach from h
