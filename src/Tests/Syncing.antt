-- ===== src/Tests/Syncing.antt =====
-- The workers of main.c starting and stopping together.
use view_sync.Prelude.{ℕ, ◌<◌, ◌≡◌, ◌≢◌, ◌⊎◌, refl, true, false, arith}
use view_sync.Worker.{num_workers}
use view_sync.Worker.Sync.{
  Group, forked, broadcasting, waiting_turn, printing, failed, finished, forked_all, in_setup,
  IsOver, over_failed, announces, looks, gives_up, sees_ready, goes, stops, takes_turn, fails,
  signalled, parent_signalled, starts, kills, reaps, finishes, Reach, begin, later,
}
use view_sync.Worker.Sync.Barrier.{barrier-AllReady}
use view_sync.Worker.Sync.Turns.{IsDone, IsToCome, printing-InTurn}
use view_sync.Worker.Sync.Ending.{finished-IsOver}
use view_sync.Worker.Sync.Hang.{failed_hangs}
use view_sync.Worker.Sync.Progress.{shutdown_completes}

-- All announce their setup, and the first sees it.
all_announced :
    (g : Group) × Reach forked_all g × (g.phases 0 ≡ broadcasting) × (g.running 0 ≡ true)
all_announced = (
  _,
  later
      (later
        (later
          (later
            (later
              (later
                (later
                  (later
                    (later
                      (later
                        (later (later begin (announces 0 (omega arith) refl))
                          (announces 1 (omega arith) refl))
                        (announces 2 (omega arith) refl))
                      (announces 3 (omega arith) refl))
                    (announces 4 (omega arith) refl))
                  (looks 0 (omega arith) refl refl))
                (sees_ready 0 0 (omega arith) refl (omega arith) (omega arith)))
              (sees_ready 0 1 (omega arith) refl (omega arith) (omega arith)))
            (sees_ready 0 2 (omega arith) refl (omega arith) (omega arith)))
          (sees_ready 0 3 (omega arith) refl (omega arith) (omega arith)))
        (sees_ready 0 4 (omega arith) refl (omega arith) (omega arith)))
      (goes 0 (omega arith) refl),
  refl,
  refl,
)

barrier-AllReady_example : (all_announced.0.sync_state 3 ≢ 0) × (all_announced.0.phases 3 ≢ forked)
barrier-AllReady_example =
    barrier-AllReady all_announced.0 0 all_announced.1 (omega arith) all_announced.2 all_announced.3
      3 (omega arith)

-- The first is told to stop and has the turn.
first_prints : (g : Group) × Reach forked_all g × (g.phases 0 ≡ printing)
first_prints = (
  _,
  later
      (later
        (later (later (later begin (announces 0 (omega arith) refl)) (signalled 0 (omega arith)))
          (gives_up 0 (omega arith) refl refl))
        (stops 0 (omega arith) refl refl))
      (takes_turn 0 (omega arith) refl refl),
  refl,
)

printing-InTurn_example :
    (2 < 0 → IsDone (first_prints.0.phases 2)) × (0 < 2 → IsToCome (first_prints.0.phases 2))
printing-InTurn_example =
    printing-InTurn first_prints.0 0 first_prints.1 (omega arith) first_prints.2 2 (omega arith)

-- All fail in their setup, and `main` is told to stop.
all_failed : (g : Group) × Reach forked_all g × (g.parent ≡ finished)
all_failed = (
  _,
  later
      (later
        (later
          (later
            (later
              (later
                (later
                  (later
                    (later
                      (later
                        (later
                          (later
                            (later
                              (later
                                (later
                                  (later
                                    (later (later begin (fails 0 (omega arith) in_setup))
                                      (fails 1 (omega arith) in_setup))
                                    (fails 2 (omega arith) in_setup))
                                  (fails 3 (omega arith) in_setup))
                                (fails 4 (omega arith) in_setup))
                              (parent_signalled (λ e. cc)))
                            (starts refl refl))
                          (kills 0 refl (omega arith)))
                        (reaps 0 refl over_failed))
                      (kills 1 refl (omega arith)))
                    (reaps 1 refl over_failed))
                  (kills 2 refl (omega arith)))
                (reaps 2 refl over_failed))
              (kills 3 refl (omega arith)))
            (reaps 3 refl over_failed))
          (kills 4 refl (omega arith)))
        (reaps 4 refl over_failed))
      (finishes refl),
  refl,
)

finished-IsOver_example : IsOver (all_failed.0.phases 3)
finished-IsOver_example = finished-IsOver all_failed.0 3 all_failed.1 all_failed.2 (omega arith)

-- The first fails in its setup, and the second waits for its turn.
first_fails :
    (g : Group) × Reach forked_all g
    × (g.phases 0 ≡ failed)
    × (g.sync_state num_workers ≡ 0)
    × (g.phases 1 ≡ waiting_turn)
    × Reach g (record g { parent_running = false })
first_fails = (
  _,
  later
      (later
        (later
          (later (later begin (fails 0 (omega arith) in_setup)) (announces 1 (omega arith) refl))
          (signalled 1 (omega arith)))
        (gives_up 1 (omega arith) refl refl))
      (stops 1 (omega arith) refl refl),
  refl,
  refl,
  refl,
  later begin (parent_signalled (λ e. cc)),
)

failed_hangs_example :
    ((first_fails.0.phases 1 ≡ waiting_turn) × (first_fails.0.parent ≢ finished))
    ⊎ (first_fails.0.phases 1 ≡ failed)
failed_hangs_example =
    failed_hangs first_fails.0 (record (first_fails.0) { parent_running = false }) 0 1 first_fails.1
      (omega arith) (omega arith) first_fails.2 first_fails.3 first_fails.4 first_fails.5

none_failed : (k : ℕ) → k < num_workers → forked_all.phases k ≢ failed
none_failed k small e = cc

shutdown_completes_example :
    (h : Group) × Reach forked_all h
    × (h.parent ≡ finished)
    × ((k : ℕ) → k < num_workers → IsOver (h.phases k))
shutdown_completes_example = shutdown_completes forked_all begin none_failed
