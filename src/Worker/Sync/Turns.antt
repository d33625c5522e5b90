-- ===== src/Worker/Sync/Turns.antt =====
-- The turns in which the workers print their states and stop.
use view_sync.Prelude.{
  ℕ, suc, ◌+◌, ◌%◌, ◌≤◌, ◌<◌, ◌≡◌, ◌≢◌, refl, sym, subst, inl, inr, Bool-cases, ◌==◌, arith, ==_iff,
}
use view_sync.System.{update}
use view_sync.Worker.{num_workers}
use view_sync.Worker.Sync.{
  Phase, forked, waiting, broadcasting, waiting_turn, printing, passed, gone, failed, scanning,
  Group, forked_all, moved, Step, announces, looks, gives_up, sees_ready, sees_unready, goes, stops,
  takes_turn, passes, exits, fails, signalled, leaves, pauses, parent_signalled, wakes, starts,
  kills, reaps, finishes, Reach, begin, later,
}

-- Where a worker is when `c` of them have passed the turn on.
abbrev pub Place : ℕ → ℕ → Phase → Type 0
Place c k passed = k < c
Place c k gone = k < c
Place c k printing = k ≡ c
Place c k failed = Unit
Place c k forked = c ≤ k
Place c k waiting = c ≤ k
Place c k (scanning l) = c ≤ k
Place c k broadcasting = c ≤ k
Place c k waiting_turn = c ≤ k

pub record Turns (g : Group) (c : ℕ) : Type 0 where
  pub bound : c ≤ num_workers
  pub turn : g.sync_state num_workers ≡ c % num_workers
  pub places : (k : ℕ) → k < num_workers → Place c k (g.phases k)

pub Place-at :
    (g : Group) (c i : ℕ) (p : Phase) → i < num_workers → g.phases i ≡ p → Turns g c → Place c i p
Place-at g c i p inside at t = subst (Place c i) at (t.places i inside)

moved_places :
    (g : Group) (c i : ℕ) (p : Phase)
    → Place c i p
    → Turns g c
    → (k : ℕ) → k < num_workers
    → Place c k (update g.phases i p k)
moved_places g c i p place t k inside = elim (Bool-cases (k == i)) [
  | inl same ↦ rw same (subst (λ n. Place c n p) (sym ((==_iff k i).0 same)) place)
  | inr other ↦ rw other (t.places k inside)
]

moved-Turns : (g : Group) (c i : ℕ) (p : Phase) → Place c i p → Turns g c → Turns (moved g i p) c
moved-Turns g c i p place t = record {
  bound = t.bound;
  turn = t.turn;
  places = moved_places g c i p place t;
}

-- The turn passes on from the worker that has it.
pub Place-next : (c k : ℕ) (p : Phase) → k ≢ c → Place c k p → Place (suc c) k p
Place-next c k passed ne h = omega (arith, h)
Place-next c k gone ne h = omega (arith, h)
Place-next c k printing ne h = absurd (ne h)
Place-next c k failed ne h = tt
Place-next c k forked ne h = ground (arith, h)
Place-next c k waiting ne h = ground (arith, h)
Place-next c k (scanning l) ne h = ground (arith, h)
Place-next c k broadcasting ne h = ground (arith, h)
Place-next c k waiting_turn ne h = ground (arith, h)

passed-Turns :
    (g : Group) (c i : ℕ)
    → i < num_workers
    → i ≡ c
    → Turns g c
    → Turns
        (record (moved g i passed) {
          sync_state =
              update g.sync_state num_workers ((g.sync_state num_workers + 1) % num_workers);
        })
        (suc c)
passed-Turns g c i inside own t = record {
  bound = omega arith;
  turn = omega (arith, t.turn);
  places = λ k small. elim (Bool-cases (k == i)) [
    | inl same ↦ rw same (omega (arith, (==_iff k i).0 same))
    | inr other ↦ rw other (Place-next c k (g.phases k) (ground arith) (t.places k small))
  ];
}

Step-Turns : (g h : Group) (c : ℕ) → Turns g c → Step g h → (d : ℕ) × Turns h d
Step-Turns g _ c t (announces i inside at) = (
  c,
  record {
    bound = t.bound;
    turn = ground (arith, t.turn);
    places = moved_places g c i waiting (Place-at g c i forked inside at t) t;
  },
)
Step-Turns g _ c t (looks i inside at on) =
    (c, moved-Turns g c i (scanning 0) (Place-at g c i waiting inside at t) t)
Step-Turns g _ c t (gives_up i inside at off) =
    (c, moved-Turns g c i broadcasting (Place-at g c i waiting inside at t) t)
Step-Turns g _ c t (sees_ready i k inside at small ready) =
    (c, moved-Turns g c i (scanning (suc k)) (Place-at g c i (scanning k) inside at t) t)
Step-Turns g _ c t (sees_unready i k inside at small unready) =
    (c, moved-Turns g c i waiting (Place-at g c i (scanning k) inside at t) t)
Step-Turns g _ c t (goes i inside at) =
    (c, moved-Turns g c i broadcasting (Place-at g c i (scanning num_workers) inside at t) t)
Step-Turns g _ c t (stops i inside at off) =
    (c, moved-Turns g c i waiting_turn (Place-at g c i broadcasting inside at t) t)
Step-Turns g _ c t (takes_turn i inside at mine) = (
  c,
  moved-Turns g c i printing (omega (arith, Place-at g c i waiting_turn inside at t, t.turn, mine))
      t,
)
Step-Turns g _ c t (passes i inside at) =
    (suc c, passed-Turns g c i inside (Place-at g c i printing inside at t) t)
Step-Turns g _ c t (exits i inside at) =
    (c, moved-Turns g c i gone (Place-at g c i passed inside at t) t)
Step-Turns g _ c t (fails i inside may) = (c, moved-Turns g c i failed tt t)
Step-Turns g _ c t (signalled i inside) =
    (c, record { bound = t.bound; turn = t.turn; places = t.places })
Step-Turns g _ c t (leaves at on) =
    (c, record { bound = t.bound; turn = t.turn; places = t.places })
Step-Turns g _ c t (pauses at) = (c, record { bound = t.bound; turn = t.turn; places = t.places })
Step-Turns g _ c t (parent_signalled at) =
    (c, record { bound = t.bound; turn = t.turn; places = t.places })
Step-Turns g _ c t (wakes at) = (c, record { bound = t.bound; turn = t.turn; places = t.places })
Step-Turns g _ c t (starts at off) =
    (c, record { bound = t.bound; turn = t.turn; places = t.places })
Step-Turns g _ c t (kills k at inside) =
    (c, record { bound = t.bound; turn = t.turn; places = t.places })
Step-Turns g _ c t (reaps k at over) =
    (c, record { bound = t.bound; turn = t.turn; places = t.places })
Step-Turns g _ c t (finishes at) = (c, record { bound = t.bound; turn = t.turn; places = t.places })

-- Some number of workers have passed the turn on.
pub Reach-Turns : (g : Group) → Reach forked_all g → (c : ℕ) × Turns g c
Reach-Turns _ begin =
    (0, record { bound = omega arith; turn = refl; places = λ k inside. omega arith })
Reach-Turns _ (later r step) = let (c, t) = Reach-Turns _ r in Step-Turns _ _ c t step

-- A worker that is done with its turn, and one whose turn is to come.
pub data IsDone : Phase → Type 0 where
  done_passed : IsDone passed
  done_gone : IsDone gone
  done_failed : IsDone failed

pub data IsToCome : Phase → Type 0 where
  come_forked : IsToCome forked
  come_waiting : IsToCome waiting
  come_scanning : {k : ℕ} → IsToCome (scanning k)
  come_broadcasting : IsToCome broadcasting
  come_turn : IsToCome waiting_turn
  come_failed : IsToCome failed

Place-IsDone : (c k : ℕ) (p : Phase) → k < c → Place c k p → IsDone p
Place-IsDone c k passed lt h = done_passed
Place-IsDone c k gone lt h = done_gone
Place-IsDone c k failed lt h = done_failed
Place-IsDone c k printing lt h = absurd (omega (arith, h))
Place-IsDone c k forked lt h = absurd (omega (arith, h))
Place-IsDone c k waiting lt h = absurd (omega (arith, h))
Place-IsDone c k (scanning l) lt h = absurd (omega (arith, h))
Place-IsDone c k broadcasting lt h = absurd (omega (arith, h))
Place-IsDone c k waiting_turn lt h = absurd (omega (arith, h))

Place-IsToCome : (c k : ℕ) (p : Phase) → c < k → Place c k p → IsToCome p
Place-IsToCome c k passed lt h = absurd (omega (arith, h))
Place-IsToCome c k gone lt h = absurd (omega (arith, h))
Place-IsToCome c k printing lt h = absurd (omega (arith, h))
Place-IsToCome c k failed lt h = come_failed
Place-IsToCome c k forked lt h = come_forked
Place-IsToCome c k waiting lt h = come_waiting
Place-IsToCome c k (scanning l) lt h = come_scanning
Place-IsToCome c k broadcasting lt h = come_broadcasting
Place-IsToCome c k waiting_turn lt h = come_turn

-- While a worker prints its state, the workers with smaller ids have passed their turn or failed,
-- and those with larger ids have not had it: no two print at once, and they print in the order of
-- their ids.
pub printing-InTurn :
    (g : Group) (i : ℕ)
    → Reach forked_all g
    → i < num_workers
    → g.phases i ≡ printing
    → (k : ℕ) → k < num_workers
    → (k < i → IsDone (g.phases k)) × (i < k → IsToCome (g.phases k))
printing-InTurn g i reached inside at k small =
    let (c, t) = Reach-Turns g reached in
    let own : i ≡ c = Place-at g c i printing inside at t in
    (
      (λ lt. Place-IsDone c k (g.phases k) (omega arith) (t.places k small)),
      (λ lt. Place-IsToCome c k (g.phases k) (omega arith) (t.places k small)),
    )
