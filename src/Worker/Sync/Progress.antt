-- ===== src/Worker/Sync/Progress.antt =====
-- The processes can end together from wherever they are, as long as none has failed.
use view_sync.Prelude.{
  ℕ, zero, suc, ◌+◌, ◌≤◌, ◌<◌, ◌≡◌, ◌≢◌, refl, sym, subst, ◌∙◌, inl, inr, false, Bool-cases, ◌==◌,
  arith, ==_refl, ap, ◌-◌,
}
use view_sync.System.{update}
use view_sync.Worker.{num_workers}
use view_sync.Worker.Sync.{
  Phase, forked, waiting, broadcasting, waiting_turn, printing, passed, gone, failed, scanning,
  Group, Parent, testing, leaving, paused, killing, reaping, finished, IsOver, over_gone,
  forked_all, moved, exits, pauses, parent_signalled, wakes, starts, kills, reaps, finishes, Reach,
  begin, later,
}
use view_sync.Worker.Sync.Turns.{Place, Reach-Turns}
use view_sync.Worker.Sync.Ending.{Ended, Reach-Ended, Reach-trans, finished-IsOver}
use view_sync.Worker.Sync.Stopping.{all_stop}

-- A worker that has passed its turn on.
data HasPassed : Phase → Type 0 where
  has_passed : HasPassed passed
  has_gone : HasPassed gone

abbrev AllHavePassed : Group → Type 0
AllHavePassed g = (k : ℕ) → k < num_workers → HasPassed (g.phases k)

Place-HasPassed :
    (k : ℕ) (p : Phase) → k < num_workers → p ≢ failed → Place num_workers k p → HasPassed p
Place-HasPassed k passed small alive h = has_passed
Place-HasPassed k gone small alive h = has_gone
Place-HasPassed k failed small alive h = absurd (alive refl)
Place-HasPassed k printing small alive h = absurd (omega (arith, h))
Place-HasPassed k forked small alive h = absurd (omega (arith, h))
Place-HasPassed k waiting small alive h = absurd (omega (arith, h))
Place-HasPassed k (scanning l) small alive h = absurd (omega (arith, h))
Place-HasPassed k broadcasting small alive h = absurd (omega (arith, h))
Place-HasPassed k waiting_turn small alive h = absurd (omega (arith, h))

-- `main` has waited for a worker.
record Waited (k : ℕ) (g : Group) : Type 0 where
  pub to : Group
  pub path : Reach g to
  pub at : to.parent ≡ killing (suc k)
  pub all : AllHavePassed to

waits_for :
    (k : ℕ) (g : Group) (p : Phase)
    → k < num_workers
    → g.phases k ≡ p
    → g.parent ≡ reaping k
    → HasPassed p
    → AllHavePassed g
    → Waited k g
waits_for k g _ small here at has_gone all = record {
  to = record g { parent = killing (suc k) };
  path = later begin (reaps k at (subst IsOver (sym here) over_gone));
  at = refl;
  all = all;
}
waits_for k g _ small here at has_passed all = record {
  to = record (moved g k gone) { parent = killing (suc k) };
  path = later (later begin (exits k small here)) (reaps k at (rw (==_refl k) over_gone));
  at = refl;
  all = λ l inside. elim (Bool-cases (l == k)) [
    | inl same ↦ rw same has_gone
    | inr other ↦ rw other (all l inside)
  ];
}

-- `main` has ended.
record Over (g : Group) : Type 0 where
  pub to : Group
  pub path : Reach g to
  pub at : to.parent ≡ finished

Over-from : (g h : Group) → Reach g h → Over h → Over g
Over-from g h r o = record { to = o.to; path = Reach-trans g h o.to r o.path; at = o.at }

kills_all :
    (n k : ℕ) (g : Group) → n + k ≡ num_workers → g.parent ≡ killing k → AllHavePassed g → Over g
kills_all zero k g e at all =
    let last : k ≡ num_workers = omega (arith, e) in
    record {
      to = record g { parent = finished };
      path = later begin (finishes (at ∙ ap killing last));
      at = refl;
    }
kills_all (suc n) k g e at all =
    let sent : Group = record g { parent = reaping k; running = update g.running k false } in
    let w = waits_for k sent (g.phases k) (omega arith) refl refl (all k (omega arith)) all in
    Over-from g w.to (Reach-trans g sent w.to (later begin (kills k at (omega arith))) w.path)
      (kills_all n (suc k) w.to (omega arith) w.at w.all)

module _ (g : Group) (all : AllHavePassed g) where
  from_testing : (h : Group) → Reach g h → AllHavePassed h → h.parent ≡ testing → Over g
  from_testing h r passed_all at =
      let off : Group = record h { parent_running = false } in
      let told : Reach g off = later r (parent_signalled (λ e. cc (at, e))) in
      Over-from g (record off { parent = killing 0 }) (later told (starts at refl))
        (kills_all num_workers 0 (record off { parent = killing 0 }) refl refl passed_all)

  from_paused : (h : Group) → Reach g h → AllHavePassed h → h.parent ≡ paused → Over g
  from_paused h r passed_all at =
      from_testing (record h { parent = testing; parent_running = false }) (later r (wakes at))
        passed_all refl

  main_ends : (p : Parent) → g.parent ≡ p → Ended g.phases p → Over g
  main_ends testing at e = from_testing g begin all at
  main_ends paused at e = from_paused g begin all at
  main_ends leaving at e =
      from_paused (record g { parent = paused }) (later begin (pauses at)) all refl
  main_ends (killing k) at e =
      let small : k ≤ num_workers = e.0 in kills_all (num_workers - k) k g (omega arith) at all
  main_ends (reaping k) at e =
      let small : k < num_workers = e.0 in
      let w = waits_for k g (g.phases k) small refl at (all k small) all in
      Over-from g w.to w.path
        (kills_all (num_workers - suc k) (suc k) w.to (omega arith) w.at w.all)
  main_ends finished at e = record { to = g; path = begin; at = at }

-- As long as no worker has failed, the processes can end together from wherever they are: some run
-- from there on, with the signals that it takes, leads to the end of `main`, and every worker's
-- process has ended.
pub shutdown_completes :
    (g : Group)
    → Reach forked_all g
    → ((k : ℕ) → k < num_workers → g.phases k ≢ failed)
    → (h : Group) × Reach g h
      × (h.parent ≡ finished)
      × ((k : ℕ) → k < num_workers → IsOver (h.phases k))
shutdown_completes g reached alive =
    let (c, t) = Reach-Turns g reached in
    let small : c ≤ num_workers = t.bound in
    let stopped = all_stop (num_workers - c) c g (omega arith) reached t alive in
    let there = Reach-trans forked_all g stopped.to reached stopped.path in
    let over =
      main_ends stopped.to
        (λ k inside.
          Place-HasPassed k (stopped.to.phases k) inside (stopped.alive k inside)
            (stopped.turns.places k inside))
        stopped.to.parent refl (Reach-Ended stopped.to there) in
    let whole = Reach-trans g stopped.to over.to stopped.path over.path in
    (
      over.to,
      whole,
      over.at,
      λ k inside.
          finished-IsOver over.to k (Reach-trans forked_all g over.to reached whole) over.at inside,
    )
