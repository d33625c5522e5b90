-- ===== src/Worker/Sync/Hang.antt =====
-- What a worker that fails does to the others.
use view_sync.Prelude.{
  ℕ, suc, ◌<◌, ◌≡◌, ◌≢◌, refl, sym, subst, ◌∙◌, inl, inr, Bool-cases, ◌==◌, arith, ==_ne, ap, ◌⊎◌,
}
use view_sync.System.{update}
use view_sync.Worker.{num_workers}
use view_sync.Worker.Sync.{
  Phase, forked, waiting, broadcasting, waiting_turn, printing, passed, gone, failed, scanning,
  Group, finished, IsOver, forked_all, moved, Step, announces, looks, gives_up, sees_ready,
  sees_unready, goes, stops, takes_turn, passes, exits, fails, signalled, leaves, pauses,
  parent_signalled, wakes, starts, kills, reaps, finishes, Reach, begin, later,
}
use view_sync.Worker.Sync.Turns.{Reach-Turns, Place-at}
use view_sync.Worker.Sync.Ending.{Reach-trans, finished-IsOver}

-- A worker that has failed has the turn, and another waits for its own.
record Hung (j k : ℕ) (g : Group) : Type 0 where
  pub holder : g.phases j ≡ failed
  pub turn : g.sync_state num_workers ≡ j
  pub none_prints : (l : ℕ) → l < num_workers → g.phases l ≢ printing
  pub waits : (g.phases k ≡ waiting_turn) ⊎ (g.phases k ≡ failed)

-- Another worker moves, neither into printing nor from where the one waits.
moved-Hung :
    (j k i : ℕ) (g : Group) (p q : Phase)
    → g.phases i ≡ p
    → p ≢ failed
    → p ≢ waiting_turn
    → q ≢ printing
    → Hung j k g
    → Hung j k (moved g i q)
moved-Hung j k i g p q at alive elsewhere silent h = record {
  holder = rw (==_ne j i (λ e. alive (sym at ∙ ap g.phases (sym e) ∙ h.holder))) (h.holder);
  turn = h.turn;
  none_prints = λ l small. elim (Bool-cases (l == i)) [
    | inl same ↦ rw same silent
    | inr other ↦ rw other (h.none_prints l small)
  ];
  waits = elim h.waits [
    | inl w ↦ rw (==_ne k i (λ e. elsewhere (sym at ∙ ap g.phases (sym e) ∙ w))) (inl w)
    | inr f ↦ rw (==_ne k i (λ e. alive (sym at ∙ ap g.phases (sym e) ∙ f))) (inr f)
  ];
}

-- A worker that waits for its turn fails at most.
failed-Hung : (j k i : ℕ) (g : Group) → Hung j k g → Hung j k (moved g i failed)
failed-Hung j k i g h = record {
  holder = stays j h.holder;
  turn = h.turn;
  none_prints = λ l small. elim (Bool-cases (l == i)) [
    | inl same ↦ rw same (λ e. cc)
    | inr other ↦ rw other (h.none_prints l small)
  ];
  waits = elim (Bool-cases (k == i)) [
    | inl same ↦ rw same (inr refl)
    | inr other ↦ rw other (h.waits)
  ];
}
  where
    stays : (l : ℕ) → g.phases l ≡ failed → update g.phases i failed l ≡ failed
    stays l e = elim (Bool-cases (l == i)) [ inl same ↦ rw same refl | inr other ↦ rw other e ]

announced-Hung :
    (j k i : ℕ) (g : Group) (n : ℕ)
    → i < num_workers
    → Hung j k g
    → Hung j k (record g { sync_state = update g.sync_state i n })
announced-Hung j k i g n inside h = record {
  holder = h.holder;
  turn = ground (arith, h.turn);
  none_prints = h.none_prints;
  waits = h.waits;
}

same-Hung :
    (j k : ℕ) (g h : Group)
    → h.phases ≡ g.phases
    → h.sync_state ≡ g.sync_state
    → Hung j k g
    → Hung j k h
same-Hung j k g h same cells hung = record {
  holder = rw same (hung.holder);
  turn = rw cells (hung.turn);
  none_prints = λ l small. rw same (hung.none_prints l small);
  waits = rw same (hung.waits);
}

Step-Hung : (j k : ℕ) (g h : Group) → Hung j k g → Step g h → Hung j k h
Step-Hung j k g _ h (announces i inside at) =
    announced-Hung j k i (moved g i waiting) 1 inside
      (moved-Hung j k i g forked waiting at (λ e. cc) (λ e. cc) (λ e. cc) h)
Step-Hung j k g _ h (looks i inside at on) =
    moved-Hung j k i g waiting (scanning 0) at (λ e. cc) (λ e. cc) (λ e. cc) h
Step-Hung j k g _ h (gives_up i inside at off) =
    moved-Hung j k i g waiting broadcasting at (λ e. cc) (λ e. cc) (λ e. cc) h
Step-Hung j k g _ h (sees_ready i l inside at small ready) =
    moved-Hung j k i g (scanning l) (scanning (suc l)) at (λ e. cc) (λ e. cc) (λ e. cc) h
Step-Hung j k g _ h (sees_unready i l inside at small unready) =
    moved-Hung j k i g (scanning l) waiting at (λ e. cc) (λ e. cc) (λ e. cc) h
Step-Hung j k g _ h (goes i inside at) =
    moved-Hung j k i g (scanning num_workers) broadcasting at (λ e. cc) (λ e. cc) (λ e. cc) h
Step-Hung j k g _ h (stops i inside at off) =
    moved-Hung j k i g broadcasting waiting_turn at (λ e. cc) (λ e. cc) (λ e. cc) h
Step-Hung j k g _ h (takes_turn i inside at mine) =
    absurd (fails_to_take (sym at ∙ ap g.phases (sym mine ∙ h.turn) ∙ h.holder))
  where
    fails_to_take : waiting_turn ≢ failed
    fails_to_take e = cc
Step-Hung j k g _ h (passes i inside at) = absurd (h.none_prints i inside at)
Step-Hung j k g _ h (exits i inside at) =
    moved-Hung j k i g passed gone at (λ e. cc) (λ e. cc) (λ e. cc) h
Step-Hung j k g _ h (fails i inside may) = failed-Hung j k i g h
Step-Hung j k g _ h (signalled i inside) = same-Hung j k g _ refl refl h
Step-Hung j k g _ h (leaves at on) = same-Hung j k g _ refl refl h
Step-Hung j k g _ h (pauses at) = same-Hung j k g _ refl refl h
Step-Hung j k g _ h (parent_signalled at) = same-Hung j k g _ refl refl h
Step-Hung j k g _ h (wakes at) = same-Hung j k g _ refl refl h
Step-Hung j k g _ h (starts at off) = same-Hung j k g _ refl refl h
Step-Hung j k g _ h (kills l at inside) = same-Hung j k g _ refl refl h
Step-Hung j k g _ h (reaps l at over) = same-Hung j k g _ refl refl h
Step-Hung j k g _ h (finishes at) = same-Hung j k g _ refl refl h

Reach-Hung : (j k : ℕ) (g h : Group) → Hung j k g → Reach g h → Hung j k h
Reach-Hung j k g _ hung begin = hung
Reach-Hung j k g _ hung (later r step) = Step-Hung j k _ _ (Reach-Hung j k g _ hung r) step

-- Once a worker has failed before it passed its turn on, a worker that waits for its own waits for
-- ever, and `main` does not end, unless that worker fails too: whatever follows the moment where
-- the turn is at the one that has failed.
pub failed_hangs :
    (g h : Group) (j k : ℕ)
    → Reach forked_all g
    → j < num_workers
    → k < num_workers
    → g.phases j ≡ failed
    → g.sync_state num_workers ≡ j
    → g.phases k ≡ waiting_turn
    → Reach g h
    → ((h.phases k ≡ waiting_turn) × (h.parent ≢ finished)) ⊎ (h.phases k ≡ failed)
failed_hangs g h j k reached small inside dead turn waits on = elim after.waits [
  | inl w ↦ inl (
    w,
    λ e.
        elim (subst IsOver w
          (finished-IsOver h k (Reach-trans forked_all g h reached on) e inside)) [ ],
  )
  | inr f ↦ inr f
]
  where
    silent : (l : ℕ) → l < num_workers → g.phases l ≢ printing
    silent l lt at =
        let (c, t) = Reach-Turns g reached in
        let own : l ≡ c = Place-at g c l printing lt at t in
        let same : l ≡ j = omega (arith, t.turn) in
        absurd (alive (sym at ∙ ap g.phases same ∙ dead))
      where
        alive : printing ≢ failed
        alive e = cc

    after : Hung j k h
    after =
        Reach-Hung j k g h
          (record { holder = dead; turn = turn; none_prints = silent; waits = inl waits }) on
