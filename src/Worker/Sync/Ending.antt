-- ===== src/Worker/Sync/Ending.antt =====
-- When `main` ends.
use view_sync.Prelude.{
  ℕ, suc, ◌≤◌, ◌<◌, ◌≡◌, refl, sym, subst, inl, inr, Bool-cases, ◌==◌, arith, ==_iff,
}
use view_sync.System.{update}
use view_sync.Worker.{num_workers}
use view_sync.Worker.Sync.{
  Phase, forked, waiting, broadcasting, waiting_turn, printing, passed, gone, failed, scanning,
  Group, Parent, testing, leaving, paused, killing, reaping, finished, IsOver, forked_all, MayFail,
  in_setup, in_loop, in_wait, in_print, in_stop, Step, announces, looks, gives_up, sees_ready,
  sees_unready, goes, stops, takes_turn, passes, exits, fails, signalled, leaves, pauses,
  parent_signalled, wakes, starts, kills, reaps, finishes, Reach, begin, later,
}

-- What the place of `main` says of the workers.
abbrev pub Ended : (ℕ → Phase) → Parent → Type 0
Ended phases testing = Unit
Ended phases leaving = Unit
Ended phases paused = Unit
Ended phases (killing k) = (k ≤ num_workers) × ((l : ℕ) → l < k → IsOver (phases l))
Ended phases (reaping k) = (k < num_workers) × ((l : ℕ) → l < k → IsOver (phases l))
Ended phases finished = (l : ℕ) → l < num_workers → IsOver (phases l)

Ended-map :
    (phases phases' : ℕ → Phase) (p : Parent)
    → ((l : ℕ) → IsOver (phases l) → IsOver (phases' l))
    → Ended phases p
    → Ended phases' p
Ended-map phases phases' testing f h = tt
Ended-map phases phases' leaving f h = tt
Ended-map phases phases' paused f h = tt
Ended-map phases phases' (killing k) f h = (h.0, λ l lt. f l (h.1 l lt))
Ended-map phases phases' (reaping k) f h = (h.0, λ l lt. f l (h.1 l lt))
Ended-map phases phases' finished f h = λ l lt. f l (h l lt)

-- A process that goes on had not ended.
moved-Ended :
    (g : Group) (i : ℕ) (p q : Phase)
    → g.phases i ≡ p
    → ¬ IsOver p
    → Ended g.phases g.parent
    → Ended (update g.phases i q) g.parent
moved-Ended g i p q at ongoing h =
    Ended-map g.phases (update g.phases i q) g.parent
      (λ l over. elim (Bool-cases (l == i)) [
        | inl same ↦ absurd (
            ongoing (subst IsOver at (subst (λ n. IsOver (g.phases n)) ((==_iff l i).0 same) over)))
        | inr other ↦ rw other over
      ])
      h

MayFail-not-IsOver : (p : Phase) → MayFail p → ¬ IsOver p
MayFail-not-IsOver _ in_setup over = elim over [ ]
MayFail-not-IsOver _ in_loop over = elim over [ ]
MayFail-not-IsOver _ in_wait over = elim over [ ]
MayFail-not-IsOver _ in_print over = elim over [ ]
MayFail-not-IsOver _ in_stop over = elim over [ ]

one_more-IsOver :
    (phases : ℕ → Phase) (k : ℕ)
    → IsOver (phases k)
    → ((l : ℕ) → l < k → IsOver (phases l))
    → (l : ℕ) → l < suc k
    → IsOver (phases l)
one_more-IsOver phases k over before l lt = elim (Bool-cases (l == k)) [
  | inl same ↦ subst (λ n. IsOver (phases n)) (sym ((==_iff l k).0 same)) over
  | inr other ↦ before l (ground arith)
]

Step-Ended : (g h : Group) → Ended g.phases g.parent → Step g h → Ended h.phases h.parent
Step-Ended g _ h (announces i inside at) =
    moved-Ended g i forked waiting at (λ over. elim over [ ]) h
Step-Ended g _ h (looks i inside at on) =
    moved-Ended g i waiting (scanning 0) at (λ over. elim over [ ]) h
Step-Ended g _ h (gives_up i inside at off) =
    moved-Ended g i waiting broadcasting at (λ over. elim over [ ]) h
Step-Ended g _ h (sees_ready i l inside at small ready) =
    moved-Ended g i (scanning l) (scanning (suc l)) at (λ over. elim over [ ]) h
Step-Ended g _ h (sees_unready i l inside at small unready) =
    moved-Ended g i (scanning l) waiting at (λ over. elim over [ ]) h
Step-Ended g _ h (goes i inside at) =
    moved-Ended g i (scanning num_workers) broadcasting at (λ over. elim over [ ]) h
Step-Ended g _ h (stops i inside at off) =
    moved-Ended g i broadcasting waiting_turn at (λ over. elim over [ ]) h
Step-Ended g _ h (takes_turn i inside at mine) =
    moved-Ended g i waiting_turn printing at (λ over. elim over [ ]) h
Step-Ended g _ h (passes i inside at) = moved-Ended g i printing passed at (λ over. elim over [ ]) h
Step-Ended g _ h (exits i inside at) = moved-Ended g i passed gone at (λ over. elim over [ ]) h
Step-Ended g _ h (fails i inside may) =
    moved-Ended g i (g.phases i) failed refl (MayFail-not-IsOver (g.phases i) may) h
Step-Ended g _ h (signalled i inside) = h
Step-Ended g _ h (leaves at on) = tt
Step-Ended g _ h (pauses at) = tt
Step-Ended g _ h (parent_signalled at) = h
Step-Ended g _ h (wakes at) = tt
Step-Ended g _ h (starts at off) = (omega arith, λ l lt. absurd (omega arith))
Step-Ended g _ h (kills k at inside) = (inside, (subst (Ended g.phases) at h).1)
Step-Ended g _ h (reaps k at over) =
    let before = subst (Ended g.phases) at h in
    (omega (arith, before.0), one_more-IsOver g.phases k over before.1)
Step-Ended g _ h (finishes at) = (subst (Ended g.phases) at h).1

pub Reach-Ended : (g : Group) → Reach forked_all g → Ended g.phases g.parent
Reach-Ended _ begin = tt
Reach-Ended _ (later r step) = Step-Ended _ _ (Reach-Ended _ r) step

-- `main` ends only after every worker's process has ended.
pub finished-IsOver :
    (g : Group) (k : ℕ)
    → Reach forked_all g
    → g.parent ≡ finished
    → k < num_workers
    → IsOver (g.phases k)
finished-IsOver g k reached at small = subst (Ended g.phases) at (Reach-Ended g reached) k small

pub Reach-trans : (f g h : Group) → Reach f g → Reach g h → Reach f h
Reach-trans f g _ r begin = r
Reach-trans f g _ r (later s step) = later (Reach-trans f g _ r s) step
