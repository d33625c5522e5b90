-- ===== src/Worker/Sync/Stopping.antt =====
-- How each worker can stop from where it is, in turn.
use view_sync.Prelude.{
  ℕ, zero, suc, ◌+◌, ◌%◌, ◌≤◌, ◌<◌, ◌≡◌, ◌≢◌, refl, sym, subst, ◌∙◌, inl, inr, false, Bool-cases,
  ◌==◌, arith, ==_iff, ==_ne, ==_refl, ap, ◌-◌,
}
use view_sync.System.{update}
use view_sync.Worker.{num_workers}
use view_sync.Worker.Sync.{
  Phase, forked, waiting, broadcasting, waiting_turn, printing, passed, gone, failed, scanning,
  Group, forked_all, moved, Step, announces, gives_up, sees_ready, sees_unready, goes, stops,
  takes_turn, passes, exits, signalled, Reach, begin, later,
}
use view_sync.Worker.Sync.Turns.{Place, Place-next, Turns}
use view_sync.Worker.Sync.Barrier.{scanning-le}
use view_sync.Worker.Sync.Ending.{Reach-trans}

-- A group that follows by steps of one worker, which is told to stop.
record After (i : ℕ) (g : Group) (p : Phase) (t : ℕ) : Type 0 where
  pub to : Group
  pub path : Reach g to
  pub at : to.phases i ≡ p
  pub others : (k : ℕ) → k ≢ i → to.phases k ≡ g.phases k
  pub turn : to.sync_state num_workers ≡ t
  pub off : to.running i ≡ false
  pub parent : to.parent ≡ g.parent

module _ (i : ℕ) (inside : i < num_workers) (g : Group) where
  told : After i g (g.phases i) (g.sync_state num_workers)
  told = record {
    to = record g { running = update g.running i false };
    path = later begin (signalled i inside);
    at = refl;
    others = λ k ne. refl;
    turn = refl;
    off = rw (==_refl i);
    parent = refl;
  }

  hop : (p q : Phase) (t : ℕ) (s : After i g p t) → Step s.to (moved s.to i q) → After i g q t
  hop p q t s step = record {
    to = moved s.to i q;
    path = later s.path step;
    at = rw (==_refl i);
    others = λ k ne. rw (==_ne k i ne) (s.others k ne);
    turn = s.turn;
    off = s.off;
    parent = s.parent;
  }

  announced : (t : ℕ) → After i g forked t → After i g waiting t
  announced t s = record {
    to = record (moved s.to i waiting) { sync_state = update s.to.sync_state i 1 };
    path = later s.path (announces i inside s.at);
    at = rw (==_refl i);
    others = λ k ne. rw (==_ne k i ne) (s.others k ne);
    turn = rw (==_ne num_workers i (λ e. omega (arith, inside, e))) (s.turn);
    off = s.off;
    parent = s.parent;
  }

  passed_on : (t : ℕ) → After i g printing t → After i g passed ((t + 1) % num_workers)
  passed_on t s = record {
    to = record (moved s.to i passed) {
      sync_state =
          update s.to.sync_state num_workers ((s.to.sync_state num_workers + 1) % num_workers);
    };
    path = later s.path (passes i inside s.at);
    at = rw (==_refl i);
    others = λ k ne. rw (==_ne k i ne) (s.others k ne);
    turn = ap (λ n. (n + 1) % num_workers) s.turn;
    off = s.off;
    parent = s.parent;
  }

  from_broadcasting : (t : ℕ) → After i g broadcasting t → After i g waiting_turn t
  from_broadcasting t s = hop broadcasting waiting_turn t s (stops i inside s.at s.off)

  from_waiting : (t : ℕ) → After i g waiting t → After i g waiting_turn t
  from_waiting t s =
      from_broadcasting t (hop waiting broadcasting t s (gives_up i inside s.at s.off))

  from_scanning :
      (t n k : ℕ) → n + k ≡ num_workers → After i g (scanning k) t → After i g waiting_turn t
  from_scanning t zero k e s =
      let seen : k ≡ num_workers = omega (arith, e) in
      from_broadcasting t
        (hop (scanning k) broadcasting t s (goes i inside (s.at ∙ ap scanning seen)))
  from_scanning t (suc n) k e s = elim (Bool-cases (s.to.sync_state k == 0)) [
    | inl unready ↦ from_waiting t (
        hop (scanning k) waiting t s
          (sees_unready i k inside s.at (omega arith) ((==_iff (s.to.sync_state k) 0).0 unready)))
    | inr ready ↦ from_scanning t n (suc k) (omega arith) (
        hop (scanning k) (scanning (suc k)) t s
          (sees_ready i k inside s.at (omega arith) (ground arith)))
  ]

  from_printing : (t : ℕ) → After i g printing t → After i g gone ((t + 1) % num_workers)
  from_printing t s =
      let done = passed_on t s in
      hop passed gone ((t + 1) % num_workers) done (exits i inside done.at)

  from_turn : After i g waiting_turn i → After i g gone ((i + 1) % num_workers)
  from_turn s = from_printing i (hop waiting_turn printing i s (takes_turn i inside s.at s.turn))

  -- The worker whose turn it is stops.
  shut_down :
      (p : Phase)
      → Place i i p
      → p ≢ failed
      → ((k : ℕ) → p ≡ scanning k → k ≤ num_workers)
      → After i g p i
      → After i g gone ((i + 1) % num_workers)
  shut_down forked place alive bound s = from_turn (from_waiting i (announced i s))
  shut_down waiting place alive bound s = from_turn (from_waiting i s)
  shut_down (scanning k) place alive bound s =
      let small : k ≤ num_workers = bound k refl in
      from_turn (from_scanning i (num_workers - k) k (omega arith) s)
  shut_down broadcasting place alive bound s = from_turn (from_broadcasting i s)
  shut_down waiting_turn place alive bound s = from_turn s
  shut_down printing place alive bound s = from_printing i s
  shut_down passed place alive bound s = absurd (omega (arith, place))
  shut_down gone place alive bound s = absurd (omega (arith, place))
  shut_down failed place alive bound s = absurd (alive refl)

abbrev pub NoneFailed : Group → Type 0
NoneFailed g = (k : ℕ) → k < num_workers → g.phases k ≢ failed

-- One more turn has been passed on.
After-Turns :
    (g : Group) (c : ℕ)
    → c < num_workers
    → Turns g c
    → (s : After c g gone ((c + 1) % num_workers)) → Turns s.to (suc c)
After-Turns g c small t s = record {
  bound = omega arith;
  turn = s.turn ∙ omega arith;
  places = λ k inside. elim (Bool-cases (k == c)) [
    | inl same ↦
        let here : k ≡ c = (==_iff k c).0 same in
        subst (Place (suc c) k) (sym (ap s.to.phases here ∙ s.at)) (omega arith)
    | inr other ↦
        let ne : k ≢ c = ground arith in
        subst (Place (suc c) k) (sym (s.others k ne))
          (Place-next c k (g.phases k) ne (t.places k inside))
  ];
}

After-NoneFailed : (g : Group) (c t : ℕ) → NoneFailed g → (s : After c g gone t) → NoneFailed s.to
After-NoneFailed g c t alive s k inside e = elim (Bool-cases (k == c)) [
  | inl same ↦ cc (s.at, e, (==_iff k c).0 same)
  | inr other ↦ alive k inside (sym (s.others k (ground arith)) ∙ e)
]

-- The worker that has the turn stops from where it is.
next_stops :
    (g : Group) (c : ℕ)
    → Reach forked_all g
    → c < num_workers
    → Turns g c
    → NoneFailed g
    → After c g gone ((c + 1) % num_workers)
next_stops g c reached small t alive =
    shut_down c small g (g.phases c) (t.places c small) (alive c small)
      (λ k at. scanning-le g c k reached small at)
      (subst (After c g (g.phases c)) (t.turn ∙ omega arith) (told c small g))

-- All turns are passed on.
pub record AllPassed (g : Group) : Type 0 where
  pub to : Group
  pub path : Reach g to
  pub alive : NoneFailed to
  pub turns : Turns to num_workers

pub all_stop :
    (n c : ℕ) (g : Group)
    → n + c ≡ num_workers
    → Reach forked_all g
    → Turns g c
    → NoneFailed g
    → AllPassed g
all_stop zero c g e reached t alive =
    let last : c ≡ num_workers = omega (arith, e) in
    record { to = g; path = begin; alive = alive; turns = subst (Turns g) last t }
all_stop (suc n) c g e reached t alive =
    let s = next_stops g c reached (omega arith) t alive in
    let rest =
      all_stop n (suc c) s.to (omega arith) (Reach-trans forked_all g s.to reached s.path)
        (After-Turns g c (omega arith) t s) (After-NoneFailed g c _ alive s) in
    record {
      to = rest.to;
      path = Reach-trans g s.to rest.to s.path rest.path;
      alive = rest.alive;
      turns = rest.turns;
    }
