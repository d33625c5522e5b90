-- ===== src/Worker/Sync/Barrier.antt =====
-- No worker starts to broadcast before all are set up, unless it is told to stop.
use view_sync.Prelude.{
  ℕ, suc, ◌≤◌, ◌<◌, ◌≡◌, ◌≢◌, refl, sym, subst, inl, inr, Bool, true, false, Bool-cases, ◌==◌,
  arith, ==_iff,
}
use view_sync.System.{update}
use view_sync.Worker.{num_workers}
use view_sync.Worker.Sync.{
  Phase, forked, waiting, broadcasting, waiting_turn, printing, passed, gone, failed, scanning,
  Group, forked_all, moved, Step, announces, looks, gives_up, sees_ready, sees_unready, goes, stops,
  takes_turn, passes, exits, fails, signalled, leaves, pauses, parent_signalled, wakes, starts,
  kills, reaps, finishes, Reach, begin, later,
}

abbrev AllReady : (ℕ → ℕ) → Type 0
AllReady cells = (k : ℕ) → k < num_workers → cells k ≢ 0

-- What a worker's place says of the memory.
abbrev Fits : (ℕ → ℕ) → ℕ → Bool → Phase → Type 0
Fits cells i r forked = cells i ≡ 0
Fits cells i r (scanning k) = (k ≤ num_workers) × ((l : ℕ) → l < k → cells l ≢ 0)
Fits cells i r broadcasting = r ≡ true → AllReady cells
Fits cells i r waiting = Unit
Fits cells i r waiting_turn = Unit
Fits cells i r printing = Unit
Fits cells i r passed = Unit
Fits cells i r gone = Unit
Fits cells i r failed = Unit

abbrev Barrier : Group → Type 0
Barrier g = (i : ℕ) → i < num_workers → Fits g.sync_state i (g.running i) (g.phases i)

-- Memory that grows for the workers, and does not for one that has not started.
Fits-grows :
    (cells cells' : ℕ → ℕ) (i : ℕ) (r : Bool) (p : Phase)
    → ((k : ℕ) → k < num_workers → cells k ≢ 0 → cells' k ≢ 0)
    → (cells i ≡ 0 → cells' i ≡ 0)
    → Fits cells i r p
    → Fits cells' i r p
Fits-grows cells cells' i r forked grow same h = same h
Fits-grows cells cells' i r (scanning k) grow same h =
    (h.0, λ l lt. grow l (omega (arith, h.0)) (h.1 l lt))
Fits-grows cells cells' i r broadcasting grow same h = λ e k lt. grow k lt (h e k lt)
Fits-grows cells cells' i r waiting grow same h = tt
Fits-grows cells cells' i r waiting_turn grow same h = tt
Fits-grows cells cells' i r printing grow same h = tt
Fits-grows cells cells' i r passed grow same h = tt
Fits-grows cells cells' i r gone grow same h = tt
Fits-grows cells cells' i r failed grow same h = tt

Fits-stops :
    (cells : ℕ → ℕ) (i : ℕ) (r : Bool) (p : Phase) → Fits cells i r p → Fits cells i false p
Fits-stops cells i r forked h = h
Fits-stops cells i r (scanning k) h = h
Fits-stops cells i r broadcasting h = λ e. absurd (cc)
Fits-stops cells i r waiting h = tt
Fits-stops cells i r waiting_turn h = tt
Fits-stops cells i r printing h = tt
Fits-stops cells i r passed h = tt
Fits-stops cells i r gone h = tt
Fits-stops cells i r failed h = tt

-- One worker moves, and the memory stays.
moved-Barrier :
    (g : Group) (i : ℕ) (p : Phase)
    → Fits g.sync_state i (g.running i) p
    → Barrier g
    → Barrier (moved g i p)
moved-Barrier g i p fits b j inside = elim (Bool-cases (j == i)) [
  | inl same ↦
      rw same (subst (λ k. Fits g.sync_state k (g.running k) p) (sym ((==_iff j i).0 same)) fits)
  | inr other ↦ rw other (b j inside)
]

stopped-Barrier :
    (g : Group) (i : ℕ) → Barrier g → Barrier (record g { running = update g.running i false })
stopped-Barrier g i b j inside = elim (Bool-cases (j == i)) [
  | inl same ↦ rw same (Fits-stops g.sync_state j (g.running j) (g.phases j) (b j inside))
  | inr other ↦ rw other (b j inside)
]

announced-Barrier :
    (g : Group) (i : ℕ)
    → Barrier g
    → Barrier (record (moved g i waiting) { sync_state = update g.sync_state i 1 })
announced-Barrier g i b j inside = elim (Bool-cases (j == i)) [
  | inl same ↦ rw same tt
  | inr other ↦ rw other (
      Fits-grows g.sync_state (update g.sync_state i 1) j (g.running j) (g.phases j)
        (λ k small ready. ground arith) (λ zero. rw other zero) (b j inside))
]

passed-Barrier :
    (g : Group) (i n : ℕ)
    → Barrier g
    → Barrier (record (moved g i passed) { sync_state = update g.sync_state num_workers n })
passed-Barrier g i n b j inside =
    let kept = moved-Barrier g i passed tt b j inside in
    Fits-grows g.sync_state (update g.sync_state num_workers n) j (g.running j)
      (update g.phases i passed j) (λ k small ready. ground arith) (λ zero. ground arith) kept

-- Where a worker is, the memory is as its place says.
placed :
    (g : Group) (i : ℕ) (p : Phase)
    → i < num_workers
    → g.phases i ≡ p
    → Barrier g
    → Fits g.sync_state i (g.running i) p
placed g i p inside at b = subst (Fits g.sync_state i (g.running i)) at (b i inside)

one_more :
    (cells : ℕ → ℕ) (k : ℕ)
    → cells k ≢ 0
    → ((l : ℕ) → l < k → cells l ≢ 0)
    → (l : ℕ) → l < suc k
    → cells l ≢ 0
one_more cells k at before l lt = elim (Bool-cases (l == k)) [
  | inl same ↦ subst (λ n. cells n ≢ 0) (sym ((==_iff l k).0 same)) at
  | inr other ↦ before l (ground arith)
]

Step-Barrier : (g h : Group) → Barrier g → Step g h → Barrier h
Step-Barrier g _ b (announces i inside at) = announced-Barrier g i b
Step-Barrier g _ b (looks i inside at on) =
    moved-Barrier g i (scanning 0) (omega arith, λ l lt. absurd (omega arith)) b
Step-Barrier g _ b (gives_up i inside at off) = moved-Barrier g i broadcasting (λ on. absurd (cc)) b
Step-Barrier g _ b (sees_ready i k inside at small ready) =
    moved-Barrier g i (scanning (suc k))
      (omega arith, one_more g.sync_state k ready ((placed g i (scanning k) inside at b).1)) b
Step-Barrier g _ b (sees_unready i k inside at small unready) = moved-Barrier g i waiting tt b
Step-Barrier g _ b (goes i inside at) =
    moved-Barrier g i broadcasting (λ on. (placed g i (scanning num_workers) inside at b).1) b
Step-Barrier g _ b (stops i inside at off) = moved-Barrier g i waiting_turn tt b
Step-Barrier g _ b (takes_turn i inside at turn) = moved-Barrier g i printing tt b
Step-Barrier g _ b (passes i inside at) = passed-Barrier g i _ b
Step-Barrier g _ b (exits i inside at) = moved-Barrier g i gone tt b
Step-Barrier g _ b (fails i inside may) = moved-Barrier g i failed tt b
Step-Barrier g _ b (signalled i inside) = stopped-Barrier g i b
Step-Barrier g _ b (leaves at on) = b
Step-Barrier g _ b (pauses at) = b
Step-Barrier g _ b (parent_signalled at) = b
Step-Barrier g _ b (wakes at) = b
Step-Barrier g _ b (starts at off) = b
Step-Barrier g _ b (kills k at inside) = stopped-Barrier g k b
Step-Barrier g _ b (reaps k at over) = b
Step-Barrier g _ b (finishes at) = b

Reach-Barrier : (g : Group) → Reach forked_all g → Barrier g
Reach-Barrier _ begin = λ i inside. refl
Reach-Barrier _ (later r step) = Step-Barrier _ _ (Reach-Barrier _ r) step

-- A worker that broadcasts and has not been told to stop has started after every worker has
-- announced its setup, and none of them is in it any more.
pub barrier-AllReady :
    (g : Group) (i : ℕ)
    → Reach forked_all g
    → i < num_workers
    → g.phases i ≡ broadcasting
    → g.running i ≡ true
    → (k : ℕ) → k < num_workers
    → (g.sync_state k ≢ 0) × (g.phases k ≢ forked)
barrier-AllReady g i reached inside at on k small =
    let b = Reach-Barrier g reached in
    let ready : g.sync_state k ≢ 0 = placed g i broadcasting inside at b on k small in
    (ready, λ e. ready (placed g k forked small e b))

-- A scan does not leave the workers' part of the memory.
pub scanning-le :
    (g : Group) (i k : ℕ)
    → Reach forked_all g
    → i < num_workers
    → g.phases i ≡ scanning k
    → k ≤ num_workers
scanning-le g i k reached inside at =
    (placed g i (scanning k) inside at (Reach-Barrier g reached)).0
