-- ===== src/Memory/Collects.antt =====
-- `cbc_collect_statistics` of src/cbcast/statistics.c with the block of the snapshot.
use view_sync.Prelude.{ℕ, ◌+◌, ◌≡◌, refl, some, arith}
use view_sync.Prelude.Outcome.{Outcome, done, exit, fault, spin, ◌>>=◌}
use view_sync.State.{Stats, Cbcast}
use view_sync.Statistics.{CJson, cbc_collect_statistics}
use view_sync.Memory.Heap.{
  Heap, calloc, free_if, reads, one, Holds-as, calloc-Holds, free_if-Holds, reads-Holds,
}
use view_sync.Memory.Blocks.{one_self}
use view_sync.Memory.Matches.{Matches, both, ends, breaks, loops, Matches-heap}
use view_sync.Memory.Context.{Context, forget, reached, lost, Owned, Agrees}

module _ {Json : Type 0} (c : CJson Json) where
  -- The old snapshot is freed and the new one takes its place.
  unfoldable pub cbc_collect_statistics_in : Context → Outcome (Context × Json)
  unfolding cbc_collect_statistics
  cbc_collect_statistics_in st = do
    let (snapshot, h₁) = calloc st.heap
    h₂ ← reads h₁ st.stats_at
    h₃ ← free_if h₂ st.snapshot
    (cbc, json) ← cbc_collect_statistics c (forget st)
    done (record st { heap = h₃; snapshot = some snapshot; stats = cbc.stats }, json)

  -- The state and the entry.
  abbrev Collected : (ℕ → ℕ) → Context × Json → Cbcast × Json → Type 0
  Collected e (st, json) (cbc, json') = Agrees e st cbc × (json ≡ json')

  collected :
      (e : ℕ → ℕ) (st : Context) (h : Heap) (snapshot : ℕ) (stats : Stats) (m : Outcome Json)
      → Owned e (record st { heap = h; snapshot = some snapshot })
      → Matches
          (Collected e)
          (m >>= (λ json. done (record (forget st) { stats = stats }, json)) >>= (λ (cbc, json).
            done (record st { heap = h; snapshot = some snapshot; stats = cbc.stats }, json)))
          (m >>= λ json. done (record (forget st) { stats = stats }, json))
  collected e st h snapshot stats (done json) owned = both ((refl, owned), refl)
  collected e st h snapshot stats exit owned = ends
  collected e st h snapshot stats fault owned = breaks
  collected e st h snapshot stats spin owned = loops

  -- Collecting the statistics does with its blocks what Statistics computes, and again every block
  -- is owned once: the old snapshot has been freed.
  pub cbc_collect_statistics_in-Collected :
      (e : ℕ → ℕ) (st : Context)
      → Owned e st
      → Matches (Collected e) (cbc_collect_statistics_in st) (cbc_collect_statistics c (forget st))
  unfolding cbc_collect_statistics_in cbc_collect_statistics
  cbc_collect_statistics_in-Collected e st owned =
      let new = (calloc st.heap).0 in
      Matches-heap
        (reads-Holds (calloc st.heap).1 st.stats_at
          (λ a. one new a + (e a + (reached st a + lost st a)))
          (omega (arith, one_self st.stats_at)) (calloc-Holds st.heap _ owned))
        λ h₂ o₂.
          Matches-heap
            (free_if-Holds h₂ st.snapshot
              (λ a. e a + (reached (record st { snapshot = some new }) a + lost st a))
              (Holds-as h₂ _ _ (λ a. omega arith) o₂))
            λ h₃ o₃. collected e st h₃ new _ _ o₃
