-- ===== src/Outbox/Running.antt =====
-- The invariant of a tick of src/telemetry/redis_bus.rs, and that the handling of an event keeps it.
use rust_ia_micro_agents.Base.{
  ℕ, ◌+◌, ◌≤◌, ◌≡◌, refl, sym, ap, subst, Bool, true, false, List, [], ◌∷◌, ◌⊎◌, inl, arith, All,
  count, is_some, if◌then◌else◌, ◌==◌,
}
use rust_ia_micro_agents.Base.Rows.{update_where, count-update_where}
use rust_ia_micro_agents.Base.Selection.{occurrences, occurrences-snoc}
use rust_ia_micro_agents.Outbox.Events.{OutboxEventRecord, event_id, has_event_id, is_pending}
use rust_ia_micro_agents.Outbox.Publisher.{World}
use rust_ia_micro_agents.Outbox.Effects.{bit, added, Effect}

-- The stream has the event as often as it was taken without being marked, and once more if it is
-- marked.
abbrev pub IsExact : List ℕ → List ℕ → OutboxEventRecord → Type 0
IsExact stream lost row =
    occurrences (event_id row) stream
    ≡ occurrences (event_id row) lost + bit (is_some row.published_at)

abbrev IsListed : List ℕ → OutboxEventRecord → Type 0
IsListed due row = (occurrences (event_id row) due ≡ 0) ⊎ (is_pending row ≡ true)

-- The invariant of a tick; `due` are the ids that are still to be handled in it.
pub record IsRunning (w : World) (due : List ℕ) : Type 0 where
  pub rows : All (IsExact w.stream w.lost) w.rows
  pub unknown :
      (i : ℕ)
      → count (has_event_id i) w.rows ≡ 0
      → (occurrences i w.stream ≡ 0) × (occurrences i w.lost ≡ 0)
  pub distinct : (i : ℕ) → count (has_event_id i) w.rows ≤ 1
  pub listed : All (IsListed due) w.rows
  pub waiting : All (λ d. 1 ≤ count (has_event_id d) w.rows) due
  pub once : (i : ℕ) → occurrences i due ≤ 1

occurrences-added :
    (b : Bool) (i d : ℕ) (ids : List ℕ)
    → occurrences i (added b d ids) ≡ occurrences i ids + (if d == i then bit b else 0)
occurrences-added true i d ids = ground (arith, occurrences-snoc i d ids)
occurrences-added false i d ids = ground arith

module _ {d : ℕ} {w w' : World} (e : Effect d w w') (due : List ℕ)
    (last : occurrences d due ≡ 0) where
  abbrev changed : OutboxEventRecord → OutboxEventRecord
  changed row = if has_event_id d row then e.change row else row

  occurrences-stream :
      (i : ℕ)
      → occurrences i w'.stream ≡ occurrences i w.stream + (if d == i then bit e.sent else 0)
  occurrences-stream i = rw e.stream (occurrences-added e.sent i d w.stream)

  occurrences-lost :
      (i : ℕ)
      → occurrences i w'.lost ≡ occurrences i w.lost + (if d == i then bit e.unmarked else 0)
  occurrences-lost i = rw e.lost (occurrences-added e.unmarked i d w.lost)

  row-IsExact :
      (row : OutboxEventRecord)
      → IsExact w.stream w.lost row
      → IsListed (d ∷ due) row
      → IsExact w'.stream w'.lost (changed row)
  unfolding is_pending
  row-IsExact row x l = ground (
    arith,
    occurrences-stream (event_id row),
    occurrences-lost (event_id row),
    e.counts row,
    e.keeps_id row,
  )

  row-IsListed : (row : OutboxEventRecord) → IsListed (d ∷ due) row → IsListed due (changed row)
  row-IsListed row l = ground (arith, e.keeps_id row, last)

  rows-Effect :
      (rows : List OutboxEventRecord)
      → All (IsExact w.stream w.lost) rows
      → All (IsListed (d ∷ due)) rows
      → All (IsExact w'.stream w'.lost) (update_where (has_event_id d) e.change rows)
        × All (IsListed due) (update_where (has_event_id d) e.change rows)
  rows-Effect [] x l = (tt, tt)
  rows-Effect (row ∷ rest) x l =
      let (exact, listed) = rows-Effect rest x.1 l.1 in
      ((row-IsExact row x.0 l.0, exact), (row-IsListed row l.0, listed))

  count-Effect : (i : ℕ) → count (has_event_id i) w'.rows ≡ count (has_event_id i) w.rows
  count-Effect i = rw e.rows (
      count-update_where (has_event_id i) (has_event_id d) e.change w.rows
        (λ row. ap (λ k. k == i) (e.keeps_id row)))

  waiting-Effect :
      (ids : List ℕ)
      → All (λ k. 1 ≤ count (has_event_id k) w.rows) ids
      → All (λ k. 1 ≤ count (has_event_id k) w'.rows) ids
  waiting-Effect [] h = tt
  waiting-Effect (k ∷ ks) h = (omega (arith, h.0, count-Effect k), waiting-Effect ks h.1)

pub publish_event-IsRunning :
    {d : ℕ} {w w' : World} (due : List ℕ) → Effect d w w' → IsRunning w (d ∷ due) → IsRunning w' due
publish_event-IsRunning {d} {w} {w'} due e r =
    let last : occurrences d due ≡ 0 = ground (arith, r.once d) in
    let (exact, listed) = rows-Effect e due last w.rows r.rows r.listed in
    record {
      rows = subst (All (IsExact w'.stream w'.lost)) (sym e.rows) exact;
      unknown = λ i h. (
        ground (
          arith,
          occurrences-stream e due last i,
          r.unknown i,
          count-Effect e due last i,
          r.waiting.0,
        ),
        ground (
          arith,
          occurrences-lost e due last i,
          r.unknown i,
          count-Effect e due last i,
          r.waiting.0,
        ),
      );
      distinct = λ i. omega (arith, count-Effect e due last i, r.distinct i);
      listed = subst (All (IsListed due)) (sym e.rows) listed;
      waiting = waiting-Effect e due last due r.waiting.1;
      once = λ i. ground (arith, r.once i);
    }

pub all_listed : (rows : List OutboxEventRecord) → All (IsListed []) rows
all_listed [] = tt
all_listed (row ∷ rows) = (inl refl, all_listed rows)

-- A tick may end before all that it fetched was handled.
pub stopped-IsRunning : {w : World} {due : List ℕ} → IsRunning w due → IsRunning w []
stopped-IsRunning {w} r = record {
  rows = r.rows;
  unknown = r.unknown;
  distinct = r.distinct;
  listed = all_listed w.rows;
  waiting = tt;
  once = λ i. omega arith;
}
