-- ===== src/Outbox/Fetch.antt =====
-- The events that a tick of src/telemetry/redis_bus.rs fetches: pending, each once.
use rust_ia_micro_agents.Base.{ℕ, ◌≤◌, ◌≡◌, refl, List, [], ◌∷◌, map, arith, All, count, filter}
use rust_ia_micro_agents.Base.Rows.{
  order_by, All-filter, All-order_by, All-take, count-take-le, count-filter-le, count-order_by,
}
use rust_ia_micro_agents.Base.Selection.{occurrences, All_listed}
use rust_ia_micro_agents.Outbox.Events.{
  OutboxEventRecord, event_id, has_event_id, is_pending, fetch_pending_outbox_events,
}
use rust_ia_micro_agents.Outbox.Publisher.{World}
use rust_ia_micro_agents.Outbox.Running.{IsRunning}

occurrences-map :
    (i : ℕ) (rows : List OutboxEventRecord)
    → occurrences i (map event_id rows) ≡ count (has_event_id i) rows
occurrences-map i [] = refl
occurrences-map i (row ∷ rows) = ground (arith, occurrences-map i rows)

own_count-behind :
    (row : OutboxEventRecord) (rest rows : List OutboxEventRecord)
    → All (λ k. 1 ≤ count (has_event_id (event_id k)) rest) rows
    → All (λ k. 1 ≤ count (has_event_id (event_id k)) (row ∷ rest)) rows
own_count-behind row rest [] h = tt
own_count-behind row rest (k ∷ ks) h = (ground (arith, h.0), own_count-behind row rest ks h.1)

-- Every key that a row has is counted among the rows.
own_count :
    (rows : List OutboxEventRecord) → All (λ row. 1 ≤ count (has_event_id (event_id row)) rows) rows
own_count [] = tt
own_count (row ∷ rows) = (ground arith, own_count-behind row rows rows (own_count rows))

ids_of_rows :
    (P : ℕ → Type 0) (rows : List OutboxEventRecord)
    → All (λ row. P (event_id row)) rows
    → All P (map event_id rows)
ids_of_rows P [] h = tt
ids_of_rows P (row ∷ rows) h = (h.0, ids_of_rows P rows h.1)

module _ (limit : ℕ) (w : World) (r : IsRunning w []) where
  abbrev pending : List OutboxEventRecord
  pending = filter is_pending w.rows

  abbrev due : List ℕ
  due = map event_id (fetch_pending_outbox_events limit w.rows)

  due-le : (i : ℕ) → occurrences i due ≤ count (has_event_id i) pending
  unfolding fetch_pending_outbox_events
  due-le i = omega (
    arith,
    occurrences-map i (fetch_pending_outbox_events limit w.rows),
    count-take-le (has_event_id i) limit (order_by (λ row. row.envelope.created_at) pending),
    count-order_by (has_event_id i) (λ row. row.envelope.created_at) pending,
  )

  due-waiting : All (λ d. 1 ≤ count (has_event_id d) w.rows) due
  unfolding fetch_pending_outbox_events
  due-waiting =
      let P = λ (row : OutboxEventRecord). 1 ≤ count (has_event_id (event_id row)) w.rows in
      let key = λ (row : OutboxEventRecord). row.envelope.created_at in
      ids_of_rows (λ d. 1 ≤ count (has_event_id d) w.rows)
        (fetch_pending_outbox_events limit w.rows)
        (All-take P limit (order_by key pending)
          (All-order_by P key pending (All-filter P is_pending w.rows (own_count w.rows))))

  pub tick_once-start : IsRunning w due
  tick_once-start = record {
    rows = r.rows;
    unknown = r.unknown;
    distinct = r.distinct;
    listed = All_listed event_id is_pending due w.rows r.distinct due-le;
    waiting = due-waiting;
    once = λ i.
        omega (arith, due-le i, count-filter-le (has_event_id i) is_pending w.rows, r.distinct i);
  }
