-- ===== src/Engine/Run/Paging.antt =====
-- storage-engine/src/execution.rs: what a page of events holds.
use pdisks.Base.{
  ℕ, ◌+◌, ◌-◌, ◌≤◌, ◌<◌, ◌≡◌, ◌⊎◌, inl, inr, refl, List, [], ◌∷◌, Bool, true, false, ok, arith,
  length, filter, filter-cons_true, filter-cons_false, subst, ◌∙◌, ltb, Bool-cases,
}
use pdisks.Engine.Run.Defs.{max_run_events, ExecutionRun, RunEvent, EventsPage}
use pdisks.Engine.Run.Views.{events_since, events_page, has_gap}
use pdisks.Engine.Run.Events.{Numbered, Log}

abbrev newer : ℕ → RunEvent → Bool
newer since event = ltb since event.sequence

-- Where the log begins behind the cursor, nothing is filtered.
filter_behind :
    (since first next : ℕ) (xs : List RunEvent)
    → since < first
    → Numbered first xs next
    → filter (newer since) xs ≡ xs
filter_behind since first next [] h n = refl
filter_behind since first next (x ∷ xs) h (e, n) =
    ground (arith, filter_behind since (first + 1) next xs)

-- Where it begins at the cursor or before, what is left begins right behind the cursor.
filter_from :
    (since first next : ℕ) (xs : List RunEvent)
    → first ≤ since + 1
    → since + 1 ≤ next
    → Numbered first xs next
    → Numbered (since + 1) (filter (newer since) xs) next
filter_from since first next [] h k n = omega arith
filter_from since first next (x ∷ xs) h k (e, n) = elim (Bool-cases (ltb since x.sequence)) [
  | inl new ↦
      let q : first ≡ since + 1 = ground arith in
      rw (filter-cons_true (newer since) x xs new) (
        e ∙ q,
        rw (filter_behind since (first + 1) next xs (omega arith) n)
            (subst (λ k. Numbered (k + 1) xs next) q n),
      )
  | inr old ↦
      rw (filter-cons_false (newer since) x xs old)
        (filter_from since (first + 1) next xs (ground arith) k n)
]

gap_first :
    (since first next : ℕ) (xs : List RunEvent)
    → Numbered first xs next
    → has_gap since xs ≡ true
    → since + 1 < first
gap_first since first next [] n g = cc
gap_first since first next (x ∷ xs) (e, n) g = ground arith

no_gap_first :
    (since first next : ℕ) (xs : List RunEvent)
    → Numbered first xs next
    → (first ≡ 1) ⊎ (length xs ≡ max_run_events)
    → has_gap since xs ≡ false
    → first ≤ since + 1
no_gap_first since first next [] n w g = ground arith
no_gap_first since first next (x ∷ xs) (e, n) w g = ground arith

behind :
    (since : ℕ) (s : ExecutionRun) (l : Log s.events s.next_event_sequence)
    → since + 1 < l.first
    → events_since since s ≡ s.events
unfolding events_since
behind since s l b =
    filter_behind since l.first s.next_event_sequence s.events (omega arith) l.numbered

from :
    (since : ℕ) (s : ExecutionRun) (l : Log s.events s.next_event_sequence)
    → l.first ≤ since + 1
    → since < s.next_event_sequence
    → Numbered (since + 1) (events_since since s) s.next_event_sequence
unfolding events_since
from since s l b h =
    filter_from since l.first s.next_event_sequence s.events b (omega arith) l.numbered

-- For a cursor that has been published, a page reports no gap exactly when it holds every event
-- from the one behind the cursor to the last; with a gap it holds the whole log.
pub events_page_correct :
    (since : ℕ) (s : ExecutionRun)
    → Log s.events s.next_event_sequence
    → since < s.next_event_sequence
    → (page : EventsPage) × (events_page since s ≡ ok page)
      × (page.next_sequence + 1 ≡ s.next_event_sequence)
      × (page.gap ≡ false → Numbered (since + 1) page.events s.next_event_sequence)
      × (page.gap ≡ true
          → (first : ℕ) × (since + 1 < first)
            × Numbered first page.events s.next_event_sequence
            × (page.events ≡ s.events))
unfolding events_page
events_page_correct since s l h = elim (Bool-cases (has_gap since s.events)) [
  | inl gap ↦
      let b = gap_first since l.first s.next_event_sequence s.events l.numbered gap in
      (
        record {
          events = events_since since s;
          next_sequence = s.next_event_sequence - 1;
          gap = has_gap since s.events;
        },
        ground arith,
        omega arith,
        λ q. cc,
        λ q. (l.first, b, rw (behind since s l b) l.numbered, behind since s l b),
      )
  | inr none_lost ↦
      let b =
        no_gap_first since l.first s.next_event_sequence s.events l.numbered l.whole none_lost in
      (
        record {
          events = events_since since s;
          next_sequence = s.next_event_sequence - 1;
          gap = has_gap since s.events;
        },
        ground arith,
        omega arith,
        λ q. from since s l b h,
        λ q. cc,
      )
]
