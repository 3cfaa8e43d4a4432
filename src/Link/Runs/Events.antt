-- ===== src/Link/Runs/Events.antt =====
-- The events of a run, and how it ends.
use asgard.Prelude.{
  ℕ, ◌<◌, ◌≡◌, refl, sym, ◌∙◌, ap, subst, ◌||◌, List, [], ◌∷◌, ◌++◌, append_assoc, Option, leb,
  arith, Bool-cases, inl, inr,
}
use asgard.Link.{RunEvent, RunOutputChunk, RunResult}
use asgard.Link.Runs.{Run, RunError, event, next_of, next, add_event, add_chunk, finish, new_run}

-- Indices that increase, all of them above `low`; `top` is the last one, or `low`.
pub data Rising : ℕ → List RunEvent → ℕ → Type 0 where
  stop : {low : ℕ} → Rising low [] low
  step :
      {low top : ℕ} {ev : RunEvent} {evs : List RunEvent}
      → low < ev.event_index
      → Rising ev.event_index evs top
      → Rising low (ev ∷ evs) top

Rising-append :
    {low top : ℕ} (evs : List RunEvent) (ev : RunEvent)
    → Rising low evs top
    → top < ev.event_index
    → Rising low (evs ++ ev ∷ []) ev.event_index
Rising-append evs ev stop l = step l stop
Rising-append evs ev (step h r) l = step h (Rising-append _ ev r l)

-- What happens to a run: `seen` are the events that its reader has been given, in order.
pub data Reach : List RunEvent → Run → Type 0 where
  start : (id node : _) → Reach [] (new_run id node)
  adds_event :
      {seen : List RunEvent} {r : Run} (ev : RunEvent) → Reach seen r → Reach seen (add_event ev r)
  adds_chunk :
      {seen : List RunEvent} {r : Run} (c : RunOutputChunk)
      → Reach seen r
      → Reach seen (add_chunk c r).1
  reads :
      {seen : List RunEvent} {r : Run} (ev : RunEvent)
      → Reach seen r
      → (next r).0 ≡ event ev
      → Reach (seen ++ ev ∷ []) (next r).1
  finishes :
      {seen : List RunEvent} {r : Run} (res : Option RunResult) (err : Option RunError)
      → Reach seen r
      → Reach seen (finish res err r)

add_event-Rising :
    (seen : List RunEvent) (ev : RunEvent) (r : Run)
    → Rising 0 (seen ++ r.events) r.last_idx
    → Rising 0 (seen ++ (add_event ev r).events) (add_event ev r).last_idx
unfolding add_event
add_event-Rising seen ev r h = elim (Bool-cases (r.finished || leb ev.event_index r.last_idx)) [
  | inl skip ↦ rw (skip, add_event) h
  | inr take ↦
      rw (take, add_event)
        (subst (λ (l : List RunEvent). Rising 0 l ev.event_index)
          (append_assoc seen r.events (ev ∷ []))
          (Rising-append (seen ++ r.events) ev h (ground arith)))
]

next_of-event :
    (ev : RunEvent) (evs : List RunEvent) (r : Run)
    → (next_of evs r).0 ≡ event ev
    → (evs ≡ ev ∷ (next_of evs r).1.events) × ((next_of evs r).1.last_idx ≡ r.last_idx)
unfolding next_of
next_of-event ev [] r e = absurd (ground arith)
next_of-event ev (x ∷ rest) r e = ((cc), refl)

next-event :
    (ev : RunEvent) (r : Run)
    → (next r).0 ≡ event ev
    → (r.events ≡ ev ∷ (next r).1.events) × ((next r).1.last_idx ≡ r.last_idx)
unfolding next
next-event ev r e = next_of-event ev r.events r e

add_chunk-events :
    (c : RunOutputChunk) (r : Run)
    → ((add_chunk c r).1.events ≡ r.events) × ((add_chunk c r).1.last_idx ≡ r.last_idx)
unfolding add_chunk
add_chunk-events c r = ground arith

finish-events :
    (res : Option RunResult) (err : Option RunError) (r : Run)
    → ((finish res err r).events ≡ r.events) × ((finish res err r).last_idx ≡ r.last_idx)
unfolding finish
finish-events res err r = ground arith

-- Whatever events and chunks arrive, replayed or not, in whatever order, and whenever the reader reads: the
-- events that it has been given, followed by those that are queued, have increasing indices from 1 on, so no
-- event is delivered twice and none out of order.
pub reach-Rising :
    (seen : List RunEvent) (r : Run) → Reach seen r → Rising 0 (seen ++ r.events) r.last_idx
unfolding new_run
reach-Rising seen r (start id node) = stop
reach-Rising seen r (adds_event ev p) = add_event-Rising seen ev _ (reach-Rising seen _ p)
reach-Rising seen r (adds_chunk {r = b} c p) =
    let (e, f) = add_chunk-events c b in rw (e, f) (reach-Rising seen _ p)
reach-Rising seen r (finishes {r = b} res err p) =
    let (e, f) = finish-events res err b in rw (e, f) (reach-Rising seen _ p)
reach-Rising _ r (reads {seen = seen} {r = before} ev p e) =
    let (q, l) = next-event ev before e in
    rw l (
      subst (λ (x : List RunEvent). Rising 0 x before.last_idx)
        (ap (λ (x : List RunEvent). seen ++ x) q
          ∙ sym (append_assoc seen (ev ∷ []) (next before).1.events))
        (reach-Rising seen before p))
