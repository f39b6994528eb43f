-- ===== src/Db/Stats/Close.antt =====
-- What closing the usage queue of db/stats.go does: nothing more is accepted, and the worker can
-- deliver what is queued and stop.
use gottem_link.Base.{
  ℕ, Bool, true, false, none, List, [], ◌∷◌, ◌++◌, ◌≡◌, refl, sym, ◌∙◌, ap, ap₂, subst, inl, inr,
  Option-cases, Bool-cases,
}
use gottem_link.Db.Stats.{
  AccessRecord, AccessWriter, new_access_writer, enqueue, track, track_miss, take_record,
  finish_record, finish, enter_select, accepted, Step, tracks, tracks_miss, closes, gives_up,
  enters, takes, returns, stops_cancelled, stops_closed, Run, here, next,
}
use gottem_link.Db.Stats.Queue.{
  Run-IsSound, new-IsSound, close_closed, deliveries, deliveries_in_order, sent_empty, counts_lem,
}

enqueue_closed : (r : AccessRecord) (w : AccessWriter) → w.closed ≡ true → enqueue r w ≡ (false, w)
unfolding enqueue
enqueue_closed r w e = simp (e)

abbrev Stays : List AccessRecord → AccessWriter → Type 0
Stays rs t = (rs ≡ []) × (t.closed ≡ true)

Step-closed :
    {rs : List AccessRecord} {w t : AccessWriter} → Step rs w t → w.closed ≡ true → Stays rs t
unfolding track track_miss take_record finish_record
Step-closed {w} (tracks id at) e =
    subst (λ x. Stays (accepted (record { id = id; slug = []; at = at }) x.0) x.1)
      (sym (enqueue_closed _ w e)) (refl, e)
Step-closed {w} (tracks_miss slug at) e =
    subst (λ x. Stays (accepted (record { id = 0; slug = slug; at = at }) x.0) x.1)
      (sym (enqueue_closed _ w e)) (refl, e)
Step-closed {w} closes e = subst (Stays []) (sym (close_closed w e)) (refl, e)
Step-closed {w} (gives_up _) e = (refl, e)
Step-closed {w} (enters running idle _ f) e = (refl, e)
Step-closed {w} (takes r rest running idle _) e = (refl, e)
Step-closed {w} (returns r failed busy) e = (refl, e)
Step-closed {w} (stops_cancelled running idle _) e = (refl, e)
Step-closed {w} (stops_closed running idle _ f) e = (refl, e)

-- A run from a closed writer accepts no record, and the writer stays closed.
pub closed_accepts_none :
    {w : AccessWriter} {rs : List AccessRecord} {v : AccessWriter}
    → Run w rs v
    → w.closed ≡ true
    → (rs ≡ []) × (v.closed ≡ true)
closed_accepts_none here e = (refl, e)
closed_accepts_none (next run step) e =
    let (f, g) = closed_accepts_none run e in
    let (f', g') = Step-closed step g in (ap₂ (λ a b. a ++ b) f f', g')

Step-Run :
    {w v : AccessWriter} {rs : List AccessRecord} {t : AccessWriter}
    → Step [] w v
    → Run v rs t
    → Run w rs t
Step-Run step here = next here step
Step-Run step (next run last) = next (Step-Run step run) last

abbrev Drained : AccessWriter → Type 0
Drained w = (v : AccessWriter) × Run w [] v × (v.done_closed ≡ true) × (v.queue ≡ [])

-- The worker, undisturbed in its select, takes and returns each queued record, and stops.
drain_select :
    (q : List AccessRecord) (w : AccessWriter)
    → w.queue ≡ q
    → w.queue_closed ≡ true
    → w.cancelled ≡ false
    → w.done_closed ≡ false
    → w.selecting ≡ true
    → Drained w
unfolding take_record finish_record
drain_select [] w e closed going running waits =
    (finish w, next here (stops_closed running waits closed e), refl, e)
drain_select (r ∷ rest) w e closed going running waits =
    let (v, run, done, empty) = drain_select rest _ refl closed going running refl in
    (
      v,
      Step-Run (takes r rest running waits e)
          (Step-Run (returns r false refl) (Step-Run (enters running refl refl going) run)),
      done,
      empty,
    )

drain :
    (w : AccessWriter)
    → w.queue_closed ≡ true
    → w.cancelled ≡ false
    → w.done_closed ≡ false
    → w.busy ≡ none
    → Drained w
drain w closed going running idle = elim (Bool-cases w.selecting) [
  | inl waits ↦ drain_select w.queue w refl closed going running waits
  | inr head ↦
      let (v, run, done, empty) =
        drain_select w.queue (enter_select w) refl closed going running refl in
      (v, Step-Run (enters running idle head going) run, done, empty)
]

drain_busy :
    (w : AccessWriter)
    → w.queue_closed ≡ true
    → w.cancelled ≡ false
    → w.done_closed ≡ false
    → Drained w
unfolding finish_record
drain_busy w closed going running = elim (Option-cases w.busy) [
  | inl idle ↦ drain w closed going running idle
  | inr (r, busy) ↦
      let (v, run, done, empty) = drain (finish_record r false w) closed going running refl in
      (v, Step-Run (returns r false busy) run, done, empty)
]

-- From every state that a new writer reaches in which it is closed and no caller of Close has given up
-- waiting, so that its context is not cancelled, and its worker has not stopped, a run exists to a
-- state in which the worker has stopped, the queue is empty, and the calls made to the store are those
-- of all accepted records, each once and in the order of acceptance.
pub close_drains :
    (m h : Bool) (capacity : ℕ) {rs : List AccessRecord} {v : AccessWriter}
    → Run (new_access_writer m h capacity) rs v
    → v.closed ≡ true
    → v.cancelled ≡ false
    → v.done_closed ≡ false
    → (t : AccessWriter) × Run v [] t
      × (t.done_closed ≡ true)
      × (t.queue ≡ [])
      × (t.delivered ≡ deliveries m rs)
close_drains m h capacity {v} run closed going running =
    let s = Run-IsSound run (new-IsSound m h capacity) in
    let (t, more, done, empty) = drain_busy _ (s.together ∙ closed) going running in
    (
      t,
      more,
      done,
      empty,
      sent_empty more empty
          ∙ ap (λ a. v.delivered ++ deliveries a v.queue) (counts_lem m h capacity run)
          ∙ deliveries_in_order m h capacity run,
    )
