-- ===== src/Db/Stats/Queue.antt =====
-- What runs of the usage queue of db/stats.go do: its bound and the order of its deliveries.
use gottem_link.Base.{
  ℕ, ◌≤◌, ◌<◌, Bool, true, false, Option, none, some, List, [], ◌∷◌, ◌++◌, length, length-append,
  ltb, ◌≡◌, refl, sym, ◌∙◌, ap, ap₂, arith, subst, inl, inr, ◌⊎◌, Bool-cases,
}
use mathlib.Core.List.{append_assoc, append-nil}
use gottem_link.Db.Stats.{
  AccessRecord, Delivery, AccessWriter, new_access_writer, enqueue, track, track_miss, close_queue,
  delivery_of, append_delivery, take_record, finish_record, accepted, Step, tracks, tracks_miss,
  closes, gives_up, enters, takes, returns, stops_cancelled, stops_closed, Run, here, next,
}

-- The queue is within its capacity, which is not 0, and its channel is closed with the flag.
pub record IsSound (w : AccessWriter) : Type 0 where
  pub bounded : length w.queue ≤ w.capacity
  pub positive : 0 < w.capacity
  pub together : w.queue_closed ≡ w.closed

abbrev push_back : AccessRecord → AccessWriter → AccessWriter
push_back r w = record w { queue = w.queue ++ (r ∷ []) }

abbrev Enqueued : AccessRecord → AccessWriter → Type 0
Enqueued r w =
    (enqueue r w ≡ (false, w))
    ⊎ ((w.closed ≡ false)
        × (ltb (length w.queue) w.capacity ≡ true)
        × (enqueue r w ≡ (true, push_back r w)))

enqueue-cases : (r : AccessRecord) (w : AccessWriter) → Enqueued r w
unfolding enqueue
enqueue-cases r w = elim (Bool-cases w.closed) [
  | inl e ↦ inl (simp (e))
  | inr open_ ↦ elim (Bool-cases (ltb (length w.queue) w.capacity)) [
    | inl room ↦ inr (open_, room, simp (open_, room))
    | inr full ↦ inl (simp (open_, full))
  ]
]

enqueue-IsSound : (r : AccessRecord) (w : AccessWriter) → IsSound w → IsSound (enqueue r w).1
enqueue-IsSound r w h = elim (enqueue-cases r w) [
  | inl e ↦ subst (λ x. IsSound x.1) (sym e) h
  | inr (open_, room, e) ↦
      subst (λ x. IsSound x.1) (sym e)
        (record {
          bounded = ground (arith, room, length-append w.queue (r ∷ []));
          positive = h.positive;
          together = h.together;
        })
]

pub close_closed : (w : AccessWriter) → w.closed ≡ true → close_queue w ≡ w
unfolding close_queue
close_closed w e = simp (e)

close_open :
    (w : AccessWriter)
    → w.closed ≡ false
    → close_queue w ≡ record w { closed = true; queue_closed = true }
unfolding close_queue
close_open w e = simp (e)

Step-IsSound : {rs : List AccessRecord} {w t : AccessWriter} → Step rs w t → IsSound w → IsSound t
unfolding track track_miss take_record finish_record
Step-IsSound {w} (tracks id at) h = enqueue-IsSound _ w h
Step-IsSound {w} (tracks_miss slug at) h = enqueue-IsSound _ w h
Step-IsSound {w} closes h = elim (Bool-cases w.closed) [
  | inl e ↦ subst IsSound (sym (close_closed w e)) h
  | inr e ↦
      subst IsSound (sym (close_open w e))
        (record { bounded = h.bounded; positive = h.positive; together = refl })
]
Step-IsSound {w} (gives_up e) h = record {
  bounded = h.bounded;
  positive = h.positive;
  together = h.together;
}
Step-IsSound {w} (enters running idle e f) h = record {
  bounded = h.bounded;
  positive = h.positive;
  together = h.together;
}
Step-IsSound {w} (takes r rest running idle e) h = record {
  bounded = ground (arith, h.bounded, e);
  positive = h.positive;
  together = h.together;
}
Step-IsSound {w} (returns r failed busy) h = record {
  bounded = h.bounded;
  positive = h.positive;
  together = h.together;
}
Step-IsSound {w} (stops_cancelled running idle e) h = record {
  bounded = h.bounded;
  positive = h.positive;
  together = h.together;
}
Step-IsSound {w} (stops_closed running idle e f) h = record {
  bounded = h.bounded;
  positive = h.positive;
  together = h.together;
}

pub new-IsSound : (m h : Bool) (capacity : ℕ) → IsSound (new_access_writer m h capacity)
unfolding new_access_writer
new-IsSound m h capacity = record {
  bounded = ground arith;
  positive = ground arith;
  together = refl;
}

pub Run-IsSound :
    {w : AccessWriter} {rs : List AccessRecord} {v : AccessWriter}
    → Run w rs v
    → IsSound w
    → IsSound v
Run-IsSound here h = h
Run-IsSound (next run step) h = Step-IsSound step (Run-IsSound run h)

-- In every run from a new writer the queue holds at most the capacity, at least one record fits,
-- and the channel is closed exactly when the writer is.
pub queue_bounded :
    (m h : Bool) (capacity : ℕ) {rs : List AccessRecord} {v : AccessWriter}
    → Run (new_access_writer m h capacity) rs v
    → (length v.queue ≤ v.capacity) × (0 < v.capacity) × (v.queue_closed ≡ v.closed)
queue_bounded m h capacity run =
    let s = Run-IsSound run (new-IsSound m h capacity) in (s.bounded, s.positive, s.together)

-- The calls for a list of records.
pub deliveries : Bool → List AccessRecord → List Delivery
deliveries m [] = []
deliveries m (r ∷ rs) = append_delivery (delivery_of m r) [] ++ deliveries m rs

append_delivery_lem :
    (d : Option Delivery) (ds : List Delivery) → append_delivery d ds ≡ ds ++ append_delivery d []
append_delivery_lem none ds = sym (append-nil ds)
append_delivery_lem (some d) ds = refl

deliveries-append :
    (m : Bool) (xs ys : List AccessRecord)
    → deliveries m (xs ++ ys) ≡ deliveries m xs ++ deliveries m ys
unfolding deliveries
deliveries-append m [] ys = refl
deliveries-append m (x ∷ xs) ys =
    ap (λ ds. append_delivery (delivery_of m x) [] ++ ds) (deliveries-append m xs ys)
    ∙ sym (append_assoc (append_delivery (delivery_of m x) []) (deliveries m xs) (deliveries m ys))

-- What is delivered and what the queue still holds.
abbrev sent : AccessWriter → List Delivery
sent w = w.delivered ++ deliveries w.counts_misses w.queue

abbrev Sends : List AccessRecord → AccessWriter → AccessWriter → Type 0
Sends rs w t =
    (t.counts_misses ≡ w.counts_misses) × (sent t ≡ sent w ++ deliveries w.counts_misses rs)

same : (m : Bool) (ds : List Delivery) → ds ≡ ds ++ deliveries m []
unfolding deliveries
same m ds = sym (append-nil ds)

enqueue-Sends :
    (r : AccessRecord) (w : AccessWriter) → Sends (accepted r (enqueue r w).0) w (enqueue r w).1
enqueue-Sends r w = elim (enqueue-cases r w) [
  | inl e ↦ subst (λ x. Sends (accepted r x.0) w x.1) (sym e) (refl, same _ _)
  | inr (open_, room, e) ↦
      subst (λ x. Sends (accepted r x.0) w x.1) (sym e)
        (
          refl,
          ap (λ ds. w.delivered ++ ds) (deliveries-append w.counts_misses w.queue (r ∷ []))
              ∙ sym (append_assoc w.delivered (deliveries w.counts_misses w.queue) _),
        )
]

take-sent :
    (r : AccessRecord) (rest : List AccessRecord) (w : AccessWriter)
    → w.queue ≡ r ∷ rest
    → sent (take_record r rest w) ≡ sent w
unfolding take_record deliveries
take-sent r rest w e =
    ap (λ ds. ds ++ deliveries w.counts_misses rest)
      (append_delivery_lem (delivery_of w.counts_misses r) w.delivered)
    ∙ append_assoc w.delivered _ _
    ∙ ap (λ q. w.delivered ++ deliveries w.counts_misses q) (sym e)

Step-Sends : {rs : List AccessRecord} {w t : AccessWriter} → Step rs w t → Sends rs w t
unfolding track track_miss finish_record
Step-Sends {w} (tracks id at) = enqueue-Sends _ w
Step-Sends {w} (tracks_miss slug at) = enqueue-Sends _ w
Step-Sends {w} closes = elim (Bool-cases w.closed) [
  | inl e ↦ subst (Sends [] w) (sym (close_closed w e)) (refl, same _ _)
  | inr e ↦ subst (Sends [] w) (sym (close_open w e)) (refl, same _ _)
]
Step-Sends {w} (gives_up e) = (refl, same _ _)
Step-Sends {w} (enters running idle e f) = (refl, same _ _)
Step-Sends {w} (takes r rest running idle e) =
    (unfold take_record in refl, take-sent r rest w e ∙ same _ _)
Step-Sends {w} (returns r failed busy) = (refl, same _ _)
Step-Sends {w} (stops_cancelled running idle e) = (refl, same _ _)
Step-Sends {w} (stops_closed running idle e f) = (refl, same _ _)

pub Run-Sends :
    {w : AccessWriter} {rs : List AccessRecord} {v : AccessWriter} → Run w rs v → Sends rs w v
Run-Sends here = (refl, same _ _)
Run-Sends {w} (next {rs} {more} run step) =
    let (m, s) = Run-Sends run in
    let (m', s') = Step-Sends step in
    (
      m' ∙ m,
      s'
          ∙ ap₂ (λ a b. a ++ deliveries b more) s m
          ∙ append_assoc (sent w) _ _
          ∙ ap (λ ds. sent w ++ ds) (sym (deliveries-append w.counts_misses rs more)),
    )

-- In every run from a new writer, the calls made to the store followed by those that the queued
-- records will cause are those of the accepted records, each once and in the order of acceptance.
pub deliveries_in_order :
    (m h : Bool) (capacity : ℕ) {rs : List AccessRecord} {v : AccessWriter}
    → Run (new_access_writer m h capacity) rs v
    → v.delivered ++ deliveries m v.queue ≡ deliveries m rs
unfolding new_access_writer deliveries
deliveries_in_order m h capacity {v} run =
    let (c, s) = Run-Sends run in ap (λ a. v.delivered ++ deliveries a v.queue) (sym c) ∙ s

-- Where the queue of the later state is empty, all has been delivered.
pub sent_empty :
    {v t : AccessWriter}
    → Run v [] t
    → t.queue ≡ []
    → t.delivered ≡ v.delivered ++ deliveries v.counts_misses v.queue
unfolding deliveries
sent_empty {v} {t} run empty =
    let (m, s) = Run-Sends run in
    sym (append-nil t.delivered)
    ∙ ap (λ q. t.delivered ++ deliveries t.counts_misses q) (sym empty)
    ∙ s
    ∙ append-nil (sent v)

pub counts_lem :
    (m h : Bool) (capacity : ℕ) {rs : List AccessRecord} {v : AccessWriter}
    → Run (new_access_writer m h capacity) rs v
    → v.counts_misses ≡ m
unfolding new_access_writer
counts_lem m h capacity run = (Run-Sends run).0
