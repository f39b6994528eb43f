-- ===== src/Examples/Queues.antt =====
-- Examples for db/stats.go: a queue of one record, a second record that does not fit, and Close.
use gottem_link.Base.{true, false, none, some, [], ◌∷◌, ◌≡◌, ◌≤◌, ◌<◌, refl, codes}
use gottem_link.Base.Int.{pos}
use gottem_link.Db.Stats.{
  AccessRecord, AccessWriter, deliver_access, new_access_writer, enqueue, track, track_miss,
  close_queue, tracks, tracks_miss, closes, Run, here, next,
}
use gottem_link.Db.Stats.Queue.{deliveries, queue_bounded, deliveries_in_order}
use gottem_link.Db.Stats.Close.{close_drains}

abbrev access_record : AccessRecord
access_record = record { id = 7; slug = []; at = pos 100 }

abbrev start : AccessWriter
start = record {
  capacity = 1;
  queue = [];
  queue_closed = false;
  closed = false;
  cancelled = false;
  done_closed = false;
  selecting = false;
  counts_misses = true;
  has_handler = true;
  busy = none;
  delivered = [];
  reported = 0;
}

abbrev full : AccessWriter
full = record start { queue = access_record ∷ [] }

abbrev taking : AccessWriter
taking = record start { busy = some access_record; delivered = deliver_access 7 (pos 100) ∷ [] }

abbrev closing : AccessWriter
closing = record full { closed = true; queue_closed = true }

full-Run : Run (new_access_writer true true 0) (access_record ∷ []) full
unfolding new_access_writer enqueue track track_miss
full-Run =
    next {rs = access_record ∷ []} {more = []} {v = full}
      (next {rs = []} {more = access_record ∷ []} {v = start} {t = full} here (tracks 7 (pos 100)))
      (tracks_miss (codes "nope") (pos 101))

closing-Run : Run (new_access_writer true true 0) (access_record ∷ []) closing
unfolding close_queue
closing-Run = next {rs = access_record ∷ []} {more = []} full-Run closes

queue_bounded_example : (1 ≤ 1) × (0 < 1) × (closing.closed ≡ true)
queue_bounded_example = queue_bounded true true 0 closing-Run

deliveries_in_order_example :
    deliveries true (access_record ∷ []) ≡ deliveries true (access_record ∷ [])
deliveries_in_order_example = deliveries_in_order true true 0 full-Run

close_drains_example :
    (t : AccessWriter) × Run closing [] t
    × (t.done_closed ≡ true)
    × (t.queue ≡ [])
    × (t.delivered ≡ deliveries true (access_record ∷ []))
close_drains_example = close_drains true true 0 closing-Run refl refl refl
