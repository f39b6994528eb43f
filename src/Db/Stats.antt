-- ===== src/Db/Stats.antt =====
-- db/stats.go: the bounded queue of usage records, its producers and its worker.
pub mod Queue
pub mod Close
use gottem_link.Base.{
  ℕ, ◌+◌, Str, Bool, true, false, not, ◌&&◌, Option, none, some, List, [], ◌∷◌, ◌++◌, if◌then◌else◌,
  length, ltb, leb, is_empty, is_some, ◌≡◌,
}
use gottem_link.Base.Int.{ℤ}

-- A time is a number of nanoseconds.
pub record AccessRecord : Type 0 where
  pub id : ℕ
  pub slug : Str
  pub at : ℤ

-- What the worker asks of the store: `RecordRedirectAccess`, or `RecordSlugMiss` where the store
-- has it.
pub data Delivery : Type 0 where
  deliver_access : ℕ → ℤ → Delivery
  deliver_miss : Str → ℤ → Delivery

-- The fields of `AccessWriter`, with the state of its channels and contexts: `queue_closed` and
-- `done_closed` say that the channels are closed, `cancelled` that the context is done. The worker
-- stands at the head of its loop, or `selecting` says that it has passed the test there and waits in
-- its select, or `busy` is the record whose store call is running. The calls, oldest first, and the
-- number of errors handed to `onError` are what the environment sees.
pub record AccessWriter : Type 0 where
  pub capacity : ℕ
  pub queue : List AccessRecord
  pub queue_closed : Bool
  pub closed : Bool
  pub cancelled : Bool
  pub done_closed : Bool
  pub selecting : Bool
  pub counts_misses : Bool
  pub has_handler : Bool
  pub busy : Option AccessRecord
  pub delivered : List Delivery
  pub reported : ℕ

unfoldable pub new_access_writer : Bool → Bool → ℕ → AccessWriter
new_access_writer counts_misses has_handler capacity = record {
  capacity = if ltb capacity 1 then 1 else capacity;
  queue = [];
  queue_closed = false;
  closed = false;
  cancelled = false;
  done_closed = false;
  selecting = false;
  counts_misses = counts_misses;
  has_handler = has_handler;
  busy = none;
  delivered = [];
  reported = 0;
}

-- A send that would block takes the default case.
unfoldable pub enqueue : AccessRecord → AccessWriter → Bool × AccessWriter
enqueue r w =
    if w.closed
    then (false, w)
    else if ltb (length w.queue) w.capacity
    then (true, record w { queue = w.queue ++ (r ∷ []) })
    else (false, w)

unfoldable pub track : ℕ → ℤ → AccessWriter → Bool × AccessWriter
unfolding enqueue
track id at = enqueue (record { id = id; slug = []; at = at })

unfoldable pub track_miss : Str → ℤ → AccessWriter → Bool × AccessWriter
unfolding enqueue
track_miss slug at = enqueue (record { id = 0; slug = slug; at = at })

-- The first part of `Close`, under the lock. Closing a closed channel would panic.
unfoldable pub close_queue : AccessWriter → AccessWriter
close_queue w = if w.closed then w else record w { closed = true; queue_closed = true }

-- The worker calls the store for a record: nothing for a miss that the store cannot count.
unfoldable pub delivery_of : Bool → AccessRecord → Option Delivery
delivery_of counts_misses r =
    if is_empty r.slug
    then some (deliver_access r.id r.at)
    else if counts_misses
    then some (deliver_miss r.slug r.at)
    else none

abbrev pub append_delivery : Option Delivery → List Delivery → List Delivery
append_delivery none ds = ds
append_delivery (some d) ds = ds ++ (d ∷ [])

-- The worker passes the test of its context at the head of the loop.
abbrev pub enter_select : AccessWriter → AccessWriter
enter_select w = record w { selecting = true }

-- The worker takes a record from the queue and begins the store call.
unfoldable pub take_record : AccessRecord → List AccessRecord → AccessWriter → AccessWriter
take_record r rest w = record w {
  queue = rest;
  selecting = false;
  busy = some r;
  delivered = append_delivery (delivery_of w.counts_misses r) w.delivered;
}

-- The store call returns; where none was made there is no error.
unfoldable pub finish_record : AccessRecord → Bool → AccessWriter → AccessWriter
finish_record r failed w =
    let reports =
      failed && (is_some (delivery_of w.counts_misses r) && (not w.cancelled && w.has_handler)) in
    record w { busy = none; reported = if reports then w.reported + 1 else w.reported }

-- The deferred calls of the worker.
abbrev pub finish : AccessWriter → AccessWriter
finish w = record w { cancelled = true; done_closed = true }

-- The record that a producer's call adds to the queue, if it does.
abbrev pub accepted : AccessRecord → Bool → List AccessRecord
accepted r true = r ∷ []
accepted r false = []

-- One step of the program with the records that it accepts: a producer, a caller of `Close`, which
-- closes and may give up waiting, or the worker. At the head of its loop the worker stops where the
-- context is done, and else enters its select; where the context is done then, the select stops the
-- worker or, where it also finds a record, may still take that one.
pub data Step : List AccessRecord → AccessWriter → AccessWriter → Type 0 where
  tracks :
      (id : ℕ) (at : ℤ) {w : AccessWriter}
      → Step
          (accepted (record { id = id; slug = []; at = at }) (track id at w).0)
          w
          (track id at w).1
  tracks_miss :
      (slug : Str) (at : ℤ) {w : AccessWriter}
      → Step
          (accepted (record { id = 0; slug = slug; at = at }) (track_miss slug at w).0)
          w
          (track_miss slug at w).1
  closes : {w : AccessWriter} → Step [] w (close_queue w)
  gives_up : {w : AccessWriter} → w.closed ≡ true → Step [] w (record w { cancelled = true })
  enters :
      {w : AccessWriter}
      → w.done_closed ≡ false
      → w.busy ≡ none
      → w.selecting ≡ false
      → w.cancelled ≡ false
      → Step [] w (enter_select w)
  takes :
      {w : AccessWriter} (r : AccessRecord) (rest : List AccessRecord)
      → w.done_closed ≡ false
      → w.selecting ≡ true
      → w.queue ≡ r ∷ rest
      → Step [] w (take_record r rest w)
  returns :
      {w : AccessWriter} (r : AccessRecord) (failed : Bool)
      → w.busy ≡ some r
      → Step [] w (finish_record r failed w)
  stops_cancelled :
      {w : AccessWriter}
      → w.done_closed ≡ false
      → w.busy ≡ none
      → w.cancelled ≡ true
      → Step [] w (finish w)
  stops_closed :
      {w : AccessWriter}
      → w.done_closed ≡ false
      → w.selecting ≡ true
      → w.queue_closed ≡ true
      → w.queue ≡ []
      → Step [] w (finish w)

-- A run with all the records that it accepts, oldest first.
pub data Run (w : AccessWriter) : List AccessRecord → AccessWriter → Type 0 where
  here : Run w [] w
  next :
      {rs more : List AccessRecord} {v t : AccessWriter}
      → Run w rs v
      → Step more v t
      → Run w (rs ++ more) t
