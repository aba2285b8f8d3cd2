-- ===== src/Queue/Fifo.antt =====
-- The queue as a bounded FIFO: what the workers take is what was accepted, in that order.
use mathlib.Core.List.{append_assoc, append-nil}
use phyllonix.Base.{
  ◌≤◌, ◌≡◌, sym, ◌∙◌, ap, Option, none, some, List, [], ◌∷◌, ◌++◌, ltb, if◌then◌else◌, length,
  get_elem?, arith, length-append,
}
use phyllonix.Queue.{
  Task, Loop, idle, PubSub, put, publish, worker_turn, max_queue_size, Event, published, stopped,
  turn, cancelled, exec, run,
}

-- What the queue accepts at an event.
abbrev pub accepted : PubSub → Event → List (Option Task)
accepted p (published event content) =
    if ltb (length p.queue) max_queue_size
    then some (record { event = event; content = content }) ∷ []
    else []
accepted p stopped = if ltb (length p.queue) max_queue_size then none ∷ [] else []
accepted p (turn i raises) = []
accepted p (cancelled i) = []

abbrev pub first_item : List (Option Task) → List (Option Task)
first_item [] = []
first_item (x ∷ xs) = x ∷ []

abbrev pub taken_by : List (Option Task) → Option Loop → List (Option Task)
taken_by q (some idle) = first_item q
taken_by q _ = []

-- What a worker takes out of it.
abbrev pub taken : PubSub → Event → List (Option Task)
taken p (turn i raises) = taken_by p.queue (get_elem? p.worker_loops i)
taken p _ = []

abbrev pub all_accepted : PubSub → List Event → List (Option Task)
all_accepted p [] = []
all_accepted p (e ∷ es) = accepted p e ++ all_accepted (exec p e) es

abbrev pub all_taken : PubSub → List Event → List (Option Task)
all_taken p [] = []
all_taken p (e ∷ es) = taken p e ++ all_taken (exec p e) es

exec-queue : (p : PubSub) (e : Event) → p.queue ++ accepted p e ≡ taken p e ++ (exec p e).queue
unfolding exec publish put worker_turn
exec-queue p (published event content) = ground (arith, append-nil p.queue)
exec-queue p stopped = ground (arith, append-nil p.queue)
exec-queue p (turn i raises) = ground (arith, append-nil p.queue)
exec-queue p (cancelled i) = append-nil p.queue

exec-bounded : (p : PubSub) (e : Event) → length p.queue ≤ 1000 → length (exec p e).queue ≤ 1000
unfolding exec publish put worker_turn
exec-bounded p (published event content) h =
    ground (arith, length-append p.queue (some (record { event = event; content = content }) ∷ []))
exec-bounded p stopped h = ground (arith, length-append p.queue (none ∷ []))
exec-bounded p (turn i raises) h = ground arith
exec-bounded p (cancelled i) h = h

-- In every interleaving of publishing, stopping, the workers' turns and cancellations, from a
-- queue of at most 1000 items: the queue is a FIFO that accepts an item exactly while it holds
-- fewer than 1000. What it held and accepted is what the workers have taken, in that order and
-- each item once, and then what is still waiting, at most 1000 items.
pub run-fifo :
    (es : List Event) (p : PubSub)
    → length p.queue ≤ 1000
    → (p.queue ++ all_accepted p es ≡ all_taken p es ++ (run p es).queue)
      × (length (run p es).queue ≤ 1000)
run-fifo [] p h = (append-nil p.queue, h)
run-fifo (e ∷ es) p h =
    let (order, bound) = run-fifo es (exec p e) (exec-bounded p e h) in
    (
      sym (append_assoc p.queue (accepted p e) (all_accepted (exec p e) es))
          ∙ ap (λ q. q ++ all_accepted (exec p e) es) (exec-queue p e)
          ∙ append_assoc (taken p e) (exec p e).queue (all_accepted (exec p e) es)
          ∙ ap (λ q. taken p e ++ q) order
          ∙ sym (append_assoc (taken p e) (all_taken (exec p e) es) (run (exec p e) es).queue),
      bound,
    )
