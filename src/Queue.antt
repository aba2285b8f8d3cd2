-- ===== src/Queue.antt =====
-- backend/background_workers/base_pubsub_interface.py: BasePubSubWorker. Its coroutines meet at
-- their awaits: a turn of a worker is one get() that finds an item, one handler, or task_done().
pub mod Fifo
pub mod Drained
use phyllonix.Base.{
  ℕ, zero, suc, ◌+◌, Bool, true, false, ◌||◌, Option, none, some, List, [], ◌∷◌, ◌++◌, ltb, ◌==◌,
  if◌then◌else◌, length, get_elem?, set, find_where,
}
use phyllonix.Schema.{
  Topic, order_paid, order_pending_payment, order_payment_pending, order_confirm_intent_created,
  product_image_uploaded, image_uploaded,
}

-- The handlers that are subscribed, as _handler_key tells them apart.
pub data Handler : Type 0 where
  compute_checksum_and_update_status outbox_handler order_confirm_commitintent_handler : Handler

abbrev handler_code : Handler → ℕ
handler_code compute_checksum_and_update_status = 0
handler_code outbox_handler = 1
handler_code order_confirm_commitintent_handler = 2

abbrev topic_code : Topic → ℕ
topic_code order_paid = 0
topic_code order_pending_payment = 1
topic_code order_payment_pending = 2
topic_code order_confirm_intent_created = 3
topic_code product_image_uploaded = 4
topic_code image_uploaded = 5

abbrev pub is_topic : Topic → Topic → Bool
is_topic a b = topic_code a == topic_code b

pub record Task : Type 0 where
  pub event : Topic
  pub content : ℕ

pub record Subscription : Type 0 where
  pub event : Topic
  pub fns : List Handler

-- Waiting for an item, at a task with these handlers to come, or after the sentinel.
pub data Loop : Type 0 where
  idle ended : Loop
  busy : Task → List Handler → Loop

pub record Call : Type 0 where
  pub fn : Handler
  pub task : Task

-- `none` in the queue is the sentinel.
pub record PubSub : Type 0 where
  pub queue : List (Option Task)
  pub worker_loops : List Loop
  pub subscribers : List Subscription
  pub calls : List Call

abbrev pub max_queue_size : ℕ
max_queue_size = 1000

abbrev pub workers_count : ℕ
workers_count = 2

abbrev pub has_handler : Handler → List Handler → Bool
has_handler f [] = false
has_handler f (g ∷ gs) = handler_code f == handler_code g || has_handler f gs

-- subscribers.setdefault(event, []), then the append unless the key is there
abbrev pub subscribed : Topic → Handler → List Subscription → List Subscription
subscribed event fn [] = record { event = event; fns = fn ∷ [] } ∷ []
subscribed event fn (s ∷ ss) =
    let rest = subscribed event fn ss in
    if is_topic s.event event
    then (if has_handler fn s.fns then s else record s { fns = s.fns ++ fn ∷ [] }) ∷ ss
    else s ∷ rest

unfoldable pub subscribe : Topic → Handler → PubSub → PubSub
subscribe event fn p = record p { subscribers = subscribed event fn p.subscribers }

unfoldable pub register_subscribers : PubSub → PubSub
unfolding subscribe
register_subscribers p = subscribe order_confirm_intent_created order_confirm_commitintent_handler (
    subscribe order_payment_pending outbox_handler (
      subscribe order_paid outbox_handler
        (subscribe product_image_uploaded compute_checksum_and_update_status p)))

abbrev pub idle_loops : ℕ → List Loop
idle_loops zero = []
idle_loops (suc n) = idle ∷ idle_loops n

-- `if self.worker_loops: return`
unfoldable pub start : PubSub → PubSub
unfolding register_subscribers
start p = elim p.worker_loops [
  | [] ↦ register_subscribers (record p { worker_loops = idle_loops workers_count })
  | l ∷ ls ↦ p
]

-- `self.queue.put_nowait`, whose QueueFull is none; a put() that waits is done once there is room
unfoldable pub put : Option Task → PubSub → Option PubSub
put item p =
    if ltb (length p.queue) max_queue_size
    then some (record p { queue = p.queue ++ item ∷ [] })
    else none

unfoldable pub publish : Topic → ℕ → PubSub → Option PubSub
unfolding put
publish event content p = put (some (record { event = event; content = content })) p

-- `self.subscribers.get(task["event"], [])`
abbrev pub handlers_of : Topic → List Subscription → List Handler
handlers_of event ss = elim (find_where (λ s. is_topic s.event event) ss) [
  | none ↦ []
  | some s ↦ s.fns
]

-- A turn of the worker at position i, with what the handler it calls does.
unfoldable pub worker_turn : ℕ → Bool → PubSub → Loop → PubSub
worker_turn i raises p idle = elim p.queue [
  | [] ↦ p
  | item ∷ rest ↦ elim item [
    | none ↦ record p { queue = rest; worker_loops = set p.worker_loops i ended }
    | some t ↦ record p {
      queue = rest;
      worker_loops = set p.worker_loops i (busy t (handlers_of t.event p.subscribers));
    }
  ]
]
worker_turn i raises p (busy t []) = record p { worker_loops = set p.worker_loops i idle }
worker_turn i raises p (busy t (f ∷ fs)) = record p {
  worker_loops = set p.worker_loops i (if raises then idle else busy t fs);
  calls = p.calls ++ record { fn = f; task = t } ∷ [];
}
worker_turn i raises p ended = p

-- A request publishes, stop() puts a sentinel, a worker goes on, or shutdown() cancels one that did
-- not finish in time, at the await that it is at.
pub data Event : Type 0 where
  published : Topic → ℕ → Event
  stopped : Event
  turn : ℕ → Bool → Event
  cancelled : ℕ → Event

abbrev or_same : PubSub → Option PubSub → PubSub
or_same p none = p
or_same p (some q) = q

unfoldable pub exec : PubSub → Event → PubSub
unfolding publish put worker_turn
exec p (published event content) = or_same p (publish event content p)
exec p stopped = or_same p (put none p)
exec p (turn i raises) = elim (get_elem? p.worker_loops i) [
  | none ↦ p
  | some l ↦ worker_turn i raises p l
]
exec p (cancelled i) = record p { worker_loops = set p.worker_loops i ended }

abbrev pub run : PubSub → List Event → PubSub
run p [] = p
run p (e ∷ es) = run (exec p e) es
