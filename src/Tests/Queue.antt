-- ===== src/Tests/Queue.antt =====
-- The in-process queue at concrete schedules.
use phyllonix.Base.{◌≤◌, ◌≡◌, refl, true, false, some, [], ◌∷◌, ◌++◌, List, arith, length, map}
use phyllonix.Schema.{order_paid, order_pending_payment}
use phyllonix.Queue.{
  Task, ended, outbox_handler, PubSub, start, Event, published, stopped, turn, exec, run,
}
use phyllonix.Queue.Fifo.{all_accepted, all_taken, run-fifo}
use phyllonix.Queue.Drained.{sentinels, shutdown_lem}

abbrev created : PubSub
created = record { queue = []; worker_loops = []; subscribers = []; calls = [] }

abbrev pubsub : PubSub
pubsub = start created

-- Two tasks, one of a topic that nobody subscribed to, a handler that raises, and the end.
abbrev schedule : List Event
schedule =
    published order_paid 7
    ∷ published order_pending_payment 8
    ∷ turn 0 false
    ∷ stopped
    ∷ turn 1 false
    ∷ turn 0 true
    ∷ stopped
    ∷ turn 1 false
    ∷ turn 1 false
    ∷ turn 0 false
    ∷ []

calls_run :
    (run pubsub schedule).calls
    ≡ record { fn = outbox_handler; task = record { event = order_paid; content = 7 } } ∷ []
unfolding exec start
calls_run = refl

run-fifo_example :
    (pubsub.queue ++ all_accepted pubsub schedule
      ≡ all_taken pubsub schedule ++ (run pubsub schedule).queue)
    × (length (run pubsub schedule).queue ≤ 1000)
run-fifo_example = run-fifo schedule pubsub (unfold start in omega arith)

abbrev tasks : List Task
tasks =
    record { event = order_paid; content = 7 }
    ∷ record { event = order_pending_payment; content = 8 }
    ∷ []

offered : all_accepted pubsub schedule ≡ map some tasks ++ sentinels 2
unfolding exec start
offered = refl

over : (run pubsub schedule).worker_loops ≡ ended ∷ ended ∷ []
unfolding exec start
over = refl

shutdown_lem_example :
    ((run pubsub schedule).queue ≡ []) × (all_taken pubsub schedule ≡ map some tasks ++ sentinels 2)
shutdown_lem_example =
    shutdown_lem schedule pubsub 2 tasks (omega arith) (ground arith) (unfold start in refl)
      (unfold start in refl) offered (rw over (refl, (refl, tt)))
