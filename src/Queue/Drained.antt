-- ===== src/Queue/Drained.antt =====
-- stop(): one sentinel for each worker, behind every task. When all workers have ended and none was
-- cancelled, every task that was accepted has been taken and its handlers have returned or raised.
use mathlib.Core.List.{append-nil}
use phyllonix.Base.{
  ℕ, zero, suc, ◌+◌, ◌≤◌, ◌≡◌, refl, sym, ◌∙◌, ap, Bool, true, false, Option, none, some, List, [],
  ◌∷◌, ◌++◌, length, get_elem?, set, arith, map, All, Option-cases, inl, inr,
}
use phyllonix.Queue.{
  Task, Loop, idle, ended, busy, PubSub, put, publish, worker_turn, Event, published, stopped, turn,
  cancelled, exec, run, idle_loops,
}
use phyllonix.Queue.Fifo.{taken, all_accepted, all_taken, taken_by, run-fifo}

abbrev pub sentinels : ℕ → List (Option Task)
sentinels zero = []
sentinels (suc n) = none ∷ sentinels n

abbrev count_sentinels : List (Option Task) → ℕ
count_sentinels [] = 0
count_sentinels (none ∷ xs) = suc (count_sentinels xs)
count_sentinels (some t ∷ xs) = count_sentinels xs

abbrev count_ended : List Loop → ℕ
count_ended [] = 0
count_ended (ended ∷ ls) = suc (count_ended ls)
count_ended (idle ∷ ls) = count_ended ls
count_ended (busy t fs ∷ ls) = count_ended ls

count_sentinels-append :
    (xs ys : List (Option Task))
    → count_sentinels (xs ++ ys) ≡ count_sentinels xs + count_sentinels ys
count_sentinels-append [] ys = omega arith
count_sentinels-append (none ∷ xs) ys = omega (arith, count_sentinels-append xs ys)
count_sentinels-append (some t ∷ xs) ys = omega (arith, count_sentinels-append xs ys)

count_sentinels-some : (ts : List Task) → count_sentinels (map some ts) ≡ 0
count_sentinels-some [] = refl
count_sentinels-some (t ∷ ts) = count_sentinels-some ts

count_sentinels-sentinels : (n : ℕ) → count_sentinels (sentinels n) ≡ n
count_sentinels-sentinels zero = refl
count_sentinels-sentinels (suc n) = ap suc (count_sentinels-sentinels n)

-- A worker ends when it takes a sentinel.
abbrev ended_of : Loop → ℕ
ended_of ended = 1
ended_of _ = 0

count_ended-set :
    (ls : List Loop) (i : ℕ) (l m : Loop)
    → get_elem? ls i ≡ some l
    → count_ended (set ls i m) + ended_of l ≡ count_ended ls + ended_of m
count_ended-set [] i l m h = absurd (cc)
count_ended-set (x ∷ ls) zero l m h = ground arith
count_ended-set (x ∷ ls) (suc i) l m h = ground (arith, count_ended-set ls i l m h)

worker_turn-count_ended :
    (i : ℕ) (raises : Bool) (p : PubSub) (l : Loop)
    → get_elem? p.worker_loops i ≡ some l
    → count_ended p.worker_loops + count_sentinels (taken_by p.queue (some l))
      ≡ count_ended ((worker_turn i raises p l).worker_loops)
unfolding worker_turn
worker_turn-count_ended i raises p idle h = grind (arith, count_ended-set p.worker_loops i idle)
worker_turn-count_ended i raises p (busy t []) h =
    ground (arith, count_ended-set p.worker_loops i (busy t []) idle h)
worker_turn-count_ended i raises p (busy t (f ∷ fs)) h = ground (
  arith,
  count_ended-set p.worker_loops i (busy t (f ∷ fs)) idle h,
  count_ended-set p.worker_loops i (busy t (f ∷ fs)) (busy t fs) h,
)
worker_turn-count_ended i raises p ended h = omega arith

-- Not the cancellation of a worker.
abbrev pub finishes : Event → Bool
finishes (cancelled i) = false
finishes _ = true

exec-count_ended :
    (p : PubSub) (e : Event)
    → finishes e ≡ true
    → count_ended p.worker_loops + count_sentinels (taken p e)
      ≡ count_ended ((exec p e).worker_loops)
unfolding exec publish put worker_turn
exec-count_ended p (published event content) f = ground arith
exec-count_ended p stopped f = ground arith
exec-count_ended p (cancelled i) f = absurd (cc)
exec-count_ended p (turn i raises) f = elim (Option-cases (get_elem? p.worker_loops i)) [
  | inl missing ↦ rw (exec, missing) (omega arith)
  | inr (l, here) ↦ rw (exec, here) (worker_turn-count_ended i raises p l here)
]

run-count_ended :
    (es : List Event) (p : PubSub)
    → All (λ e. finishes e ≡ true) es
    → count_ended p.worker_loops + count_sentinels (all_taken p es)
      ≡ count_ended ((run p es).worker_loops)
run-count_ended [] p f = omega arith
run-count_ended (e ∷ es) p f = omega (
  arith,
  exec-count_ended p e f.0,
  run-count_ended es (exec p e) f.1,
  count_sentinels-append (taken p e) (all_taken (exec p e) es),
)

-- What stands behind the tasks and has no sentinel is nothing.
sentinels_none :
    (n : ℕ) (xs ys : List (Option Task)) → xs ++ ys ≡ sentinels n → count_sentinels ys ≡ 0 → ys ≡ []
sentinels_none n [] [] h k = refl
sentinels_none zero [] (y ∷ ys) h k = absurd (cc)
sentinels_none (suc n) [] (none ∷ ys) h k = absurd (omega arith)
sentinels_none (suc n) [] (some t ∷ ys) h k = absurd (cc)
sentinels_none zero (x ∷ xs) ys h k = absurd (cc)
sentinels_none (suc n) (x ∷ xs) ys h k = sentinels_none n xs ys (cc) k

drained :
    (ts : List Task) (n : ℕ) (xs ys : List (Option Task))
    → xs ++ ys ≡ map some ts ++ sentinels n
    → 1 ≤ n
    → count_sentinels ys ≡ 0
    → ys ≡ []
drained [] n xs ys h m k = sentinels_none n xs ys h k
drained (t ∷ ts) n [] ys h m k = absurd (
    omega (
      arith,
      ap count_sentinels h,
      count_sentinels-append (map some (t ∷ ts)) (sentinels n),
      count_sentinels-some (t ∷ ts),
      count_sentinels-sentinels n,
    ))
drained (t ∷ ts) n (x ∷ xs) ys h m k = drained ts n xs ys (cc) m k

loops_count : (n : ℕ) → count_ended (idle_loops n) ≡ 0
loops_count zero = refl
loops_count (suc n) = loops_count n

length-set : (ls : List Loop) (i : ℕ) (m : Loop) → length (set ls i m) ≡ length ls
length-set [] i m = refl
length-set (l ∷ ls) zero m = refl
length-set (l ∷ ls) (suc i) m = ap suc (length-set ls i m)

exec-length : (p : PubSub) (e : Event) → length (exec p e).worker_loops ≡ length p.worker_loops
unfolding exec publish put worker_turn
exec-length p e = grind (arith, length-set p.worker_loops)

run-length : (es : List Event) (p : PubSub) → length (run p es).worker_loops ≡ length p.worker_loops
run-length [] p = refl
run-length (e ∷ es) p = run-length es (exec p e) ∙ exec-length p e

count_ended-All : (ls : List Loop) → All (λ l. l ≡ ended) ls → count_ended ls ≡ length ls
count_ended-All [] h = refl
count_ended-All (ended ∷ ls) h = ap suc (count_ended-All ls h.1)
count_ended-All (idle ∷ ls) h = absurd (cc (h.0))
count_ended-All (busy t fs ∷ ls) h = absurd (cc (h.0))

length-idle_loops : (n : ℕ) → length (idle_loops n) ≡ n
length-idle_loops zero = refl
length-idle_loops (suc n) = ap suc (length-idle_loops n)

-- From an empty queue with at least one idle worker, in every interleaving in which the queue
-- accepts some tasks and then one sentinel for each worker, and no worker is cancelled because it
-- did not finish in time: when all workers have ended, nothing waits in the queue, and every task
-- that was accepted has been taken by a worker, in that order, before it ended.
pub shutdown_lem :
    (es : List Event) (p : PubSub) (n : ℕ) (ts : List Task)
    → 1 ≤ n
    → All (λ e. finishes e ≡ true) es
    → p.queue ≡ []
    → p.worker_loops ≡ idle_loops n
    → all_accepted p es ≡ map some ts ++ sentinels n
    → All (λ l. l ≡ ended) (run p es).worker_loops
    → ((run p es).queue ≡ []) × (all_taken p es ≡ map some ts ++ sentinels n)
shutdown_lem es p n ts one uncut none_waits idles offered over =
    let fifo = (run-fifo es p (rw none_waits (omega arith))).0 in
    let total = sym fifo ∙ ap (λ q. q ++ all_accepted p es) none_waits ∙ offered in
    let loops = length-idle_loops n in
    let ends = count_ended-All (run p es).worker_loops over in
    let start_ends = ap count_ended idles ∙ loops_count n in
    let size = run-length es p ∙ ap length idles ∙ loops in
    let count_total =
      ap count_sentinels total ∙ count_sentinels-append (map some ts) (sentinels n) in
    let rest = drained ts n (all_taken p es) (run p es).queue total one (
      omega (
        arith,
        count_total,
        count_sentinels-some ts,
        count_sentinels-sentinels n,
        count_sentinels-append (all_taken p es) (run p es).queue,
        run-count_ended es p uncut,
        ends,
        start_ends,
        size,
      )) in
    (rest, sym (append-nil (all_taken p es)) ∙ ap (λ q. all_taken p es ++ q) (sym rest) ∙ total)
