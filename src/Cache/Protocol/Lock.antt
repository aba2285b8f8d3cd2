-- ===== src/Cache/Protocol/Lock.antt =====
-- The lock in every interleaving: who is in the critical part is who holds it.
use native.Mathlib.Decide.{ℕ_discrete}
use mathlib.Core.Option.{some-injective}
use mathlib.Core.Path.{subst}
use phyllonix.Base.{
  ℕ, ◌≡◌, sym, ◌∙◌, ap, Bool, true, false, some, List, [], ◌∷◌, get_elem?, set, get_elem?-set_self,
  get_elem?-set_ne, All, Option-cases, inl, inr,
}
use phyllonix.Cache.{Phase}
use phyllonix.Cache.Protocol.{
  Step, World, Event, turn, expire, lock_expires, write, exec, run, is_critical, Protocol,
}

-- The lock key does not run out, and the release script is answered.
abbrev pub lock_kept : Event → Bool
lock_kept (turn i up ok) = ok
lock_kept expire = true
lock_kept lock_expires = false
lock_kept (write row) = true

abbrev pub InCritical : World → ℕ → Type 0
InCritical w i = (p : Phase) × (get_elem? w.tasks i ≡ some p) × (is_critical p ≡ true)

pub record IsExclusive (w : World) : Type 0 where
  pub locks : (i : ℕ) → InCritical w i → w.keys.lock ≡ some i
  pub held : (i : ℕ) → w.keys.lock ≡ some i → InCritical w i

module _ {limit : ℕ} {step : Step} (c : Protocol limit step) where
  turn-IsExclusive :
      (w : World) (i : ℕ) (up : Bool) (p : Phase)
      → get_elem? w.tasks i ≡ some p
      → IsExclusive w
      → IsExclusive (record {
        keys = (step i w.db up true w.keys p).1;
        db = w.db;
        tasks = set w.tasks i (step i w.db up true w.keys p).0;
      })
  turn-IsExclusive w i up p here x = record { locks = locks'; held = held' }
    where
      p' : Phase
      p' = (step i w.db up true w.keys p).0

      own : w.keys.lock ≡ some i → is_critical p ≡ true
      own h =
          let (q, at, crit) = x.held i h in
          subst (λ r. is_critical r ≡ true) (some-injective _ _ (sym at ∙ here)) crit

      locks' :
          (j : ℕ)
          → (q : Phase) × (get_elem? (set w.tasks i p') j ≡ some q) × (is_critical q ≡ true)
          → (step i w.db up true w.keys p).1.lock ≡ some j
      locks' j (q, at, crit) = elim (ℕ_discrete i j) [
        | yes same ↦
            let at_i = subst (λ n. get_elem? (set w.tasks i p') n ≡ some q) (sym same) at in
            let e = some-injective _ _ (sym (get_elem?-set_self w.tasks i p' p here) ∙ at_i) in
            c.acquires i w.db up true w.keys p (λ h. x.locks i (p, here, h))
              (subst (λ r. is_critical r ≡ true) (sym e) crit)
            ∙ ap some same
        | no other ↦
            (c.leaves i j w.db up w.keys p other).0
              (x.locks j (q, sym (get_elem?-set_ne w.tasks i j p' other) ∙ at, crit))
      ]

      held' :
          (j : ℕ)
          → (step i w.db up true w.keys p).1.lock ≡ some j
          → (q : Phase) × (get_elem? (set w.tasks i p') j ≡ some q) × (is_critical q ≡ true)
      held' j h = elim (ℕ_discrete i j) [
        | yes same ↦ (
          p',
          subst (λ n. get_elem? (set w.tasks i p') n ≡ some p') same
              (get_elem?-set_self w.tasks i p' p here),
          c.releases i w.db up w.keys p own (h ∙ ap some (sym same)),
        )
        | no other ↦
            let (q, at, crit) = x.held j ((c.leaves i j w.db up w.keys p other).1 h) in
            (q, get_elem?-set_ne w.tasks i j p' other ∙ at, crit)
      ]

  exec-IsExclusive :
      (w : World) (e : Event) → lock_kept e ≡ true → IsExclusive w → IsExclusive (exec step w e)
  exec-IsExclusive w (turn i up ok) kept x = elim (Option-cases (get_elem? w.tasks i)) [
    | inl missing ↦ rw (exec, missing) x
    | inr (p, here) ↦ rw (exec, here, kept) (turn-IsExclusive w i up p here x)
  ]
  exec-IsExclusive w expire kept x = record { locks = x.locks; held = x.held }
  exec-IsExclusive w lock_expires kept x = absurd (cc)
  exec-IsExclusive w (write row) kept x = record { locks = x.locks; held = x.held }

  pub run-IsExclusive :
      (es : List Event) (w : World)
      → All (λ e. lock_kept e ≡ true) es
      → IsExclusive w
      → IsExclusive (run step w es)
  run-IsExclusive [] w kept x = x
  run-IsExclusive (e ∷ es) w kept x =
      run-IsExclusive es (exec step w e) kept.1 (exec-IsExclusive w e kept.0 x)
