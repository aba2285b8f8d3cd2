-- ===== src/Cache/Protocol/Progress.antt =====
-- Every request comes to its end after a bounded number of its own turns.
use native.Mathlib.Decide.{ℕ_discrete}
use mathlib.Core.Path.{subst}
use phyllonix.Base.{
  ℕ, ◌+◌, ◌-◌, ◌≤◌, ◌≡◌, ◌≢◌, refl, sym, ◌∙◌, ap, Bool, false, some, List, [], ◌∷◌, get_elem?,
  get_elem?-set_self, get_elem?-set_ne, arith, Option-cases, inl, inr, ◌==◌, if◌then◌else◌,
}
use phyllonix.Cache.{
  CacheReply, Phase, reading, trying, checking, loading, fallback, storing, storing_alone,
  releasing, replied, waiting, polling_on,
}
use phyllonix.Cache.Protocol.{
  Step, World, Event, turn, expire, lock_expires, write, exec, run, polls_on, turns_left, Protocol,
}

-- The turns that a schedule gives to request i.
abbrev pub turns_of : ℕ → List Event → ℕ
turns_of i [] = 0
turns_of i (turn j up ok ∷ es) = (if j == i then 1 else 0) + turns_of i es
turns_of i (_ ∷ es) = turns_of i es

is_replied : (limit : ℕ) (p : Phase) → turns_left limit p ≡ 0 → (r : CacheReply) × (p ≡ replied r)
is_replied limit (replied r) h = (r, refl)
is_replied limit reading h = absurd (omega arith)
is_replied limit trying h = absurd (omega arith)
is_replied limit checking h = absurd (omega arith)
is_replied limit loading h = absurd (omega arith)
is_replied limit polling_on h = absurd (omega arith)
is_replied limit fallback h = absurd (omega arith)
is_replied limit (storing e) h = absurd (omega arith)
is_replied limit (storing_alone e) h = absurd (omega arith)
is_replied limit (releasing r) h = absurd (omega arith)
is_replied limit (waiting n) h = absurd (omega arith)

module _ {limit : ℕ} {step : Step} (c : Protocol limit step) where
  own_turn :
      (w : World) (i : ℕ) (up ok : Bool) (p : Phase)
      → get_elem? w.tasks i ≡ some p
      → polls_on p ≡ false
      → (q : Phase) × (get_elem? ((exec step w (turn i up ok)).tasks) i ≡ some q)
        × (turns_left limit q ≤ turns_left limit p - 1)
        × (polls_on q ≡ false)
  own_turn w i up ok p h b = (
    (step i w.db up ok w.keys p).0,
    rw (exec, h) (get_elem?-set_self w.tasks i _ p h),
    c.progress i w.db up ok w.keys p b,
    c.polling i w.db up ok w.keys p b,
  )

  other_turn :
      (w : World) (i j : ℕ) (up ok : Bool)
      → j ≢ i
      → get_elem? ((exec step w (turn j up ok)).tasks) i ≡ get_elem? w.tasks i
  other_turn w i j up ok h = elim (Option-cases (get_elem? w.tasks j)) [
    | inl missing ↦ rw (exec, missing)
    | inr (p, here) ↦ rw (exec, here) (get_elem?-set_ne w.tasks j i _ h)
  ]

  run-progress :
      (i : ℕ) (es : List Event) (w : World) (p : Phase)
      → get_elem? w.tasks i ≡ some p
      → polls_on p ≡ false
      → (q : Phase) × (get_elem? ((run step w es).tasks) i ≡ some q)
        × (turns_left limit q ≤ turns_left limit p - turns_of i es)
  run-progress i [] w p h b = (p, h, omega arith)
  run-progress i (expire ∷ es) w p h b = run-progress i es (exec step w expire) p h b
  run-progress i (lock_expires ∷ es) w p h b = run-progress i es (exec step w lock_expires) p h b
  run-progress i (write row ∷ es) w p h b = run-progress i es (exec step w (write row)) p h b
  run-progress i (turn j up ok ∷ es) w p h b = elim (ℕ_discrete j i) [
    | yes same ↦
        let (q, at, less, ends) = own_turn w i up ok p h b in
        let after =
          subst (λ n. get_elem? ((exec step w (turn n up ok)).tasks) i ≡ some q) (sym same) at in
        let (r, found, left) = run-progress i es (exec step w (turn j up ok)) q after ends in
        (r, found, ground (arith, same, left, less))
    | no other ↦
        let (r, found, left) =
          run-progress i es (exec step w (turn j up ok)) p (other_turn w i j up ok other ∙ h) b in
        (r, found, ground (arith, other, left))
  ]

  -- A request that has its turns has replied.
  pub run-replied :
      (i : ℕ) (es : List Event) (w : World)
      → get_elem? w.tasks i ≡ some reading
      → limit + 6 ≤ turns_of i es
      → (r : CacheReply) × (get_elem? ((run step w es).tasks) i ≡ some (replied r))
  run-replied i es w h k =
      let (q, at, left) = run-progress i es w reading h refl in
      let (r, e) = is_replied limit q (omega arith) in (r, at ∙ ap some e)
