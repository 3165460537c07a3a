-- ===== src/EventLoop/Progress.antt =====
-- src/sc_module.cc, `eventLoop`: the loop is left in time, and misses no event.
use gem5_wrapper.Prelude.{
  ℕ, zero, suc, ◌-◌, ◌≤◌, ◌<◌, ◌≡◌, refl, inl, inr, Bool, true, false, some, List, ◌∷◌, arith, ok,
  Bool-cases, if◌then◌else◌, ltb, ap, ◌∙◌,
}
use gem5_wrapper.EventLoop.{
  EventQueue, Module, Call, enter_later, exit_now, round, loop, asleep, served, woken,
}

-- What the loop relies on of gem5 while it serves the events of the tick `now`: there are finitely
-- many of them, as `left` counts; no event is put in the past; and the queue has an event as long
-- as no exit event was served, since `simulate` puts one at the end of its time.
pub record IsOrderly {Q : Type 0} (eventq : EventQueue Q) (now : ℕ) : Type 0 where
  pub left : Q → ℕ
  pub finite : (q : Q) → eventq.next_tick q ≡ some now → left (eventq.service_one q).0 < left q
  pub lasting :
      (q : Q)
      → eventq.next_tick q ≡ some now
      → (eventq.service_one q).1 ≡ false
      → (n : ℕ) × (eventq.next_tick (eventq.service_one q).0 ≡ some n) × (now ≤ n)

-- The module may enter the loop: gem5's time lags SystemC's, and the next event is not in the past.
pub record IsDue {Q : Type 0} (eventq : EventQueue Q) (now : ℕ) (s : Module Q) : Type 0 where
  pub lags : s.cur_tick ≤ now
  pub next : ℕ
  pub has_next : eventq.next_tick s.queue ≡ some next
  pub ahead : now ≤ next

-- How the loop is left: after an exit event, or to be entered again when the next event is due.
pub data IsLeft {Q : Type 0} (eventq : EventQueue Q) (now : ℕ) (s : Module Q) : Type 0 where
  exited : s.exit_event ≡ true → IsLeft eventq now s
  sleeping :
      (n : ℕ)
      → eventq.next_tick s.queue ≡ some n
      → now < n
      → s.wait_exit_time ≡ n
      → (l : List Call) → s.calls ≡ enter_later (n - now) ∷ l
      → IsLeft eventq now s

-- The module when it has caught up.
abbrev caught_up : {Q : Type 0} → ℕ → Module Q → Module Q
caught_up now s = woken now (record s { cur_tick = now })

round-asleep :
    {Q : Type 0} (eventq : EventQueue Q) (now next : ℕ) (s : Module Q)
    → s.cur_tick ≤ now
    → eventq.next_tick s.queue ≡ some next
    → now < next
    → round eventq now next s ≡ ok (asleep next (caught_up now s), true)
unfolding round
round-asleep eventq now next s l h a = ground (arith, h)

round_exit :
    {Q : Type 0} (eventq : EventQueue Q) (now : ℕ) (s : Module Q)
    → s.cur_tick ≤ now
    → eventq.next_tick s.queue ≡ some now
    → (eventq.service_one s.queue).1 ≡ true
    → let after = served eventq (caught_up now s) in
      round eventq now now s ≡ ok (record after { calls = exit_now ∷ after.calls }, true)
unfolding round
round_exit eventq now s l h x = ground (arith, h, x)

round_goes :
    {Q : Type 0} (eventq : EventQueue Q) (now : ℕ) (s : Module Q)
    → s.cur_tick ≤ now
    → eventq.next_tick s.queue ≡ some now
    → (eventq.service_one s.queue).1 ≡ false
    → round eventq now now s ≡ ok (served eventq (caught_up now s), false)
unfolding round
round_goes eventq now s l h x = ground (arith, h, x)

loop-round :
    {Q : Type 0} (fuel : ℕ) (eventq : EventQueue Q) (now next : ℕ) (s : Module Q)
    {r : Module Q × Bool}
    → eventq.next_tick s.queue ≡ some next
    → round eventq now next s ≡ ok r
    → loop (suc fuel) eventq now s ≡ (if r.1 then ok (some r.0) else loop fuel eventq now r.0)
unfolding loop
loop-round fuel eventq now next s h e = ground (arith, h, e)

-- The loop is entered with gem5's time behind SystemC's and no event in the past, and gem5 is
-- orderly. With fuel above the number of events that are left at this tick it is left: after an
-- exit event, or asleep until exactly the tick of the next event, for which one wake-up is notified.
-- gem5's time is SystemC's then, and no event was missed.
pub loop_leaves :
    {Q : Type 0} (fuel : ℕ) (eventq : EventQueue Q) (now : ℕ) (s : Module Q)
    (o : IsOrderly eventq now)
    → IsDue eventq now s
    → o.left s.queue < fuel
    → (s' : Module Q) × (loop fuel eventq now s ≡ ok (some s'))
      × (s'.cur_tick ≡ now)
      × IsLeft eventq now s'
loop_leaves zero eventq now s o d l = absurd (omega arith)
loop_leaves (suc fuel) eventq now s o d l = elim (Bool-cases (ltb now d.next)) [
  | inl later ↦
      let after : now < d.next = ground arith in
      let slept = asleep d.next (caught_up now s) in
      let e = round-asleep eventq now d.next s d.lags d.has_next after in
      (
        slept,
        loop-round fuel eventq now d.next s d.has_next e,
        ground arith,
        sleeping d.next (ground (arith, d.has_next)) after refl (caught_up now s).calls
            (ground arith),
      )
  | inr due ↦
      let at_now : eventq.next_tick s.queue ≡ some now = ground (arith, d.has_next, d.ahead) in
      elim (Bool-cases (eventq.service_one s.queue).1) [
        | inl exits ↦
            let e = round_exit eventq now s d.lags at_now exits in
            (
              _,
              loop-round fuel eventq now now s at_now e,
              ground arith,
              exited (ground (arith, exits)),
            )
        | inr goes ↦
            let after = served eventq (caught_up now s) in
            let e = round_goes eventq now s d.lags at_now goes in
            let same : after.queue ≡ (eventq.service_one s.queue).0 = ground arith in
            let (n, next, ahead) = o.lasting s.queue at_now goes in
            let due_again : IsDue eventq now after = record {
              lags = ground arith;
              next = n;
              has_next = ap eventq.next_tick same ∙ next;
              ahead = ahead;
            } in
            let less = o.finite s.queue at_now in
            let few : o.left after.queue < fuel = rw same (omega (arith, less)) in
            let (s', ended, time, left) = loop_leaves fuel eventq now after o due_again few in
            (s', loop-round fuel eventq now now s at_now e ∙ ended, time, left)
      ]
]
