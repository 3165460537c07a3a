-- ===== src/EventLoop/Simulate.antt =====
-- src/sc_module.cc: `simulate`, the queue's `wakeup`, and the set-up of gem5's queue. `simulate` is
-- a process that waits once for `eventLoopExitEvent`: what it does before and after is a function
-- each. (It has set `exitEvent` to null, so the test in front of the wait always holds.)
use gem5_wrapper.Prelude.{
  ℕ, suc, ◌+◌, ◌-◌, ◌%◌, ◌^◌, ◌≤◌, ◌<◌, ◌≡◌, ◌⊎◌, ap, ◌∙◌, Bool, true, false, Option, none, some,
  List, [], ◌∷◌, arith, ltb, leb, if◌then◌else◌, Outcome, ok, stop, check, ◌>>◌, assertion,
  bad_access, exited,
}
use gem5_wrapper.EventLoop.{
  EventQueue, Module, enter_later, cancel_enter, cancel_exit, cancel_external, notify, event_loop,
  loop, round, catchup,
}
use gem5_wrapper.EventLoop.Progress.{IsOrderly, IsLeft, loop_leaves}

-- The tick of the limit. `max_tick` is gem5's `MaxTick`; the sum is one of 64 bits.
unfoldable pub limit_tick : (max_tick cur_tick num_cycles : ℕ) → ℕ
limit_tick max_tick cur_tick num_cycles =
    if ltb num_cycles (max_tick - cur_tick) then (cur_tick + num_cycles) % 2 ^ 64 else max_tick

unfoldable pub simulate_start :
    {Q : Type 0} → EventQueue Q → (max_tick num_cycles : ℕ) → Module Q → Module Q
unfolding limit_tick
simulate_start eventq max_tick num_cycles s = record s {
  queue = eventq.schedule_limit (limit_tick max_tick s.cur_tick num_cycles) s.queue;
  exit_event = false;
  in_simulate = true;
  calls = enter_later 0 ∷ cancel_external ∷ cancel_exit ∷ s.calls;
}

-- What `exitEvent` is: no part of a global event; a part of a global event that is no
-- `GlobalSimLoopExitEvent`; or one, the limit or another.
pub data ExitKind : Type 0 where
  local global_other exit_other limit : ExitKind

abbrev is_global : ExitKind → Bool
is_global local = false
is_global global_other = true
is_global exit_other = true
is_global limit = true

abbrev is_exit : ExitKind → Bool
is_exit local = false
is_exit global_other = false
is_exit exit_other = true
is_exit limit = true

abbrev is_limit : ExitKind → Bool
is_limit local = false
is_limit global_other = false
is_limit exit_other = false
is_limit limit = true

-- After the wait; an `exitEvent` that is null is read.
unfoldable pub simulate_finish :
    {Q : Type 0} → EventQueue Q → ExitKind → Module Q → Outcome (Module Q)
simulate_finish eventq kind s = do
  let left = record s { in_simulate = false; calls = cancel_enter ∷ s.calls }
  check s.exit_event bad_access
  check (is_global kind) assertion
  check (is_exit kind) assertion
  ok (if is_limit kind then left else record left { queue = eventq.deschedule_limit s.queue })

-- `SCEventQueue::wakeup` does not look at the tick.
unfoldable pub wakeup : {Q : Type 0} → ℕ → Module Q → Module Q
unfolding notify
wakeup tick s = notify 0 s

-- gem5's vector of main event queues, by name; there is one afterwards.
unfoldable pub setup_event_queues {ℓ} : {A : Type ℓ} → A → List A → Outcome (List A)
setup_event_queues events [] = ok (events ∷ [])
setup_event_queues events (q ∷ queues) = stop exited

-- The limit is the earlier of `cur_tick + num_cycles` and `MaxTick`, and never in the past: no sum
-- wraps round.
pub limit_tick_lem :
    (max_tick cur_tick num_cycles : ℕ)
    → max_tick < 2 ^ 64
    → cur_tick ≤ max_tick
    → (cur_tick ≤ limit_tick max_tick cur_tick num_cycles)
      × (limit_tick max_tick cur_tick num_cycles
          ≡ (if leb (cur_tick + num_cycles) max_tick then cur_tick + num_cycles else max_tick))
unfolding limit_tick
limit_tick_lem max_tick cur_tick num_cycles w c = ground arith

-- The tick of the first of the events when one at `tick` has been put to them.
abbrev pub earliest : ℕ → Option ℕ → ℕ
earliest tick none = tick
earliest tick (some next) = if leb next tick then next else tick

abbrev pub NoneBefore : ℕ → Option ℕ → Type 0
NoneBefore now none = Unit {0}
NoneBefore now (some next) = now ≤ next

-- gem5 puts the limit among its events.
abbrev pub IsScheduled : {Q : Type 0} → EventQueue Q → Type 0
IsScheduled {Q} eventq =
    (tick : ℕ) (q : Q)
    → eventq.next_tick (eventq.schedule_limit tick q) ≡ some (earliest tick (eventq.next_tick q))

earliest-bounds :
    (now tick : ℕ) (next : Option ℕ) → now ≤ tick → NoneBefore now next → now ≤ earliest tick next
earliest-bounds now tick none t n = t
earliest-bounds now tick (some next) t n = ground arith

-- `simulate` is called while gem5's time lags SystemC's by at most `num_cycles`, no event is in
-- the past and no asynchronous event waits; gem5 puts the limit among its events, and is orderly.
-- Then the loop that it notifies does not stop the program: with fuel above the number of events
-- of this tick it is left, by an exit event or asleep until the next event, and gem5's time is
-- SystemC's.
pub simulate_start-enters :
    {Q : Type 0} (fuel : ℕ) (eventq : EventQueue Q) (max_tick now num_cycles : ℕ) (s : Module Q)
    (o : IsOrderly eventq now)
    → IsScheduled eventq
    → max_tick < 2 ^ 64
    → now ≤ max_tick
    → s.cur_tick ≤ now
    → now ≤ s.cur_tick + num_cycles
    → NoneBefore now (eventq.next_tick s.queue)
    → s.async_event ≡ false
    → o.left (simulate_start eventq max_tick num_cycles s).queue < fuel
    → (s' : Module Q) × (event_loop fuel eventq now (simulate_start eventq max_tick num_cycles s)
        ≡ ok (some s'))
      × (s'.cur_tick ≡ now)
      × IsLeft eventq now s'
unfolding simulate_start event_loop
simulate_start-enters fuel eventq max_tick now num_cycles s o law w m lag near past quiet l =
    let tick = limit_tick max_tick s.cur_tick num_cycles in
    let early : now ≤ tick =
      ground (arith, limit_tick_lem max_tick s.cur_tick num_cycles w (omega arith)) in
    rw quiet (
      loop_leaves fuel eventq now _ o
        (record {
          lags = lag;
          next = earliest tick (eventq.next_tick s.queue);
          has_next = law tick s.queue;
          ahead = earliest-bounds now tick (eventq.next_tick s.queue) early past;
        })
        l)

loop-missed :
    {Q : Type 0} (fuel : ℕ) (eventq : EventQueue Q) (now next : ℕ) (s : Module Q)
    → eventq.next_tick s.queue ≡ some next
    → s.cur_tick ≤ next
    → next < now
    → loop (suc fuel) eventq now s ≡ stop exited
unfolding loop round catchup
loop-missed fuel eventq now next s h c l = ground (arith, h)

-- Where gem5's time lags SystemC's by more than `num_cycles`, and gem5 has no other event, the
-- limit lies in the past of SystemC, and the loop that `simulate` notifies stops the program with a fatal error.
pub simulate_start-late :
    {Q : Type 0} (fuel : ℕ) (eventq : EventQueue Q) (max_tick now num_cycles : ℕ) (s : Module Q)
    → IsScheduled eventq
    → max_tick < 2 ^ 64
    → now ≤ max_tick
    → s.cur_tick + num_cycles < now
    → eventq.next_tick s.queue ≡ none
    → s.async_event ≡ false
    → event_loop (suc fuel) eventq now (simulate_start eventq max_tick num_cycles s) ≡ stop exited
unfolding simulate_start event_loop
simulate_start-late fuel eventq max_tick now num_cycles s law w m late empty quiet =
    let tick = limit_tick max_tick s.cur_tick num_cycles in
    let shape : tick ≡ s.cur_tick + num_cycles =
      ground (arith, limit_tick_lem max_tick s.cur_tick num_cycles w (omega arith)) in
    let next : eventq.next_tick (eventq.schedule_limit tick s.queue) ≡ some tick =
      law tick s.queue ∙ ap (λ (o : Option ℕ). some (earliest tick o)) empty in
    rw quiet (loop-missed fuel eventq now tick _ next (omega (arith, shape)) (omega (arith, shape)))

-- Where the exit event is one that ends a simulation, the simulation is over; the limit is taken
-- back from gem5's queue unless it was the exit event itself.
pub simulate_finish_lem :
    {Q : Type 0} (eventq : EventQueue Q) (kind : ExitKind) (s : Module Q) {s' : Module Q}
    → simulate_finish eventq kind s ≡ ok s'
    → (s'.in_simulate ≡ false)
      × ((kind ≡ limit) × (s'.queue ≡ s.queue)
          ⊎ (kind ≡ exit_other) × (s'.queue ≡ eventq.deschedule_limit s.queue))
unfolding simulate_finish
simulate_finish_lem eventq kind s e = ground (arith, e)
