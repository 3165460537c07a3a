-- ===== src/EventLoop.antt =====
-- include/sc_module.hh and src/sc_module.cc: the event loop of gem5 inside SystemC. gem5's event
-- queue is a parameter; `now` is SystemC's time, in ticks of a picosecond.
pub mod Progress
pub mod Simulate
pub mod Tests
use gem5_wrapper.Prelude.{
  ℕ, zero, suc, ◌-◌, Bool, true, false, not, ◌&&◌, ◌||◌, Option, none, some, List, [], ◌∷◌, leb,
  ltb, if◌then◌else◌, is_some, Outcome, ok, stop, check, ◌>>=◌, ◌>>◌, assertion, exited,
}

-- gem5's queue of events: the tick of its next event, if it is not empty; what it is after that
-- event was served, and whether this was an exit event; and what the three asynchronous requests
-- do to it, and what `simulate` does with its limit.
pub record EventQueue (Q : Type 0) : Type 0 where
  pub next_tick : Q → Option ℕ
  pub service_one : Q → Q × Bool
  pub sched_stat_event : (dump reset : Bool) → Q → Q
  pub exit_sim_loop : Q → Q
  pub poll : Q → Q
  pub schedule_limit : ℕ → Q → Q  -- a new exit event at a tick
  pub deschedule_limit : Q → Q

pub data Call : Type 0 where
  enter_later : ℕ → Call  -- `eventLoopEnterEvent.notify`
  exit_now : Call  -- `eventLoopExitEvent.notify`
  external_later : ℕ → Call  -- `externalSchedulingEvent.notify`
  cancel_enter cancel_exit cancel_external : Call

-- The module, with gem5's queue, its time and its flags for asynchronous events.
pub record Module (Q : Type 0) : Type 0 where
  pub queue : Q
  pub cur_tick : ℕ
  pub async_event : Bool
  pub async_statdump : Bool
  pub async_statreset : Bool
  pub async_exit : Bool
  pub async_io : Bool
  pub async_exception : Bool
  pub wait_exit_time : ℕ
  pub in_simulate : Bool
  pub exit_event : Bool  -- whether `exitEvent` is set
  pub calls : List Call

abbrev pub in_time : ℕ → Option ℕ → Bool
in_time tick none = true
in_time tick (some next) = leb tick next

unfoldable pub catchup : {Q : Type 0} → EventQueue Q → ℕ → Module Q → Outcome (Module Q)
catchup eventq now s = do
  check (leb s.cur_tick now) exited
  check (in_time s.cur_tick (eventq.next_tick s.queue)) exited
  ok (record s { cur_tick = now })

unfoldable pub notify : {Q : Type 0} → ℕ → Module Q → Module Q
notify time_from_now s = record s { calls = external_later time_from_now ∷ s.calls }

-- The three requests that `serviceAsyncEvent` serves after it has caught up.
abbrev pub service_stats : {Q : Type 0} → EventQueue Q → Module Q → Module Q
service_stats eventq s =
    if s.async_statdump || s.async_statreset
    then record s {
      queue = eventq.sched_stat_event s.async_statdump s.async_statreset s.queue;
      async_statdump = false;
      async_statreset = false;
    }
    else s

abbrev pub service_exit : {Q : Type 0} → EventQueue Q → Module Q → Module Q
service_exit eventq s =
    if s.async_exit
    then record s { queue = eventq.exit_sim_loop s.queue; async_exit = false }
    else s

abbrev pub service_io : {Q : Type 0} → EventQueue Q → Module Q → Module Q
service_io eventq s =
    if s.async_io then record s { queue = eventq.poll s.queue; async_io = false } else s

unfoldable pub service_async_event : {Q : Type 0} → EventQueue Q → ℕ → Module Q → Outcome (Module Q)
unfolding catchup
service_async_event eventq now s = do
  check s.async_event assertion
  s' ← catchup eventq now s
  let served =
      service_io eventq
        (service_exit eventq (service_stats eventq (record s' { async_event = false })))
  check (not served.async_exception) exited
  ok served

-- "Woken up early".
abbrev pub woken : {Q : Type 0} → ℕ → Module Q → Module Q
woken now s = if ltb now s.wait_exit_time then record s { wait_exit_time = now } else s

-- The next event is in the future: the loop is left, to be entered again at its time.
abbrev pub asleep : {Q : Type 0} → ℕ → Module Q → Module Q
asleep next s = record s {
  wait_exit_time = next;
  calls = enter_later (next - s.cur_tick) ∷ s.calls;
}

abbrev pub served : {Q : Type 0} → EventQueue Q → Module Q → Module Q
served eventq s = record s {
  queue = (eventq.service_one s.queue).0;
  exit_event = (eventq.service_one s.queue).1;
}

-- One round of the loop for the next event's tick; `true` if the loop is left.
unfoldable pub round :
    {Q : Type 0} → EventQueue Q → (now next : ℕ) → Module Q → Outcome (Module Q × Bool)
unfolding catchup
round eventq now next s = do
  s' ← catchup eventq now s
  let early = woken now s'
  let after = served eventq early
  if ltb early.cur_tick next
      then ok (asleep next early, true)
      else if ltb next early.cur_tick
      then stop exited
      else if after.exit_event
      then ok (record after { calls = exit_now ∷ after.calls }, true)
      else ok (after, false)

-- The loop, on fuel; `none` means that the fuel ran out.
unfoldable pub loop : {Q : Type 0} → ℕ → EventQueue Q → ℕ → Module Q → Outcome (Option (Module Q))
loop zero eventq now s = ok none
loop (suc fuel) eventq now s =
    let rest = loop fuel eventq now in
    elim (eventq.next_tick s.queue) [
      | none ↦ stop exited
      | some next ↦ round eventq now next s >>= λ r. if r.1 then ok (some r.0) else rest r.0
    ]

unfoldable pub event_loop :
    {Q : Type 0} → ℕ → EventQueue Q → ℕ → Module Q → Outcome (Option (Module Q))
unfolding service_async_event loop
event_loop fuel eventq now s = do
  check s.in_simulate exited
  s' ← if s.async_event then service_async_event eventq now s else ok s
  loop fuel eventq now s'

unfoldable pub service_external_event :
    {Q : Type 0} → ℕ → EventQueue Q → ℕ → Module Q → Outcome (Option (Module Q))
unfolding service_async_event event_loop
service_external_event fuel eventq now s = do
  s' ← if s.async_event then service_async_event eventq now s else ok s
  if s'.in_simulate && is_some (eventq.next_tick s'.queue)
      then event_loop fuel eventq now s'
      else ok (some s')
