-- ===== src/EventLoop/Tests.antt =====
-- Runs of the event loop, and the theorem about it at a concrete queue.
use gem5_wrapper.Prelude.{
  ℕ, zero, suc, ◌≤◌, ◌<◌, ◌≡◌, refl, Bool, true, false, Option, none, some, ◌^◌, stop, exited, [],
  ◌∷◌, arith, ok,
}
use gem5_wrapper.EventLoop.{EventQueue, Module, enter_later, catchup, round, loop, event_loop}
use gem5_wrapper.EventLoop.Simulate.{
  earliest, simulate_start, simulate_start-enters, simulate_start-late,
}
use gem5_wrapper.EventLoop.Progress.{IsOrderly, IsDue, loop_leaves}

-- Some events at tick 5, and then the exit event at tick 9.
abbrev tick_of : ℕ → Option ℕ
tick_of zero = some 9
tick_of (suc k) = some 5

abbrev serve : ℕ → ℕ × Bool
serve zero = (zero, true)
serve (suc k) = (k, false)

abbrev events : EventQueue ℕ
events = record {
  next_tick = tick_of;
  service_one = serve;
  sched_stat_event = λ dump reset q. q;
  exit_sim_loop = λ q. q;
  poll = λ q. q;
  schedule_limit = λ tick q. q;
  deschedule_limit = λ q. q;
}

-- Two events are left at tick 5, and gem5's time is 3.
abbrev module_3 : Module ℕ
module_3 = record {
  queue = 2;
  cur_tick = 3;
  async_event = false;
  async_statdump = false;
  async_statreset = false;
  async_exit = false;
  async_io = false;
  async_exception = false;
  wait_exit_time = 5;
  in_simulate = true;
  exit_event = false;
  calls = [];
}

event_loop_test :
    event_loop 3 events 5 module_3
    ≡ ok (
        some (record module_3 {
          queue = 0;
          cur_tick = 5;
          wait_exit_time = 9;
          calls = enter_later 4 ∷ [];
        }))
unfolding event_loop loop round catchup
event_loop_test = refl

lasting_5 :
    (q : ℕ)
    → tick_of q ≡ some 5
    → (serve q).1 ≡ false
    → (n : ℕ) × (tick_of (serve q).0 ≡ some n) × (5 ≤ n)
lasting_5 zero e x = cc
lasting_5 (suc zero) e x = (9, refl, omega arith)
lasting_5 (suc (suc k)) e x = (5, refl, omega arith)

finite_5 : (q : ℕ) → tick_of q ≡ some 5 → (serve q).0 < q
finite_5 zero e = ground (arith, e)
finite_5 (suc k) e = omega arith

abbrev orderly : IsOrderly events 5
orderly = record { left = λ q. q; finite = finite_5; lasting = lasting_5 }

module_3-IsDue : IsDue events 5 module_3
module_3-IsDue = record { lags = omega arith; next = 5; has_next = refl; ahead = omega arith }

few_test : orderly.left module_3.queue < 3
few_test = omega arith

loop_leaves_example :
    (loop_leaves 3 events 5 module_3 orderly module_3-IsDue few_test).0.cur_tick ≡ 5
loop_leaves_example = (loop_leaves 3 events 5 module_3 orderly module_3-IsDue few_test).2

-- A queue that holds the limit of a simulation, or nothing.
abbrev until : EventQueue (Option ℕ)
until = record {
  next_tick = λ q. q;
  service_one = λ q. (none, true);
  sched_stat_event = λ dump reset q. q;
  exit_sim_loop = λ q. q;
  poll = λ q. q;
  schedule_limit = λ tick q. some (earliest tick q);
  deschedule_limit = λ q. none;
}

abbrev holds : Option ℕ → ℕ
holds none = 0
holds (some tick) = 1

until_finite : (q : Option ℕ) → q ≡ some 5 → holds none < holds q
until_finite none e = cc
until_finite (some tick) e = omega arith

until_lasting :
    (q : Option ℕ)
    → q ≡ some 5
    → true ≡ false
    → (n : ℕ) × (◌≡◌ {A = Option ℕ} none (some n)) × (5 ≤ n)
until_lasting q e x = cc

abbrev until_orderly : IsOrderly until 5
until_orderly = record { left = holds; finite = until_finite; lasting = until_lasting }

-- gem5's time is 3, and there is no event.
abbrev idle_3 : Module (Option ℕ)
idle_3 = record {
  queue = none;
  cur_tick = 3;
  async_event = false;
  async_statdump = false;
  async_statreset = false;
  async_exit = false;
  async_io = false;
  async_exception = false;
  wait_exit_time = 0;
  in_simulate = false;
  exit_event = false;
  calls = [];
}

max_test : 18446744073709551615 < 2 ^ 64
max_test = omega arith

one_test : holds (simulate_start until 18446744073709551615 10 idle_3).queue < 2
unfolding simulate_start
one_test = omega arith

-- `simulate (10)` at tick 3, while SystemC's time is 5.
simulate_start-enters_example :
    (simulate_start-enters 2 until 18446744073709551615 5 10 idle_3 until_orderly
      (λ tick q. refl)
      max_test
      (omega arith)
      (omega arith)
      (omega arith)
      tt
      refl
      one_test).0.cur_tick
    ≡ 5
simulate_start-enters_example =
    (simulate_start-enters 2 until 18446744073709551615 5 10 idle_3 until_orderly (λ tick q. refl)
      max_test (omega arith) (omega arith) (omega arith) tt refl one_test).2

-- `simulate (1)` at the same time.
simulate_start-late_example :
    event_loop 1 until 5 (simulate_start until 18446744073709551615 1 idle_3) ≡ stop exited
simulate_start-late_example =
    simulate_start-late 0 until 18446744073709551615 5 1 idle_3 (λ tick q. refl) max_test
      (omega arith) (omega arith) refl refl
