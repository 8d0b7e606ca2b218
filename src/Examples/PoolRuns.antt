-- ===== src/Examples/PoolRuns.antt =====
-- Threads around a pool of one connection.
use cppbackend_api.Base.{◌≤◌, refl, true, false, [], arith}
use cppbackend_api.Pool.{Pool, new_pool, Attempt, get_connection, return_connection}
use cppbackend_api.Pool.Steps.{
  call, wait, proceed, give_back, Reach, here, next, WellFormed, Reach-WellFormed,
}
use cppbackend_api.Pool.Wakeups.{available, no_lost_wakeup}

abbrev connecting : Attempt
connecting = record {
  still_open = true;
  connects = true;
  opens = true;
  reconnects = true;
  fresh = 7;
}

abbrev failing : Attempt
failing = record { still_open = true; connects = false; opens = true; reconnects = true; fresh = 7 }

-- One thread holds the connection and two sleep.
abbrev busy : Pool
busy = record { max_pool_size = 1; created_count = 1; pool = []; lent = 1; awake = 0; asleep = 2 }

first_served : Reach (new_pool 1) (record busy { asleep = 0 })
unfolding get_connection
first_served = next (next here call) (proceed connecting (omega arith) refl)

reached : Reach (new_pool 1) busy
unfolding get_connection
reached =
    next (next (next (next first_served call) call) (wait (omega arith) refl))
      (wait (omega arith) refl)

Reach-WellFormed_example : WellFormed busy
Reach-WellFormed_example = Reach-WellFormed 1 busy reached

no_lost_wakeup_example : available busy ≤ 0
unfolding reached first_served
no_lost_wakeup_example =
    no_lost_wakeup 1 busy reached (((((((tt, tt), λ e. refl), tt), tt), tt), tt)) (omega arith)

-- The connection breaks and is given back; one thread wakes and cannot connect, and the other
-- sleeps on with the place free.
abbrev broken : Pool
broken = record busy { created_count = 0; lent = 0; awake = 1; asleep = 1 }

broken_reached : Reach (new_pool 1) broken
unfolding return_connection
broken_reached = next reached (give_back false 7 (omega arith))
