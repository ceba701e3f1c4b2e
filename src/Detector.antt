-- ===== src/Detector.antt =====
-- targets/libraries/phi_accrual_fd/include/phi_accrual_fd/window.hpp and failure_detector.hpp: the last
-- heartbeat intervals with their running sums. The arithmetic of double is a parameter.
pub mod Recent
pub mod Phi
mod Examples
use spack_playground.Prelude.{
  ℕ, zero, suc, ◌+◌, ◌≡◌, Bool, true, false, List, [], ◌∷◌, ◌++◌, ltb, if◌then◌else◌, length,
}

-- `duration_t` with its operators; `square` is `pow2`.
pub record Durations (D : Type 0) : Type 0 where
  pub none_yet : D
  pub plus : D → D → D
  pub minus : D → D → D
  pub square : D → D

-- `class Window`
pub record Window (D : Type 0) : Type 0 where
  pub window_size : ℕ
  pub durations : List D
  pub sum : D
  pub sum_of_squares : D

-- `class FailureDetector`
pub record FailureDetector (D T : Type 0) : Type 0 where
  pub latest_heartbeat : T
  pub window : Window D

module _ {D : Type 0} (ops : Durations D) where
  unfoldable pub reset_window : Window D → Window D
  reset_window w = record {
    window_size = w.window_size;
    durations = [];
    sum = ops.none_yet;
    sum_of_squares = ops.none_yet;
  }

  -- The branch of `add` that drops the oldest duration.
  abbrev pub drop_front : List D → Window D → Window D
  drop_front [] w = w
  drop_front (d ∷ ds) w = record {
    window_size = w.window_size;
    durations = ds;
    sum = ops.minus w.sum d;
    sum_of_squares = ops.minus w.sum_of_squares (ops.square d);
  }

  abbrev pub push_back : D → Window D → Window D
  push_back d w = record {
    window_size = w.window_size;
    durations = w.durations ++ d ∷ [];
    sum = ops.plus w.sum d;
    sum_of_squares = ops.plus w.sum_of_squares (ops.square d);
  }

  unfoldable pub add : D → Window D → Window D
  add d w =
      if ltb w.window_size (length (push_back d w).durations)
      then drop_front (push_back d w).durations (push_back d w)
      else push_back d w

  -- `since t s` is `t - s`.
  module _ {T : Type 0} (since : T → T → D) where
    unfoldable pub reset : T → FailureDetector D T → FailureDetector D T
    unfolding reset_window
    reset t f = record { latest_heartbeat = t; window = reset_window f.window }

    unfoldable pub heartbeat : T → FailureDetector D T → FailureDetector D T
    unfolding add
    heartbeat t f = record {
      latest_heartbeat = t;
      window = add (since t f.latest_heartbeat) f.window;
    }

    -- heartbeats at these times, the first one first
    unfoldable pub heartbeats : List T → FailureDetector D T → FailureDetector D T
    unfolding heartbeat
    heartbeats [] f = f
    heartbeats (t ∷ ts) f = heartbeats ts (heartbeat t f)
