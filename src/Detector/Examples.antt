-- ===== src/Detector/Examples.antt =====
-- A window of two intervals, with numbers for times and durations.
use spack_playground.Prelude.{ℕ, ◌+◌, ◌-◌, ◌*◌, ◌/◌, ◌≡◌, [], ◌∷◌, ltb}
use spack_playground.Detector.{Durations, FailureDetector}
use spack_playground.Detector.Phi.{Doubles, new_server, hbs, hbs-recent}

abbrev millis : Durations ℕ
millis = record { none_yet = 0; plus = ◌+◌; minus = ◌-◌; square = λ d. d * d }

abbrev detector : FailureDetector ℕ ℕ
detector = record {
  latest_heartbeat = 0;
  window = record { window_size = 2; durations = []; sum = 0; sum_of_squares = 0 };
}

abbrev naturals : Doubles ℕ ℕ
naturals = record {
  count = λ d. d;
  over = ◌/◌;
  plus = ◌+◌;
  minus = ◌-◌;
  times = ◌*◌;
  div = ◌/◌;
  negated = λ r. r;
  less = ltb;
  one = 1;
  linear = 2;
  cubic = 1;
  sqrt = λ r. r;
  exp = λ r. 0;
  log10 = λ r. r + 5;
}

abbrev served : FailureDetector ℕ ℕ
served =
    (hbs millis naturals ◌-◌ (10 ∷ 13 ∷ 15 ∷ 20 ∷ [])
      (new_server millis naturals ◌-◌ detector)).failure_detector

hbs-recent_example :
    (served.window.durations ≡ 2 ∷ 5 ∷ [])
    × (served.window.window_size ≡ 2)
    × (served.latest_heartbeat ≡ 20)
hbs-recent_example = hbs-recent millis naturals ◌-◌ detector 10 (13 ∷ 15 ∷ 20 ∷ [])
