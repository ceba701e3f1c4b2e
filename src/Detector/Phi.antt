-- ===== src/Detector/Phi.antt =====
-- targets/libraries/phi_accrual_fd/include/phi_accrual_fd/: the statistics of the window and `phi`; and
-- targets/apps/thallium_failure_detector/main.cpp, the server. The functions of cmath and the arithmetic of
-- double are parameters.
use spack_playground.Prelude.{
  ℕ, ◌≡◌, refl, ap, ◌∙◌, Bool, true, false, List, [], ◌∷◌, if◌then◌else◌, length,
}
use spack_playground.Detector.{Durations, Window, FailureDetector, reset, heartbeat, heartbeats}
use spack_playground.Detector.Recent.{recent, gaps, latest, heartbeats-recent}

-- Numbers of type double; `count` is that of a duration, `over` divides a duration by a size, and `floor`
-- is 1, the least sigma.
pub record Doubles (D R : Type 0) : Type 0 where
  pub count : D → R
  pub over : D → ℕ → D
  pub plus : R → R → R
  pub minus : R → R → R
  pub times : R → R → R
  pub div : R → R → R
  pub negated : R → R
  pub less : R → R → Bool
  pub one : R
  pub linear : R
  pub cubic : R
  pub sqrt : R → R
  pub exp : R → R
  pub log10 : R → R

module _ {D R : Type 0} (ops : Durations D) (reals : Doubles D R) where
  abbrev pub mean : Window D → D
  mean w = reals.over w.sum (length w.durations)

  abbrev pub variance : Window D → D
  variance w = ops.minus (reals.over w.sum_of_squares (length w.durations)) (ops.square (mean w))

  -- `normalDistribution`: its mean and its `stddev`
  abbrev pub normal_distribution : Window D → R × R
  normal_distribution w = (
    reals.count (mean w),
    reals.sqrt (
        reals.count
          (ops.minus (reals.over w.sum_of_squares (length w.durations)) (ops.square (mean w)))),
  )

  -- The least sigma is 1.
  abbrev pub at_least_one : R → R
  at_least_one sigma = if reals.less sigma reals.one then reals.one else sigma

  -- `exp(-y * (1.5976 + 0.070566 * y * y))`
  abbrev pub tail_of : R → R
  tail_of y = reals.exp (
      reals.times (reals.negated y)
        (reals.plus reals.linear (reals.times (reals.times reals.cubic y) y)))

  module _ {T : Type 0} (since : T → T → D) where
    abbrev pub phi : T → FailureDetector D T → R
    phi t f =
        let elapsed : R = reals.count (since t f.latest_heartbeat) in
        let (center, deviation) = normal_distribution f.window in
        let sigma : R = at_least_one deviation in
        let y : R = reals.div (reals.minus elapsed center) sigma in
        let e : R = tail_of y in
        if reals.less elapsed center
        then reals.negated
            (reals.log10 (reals.minus reals.one (reals.div reals.one (reals.plus reals.one e))))
        else reals.negated (reals.log10 (reals.div e (reals.plus reals.one e)))

    -- The server: whether a heartbeat was received, and the detector.
    pub record Server : Type 0 where
      pub received_first_heartbeat : Bool
      pub failure_detector : FailureDetector D T

    abbrev pub new_server : FailureDetector D T → Server
    new_server f = record { received_first_heartbeat = false; failure_detector = f }

    -- the handler of `hb` at a time
    unfoldable pub hb : T → Server → Server
    hb t s =
        if s.received_first_heartbeat
        then record {
          received_first_heartbeat = true;
          failure_detector = heartbeat ops since t s.failure_detector;
        }
        else record {
          received_first_heartbeat = true;
          failure_detector = reset ops since t s.failure_detector;
        }

    -- messages at these times, the first one first
    unfoldable pub hbs : List T → Server → Server
    unfolding hb
    hbs [] s = s
    hbs (t ∷ ts) s = hbs ts (hb t s)

    -- what the printing thread prints
    abbrev pub printed : T → Server → R
    printed t s = phi t s.failure_detector

    hbs_later :
        (ts : List T) (f : FailureDetector D T)
        → hbs ts (record { received_first_heartbeat = true; failure_detector = f })
          ≡ record { received_first_heartbeat = true; failure_detector = heartbeats ops since ts f }
    unfolding hbs hb heartbeats
    hbs_later [] f = refl
    hbs_later (t ∷ ts) f = hbs_later ts (heartbeat ops since t f)

    -- Behind messages at `t` and the times `ts`, of which the first one resets the detector, the window of the
    -- server holds the last `window_size` of the intervals between them, its size is kept, and the latest
    -- heartbeat is the last of the times.
    pub hbs-recent :
        (f : FailureDetector D T) (t : T) (ts : List T)
        → let s = (hbs (t ∷ ts) (new_server f)).failure_detector in
          (s.window.durations ≡ recent f.window.window_size (gaps ops since t ts))
          × (s.window.window_size ≡ f.window.window_size)
          × (s.latest_heartbeat ≡ latest ops since t ts)
    unfolding hbs hb
    hbs-recent f t ts =
        let (same, holds) = heartbeats-recent ops since f t ts in
        let run = ap (λ s. s.failure_detector) (hbs_later ts (reset ops since t f)) in
        (
          ap (λ d. d.window.durations) run ∙ holds.held,
          ap (λ d. d.window.window_size) run ∙ holds.size,
          ap (λ d. d.latest_heartbeat) run ∙ same,
        )
