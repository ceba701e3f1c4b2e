-- ===== src/Detector/Recent.antt =====
-- The window holds the most recent intervals; the arithmetic of durations is a parameter.
use spack_playground.Prelude.{
  ℕ, zero, suc, ◌+◌, ◌-◌, ◌<◌, ◌≤◌, ◌≡◌, ◌⊎◌, refl, sym, ap, ◌∙◌, inl, inr, true, false, List, [],
  ◌∷◌, ◌++◌, append_assoc, append-nil, arith, ltb, lt→ltb, subst, length, length-append,
}
use spack_playground.Detector.{
  Durations, Window, FailureDetector, reset_window, drop_front, push_back, add, reset, heartbeat,
  heartbeats,
}

abbrev drop : {A : Type 0} → ℕ → List A → List A
drop zero xs = xs
drop (suc n) [] = []
drop (suc n) (x ∷ xs) = drop n xs

-- the last `n` elements
abbrev pub recent : {A : Type 0} → ℕ → List A → List A
recent n xs = drop (length xs - n) xs

module _ {D : Type 0} (ops : Durations D) where
  -- A window of this size holds these durations.
  pub record Holds (n : ℕ) (ds : List D) (w : Window D) : Type 0 where
    pub size : w.window_size ≡ n
    pub held : w.durations ≡ ds

  push_back-Holds :
      (n : ℕ) (ds : List D) (w : Window D) (d : D)
      → Holds n ds w
      → Holds n (ds ++ d ∷ []) (push_back ops d w)
  push_back-Holds n ds w d h = record { size = h.size; held = ap (λ l. l ++ d ∷ []) h.held }

  drop_front-Holds :
      (n : ℕ) (c : D) (ds : List D) (w : Window D)
      → Holds n (c ∷ ds) w
      → Holds n ds (drop_front ops (c ∷ ds) w)
  drop_front-Holds n c ds w h = record { size = h.size; held = refl }

  drop-append :
      (k : ℕ) (xs : List D) (d : D) → k ≤ length xs → drop k xs ++ d ∷ [] ≡ drop k (xs ++ d ∷ [])
  drop-append zero xs d le = refl
  drop-append (suc k) [] d le = absurd (omega (arith, le))
  drop-append (suc k) (x ∷ xs) d le = drop-append k xs d (omega (arith, le))

  length-drop : (k : ℕ) (xs : List D) → k ≤ length xs → length (drop k xs) + k ≡ length xs
  length-drop zero xs le = omega arith
  length-drop (suc k) [] le = omega (arith, le)
  length-drop (suc k) (x ∷ xs) le = omega (arith, length-drop k xs (omega (arith, le)))

  drop-step : (k : ℕ) (xs : List D) → k < length xs → (x : D) × (drop k xs ≡ x ∷ drop (suc k) xs)
  drop-step k [] lt = elim lt [ ]
  drop-step zero (x ∷ xs) lt = (x, refl)
  drop-step (suc k) (x ∷ xs) lt = drop-step k xs (omega (arith, lt))

  add-Holds :
      (n : ℕ) (xs : List D) (w : Window D) (d : D)
      → Holds n (recent n xs) w
      → Holds n (recent n (xs ++ d ∷ [])) (add ops d w)
  unfolding add
  add-Holds n xs w d h =
      let more : length (xs ++ d ∷ []) ≡ length xs + 1 = length-append xs (d ∷ []) in
      let pushed = push_back-Holds n (recent n xs) w d h in
      let joined : recent n xs ++ d ∷ [] ≡ drop (length xs - n) (xs ++ d ∷ []) =
        drop-append (length xs - n) xs d (omega arith) in
      let size_now : length (push_back ops d w).durations + (length xs - n) ≡ length xs + 1 =
        omega (
          arith,
          ap length (pushed.held ∙ joined),
          length-drop (length xs - n) (xs ++ d ∷ []) (omega (arith, more)),
          more,
        ) in
      elim (room_cases n (length xs)) [
        | inl room ↦
            let stays : ltb w.window_size (length (push_back ops d w).durations) ≡ false =
              within w.window_size (length (push_back ops d w).durations)
                (omega (arith, size_now, h.size, room)) in
            rw (stays, add)
              (subst (λ l. Holds n l (push_back ops d w))
                (joined ∙ ap (λ k. drop k (xs ++ d ∷ [])) (omega (arith, room, more))) pushed)
        | inr full ↦
            let (c, split) = drop-step (length xs - n) (xs ++ d ∷ []) (omega (arith, more)) in
            let held : (push_back ops d w).durations
                ≡ c ∷ drop (suc (length xs - n)) (xs ++ d ∷ []) =
              pushed.held ∙ joined ∙ split in
            let same : suc (length xs - n) ≡ length (xs ++ d ∷ []) - n =
              omega (arith, more, full) in
            let drops : ltb w.window_size (length (push_back ops d w).durations) ≡ true =
              lt→ltb w.window_size (length (push_back ops d w).durations)
                (omega (arith, size_now, h.size, full)) in
            rw (drops, add)
              (subst (λ l. Holds n (recent n (xs ++ d ∷ [])) (drop_front ops l (push_back ops d w)))
                (sym held)
                (subst
                  (λ l. Holds n l (
                    drop_front ops (c ∷ drop (suc (length xs - n)) (xs ++ d ∷ []))
                      (push_back ops d w)))
                  (ap (λ k. drop k (xs ++ d ∷ [])) same)
                  (drop_front-Holds n c _ (push_back ops d w)
                    (subst (λ l. Holds n l (push_back ops d w)) (joined ∙ split) pushed))))
      ]
    where
      room_cases : (a b : ℕ) → (b < a) ⊎ (a ≤ b)
      room_cases a b = ground arith

      within : (a b : ℕ) → b ≤ a → ltb a b ≡ false
      within a b le = ground arith

  module _ {T : Type 0} (since : T → T → D) where
    -- The intervals between these times, from `t` on.
    abbrev pub gaps : T → List T → List D
    gaps t [] = []
    gaps t (s ∷ ts) = since s t ∷ gaps s ts

    abbrev pub latest : T → List T → T
    latest t [] = t
    latest t (s ∷ ts) = latest s ts

    heartbeats-Holds :
        (n : ℕ) (xs : List D) (ts : List T) (f : FailureDetector D T)
        → Holds n (recent n xs) f.window
        → (((heartbeats ops since ts f).latest_heartbeat) ≡ latest f.latest_heartbeat ts)
          × Holds n (recent n (xs ++ gaps f.latest_heartbeat ts)) (heartbeats ops since ts f).window
    unfolding heartbeats heartbeat
    heartbeats-Holds n xs [] f h =
        (refl, subst (λ l. Holds n (recent n l) f.window) (sym (append-nil xs)) h)
    heartbeats-Holds n xs (t ∷ ts) f h =
        let gap : D = since t f.latest_heartbeat in
        let (same, holds) =
          heartbeats-Holds n (xs ++ gap ∷ []) ts (heartbeat ops since t f)
            (add-Holds n xs f.window gap h) in
        (
          same,
          subst
              (λ l. Holds n (recent n l) (heartbeats ops since ts (heartbeat ops since t f)).window)
              (append_assoc xs (gap ∷ []) (gaps t ts)) holds,
        )

    -- After `reset` at `t` and heartbeats at the times `ts` the window holds the last `window_size` of
    -- the intervals between them, and the latest heartbeat is the last of the times.
    pub heartbeats-recent :
        (f : FailureDetector D T) (t : T) (ts : List T)
        → ((heartbeats ops since ts (reset ops since t f)).latest_heartbeat ≡ latest t ts)
          × Holds f.window.window_size
              (recent f.window.window_size (gaps t ts))
              (heartbeats ops since ts (reset ops since t f)).window
    unfolding reset reset_window
    heartbeats-recent f t ts =
        heartbeats-Holds f.window.window_size [] ts (reset ops since t f)
          (record { size = refl; held = nothing f.window.window_size })
      where
        nothing : (n : ℕ) → ◌≡◌ {A = List D} [] (recent n [])
        nothing n = by_length (0 - n)
          where
            by_length : (k : ℕ) → ◌≡◌ {A = List D} [] (drop k [])
            by_length zero = refl
            by_length (suc k) = refl
