-- ===== src/SimpleKv/Rebuild/Commands.antt =====
-- targets/apps/ppm_ch11_5_simplekv_rebuild/main.cpp: the commands that `main` reads. `std::cin`, the pool and
-- the memory are parameters.
pub mod Restarts
pub mod Rounds
pub mod Loop
pub mod Process
mod Examples
use spack_playground.Prelude.{
  ℕ, zero, suc, ◌≤◌, ◌<◌, ◌≡◌, Bool, true, false, Option, none, some, List, [], ◌∷◌, if◌then◌else◌,
  ltb,
}
use spack_playground.Prelude.Texts.{same_text}
use spack_playground.Effects.{Exception, Outcome, done, threw, fault}
use spack_playground.SimpleKv.{Key, Room, Lookup, found, absent, undefined}
use spack_playground.SimpleKv.Command.{
  Text, get_text, put_text, Line, usage, answer, failure, pool_failed, Ending, returned, terminated,
  kv_buckets,
}
use spack_playground.SimpleKv.Rebuild.{Persistent, Runtime, rebuild, get, put}

abbrev pub exit_text : Text
exit_text = 101 ∷ 120 ∷ 105 ∷ 116 ∷ []

-- `std::cin`: what `>>` reads into a string and into a number, `none` where it fails. A word is read from
-- at least one byte.
pub record Input (I V : Type 0) : Type 0 where
  pub word : I → Option Text × I
  pub number : I → Option V × I
  pub left : I → ℕ
  pub word_left : (i : I) (w : Text) → (word i).0 ≡ some w → left (word i).1 < left i
  pub word_left_le : (i : I) → left (word i).1 ≤ left i
  pub number_left : (i : I) → left (number i).1 ≤ left i

-- `struct root`
abbrev pub Root : Type 0 → Type 0
Root V = Option (Persistent Text V)

-- What is printed from here on, and what is stored when the loop or the `try` block is left.
pub record Session (V : Type 0) : Type 0 where
  pub lines : List (Line V)
  pub root : Root V

module _ {V : Type 0} where
  abbrev pub line : Line V → Option (Session V) → Option (Session V)
  line l none = none
  line l (some s) = some (record s { lines = l ∷ s.lines })

  abbrev pub over : List (Line V) → Runtime Text V → Option (Session V)
  over ls r = some (record { lines = ls; root = some r.stored })

module _ {I V : Type 0} (cin : Input I V) (key : Key Text) (room : ℕ → Room) where
  abbrev pub Round : Type 0
  Round = I → Runtime Text V → Option (Session V)

  -- `std::cout << runtime_kv.get(key)`; the handler behind the loop prints what was thrown.
  abbrev pub answered : Lookup V → Round → Round
  answered (found v) go i r = line (answer v) (go i r)
  answered absent go i r = over (failure ∷ []) r
  answered undefined go i r = none

  abbrev pub after_put :
      Outcome (Runtime Text V) (Unit {0})
      → (Runtime Text V → Option (Session V))
      → Option (Session V)
  after_put (done u r) go = go r
  after_put (threw e r) go = over (failure ∷ []) r
  after_put fault go = none

  -- The `if` of the loop once `op` is read; `go` is the next round, which may use `room k`. An `op` whose
  -- arguments cannot be read falls through to the last `else`.
  abbrev pub get_command : Round → Option Text × I → Round
  get_command go (some k, rest) i r = answered (get key r k) go rest r
  get_command go (none, rest) i r = line usage (go rest r)

  abbrev pub put_number : ℕ → Round → Text → Option V × I → Runtime Text V → Option (Session V)
  put_number n go k (some v, rest) r = after_put (put key (room n) k v r) (go rest)
  put_number n go k (none, rest) r = line usage (go rest r)

  abbrev pub put_command : ℕ → Round → Option Text × I → Round
  put_command n go (some k, rest) i r = put_number n go k (cin.number rest) r
  put_command n go (none, rest) i r = line usage (go rest r)

  unfoldable pub command : ℕ → Round → Text → Round
  command n go op i r =
      if same_text op get_text
      then get_command go (cin.word i) i r
      else if same_text op put_text
      then put_command n go (cin.word i) i r
      else if same_text op exit_text
      then over [] r
      else line usage (go i r)

  -- `while (std::cin >> op)`, at most `k` rounds.
  unfoldable pub command_loop : ℕ → Round
  unfolding command
  command_loop zero i r = none
  command_loop (suc k) i r =
      let go = command_loop k in
      elim (cin.word i).0 [ none ↦ over [] r | some op ↦ command k go op (cin.word i).1 r ]

  -- The constructor of the runtime object and the loop.
  unfoldable pub serve : ℕ → I → Persistent Text V → Option (Session V)
  unfolding command_loop
  serve k i p = elim (rebuild key kv_buckets p) [
    | none ↦ none
    | some r ↦ line usage (command_loop k i r)
  ]

  -- The `try` block; `made` is whether there is memory for a new object.
  unfoldable pub try_block : Bool → ℕ → I → Root V → Option (Session V)
  unfolding serve
  try_block made k i (some p) = serve k i p
  try_block made k i none =
      if made
      then serve k i (record { values = []; keys = [] })
      else some (record { lines = failure ∷ []; root = none })

  -- `main`; `opened` is the root of the pool where it opens, `root` what is stored, and `close_closed`
  -- what closing a pool that did not open throws.
  unfoldable pub main :
      Exception → ℕ → Bool → Option (Root V) → Root V → ℕ → I → Option (Session V × Ending)
  unfolding try_block
  main close_closed argc made opened root k i =
      if ltb argc 2
      then some (record { lines = usage ∷ []; root = root }, returned 1)
      else elim opened [
        | none ↦ some (record { lines = pool_failed ∷ []; root = root }, terminated close_closed)
        | some stored ↦ elim (try_block made k i stored) [
          | none ↦ none
          | some s ↦ some (s, returned 0)
        ]
      ]
