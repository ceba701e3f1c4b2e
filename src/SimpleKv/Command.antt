-- ===== src/SimpleKv/Command.antt =====
-- targets/apps/ppm_ch11_4_simplekv/main.cpp: one call of the program, which gets or puts a key. The pool, `std::stoi` and
-- the memory are parameters.
pub mod Processes
mod Examples
use spack_playground.Prelude.{
  ℕ, Bool, true, false, Option, none, some, List, [], ◌∷◌, if◌then◌else◌,
}
use spack_playground.Prelude.Texts.{same_text}
use spack_playground.Effects.{Exception, Outcome, done, threw, fault}
use spack_playground.SimpleKv.{
  Key, Room, SimpleKv, Lookup, found, absent, undefined, new_kv, get, put,
}

abbrev pub Text : Type 0
Text = List ℕ

abbrev pub get_text : Text
get_text = 103 ∷ 101 ∷ 116 ∷ []

abbrev pub put_text : Text
put_text = 112 ∷ 117 ∷ 116 ∷ []

pub data Line (V : Type 0) : Type 0 where
  usage : Line V
  answer : V → Line V
  failure : Line V
  pool_failed : Line V

pub data Ending : Type 0 where
  returned : ℕ → Ending
  terminated : Exception → Ending

-- `struct root`: the table where there is one.
abbrev pub Root : Type 0 → Type 0
Root V = Option (SimpleKv Text V)

-- What a process prints, how it ends and the root that it leaves.
pub record Process (V : Type 0) : Type 0 where
  pub lines : List (Line V)
  pub ending : Ending
  pub root : Root V

-- `kv_type` has ten buckets.
abbrev pub kv_buckets : ℕ
kv_buckets = 10

module _ {V : Type 0} where
  abbrev pub process : List (Line V) → ℕ → Root V → Option (Process V)
  process ls n r = some (record { lines = ls; ending = returned n; root = r })

  -- `std::cout << r->kv->get(...)`; the handler of `std::exception` prints what was thrown.
  abbrev pub print : Lookup V → SimpleKv Text V → Option (Process V)
  print (found v) kv = process (answer v ∷ []) 0 (some kv)
  print absent kv = process (failure ∷ []) 0 (some kv)
  print undefined kv = none

  abbrev pub stored : Outcome (SimpleKv Text V) (Unit {0}) → Option (Process V)
  stored (done u kv) = process [] 0 (some kv)
  stored (threw e kv) = process (failure ∷ []) 0 (some kv)
  stored fault = none

module _ {V : Type 0} (key : Key Text) (stoi : Text → Option V) (room : Room) where
  -- `std::stoi` throws where it reads no number.
  abbrev pub put_argument : Text → Text → SimpleKv Text V → Option (Process V)
  put_argument k t kv = elim (stoi t) [
    | none ↦ process (failure ∷ []) 0 (some kv)
    | some v ↦ stored (put key room k v kv)
  ]

  -- The branches on `argv[2]` and `argc`; the list holds the arguments behind `argv[2]`.
  unfoldable pub command : Text → List Text → SimpleKv Text V → Option (Process V)
  command op [] kv = process (usage ∷ []) 1 (some kv)
  command op (k ∷ []) kv =
      if same_text op get_text then print (get key kv k) kv else process (usage ∷ []) 1 (some kv)
  command op (k ∷ t ∷ []) kv =
      if same_text op put_text then put_argument k t kv else process (usage ∷ []) 1 (some kv)
  command op (k ∷ t ∷ u ∷ more) kv = process (usage ∷ []) 1 (some kv)

  -- The table is made where there is none, in a transaction; `made` is whether there is memory for it.
  unfoldable pub with_table : Bool → Text → List Text → Root V → Option (Process V)
  unfolding command
  with_table made op args (some kv) = command op args kv
  with_table made op args none =
      if made then command op args (new_kv kv_buckets) else process (failure ∷ []) 0 none

  -- `main`; `opened` is the root of the pool where it opens, `root` what is stored, and `close_closed`
  -- what closing a pool that did not open throws.
  unfoldable pub main : Exception → Bool → Option (Root V) → Root V → List Text → Option (Process V)
  unfolding with_table
  main close_closed made opened root [] = process (usage ∷ []) 1 root
  main close_closed made opened root (program ∷ []) = process (usage ∷ []) 1 root
  main close_closed made opened root (program ∷ path ∷ []) = process (usage ∷ []) 1 root
  main close_closed made none root (program ∷ path ∷ op ∷ args) =
      some (record { lines = pool_failed ∷ []; ending = terminated close_closed; root = root })
  main close_closed made (some r) root (program ∷ path ∷ op ∷ args) = with_table made op args r
