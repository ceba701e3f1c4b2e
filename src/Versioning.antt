-- ===== src/Versioning.antt =====
-- targets/apps/ppm_ch11_6_versioning_insert/main.cpp: a sorted array in two copies, of which one is
-- consistent, and what a crash within an insertion leaves.
pub mod Sorted
pub mod Copies
pub mod Crash
mod Examples
use spack_playground.Prelude.{
  ℕ, zero, suc, ◌+◌, ◌-◌, ◌≡◌, ◌⊎◌, Bool, true, false, Option, none, some, List, [], ◌∷◌, ltb, ◌==◌,
  if◌then◌else◌, length, set,
}
use spack_playground.Prelude.Family.{update}
use spack_playground.Medium.{OneOf}

-- `operator<` of the values: a strict weak order.
pub record Order (A : Type 0) : Type 0 where
  pub less : A → A → Bool
  pub asymmetric : (a b : A) → less a b ≡ true → less b a ≡ false
  pub transitive : (a b c : A) → less a b ≡ false → less b c ≡ false → less a c ≡ false

-- `struct entries_t`; the array of the slots is a list of their number.
pub record Entries (A : Type 0) : Type 0 where
  pub entries : List A
  pub size : ℕ

-- `class array`; `v[0]` and `v[1]` are two fields.
pub record Versions (A : Type 0) : Type 0 where
  pub first : Entries A
  pub second : Entries A
  pub current : ℕ

module _ {A : Type 0} where
  abbrev pub take : ℕ → List A → List A
  take zero xs = []
  take (suc n) [] = []
  take (suc n) (x ∷ xs) = x ∷ take n xs

  abbrev pub drop : ℕ → List A → List A
  drop zero xs = xs
  drop (suc n) [] = []
  drop (suc n) (x ∷ xs) = drop n xs

  -- `v[i]`
  abbrev pub version : Versions A → ℕ → Entries A
  version a i = if i == 0 then a.first else a.second

  abbrev pub with_version : Versions A → ℕ → Entries A → Versions A
  with_version a i e = record a {
    first = if i == 0 then e else a.first;
    second = if i == 0 then a.second else e;
  }

  -- what the program reads
  abbrev pub contents : Versions A → List A
  contents a = take (version a a.current).size (version a a.current).entries

  -- `std::copy` to the slots from `k` on; `none` is a write behind the last slot.
  unfoldable pub copy_to : List A → ℕ → List A → Option (List A)
  copy_to slots k [] = some slots
  copy_to slots k (x ∷ xs) =
      if ltb k (length slots) then copy_to (set slots k x) (k + 1) xs else none

module _ {A : Type 0} (order : Order A) where
  -- `std::lower_bound`: the first position of an element that is not less.
  unfoldable pub lower_bound : List A → A → ℕ
  lower_bound [] e = 0
  lower_bound (x ∷ xs) e = if order.less x e then suc (lower_bound xs e) else 0

  -- The three writes to the slots of the working copy.
  unfoldable pub insert_at : List A → ℕ → A → List A → Option (List A)
  unfolding copy_to
  insert_at consistent position e working = elim (copy_to working 0 (take position consistent)) [
    | none ↦ none
    | some slots ↦ elim (copy_to slots position (e ∷ [])) [
      | none ↦ none
      | some slots' ↦ copy_to slots' (position + 1) (drop position consistent)
    ]
  ]

  unfoldable pub insert_element : Versions A → A → Option (Versions A)
  unfolding lower_bound insert_at
  insert_element a e =
      let consistent = contents a in
      elim (insert_at consistent (lower_bound consistent e) e (version a (1 - a.current)).entries) [
        | none ↦ none
        | some slots ↦ some (
            with_version a (1 - a.current)
              (record { entries = slots; size = (version a a.current).size + 1 }))
      ]

  abbrev pub switched : Versions A → Versions A
  switched a = record a { current = 1 - a.current }

  -- `none` is a write behind the last slot.
  unfoldable pub insert : Versions A → A → Option (Versions A)
  unfolding insert_element
  insert a e = elim (insert_element a e) [ none ↦ none | some a' ↦ some (switched a') ]

-- What a crash can tell apart: the copies that have stores which are not persisted, and the values that
-- `current` may still have on the medium.
pub record Disk (A : Type 0) : Type 0 where
  pub now : Versions A
  pub dirty : ℕ → Bool
  pub earlier : List ℕ

-- Stores to a whole copy, the store to `current`, and the two calls of `persist`.
pub data DiskOp (A : Type 0) : Type 0 where
  store_copy : ℕ → Entries A → DiskOp A
  persist_copy : ℕ → DiskOp A
  store_current : ℕ → DiskOp A
  persist_current : DiskOp A

module _ {A : Type 0} where
  abbrev pub disk_step : DiskOp A → Disk A → Disk A
  disk_step (store_copy i w) d = record {
    now = with_version d.now i w;
    dirty = update d.dirty i true;
    earlier = d.earlier;
  }
  disk_step (persist_copy i) d = record {
    now = d.now;
    dirty = update d.dirty i false;
    earlier = d.earlier;
  }
  disk_step (store_current c) d = record {
    now = record (d.now) { current = c };
    dirty = d.dirty;
    earlier = (d.now).current ∷ d.earlier;
  }
  disk_step persist_current d = record { now = d.now; dirty = d.dirty; earlier = [] }

  unfoldable pub disk_run : List (DiskOp A) → Disk A → Disk A
  disk_run [] d = d
  disk_run (o ∷ ops) d = disk_run ops (disk_step o d)

  -- A copy with stores that are not persisted may be torn in any way.
  abbrev pub CopyLeft : Bool → Entries A → Entries A → Type 0
  CopyLeft true w v = length v.entries ≡ length w.entries
  CopyLeft false w v = v ≡ w

  abbrev pub Left : Disk A → Versions A → Type 0
  Left d b =
      OneOf b.current ((d.now).current ∷ d.earlier)
      × CopyLeft (d.dirty 0) (d.now).first b.first
      × CopyLeft (d.dirty 1) (d.now).second b.second

  -- What a crash before, between or behind these operations leaves.
  abbrev pub CrashLeaves : Disk A → List (DiskOp A) → Versions A → Type 0
  CrashLeaves d [] b = Left d b
  CrashLeaves d (o ∷ ops) b = Left d b ⊎ CrashLeaves (disk_step o d) ops b

  -- An array that is persisted.
  abbrev pub persisted : Versions A → Disk A
  persisted a = record { now = a; dirty = λ i. false; earlier = [] }

  -- The stores of `insert_element` to the working copy `w`, and the rest of `insert`.
  abbrev pub insert_steps : Versions A → Entries A → List (DiskOp A)
  insert_steps a w =
      store_copy (1 - a.current) w
      ∷ (persist_copy (1 - a.current) ∷ (store_current (1 - a.current) ∷ (persist_current ∷ [])))

module _ {A : Type 0} (order : Order A) where
  -- `insert` with its calls of `persist`; `none` is a write behind the last slot.
  unfoldable pub insert_ops : Versions A → A → Option (List (DiskOp A))
  unfolding insert_element
  insert_ops a e = elim (insert_element order a e) [
    | none ↦ none
    | some a' ↦ some (insert_steps a (version a' (1 - a.current)))
  ]
