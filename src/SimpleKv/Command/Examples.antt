-- ===== src/SimpleKv/Command/Examples.antt =====
-- A process that puts a key on a new pool, and those that get keys after it.
use spack_playground.Prelude.{
  ℕ, ◌≡◌, ◌⊎◌, refl, subst, true, Option, none, some, [], ◌∷◌, length, if◌then◌else◌,
}
use spack_playground.Prelude.Texts.{same_text, same_text_refl, same_text_sound}
use spack_playground.Effects.{out_of_range}
use spack_playground.SimpleKv.{Key, Room, get}
use spack_playground.SimpleKv.Runs.{IsFull}
use spack_playground.SimpleKv.Command.{
  Text, get_text, put_text, answer, failure, Root, process, main,
}
use spack_playground.SimpleKv.Command.Processes.{IsRoot, table, reply, main-remembers}

abbrev text_key : Key Text
text_key = record {
  same = same_text;
  same_iff =
      λ a b. (same_text_sound a b, λ e. subst (λ c. same_text a c ≡ true) e (same_text_refl a));
  hash = length;
}

abbrev ample : Room
ample = record { first = true; second = true; third = true }

-- the number of bytes, in place of `std::stoi`
abbrev count : Text → Option ℕ
count t = some (length t)

abbrev ten : Text
ten = 49 ∷ 48 ∷ []

abbrev unused_pool : Root ℕ
unused_pool = none

main-remembers_example :
    (r' : Root ℕ) × IsRoot text_key r'
    × (((main text_key count ample out_of_range true
              (some unused_pool)
              unused_pool
              ([] ∷ [] ∷ put_text ∷ get_text ∷ ten ∷ [])
            ≡ process [] 0 r')
          × ((j : Text)
              → main text_key count ample out_of_range true
                  (some r')
                  r'
                  ([] ∷ [] ∷ get_text ∷ j ∷ [])
                ≡ process
                    ((if same_text get_text j
                        then answer 2
                        else reply text_key (get text_key (table text_key unused_pool) j))
                      ∷ [])
                    0
                    r'))
        ⊎ (IsFull ample
            × (main text_key count ample out_of_range true
                  (some unused_pool)
                  unused_pool
                  ([] ∷ [] ∷ put_text ∷ get_text ∷ ten ∷ [])
                ≡ process (failure ∷ []) 0 r')
            × ((j : Text)
                → main text_key count ample out_of_range true
                    (some r')
                    r'
                    ([] ∷ [] ∷ get_text ∷ j ∷ [])
                  ≡ process
                      (reply text_key (get text_key (table text_key unused_pool) j) ∷ [])
                      0
                      r')))
main-remembers_example =
    main-remembers text_key count ample out_of_range unused_pool [] [] get_text ten 2 tt refl
