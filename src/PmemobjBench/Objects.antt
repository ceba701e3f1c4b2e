-- ===== src/PmemobjBench/Objects.antt =====
-- What a run leaves in the vector, and what a read run does on a fresh pool.
use spack_playground.Prelude.{
  ℕ, ◌+◌, ◌^◌, ◌<◌, ◌≡◌, refl, sym, ap, ◌∙◌, Bool, true, false, not, ◌&&◌, ◌||◌, ==_iff, Option,
  none, some, List, [], ◌∷◌, arith, ltb, ◌==◌, if◌then◌else◌,
}
use spack_playground.Prelude.Family.{one_if}
use spack_playground.Prelude.Occurrences.{occurrences}
use spack_playground.Exits.{Run, goes, faults, goes_injective}
use spack_playground.PrettyBytes.{Text}
use spack_playground.Stripes.{
  accepted, check_arguments, layout, access_offset, workers_blocks, accessed_blocks,
}
use spack_playground.Stripes.Failing.{
  Trace, workers_accesses, Complete, workers-Complete, as_trace, workers-as_trace,
}
use spack_playground.Stripes.Cover.{IsShuffle, is_accessed, accessed_once}
use spack_playground.PmemobjBench.{
  Job, Objects, fails, Access, went, terminated, undefined, access_object, access_objects, Report,
  report_of, ends, measure,
}

went_injective : {a b : Objects} → went a ≡ went b → a ≡ b
went_injective e = cc

module _ (job : Job) (nobjects : ℕ) (blank content : Text) (room : ℕ → Bool) where
  -- what an access of a write run leaves in an object
  abbrev pub written : Text
  written = if job.op_alloc then blank else content

  -- whether it leaves that
  abbrev pub is_written : ℕ → Bool
  is_written n = job.arguments.op_write && (job.op_alloc || room n)

  object_written :
      (b : ℕ) (objs objs' : Objects)
      → access_object job nobjects blank content (room b) b objs ≡ went objs'
      → (n : ℕ) → objs' n ≡ (if (b == n) && is_written n then some written else objs n)
  unfolding access_object
  object_written b objs objs' e n =
      by_kind (ltb b nobjects) job.arguments.op_write job.op_alloc (room b) (objs b) e
      ∙ ap (λ f. if f then some written else objs n) (same_room (b == n) ((==_iff b n).0))
    where
      same_room :
          (here : Bool)
          → (here ≡ true → b ≡ n)
          → (here && (job.arguments.op_write && (job.op_alloc || room b))) ≡ (here && is_written n)
      same_room false same = refl
      same_room true same = ap (λ k. job.arguments.op_write && (job.op_alloc || room k)) (same refl)

      here : Text → Bool → Objects
      here t r k = if (b == k) && r then some t else objs k

      skipped : (f : Bool) (x y : Option Text) → y ≡ (if f && false then x else y)
      skipped true x y = refl
      skipped false x y = refl

      plain :
          (t : Text) (f : Bool)
          → (if f && true then some t else objs n) ≡ (if f then some t else objs n)
      plain t true = refl
      plain t false = refl

      by_cell :
          (cell : Option Text)
          → ◌≡◌ {A = Access} (elim cell [ none ↦ undefined | some c ↦ went objs ]) (went objs')
          → objs' n ≡ objs n
      by_cell none e = absurd (cc e)
      by_cell (some c) e = ap (λ f. f n) (sym (went_injective e))

      by_kind :
          (inside w alloc r : Bool) (cell : Option Text)
          → ◌≡◌ {A = Access}
              (if not inside
                then undefined
                else if w
                then (if alloc
                    then (if r
                        then went (λ k. if b == k then some blank else objs k)
                        else terminated)
                    else went (here content r))
                else elim cell [ none ↦ undefined | some c ↦ went objs ])
              (went objs')
          → objs' n ≡ (
              if (b == n) && (w && (alloc || r))
              then some (if alloc then blank else content)
              else objs n)
      by_kind false w alloc r cell e = absurd (cc e)
      by_kind true false alloc r cell e =
          by_cell cell e ∙ skipped (b == n) (some (if alloc then blank else content)) (objs n)
      by_kind true true false r cell e = ap (λ f. f n) (sym (went_injective e))
      by_kind true true true false cell e = absurd (cc e)
      by_kind true true true true cell e =
          ap (λ f. f n) (sym (went_injective e)) ∙ sym (plain blank (b == n))

  objects_written :
      (bs : List ℕ) (objs objs' : Objects)
      → access_objects job nobjects blank content room bs objs ≡ went objs'
      → (n : ℕ)
      → objs' n ≡ (if ltb 0 (occurrences n bs) && is_written n then some written else objs n)
  unfolding access_objects occurrences
  objects_written [] objs objs' e n = ap (λ f. f n) (sym (went_injective e))
  objects_written (b ∷ bs) objs objs' e n =
      by_access (access_object job nobjects blank content (room b) b objs)
        (λ next f. object_written b objs next f n) (λ next f. objects_written bs next objs' f n) e
    where
      merged :
          (w here : Bool) (m : ℕ) (x y : Option Text)
          → (if ltb 0 m && w then x else (if here && w then x else y))
            ≡ (if ltb 0 (one_if here + m) && w then x else y)
      merged w here m x y = ground arith

      by_access :
          (a : Access)
          → ((next : Objects)
              → a ≡ went next
              → next n ≡ (if (b == n) && is_written n then some written else objs n))
          → ((next : Objects)
              → access_objects job nobjects blank content room bs next ≡ went objs'
              → objs' n
                ≡ (if ltb 0 (occurrences n bs) && is_written n then some written else next n))
          → ◌≡◌ {A = Access}
              (elim a [
                | went next ↦ access_objects job nobjects blank content room bs next
                | terminated ↦ terminated
                | undefined ↦ undefined
              ])
              (went objs')
          → objs' n ≡ (
              if ltb 0 (one_if (b == n) + occurrences n bs) && is_written n
              then some written
              else objs n)
      by_access (went next) step rest e =
          rest next e
          ∙ ap (λ y. if ltb 0 (occurrences n bs) && is_written n then some written else y)
              (step next refl)
          ∙ merged (is_written n) (b == n) (occurrences n bs) (some written) (objs n)
      by_access terminated step rest e = absurd (cc e)
      by_access undefined step rest e = absurd (cc e)

  null_access :
      (b : ℕ) (objs : Objects)
      → job.arguments.op_write ≡ false
      → objs b ≡ none
      → access_object job nobjects blank content (room b) b objs ≡ undefined
  unfolding access_object
  null_access b objs reads null =
      by_kind (ltb b nobjects) job.arguments.op_write (objs b) _ reads null
    where
      by_kind :
          (inside w : Bool) (cell : Option Text) (x : Access)
          → w ≡ false
          → cell ≡ none
          → ◌≡◌ {A = Access}
              (if not inside
                then undefined
                else if w
                then x
                else elim cell [ none ↦ undefined | some c ↦ went objs ])
              undefined
      by_kind false w cell x e f = refl
      by_kind true false none x e f = refl
      by_kind true false (some c) x e f = absurd (cc f)
      by_kind true true cell x e f = absurd (cc e)

  -- A read run that accesses any object of a vector of null pointers is undefined.
  reads_null :
      (bs : List ℕ) (objs : Objects) (b : ℕ)
      → job.arguments.op_write ≡ false
      → ((n : ℕ) → objs n ≡ none)
      → 0 < occurrences b bs
      → access_objects job nobjects blank content room bs objs ≡ undefined
  unfolding access_objects occurrences
  reads_null [] objs b reads null pos = absurd (omega (arith, pos))
  reads_null (c ∷ bs) objs b reads null pos =
      ap
        (λ a. elim a [
          | went next ↦ access_objects job nobjects blank content room bs next
          | terminated ↦ terminated
          | undefined ↦ undefined
        ])
        (null_access c objs reads (null c))

module _ (shuffle schedule : List ℕ → List ℕ) (seen : ℕ → ℕ → Bool) (noted room : ℕ → Bool)
    (job : Job) (nobjects : ℕ) (blank content : Text) (objs : Objects)
    (shuffles : IsShuffle shuffle) (takes_turns : IsShuffle schedule)
    (checked : check_arguments job.arguments ≡ accepted)
    (small : job.arguments.total_size < 2 ^ 64) where
  same_list : {o : Option (List ℕ)} {xs ys : List ℕ} → o ≡ some xs → o ≡ some ys → xs ≡ ys
  same_list e f = cc

  -- Where the workers end and the report is a success, and no worker finds the flag set that no worker
  -- has set, each accessed object of a write run has new data (the random text, or what an array that
  -- is only allocated holds), except where its allocation has failed; nothing else changes. That no
  -- allocation has failed does not follow: what a worker reads from the shared `ret` behind its call
  -- may be the result of another.
  pub measure-success :
      (report : Report) (objs' : Objects)
      → measure shuffle schedule seen noted room job nobjects blank content objs
        ≡ goes (report, objs')
      → report.success ≡ true
      → ((i s : ℕ) → seen i s ≡ true → report.success ≡ false)
      → (b : ℕ)
      → objs' b ≡ (
          if is_accessed job.arguments b && is_written job nobjects blank content room b
          then some (written job nobjects blank content room)
          else objs b)
  unfolding measure accessed_blocks
  measure-success report objs' run success honest b =
      by_trace
        (workers_accesses (fails job noted) seen (layout job.arguments)
          (access_offset shuffle job.arguments) job.arguments.nthreads 0)
        (workers-Complete (fails job noted) seen (layout job.arguments)
          (access_offset shuffle job.arguments) job.arguments.nthreads 0
          (λ i s. unset (seen i s) (honest i s)))
        run
    where
      unset : (f : Bool) → (f ≡ true → report.success ≡ false) → f ≡ false
      unset true h = absurd (cc (sym (h refl) ∙ success))
      unset false h = refl

      kept : (f : Bool) → not f ≡ true → f ≡ false
      kept f e = ground arith

      picked :
          (w flag : Bool) (n : ℕ) (x y : Option Text)
          → n ≡ one_if flag
          → (if ltb 0 n && w then x else y) ≡ (if flag && w then x else y)
      picked w flag n x y e = ground arith

      by_access :
          (t : Trace) (a : Access)
          → ends (report_of job.arguments t) a ≡ goes (report, objs')
          → (report_of job.arguments t ≡ report) × (a ≡ went objs')
      by_access t (went o) e =
          (ap (λ x. x.0) (goes_injective e), ap went (ap (λ x. x.1) (goes_injective e)))
      by_access t terminated e = absurd (cc e)
      by_access t undefined e = absurd (cc e)

      by_trace :
          (o : Option Trace)
          → Complete o (
              workers_blocks
                (layout job.arguments)
                (access_offset shuffle job.arguments)
                job.arguments.nthreads
                0)
          → ◌≡◌ {A = Run (Report × Objects)}
              (elim o [
                | none ↦ faults
                | some t ↦
                    ends
                      (report_of job.arguments t)
                      (access_objects job nobjects blank content room (schedule t.done) objs)
              ])
              (goes (report, objs'))
          → objs' b ≡ (
              if is_accessed job.arguments b && is_written job nobjects blank content room b
              then some (written job nobjects blank content room)
              else objs b)
      by_trace none complete e = absurd (cc e)
      by_trace (some t) complete e =
          let (reported, end) =
            by_access t (access_objects job nobjects blank content room (schedule t.done) objs) e in
          let (ys, accessed, counts) = accessed_once shuffle job.arguments shuffles checked small in
          let done_all = complete (kept t.failed (ap (λ r. r.success) reported ∙ success)) in
          objects_written job nobjects blank content room (schedule t.done) objs objs' end b
          ∙ picked (is_written job nobjects blank content room b) (is_accessed job.arguments b)
              (occurrences b (schedule t.done)) (some (written job nobjects blank content room))
              (objs b)
              (takes_turns.keeps_occurrences b t.done
                ∙ ap (occurrences b) (same_list done_all accessed)
                ∙ counts b)

  -- A read run on a vector whose pointers are all null, as those of a fresh pool are, reads through a
  -- null pointer as soon as there is anything to read.
  pub measure-read_fresh :
      job.arguments.op_write ≡ false
      → ((n : ℕ) → objs n ≡ none)
      → ((i s : ℕ) → seen i s ≡ false)
      → (b : ℕ) → is_accessed job.arguments b ≡ true
      → measure shuffle schedule seen noted room job nobjects blank content objs ≡ faults
  unfolding measure accessed_blocks
  measure-read_fresh reads null unseen b hit =
      let (xs, accessed, counts) = accessed_once shuffle job.arguments shuffles checked small in
      let never : (n : ℕ) → fails job noted n ≡ false =
        λ n. ap (λ w. w && not job.op_alloc && noted n) reads in
      let trace =
        workers-as_trace (fails job noted) never seen (layout job.arguments)
          (access_offset shuffle job.arguments) job.arguments.nthreads 0 unseen in
      let once : occurrences b (schedule xs) ≡ 1 =
        takes_turns.keeps_occurrences b xs ∙ counts b ∙ ap one_if hit in
      ap
        (λ o. elim o [
          | none ↦ faults
          | some t ↦
              ends (report_of job.arguments t)
                (access_objects job nobjects blank content room (schedule t.done) objs)
        ])
        (trace ∙ ap as_trace accessed)
      ∙ ap (ends (report_of job.arguments (record { done = xs; failed = false }))) (
          reads_null job nobjects blank content room (schedule xs) objs b reads null
            (omega (arith, once)))
