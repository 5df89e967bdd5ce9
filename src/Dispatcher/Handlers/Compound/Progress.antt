-- ===== src/Dispatcher/Handlers/Compound/Progress.antt =====
-- What a compound job reports of its steps.
use mathlib.Core.List.{append-nil, append_assoc}
use sentrazero.Base.{
  ℕ, ◌+◌, ◌<◌, zero, suc, ◌≡◌, ◌⊎◌, inl, inr, refl, sym, ap, ◌∙◌, String, Option, none, some, List,
  [], ◌∷◌, ◌++◌, length, arith, Option-cases,
}
use sentrazero.Storage.Backends.{Objects, StorageBackend}
use sentrazero.Dispatcher.Handlers.Chunks.{
  Machine, Job, CompoundStep, ProcessPayload, ChunkFailure, Tree,
}
use sentrazero.Dispatcher.Handlers.Compound.{
  Cache, StepInput, StepEnd, step_failed, step_done, step_out_dir, step_out_path, step_context,
  execute_plugin_step_ex,
}
use sentrazero.Dispatcher.Handlers.Compound.Inputs.{Resolved, unresolved, resolved, step_input}
use sentrazero.Dispatcher.Handlers.Compound.Loop.{
  Report, completed, failed, LoopState, Place, Cleaned, unclean, clean, clean_step, after_step,
  execute_step_at, execute_steps,
}

-- The reports of so many steps from an index on that are all completed.
abbrev pub completed_from : ℕ → ℕ → List Report
completed_from i zero = []
completed_from i (suc n) = completed i ∷ completed_from (suc i) n

-- The reports that one step adds, by its failure.
abbrev pub AddsAt : ℕ → Option ChunkFailure → List Report → Type 0
AddsAt i none new = new ≡ completed i ∷ []
AddsAt i (some e) new = (new ≡ []) ⊎ (new ≡ failed i ∷ [])

abbrev pub Adds : ℕ → LoopState → Option ChunkFailure × LoopState → Type 0
Adds i st x = (new : List Report) × AddsAt i x.0 new × (x.1.reports ≡ st.reports ++ new)

pub Cleaned-cases :
    (x : Cleaned) → ((e : ChunkFailure) × (x ≡ unclean e)) ⊎ ((t : Tree) × (x ≡ clean t))
Cleaned-cases (unclean e) = inl (e, refl)
Cleaned-cases (clean t) = inr (t, refl)

pub Resolved-cases :
    (x : Resolved)
    → ((e : ChunkFailure) × (x ≡ unresolved e))
      ⊎ ((input files : String) × (t : Tree) × (x ≡ resolved input files t))
Resolved-cases (unresolved e) = inl (e, refl)
Resolved-cases (resolved input files t) = inr (input, files, t, refl)

after_step-Adds :
    (cache : String) (i : ℕ) (files : String) (st : LoopState) (x : StepEnd)
    → Adds i st (after_step cache i files st x)
unfolding after_step
after_step-Adds cache i files st (step_failed e t) = (failed i ∷ [], inr refl, refl)
after_step-Adds cache i files st (step_done result t) = (completed i ∷ [], refl, refl)

-- What a step gives its plugin.
abbrev pub given : Job → ProcessPayload → Place → ℕ → CompoundStep → LoopState → String → StepInput
given j p at i step st input = record {
  context = step_context j p step i input (step_out_path at.cache i);
  output_dir = step_out_dir at.cache i;
  previous_data = st.previous_data;
}

module _ (m : Machine) (c : Cache) (b : StorageBackend) (j : Job) (p : ProcessPayload) (at : Place)
    (s : Objects) where
  step-Adds :
      (i : ℕ) (step : CompoundStep) (st : LoopState)
      → Adds i st (execute_step_at m c b j p at s i step st)
  unfolding execute_step_at
  step-Adds i step st = elim (Cleaned-cases (clean_step m c (step_out_dir at.cache i) st.local)) [
    | inl (e, q) ↦ rw (q, execute_step_at) ([], inl refl, sym (append-nil st.reports))
    | inr (t, q) ↦
        elim (Resolved-cases
          (step_input m c b p at.mode at.cache at.work_dir s i st.previous_data st.files_dir t)) [
            | inl (e, r) ↦ rw (q, execute_step_at, r) ([], inl refl, sym (append-nil st.reports))
            | inr (input, files, t', r) ↦
                rw (q, execute_step_at, r)
                  (after_step-Adds at.cache i files st
                    (execute_plugin_step_ex m c j p step (given j p at i step st input) t'))
          ]
  ]

-- How the reports end, by the failure: with the last step where there is none, and otherwise before
-- it, the step that failed being reported as such or not at all.
abbrev pub EndsAt : ℕ → ℕ → Option ChunkFailure → ℕ → List Report → Type 0
EndsAt i total none n last = (n ≡ total) × (last ≡ [])
EndsAt i total (some e) n last = (n < total) × ((last ≡ []) ⊎ (last ≡ failed (i + n) ∷ []))

-- Steps that are completed one after the other, and then the end.
abbrev pub InOrder : ℕ → ℕ → Option ChunkFailure → List Report → List Report → Type 0
InOrder i total failure before reports =
    (n : ℕ) × (last : List Report) × EndsAt i total failure n last
    × (reports ≡ before ++ (completed_from i n ++ last))

one_more :
    (i total : ℕ) (failure : Option ChunkFailure) (before mid reports : List Report)
    → mid ≡ before ++ (completed i ∷ [])
    → InOrder (suc i) total failure mid reports
    → InOrder i (suc total) failure before reports
one_more i total none before mid reports h (n, last, (e, e'), r) = (
  suc n,
  last,
  (omega arith, e'),
  r
      ∙ ap (λ x. x ++ (completed_from (suc i) n ++ last)) h
      ∙ append_assoc before (completed i ∷ []) (completed_from (suc i) n ++ last),
)
one_more i total (some why) before mid reports h (n, last, (e, e'), r) = (
  suc n,
  last,
  (
    omega arith,
    elim e' [ inl q ↦ inl q | inr q ↦ inr (q ∙ ap (λ k. failed k ∷ []) (omega arith)) ],
  ),
  r
      ∙ ap (λ x. x ++ (completed_from (suc i) n ++ last)) h
      ∙ append_assoc before (completed i ∷ []) (completed_from (suc i) n ++ last),
)

stopped_at :
    (i total : ℕ) (e : ChunkFailure) (st : LoopState) (x : Option ChunkFailure × LoopState)
    → x.0 ≡ some e
    → Adds i st x
    → InOrder i (suc total) (some e) st.reports x.1.reports
stopped_at i total e st (none, st') h a = ground (arith, h)
stopped_at i total e st (some e', st') h (new, a, r) = (
  0,
  new,
  (omega arith, elim a [ inl q ↦ inl q | inr q ↦ inr (q ∙ ap (λ k. failed k ∷ []) (omega arith)) ]),
  r,
)

went_on :
    (i : ℕ) (st : LoopState) (x : Option ChunkFailure × LoopState)
    → x.0 ≡ none
    → Adds i st x
    → x.1.reports ≡ st.reports ++ (completed i ∷ [])
went_on i st (none, st') h (new, a, r) = r ∙ ap (λ y. st.reports ++ y) a
went_on i st (some e, st') h a = ground (arith, h)

module _ (m : Machine) (c : Cache) (b : StorageBackend) (j : Job) (p : ProcessPayload) (at : Place)
    (s : Objects) where
  pub execute_steps-InOrder :
      (i : ℕ) (steps : List CompoundStep) (st : LoopState)
      → InOrder i
          (length steps)
          (execute_steps m c b j p at s i steps st).0
          st.reports
          (execute_steps m c b j p at s i steps st).1.reports
  unfolding execute_steps
  execute_steps-InOrder i [] st = (0, [], (refl, refl), sym (append-nil st.reports))
  execute_steps-InOrder i (step ∷ steps) st =
      let after = execute_step_at m c b j p at s i step st in
      let adds = step-Adds m c b j p at s i step st in
      elim (Option-cases after.0) [
        | inl q ↦
            rw (q, execute_steps)
              (one_more i (length steps) (execute_steps m c b j p at s (suc i) steps after.1).0
                st.reports after.1.reports
                (execute_steps m c b j p at s (suc i) steps after.1).1.reports
                (went_on i st after q adds) (execute_steps-InOrder (suc i) steps after.1))
        | inr (e, q) ↦ rw (q, execute_steps) (stopped_at i (length steps) e st after q adds)
      ]
