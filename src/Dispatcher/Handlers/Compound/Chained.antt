-- ===== src/Dispatcher/Handlers/Compound/Chained.antt =====
-- The steps of a compound job after the first: each makes what its plugin makes of the file before.
use sentrazero.Base.{
  ℕ, ◌+◌, suc, ◌≡◌, inl, inr, ap, subst, ◌∙◌, String, none, some, List, [], ◌∷◌, length, arith,
  Option-cases,
}
use sentrazero.Base.Dict.{lookup}
use sentrazero.Storage.Backends.{Bytes, Objects, StorageBackend}
use sentrazero.Dispatcher.Handlers.Chunks.{
  Machine, Job, CompoundStep, ProcessPayload, Tree, file, resolve_plugin_name,
}
use sentrazero.Dispatcher.Handlers.Chunks.Steps.{apply_all}
use sentrazero.Dispatcher.Handlers.Compound.{Cache, step_out_dir, step_out_path}
use sentrazero.Dispatcher.Handlers.Compound.Inputs.{resolved, step_input}
use sentrazero.Dispatcher.Handlers.Compound.Loop.{
  LoopState, Place, clean, clean_step, execute_step_at, execute_steps,
}
use sentrazero.Dispatcher.Handlers.Compound.Places.{earlier-not_below, path_ne_empty}
use sentrazero.Dispatcher.Handlers.Compound.Progress.{Cleaned-cases}
use sentrazero.Dispatcher.Handlers.Compound.Chain.{
  Chains, Holds, plugin-Holds, later-reported, clean-kept,
}

-- Steps and what their plugins make of their input.
abbrev pub ChainAll : Machine → Cache → String → List CompoundStep → List (Bytes → Bytes) → Type 0
ChainAll m c cache [] [] = Unit {0}
ChainAll m c cache (step ∷ steps) (g ∷ gs) =
    Chains m c cache (resolve_plugin_name m step.plugin_id "") g × ChainAll m c cache steps gs
ChainAll m c cache _ _ = ⊥

module _ (m : Machine) (c : Cache) (b : StorageBackend) (j : Job) (p : ProcessPayload) (at : Place)
    (s : Objects) where
  -- A step whose input holds the bytes.
  pub given-Holds :
      (i : ℕ) (step : CompoundStep) (st u : LoopState) (t t' : Tree) (input files : String)
      (x : Bytes) (g : Bytes → Bytes)
      → Chains m c at.cache (resolve_plugin_name m step.plugin_id "") g
      → clean_step m c (step_out_dir at.cache i) st.local ≡ clean t
      → step_input m c b p at.mode at.cache at.work_dir s i st.previous_data st.files_dir t
        ≡ resolved input files t'
      → lookup input t' ≡ some (file x)
      → execute_step_at m c b j p at s i step st ≡ (none, u)
      → Holds at.cache i (g x) u
  unfolding execute_step_at
  given-Holds i step st u t t' input files x g plugin q r there h =
      plugin-Holds m c j p at i step st u input files t' x g plugin there
        (rw (q, execute_step_at, r) at h)

  pub next-Holds :
      (i : ℕ) (step : CompoundStep) (st u : LoopState) (x : Bytes) (g : Bytes → Bytes)
      → Chains m c at.cache (resolve_plugin_name m step.plugin_id "") g
      → Holds at.cache i x st
      → execute_step_at m c b j p at s (suc i) step st ≡ (none, u)
      → Holds at.cache (suc i) (g x) u
  unfolding execute_step_at
  next-Holds i step st u x g plugin holds h =
      let path = step_out_path at.cache i in
      let dir = step_out_dir at.cache (suc i) in
      elim (Cleaned-cases (clean_step m c dir st.local)) [
        | inl (e, q) ↦ ground (arith, rw (q, execute_step_at) at h)
        | inr (t, q) ↦
            let there =
              clean-kept m c dir path st.local t (earlier-not_below at.cache i) q ∙ holds.held in
            given-Holds (suc i) step st u t t path st.files_dir x g plugin q
              (ap (λ y. step_input m c b p at.mode at.cache at.work_dir s (suc i) y st.files_dir t)
                  holds.chained
                ∙ later-reported m c b p at.mode at.cache at.work_dir s i st.files_dir path x t
                    (path_ne_empty at.cache i) there)
              there h
      ]

  pub chain-Holds :
      (i : ℕ) (steps : List CompoundStep) (gs : List (Bytes → Bytes)) (st u : LoopState) (x : Bytes)
      → ChainAll m c at.cache steps gs
      → Holds at.cache i x st
      → execute_steps m c b j p at s (suc i) steps st ≡ (none, u)
      → Holds at.cache (i + length steps) (apply_all gs x) u
  unfolding execute_steps
  chain-Holds i [] [] st u x plugins holds h =
      subst (λ k. Holds at.cache k x u) (omega arith)
        (subst (Holds at.cache i x) (ap (λ y. y.1) h) holds)
  chain-Holds i [] (g ∷ gs) st u x plugins holds h = absurd plugins
  chain-Holds i (step ∷ steps) [] st u x plugins holds h = absurd plugins
  chain-Holds i (step ∷ steps) (g ∷ gs) st u x (plugin, plugins) holds h =
      let after = execute_step_at m c b j p at s (suc i) step st in
      elim (Option-cases after.0) [
        | inr (e, q) ↦ ground (arith, rw (q, execute_steps) at h)
        | inl q ↦
            let one = next-Holds i step st after.1 x g plugin holds (ap (λ y. (y, after.1)) q) in
            subst (λ k. Holds at.cache k (apply_all gs (g x)) u) (omega arith)
              (chain-Holds (suc i) steps gs after.1 u (g x) plugins one
                (rw (q, execute_steps) at h))
      ]
