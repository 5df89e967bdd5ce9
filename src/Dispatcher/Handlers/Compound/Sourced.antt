-- ===== src/Dispatcher/Handlers/Compound/Sourced.antt =====
-- The first step of a compound job takes the source of its chunk, and all the steps make of it what
-- their plugins do.
use sentrazero.Base.{
  ℕ, ◌+◌, ◌<◌, ◌≡◌, ◌≢◌, inl, inr, sym, ap, ◌∙◌, String, false, none, some, List, [], ◌∷◌, length,
  arith, ◌==◌, eq_refl, Option-cases, Bool-cases,
}
use sentrazero.Base.Dict.{lookup}
use sentrazero.Storage.Backends.{Bytes, Objects, StorageBackend}
use sentrazero.Dispatcher.Handlers.Merging.Stored.{apart}
use sentrazero.Dispatcher.Handlers.Paths.{ends_with_slash}
use sentrazero.Dispatcher.Handlers.Chunks.{
  Machine, Job, CompoundStep, ProcessPayload, Tree, file, resolve_plugin_name,
}
use sentrazero.Dispatcher.Handlers.Chunks.Plain.{download, source_file}
use sentrazero.Dispatcher.Handlers.Chunks.Steps.{apply_all}
use sentrazero.Dispatcher.Handlers.Compound.{Cache, step_out_dir}
use sentrazero.Dispatcher.Handlers.Compound.Inputs.{
  resolved, first_remote, first_input, step_input, resolve_with,
}
use sentrazero.Dispatcher.Handlers.Compound.Loop.{
  LoopState, Place, clean_step, execute_step_at, execute_steps,
}
use sentrazero.Dispatcher.Handlers.Compound.Progress.{Cleaned-cases, Resolved-cases}
use sentrazero.Dispatcher.Handlers.Compound.Chain.{Chains, Holds}
use sentrazero.Dispatcher.Handlers.Compound.Chained.{ChainAll, given-Holds, chain-Holds}

-- The state before the first step.
abbrev pub fresh : Tree → LoopState
fresh t = record {
  previous_data = none;
  files_dir = "";
  last_output_path = "";
  local = t;
  reports = [];
}

taken-download :
    (m : Machine) (b : StorageBackend) (key path : String) (s : Objects) (t t' : Tree)
    (input files : String) (x : Bytes)
    → b.read_object key s ≡ some x
    → resolve_with path "" t (download m b key path s) ≡ resolved input files t'
    → lookup input t' ≡ some (file x)
unfolding download lookup
taken-download m b key path s t t' input files x r h = elim (Bool-cases (m.creates path)) [
  | inr q ↦ ground (arith, rw (r, download, q) at h)
  | inl q ↦ ground (arith, rw (r, download, q) at h, eq_refl path)
]

-- The input of the first step: the source.
first-taken :
    (m : Machine) (c : Cache) (b : StorageBackend) (p : ProcessPayload) (mode work : String)
    (s : Objects) (t t' : Tree) (input files : String) (x : Bytes)
    → (mode == "shared_mount") ≡ false
    → p.source_path ≢ ""
    → ends_with_slash p.source_path ≡ false
    → b.read_object p.source_path s ≡ some x
    → first_input m c b p mode work s "" t ≡ resolved input files t'
    → lookup input t' ≡ some (file x)
unfolding first_input first_remote
first-taken m c b p mode work s t t' input files x e named one r h =
    taken-download m b p.source_path (source_file work p.source_path) s t t' input files x r
      (rw (e, first_input, apart p.source_path "" named, one) at h)

module _ (m : Machine) (c : Cache) (b : StorageBackend) (j : Job) (p : ProcessPayload) (at : Place)
    (s : Objects) where
  pub first-Holds :
      (step : CompoundStep) (st u : LoopState) (x : Bytes) (g : Bytes → Bytes)
      → Chains m c at.cache (resolve_plugin_name m step.plugin_id "") g
      → (at.mode == "shared_mount") ≡ false
      → p.source_path ≢ ""
      → ends_with_slash p.source_path ≡ false
      → b.read_object p.source_path s ≡ some x
      → st.files_dir ≡ ""
      → execute_step_at m c b j p at s 0 step st ≡ (none, u)
      → Holds at.cache 0 (g x) u
  unfolding execute_step_at step_input
  first-Holds step st u x g plugin e named one r bare h =
      elim (Cleaned-cases (clean_step m c (step_out_dir at.cache 0) st.local)) [
        | inl (why, q) ↦ ground (arith, rw (q, execute_step_at) at h)
        | inr (t, q) ↦
            elim (Resolved-cases (
              step_input m c b p at.mode at.cache at.work_dir s 0 st.previous_data st.files_dir
                t)) [
                  | inl (why, i) ↦ ground (arith, rw (q, execute_step_at, i) at h)
                  | inr (input, files, t', i) ↦
                      given-Holds m c b j p at s 0 step st u t t' input files x g plugin q i
                        (first-taken m c b p at.mode at.work_dir s t t' input files x e named one r
                          (ap (λ y. first_input m c b p at.mode at.work_dir s y t) (sym bare) ∙ i))
                        h
                ]
      ]

  pub all-Holds :
      (steps : List CompoundStep) (gs : List (Bytes → Bytes)) (st u : LoopState) (x : Bytes)
      → ChainAll m c at.cache steps gs
      → 0 < length steps
      → (at.mode == "shared_mount") ≡ false
      → p.source_path ≢ ""
      → ends_with_slash p.source_path ≡ false
      → b.read_object p.source_path s ≡ some x
      → st.files_dir ≡ ""
      → execute_steps m c b j p at s 0 steps st ≡ (none, u)
      → (i : ℕ) × Holds at.cache i (apply_all gs x) u
  unfolding execute_steps
  all-Holds [] gs st u x plugins some_step e named one r bare h = ground arith
  all-Holds (step ∷ steps) [] st u x plugins some_step e named one r bare h = absurd plugins
  all-Holds (step ∷ steps) (g ∷ gs) st u x (plugin, plugins) some_step e named one r bare h =
      let after = execute_step_at m c b j p at s 0 step st in
      elim (Option-cases after.0) [
        | inr (why, q) ↦ ground (arith, rw (q, execute_steps) at h)
        | inl q ↦ (
          0 + length steps,
          chain-Holds m c b j p at s 0 steps gs after.1 u (g x) plugins
              (first-Holds step st after.1 x g plugin e named one r bare (ap (λ y. (y, after.1)) q))
              (rw (q, execute_steps) at h),
        )
      ]
