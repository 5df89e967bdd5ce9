-- ===== src/Dispatcher/Handlers/Compound/Completion.antt =====
-- A compound job whose calls all succeed comes to its end.
use sentrazero.Base.{
  ℕ, ◌-◌, suc, ◌≡◌, ◌≢◌, inl, inr, refl, ap, ◌∙◌, String, true, false, none, some, List, [], ◌∷◌,
  length, arith, ◌==◌, eq_refl, Bool-cases,
}
use sentrazero.Base.Dict.{lookup, insert}
use sentrazero.Storage.Backends.{Bytes, Objects, StorageBackend}
use sentrazero.Dispatcher.Handlers.Merging.Stored.{apart}
use sentrazero.Dispatcher.Handlers.Paths.{ends_with_slash}
use sentrazero.Dispatcher.Handlers.Chunks.{
  Machine, Job, CompoundStep, ProcessPayload, Tree, file, folder, result_key, resolve_plugin_name,
  is_absent, upload_node,
}
use sentrazero.Dispatcher.Handlers.Chunks.Plain.{download, source_file}
use sentrazero.Dispatcher.Handlers.Compound.{Cache, step_out_dir, step_out_path}
use sentrazero.Dispatcher.Handlers.Compound.Inputs.{
  resolved, first_remote, first_input, step_input, resolve_with,
}
use sentrazero.Dispatcher.Handlers.Compound.Finish.{store_file, store_last}
use sentrazero.Dispatcher.Handlers.Compound.Loop.{
  LoopState, Place, clean, clean_step, remove_all, after_step, execute_step_at, execute_steps,
}
use sentrazero.Dispatcher.Handlers.Compound.Places.{earlier-not_below, path_ne_empty}
use sentrazero.Dispatcher.Handlers.Compound.Progress.{given}
use sentrazero.Dispatcher.Handlers.Compound.Chain.{
  Chains, Holds, StepEnd-done, later-reported, clean-kept,
}
use sentrazero.Dispatcher.Handlers.Compound.Chained.{ChainAll, next-Holds}
use sentrazero.Dispatcher.Handlers.Compound.Stored.{last-uploaded}
use sentrazero.Dispatcher.Handlers.Compound.Sourced.{fresh, first-Holds}

-- Directories, files and plugins are to be had, and what is written is written.
pub record Works (m : Machine) (c : Cache) (b : StorageBackend) : Type 0 where
  pub makes : (path : String) → m.makes_directory path ≡ true
  pub creates : (path : String) → m.creates path ≡ true
  pub removes : (path : String) → c.removes_all path ≡ true
  pub loads : (name : String) → m.load_plugin name ≡ true
  pub prepares : (id : String) → (work : String) × (m.prepare_work_dir id ≡ some work)
  pub writes : (k : String) (bytes : Bytes) (s : Objects) → (b.write_object k bytes s).0 ≡ true

-- The plugin of each step has a name.
abbrev pub AllNamed : Machine → List CompoundStep → Type 0
AllNamed m [] = Unit {0}
AllNamed m (step ∷ steps) = (resolve_plugin_name m step.plugin_id "" ≢ "") × AllNamed m steps

cleaned :
    (m : Machine) (c : Cache) (b : StorageBackend) (path : String) (t : Tree)
    → Works m c b
    → (u : Tree) × (clean_step m c path t ≡ clean u)
unfolding clean_step
cleaned m c b path t works = elim (Bool-cases (is_absent path t)) [
  | inl q ↦ (insert path (folder false) t, rw (q, clean_step, works.makes path) refl)
  | inr q ↦ (
    insert path (folder false) (remove_all path t),
    rw (q, clean_step, works.removes path, works.makes path) refl,
  )
]

module _ (m : Machine) (c : Cache) (b : StorageBackend) (works : Works m c b) (j : Job)
    (p : ProcessPayload) (at : Place) (s : Objects) where
  -- A step whose input holds bytes.
  given_done :
      (i : ℕ) (step : CompoundStep) (st : LoopState) (t t' : Tree) (input files : String)
      (x : Bytes) (g : Bytes → Bytes)
      → Chains m c at.cache (resolve_plugin_name m step.plugin_id "") g
      → resolve_plugin_name m step.plugin_id "" ≢ ""
      → clean_step m c (step_out_dir at.cache i) st.local ≡ clean t
      → step_input m c b p at.mode at.cache at.work_dir s i st.previous_data st.files_dir t
        ≡ resolved input files t'
      → lookup input t' ≡ some (file x)
      → (execute_step_at m c b j p at s i step st).0 ≡ none
  unfolding execute_step_at after_step
  given_done i step st t t' input files x g plugin named q r there =
      let name = resolve_plugin_name m step.plugin_id "" in
      let (own, u, done, made) =
        StepEnd-done m c at.cache j p step (given j p at i step st input) t' x g plugin refl there
          (apart name "" named) (works.loads name) in
      rw (q, execute_step_at, r, done) refl

  next_done :
      (i : ℕ) (step : CompoundStep) (st : LoopState) (x : Bytes) (g : Bytes → Bytes)
      → Chains m c at.cache (resolve_plugin_name m step.plugin_id "") g
      → resolve_plugin_name m step.plugin_id "" ≢ ""
      → Holds at.cache i x st
      → (execute_step_at m c b j p at s (suc i) step st).0 ≡ none
  next_done i step st x g plugin named holds =
      let path = step_out_path at.cache i in
      let dir = step_out_dir at.cache (suc i) in
      let (t, q) = cleaned m c b dir st.local works in
      let there =
        clean-kept m c dir path st.local t (earlier-not_below at.cache i) q ∙ holds.held in
      given_done (suc i) step st t t path st.files_dir x g plugin named q
        (ap (λ y. step_input m c b p at.mode at.cache at.work_dir s (suc i) y st.files_dir t)
            holds.chained
          ∙ later-reported m c b p at.mode at.cache at.work_dir s i st.files_dir path x t
              (path_ne_empty at.cache i) there)
        there

  chain_done :
      (i : ℕ) (steps : List CompoundStep) (gs : List (Bytes → Bytes)) (st : LoopState) (x : Bytes)
      → ChainAll m c at.cache steps gs
      → AllNamed m steps
      → Holds at.cache i x st
      → (execute_steps m c b j p at s (suc i) steps st).0 ≡ none
  unfolding execute_steps
  chain_done i [] gs st x plugins named holds = refl
  chain_done i (step ∷ steps) [] st x plugins named holds = absurd plugins
  chain_done i (step ∷ steps) (g ∷ gs) st x (plugin, plugins) (name, named) holds =
      let after = execute_step_at m c b j p at s (suc i) step st in
      let q = next_done i step st x g plugin name holds in
      rw (q, execute_steps)
        (chain_done (suc i) steps gs after.1 (g x) plugins named
          (next-Holds m c b j p at s i step st after.1 x g plugin holds (ap (λ y. (y, after.1)) q)))

  source_resolved :
      (t : Tree) (x : Bytes)
      → (at.mode == "shared_mount") ≡ false
      → p.source_path ≢ ""
      → ends_with_slash p.source_path ≡ false
      → b.read_object p.source_path s ≡ some x
      → first_input m c b p at.mode at.work_dir s "" t
        ≡ resolved
            (source_file at.work_dir p.source_path)
            ""
            ((source_file at.work_dir p.source_path, file x) ∷ t)
  unfolding first_input first_remote download
  source_resolved t x e named one r =
      let path = source_file at.work_dir p.source_path in
      let taken : download m b p.source_path path s ≡ inr ((path, file x) ∷ []) =
        rw (r, download, works.creates path) refl in
      rw (e, first_input, apart p.source_path "" named, one)
        (ap (λ y. resolve_with path "" t y) taken)

  first_done :
      (step : CompoundStep) (t : Tree) (x : Bytes) (g : Bytes → Bytes)
      → Chains m c at.cache (resolve_plugin_name m step.plugin_id "") g
      → resolve_plugin_name m step.plugin_id "" ≢ ""
      → (at.mode == "shared_mount") ≡ false
      → p.source_path ≢ ""
      → ends_with_slash p.source_path ≡ false
      → b.read_object p.source_path s ≡ some x
      → (execute_step_at m c b j p at s 0 step (fresh t)).0 ≡ none
  unfolding step_input lookup
  first_done step t x g plugin name e named one r =
      let path = source_file at.work_dir p.source_path in
      let (u, q) = cleaned m c b (step_out_dir at.cache 0) t works in
      given_done 0 step (fresh t) u ((path, file x) ∷ u) path "" x g plugin name q
        (source_resolved u x e named one r) (rw (eq_refl path) refl)

  pub all_done :
      (steps : List CompoundStep) (gs : List (Bytes → Bytes)) (t : Tree) (x : Bytes)
      → ChainAll m c at.cache steps gs
      → AllNamed m steps
      → (at.mode == "shared_mount") ≡ false
      → p.source_path ≢ ""
      → ends_with_slash p.source_path ≡ false
      → b.read_object p.source_path s ≡ some x
      → (execute_steps m c b j p at s 0 steps (fresh t)).0 ≡ none
  unfolding execute_steps
  all_done [] gs t x plugins names e named one r = refl
  all_done (step ∷ steps) [] t x plugins names e named one r = absurd plugins
  all_done (step ∷ steps) (g ∷ gs) t x (plugin, plugins) (name, names) e named one r =
      let after = execute_step_at m c b j p at s 0 step (fresh t) in
      let q = first_done step t x g plugin name e named one r in
      rw (q, execute_steps)
        (chain_done 0 steps gs after.1 (g x) plugins names (
          first-Holds m c b j p at s step (fresh t) after.1 x g plugin e named one r refl
            (ap (λ y. (y, after.1)) q)))

  file_done :
      (path : String) (x : Bytes) (t : Tree)
      → (at.mode == "shared_mount") ≡ false
      → lookup path t ≡ some (file x)
      → (store_file m b p at.mode path t s).0 ≡ none
  unfolding store_file upload_node
  file_done path x t e there = ground (arith, e, there, works.writes (result_key p) x s)

  pub last_done :
      (i : ℕ) (x : Bytes) (u : LoopState)
      → (at.mode == "shared_mount") ≡ false
      → Holds at.cache i x u
      → (store_last m c b p at u s).0 ≡ none
  unfolding store_last
  last_done i x u e holds =
      let path = step_out_path at.cache i in
      let dir = step_out_dir at.cache (length p.steps - 1) in
      rw
        (
          last-uploaded c dir path x u holds.last holds.held,
          store_last,
          apart path "" (path_ne_empty at.cache i),
        )
        (file_done path x u.local e holds.held)
