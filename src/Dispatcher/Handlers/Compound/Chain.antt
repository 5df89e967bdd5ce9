-- ===== src/Dispatcher/Handlers/Compound/Chain.antt =====
-- The steps of a compound job over a backend that is no shared mount: each takes the file that the one
-- before it has reported, and the file of the last one is stored.
use sentrazero.Dispatcher.Handlers.Paths.{is_below}
use sentrazero.Base.{
  ℕ, suc, ◌≡◌, ◌≢◌, ◌⊎◌, inl, inr, refl, sym, ap, subst, eq_iff, ◌∙◌, String, true, false, Option,
  none, some, [], ◌∷◌, ◌++◌, arith, ◌==◌, Bool-cases,
}
use sentrazero.Base.Dict.{lookup, lookup-insert}
use sentrazero.Storage.Backends.{Bytes, Objects, StorageBackend}
use sentrazero.Dispatcher.Handlers.Merging.Stored.{apart}
use sentrazero.Dispatcher.Handlers.Chunks.{
  Machine, Job, CompoundStep, ProcessPayload, ChunkFailure, no_plugin, not_loaded, Tree, Node, file,
  folder, output, resolve_plugin_name, is_empty,
}
use sentrazero.Dispatcher.Handlers.Chunks.Plain.{standing}
use sentrazero.Dispatcher.Handlers.Chunks.Pipeline.{fill-there}
use sentrazero.Dispatcher.Handlers.Compound.{
  Cache, missing, text, ChainFields, Result, StepInput, step_failed, step_done, step_out_path,
  after_step_run, end_step, execute_plugin_step_ex, chain_data,
}
use sentrazero.Dispatcher.Handlers.Compound.Inputs.{
  resolved, reported_input, later_input, step_input,
}
use sentrazero.Dispatcher.Handlers.Compound.Loop.{
  LoopState, Place, remove_all, clean, clean_step, after_step,
}
use sentrazero.Dispatcher.Handlers.Compound.Progress.{given}

-- The data of an output that names its file only.
abbrev pub names_file : String → ChainFields
names_file path = record { output_path = text path; output_dir = missing; file_list = missing }

-- A plugin that reads its input file, writes what `g` makes of it to its output file, and reports
-- that file as its data, in each step of a job with this cache.
pub record Chains (m : Machine) (c : Cache) (cache name : String) (g : Bytes → Bytes) : Type 0 where
  pub runs :
      (x : StepInput) (t : Tree) (bytes : Bytes)
      → x.context.output_path ≡ step_out_path cache x.context.step_index
      → lookup x.context.input_path t ≡ some (file bytes)
      → (o : Bytes) × (t' : Tree) × (own : ChainFields) × (c.execute_step name x t ≡ (output o, t'))
        × (is_empty o ≡ false)
        × (c.result_of o
            ≡ some (record {
              data_fields = some (names_file x.context.output_path);
              own_fields = own;
            }))
        × (lookup x.context.output_path t' ≡ some (file (g bytes)))

-- After a step: its file holds the bytes, and its data name that file.
pub record Holds (cache : String) (i : ℕ) (x : Bytes) (st : LoopState) : Type 0 where
  pub chained : st.previous_data ≡ some (names_file (step_out_path cache i))
  pub held : lookup (step_out_path cache i) st.local ≡ some (file x)
  pub last : st.last_output_path ≡ step_out_path cache i

abbrev pub result_at : String → ChainFields → Option Result
result_at path own = some (record { data_fields = some (names_file path); own_fields = own })

done-Holds :
    (cache : String) (i : ℕ) (files : String) (st : LoopState) (own : ChainFields) (t : Tree)
    (x : Bytes)
    → lookup (step_out_path cache i) t ≡ some (file x)
    → Holds cache i x
        (after_step cache i files st (step_done (result_at (step_out_path cache i) own) t)).1
unfolding after_step chain_data
done-Holds cache i files st own t x h = record { chained = refl; held = h; last = refl }

end_step-there :
    (m : Machine) (c : Cache) (path : String) (o content : Bytes) (own : ChainFields) (t : Tree)
    → is_empty o ≡ false
    → c.result_of o ≡ result_at path own
    → lookup path t ≡ some (file content)
    → end_step m c path (some o, t) ≡ step_done (result_at path own) t
unfolding end_step
end_step-there m c path o content own t long parsed there =
    ground (arith, long, parsed, fill-there m path o content t there)

-- A plugin that is there and loads runs the step.
pub StepEnd-done :
    (m : Machine) (c : Cache) (cache : String) (j : Job) (p : ProcessPayload) (step : CompoundStep)
    (x : StepInput) (t : Tree) (bytes : Bytes) (g : Bytes → Bytes)
    → Chains m c cache (resolve_plugin_name m step.plugin_id "") g
    → x.context.output_path ≡ step_out_path cache x.context.step_index
    → lookup x.context.input_path t ≡ some (file bytes)
    → (resolve_plugin_name m step.plugin_id "" == "") ≡ false
    → m.load_plugin (resolve_plugin_name m step.plugin_id "") ≡ true
    → (own : ChainFields) × (t' : Tree) × (execute_plugin_step_ex m c j p step x t
        ≡ step_done (result_at x.context.output_path own) t')
      × (lookup x.context.output_path t' ≡ some (file (g bytes)))
unfolding execute_plugin_step_ex after_step_run
StepEnd-done m c cache j p step x t bytes g plugin placed there q l =
    let (o, t', own, ran, long, parsed, made) = plugin.runs x t bytes placed there in
    (
      own,
      t',
      rw (q, execute_plugin_step_ex, l, ran)
          (end_step-there m c x.context.output_path o (g bytes) own t' long parsed made),
      made,
    )

StepEnd-run :
    (m : Machine) (c : Cache) (cache : String) (j : Job) (p : ProcessPayload) (step : CompoundStep)
    (x : StepInput) (t : Tree) (bytes : Bytes) (g : Bytes → Bytes)
    → Chains m c cache (resolve_plugin_name m step.plugin_id "") g
    → x.context.output_path ≡ step_out_path cache x.context.step_index
    → lookup x.context.input_path t ≡ some (file bytes)
    → ((e : ChunkFailure) × (execute_plugin_step_ex m c j p step x t ≡ step_failed e t))
      ⊎ ((own : ChainFields) × (t' : Tree) × (execute_plugin_step_ex m c j p step x t
            ≡ step_done (result_at x.context.output_path own) t')
          × (lookup x.context.output_path t' ≡ some (file (g bytes))))
unfolding execute_plugin_step_ex
StepEnd-run m c cache j p step x t bytes g plugin placed there =
    let name = resolve_plugin_name m step.plugin_id "" in
    elim (Bool-cases (name == "")) [
      | inl q ↦ inl (no_plugin, rw (q, execute_plugin_step_ex) refl)
      | inr q ↦ elim (Bool-cases (m.load_plugin name)) [
        | inr l ↦ inl (not_loaded, rw (q, execute_plugin_step_ex, l) refl)
        | inl l ↦ inr (StepEnd-done m c cache j p step x t bytes g plugin placed there q l)
      ]
    ]

pub plugin-Holds :
    (m : Machine) (c : Cache) (j : Job) (p : ProcessPayload) (at : Place) (i : ℕ)
    (step : CompoundStep) (st u : LoopState) (input files : String) (t : Tree) (x : Bytes)
    (g : Bytes → Bytes)
    → Chains m c at.cache (resolve_plugin_name m step.plugin_id "") g
    → lookup input t ≡ some (file x)
    → after_step at.cache i files st
        (execute_plugin_step_ex m c j p step (given j p at i step st input) t)
      ≡ (none, u)
    → Holds at.cache i (g x) u
unfolding after_step
plugin-Holds m c j p at i step st u input files t x g plugin there h =
    elim (StepEnd-run m c at.cache j p step (given j p at i step st input) t x g plugin refl
      there) [
        | inl (e, q) ↦ ground (arith, q, h)
        | inr (own, t', q, made) ↦
            subst (Holds at.cache i (g x))
              (ap (λ y. (after_step at.cache i files st y).1) (sym q) ∙ ap (λ y. y.1) h)
              (done-Holds at.cache i files st own t' (g x) made)
      ]

-- The output of a step outlives the cleaning before the next one.
lookup-remove_all :
    (path k : String) (t : Tree)
    → is_below path k ≡ false
    → lookup k (remove_all path t) ≡ lookup k t
unfolding remove_all lookup
lookup-remove_all path k [] h = refl
lookup-remove_all path k ((j, n) ∷ t) h =
    ground (arith, h, eq_iff j k, lookup-remove_all path k t h)

below-apart : (path k : String) → is_below path k ≡ false → (path == k) ≡ false
unfolding is_below
below-apart path k h = ground (arith, h, eq_iff path k, eq_iff k path)

pub clean-kept :
    (m : Machine) (c : Cache) (path k : String) (t u : Tree)
    → is_below path k ≡ false
    → clean_step m c path t ≡ clean u
    → lookup k u ≡ lookup k t
unfolding clean_step
clean-kept m c path k t u h q = ground (
  arith,
  q,
  below-apart path k h,
  lookup-remove_all path k t h,
  lookup-insert path k (folder false) t,
  lookup-insert path k (folder false) (remove_all path t),
)

lookup-append :
    (k : String) (n : Node) (t u : Tree) → lookup k t ≡ some n → lookup k (t ++ u) ≡ some n
unfolding lookup
lookup-append k n [] u h = ground (arith, h)
lookup-append k n ((j, o) ∷ t) u h = ground (arith, h, lookup-append k n t u)

reported-file :
    (m : Machine) (path : String) (x : Bytes) (t : Tree)
    → path ≢ ""
    → lookup path t ≡ some (file x)
    → reported_input m (some (names_file path)) t ≡ path
unfolding reported_input
reported-file m path x t h there =
    ground (arith, lookup-append path (file x) t (standing m path) there, apart path "" h)

-- A later step takes the file that the step before has reported.
pub later-reported :
    (m : Machine) (c : Cache) (b : StorageBackend) (p : ProcessPayload) (mode cache work : String)
    (s : Objects) (i : ℕ) (files path : String) (x : Bytes) (t : Tree)
    → path ≢ ""
    → lookup path t ≡ some (file x)
    → step_input m c b p mode cache work s (suc i) (some (names_file path)) files t
      ≡ resolved path files t
unfolding step_input later_input
later-reported m c b p mode cache work s i files path x t h there =
    rw (reported-file m path x t h there) (rw (apart path "" h) refl)
