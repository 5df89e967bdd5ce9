-- ===== src/Tests/Jobs.antt =====
-- A store of one seen job, and the routes of one payload.
use sentrazero.Base.{
  ◌≡◌, ◌≤◌, ◌↔◌, refl, true, false, none, [], ◌∷◌, length, arith, eq_iff, Bool-cases, inl, inr, sym,
  ◌==◌,
}
use sentrazero.Base.Dict.{occurs, retain}
use sentrazero.Dispatcher.Payload.{Fields, object}
use sentrazero.Dispatcher.Dedup.{
  Store, missing, contains, load, close, unexpired, default_dedup_max_jobs,
}
use sentrazero.Dispatcher.Dedup.Window.{IsMap, contains-load-close}
use sentrazero.Dispatcher.Routing.{
  ok, plan_job, normalize, route, execute_plugin, executor_job_id, extract_job_meta, chosen_type,
  check_target, check_envelope,
}
use sentrazero.Dispatcher.Routing.Routes.{Goes, IsRouted, plan_job_lem}

abbrev store : Store
store = record {
  ttl = 10;
  max_jobs = 5000;
  jobs = ("job-1", 15) ∷ (("job-2", 25) ∷ []);
  pending = none;
  timer = true;
  file = missing;
}

store-IsMap : IsMap store.jobs
unfolding occurs
store-IsMap k = elim (Bool-cases ("job-1" == k)) [
  | inl e ↦ rw (sym ((eq_iff "job-1" k).0 e)) (omega arith)
  | inr e ↦ ground (arith, e)
]

abbrev restarted : Store
restarted = record store { jobs = []; file = (close true store).file }

contains-load-close_example : contains (load 20 restarted) "job-2" 22 ≡ contains store "job-2" 22
contains-load-close_example =
    contains-load-close store restarted "job-2" 20 22 store-IsMap (omega arith) refl

few_left : length (unexpired 20 store.jobs) ≤ default_dedup_max_jobs
unfolding unexpired retain
few_left = omega arith

abbrev inline_fields : Fields
inline_fields = record {
  id = "job-1";
  job_type = "process_dataset";
  chunk_id = "chunk-1";
  dataset_id = "dataset-1";
  plugin_id = "";
  plugin_name = "";
  plugin_code = "return x";
  execution_id = "";
  job_id = "";
}

plan_job_lem_example :
    (plan_job false "process" (object inline_fields) ≡ ok (execute_plugin "job-1" inline_fields))
    ↔ (Goes "process" inline_fields (execute_plugin "job-1" inline_fields)
        × IsRouted false "process" inline_fields)
plan_job_lem_example =
    plan_job_lem false "process" inline_fields (execute_plugin "job-1" inline_fields)

planned :
    plan_job false "process" (object inline_fields) ≡ ok (execute_plugin "job-1" inline_fields)
unfolding plan_job extract_job_meta chosen_type check_target check_envelope normalize route
    executor_job_id
planned = refl
