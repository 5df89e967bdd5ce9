-- ===== src/Dispatcher/Routing/Routes.antt =====
-- Which jobs reach which handler.
use sentrazero.Base.{
  ◌≡◌, ◌≢◌, refl, sym, subst, ◌⊎◌, ◌↔◌, inl, inr, String, Bool, true, false, ◌&&◌, ◌||◌, ◌==◌,
  if◌then◌else◌, arith, eq_iff, Bool-cases, ne_of_eq,
}
use sentrazero.Dispatcher.Payload.{Fields, object}
use sentrazero.Dispatcher.Routing.{
  JobMeta, MetaError, Checked, ok, err, chosen_type, normalize, check_target, extract_job_meta,
  check_envelope, Route, complete_now, scan_dataset, merge_dataset, process_chunk, inject_job_id,
  execute_plugin, executor_job_id, route, plan_job,
}

-- The type that a job is handled by: the payload's, or the envelope's where it has none, with
-- `process_dataset` read as `process`.
abbrev pub job_type_of : String → Fields → String
job_type_of envelope f = normalize (if f.job_type == "" then envelope else f.job_type)

abbrev pub meta_of : String → Fields → JobMeta
meta_of envelope f = record {
  job_type = job_type_of envelope f;
  chunk_id = f.chunk_id;
  dataset_id = f.dataset_id;
}

abbrev pub known_type : String → Bool
known_type t = t == "process" || t == "merge_dataset" || t == "preprocess" || t == "scan_dataset"

no_type : (t : String) → (t == "") ≡ true → known_type (normalize t) ≡ false
unfolding normalize
no_type t h = rw ((eq_iff t "").0 h)

-- A known type with the identifiers that it needs.
pub record HasTarget (m : JobMeta) : Type 0 where
  pub known : known_type m.job_type ≡ true
  pub process_target :
      (m.job_type == "process") ≡ true → (m.chunk_id == "" && m.dataset_id == "") ≡ false
  pub merge_target : (m.job_type == "merge_dataset") ≡ true → (m.dataset_id == "") ≡ false

check_target-HasTarget : (m n : JobMeta) → check_target m ≡ ok n → (n ≡ m) × HasTarget m
unfolding check_target
check_target-HasTarget m n h = (
  ground arith,
  record {
    known = ground arith;
    process_target = λ e. ground arith;
    merge_target = λ e. ground (arith, ne_of_eq m.job_type "merge_dataset" "process" e refl);
  },
)

extract-meta :
    (f : Fields) (envelope : String) (m : JobMeta)
    → extract_job_meta (object f) envelope ≡ ok m
    → (m ≡ meta_of envelope f) × HasTarget m
unfolding extract_job_meta chosen_type
extract-meta f envelope m h = ground (arith, check_target-HasTarget (meta_of envelope f) m)

Checked-cases {ℓ} :
    {A : Type ℓ} (x : Checked A) → ((a : A) × (x ≡ ok a)) ⊎ ((e : MetaError) × (x ≡ err e))
Checked-cases (ok a) = inl (a, refl)
Checked-cases (err e) = inr (e, refl)

-- The conditions under which a job is given a route.
pub record IsRouted (cancelled_before : Bool) (envelope : String) (f : Fields) : Type 0 where
  pub alive : cancelled_before ≡ false
  pub target : HasTarget (meta_of envelope f)
  pub agrees : (envelope == "" || normalize envelope == job_type_of envelope f) ≡ true

plan-IsRouted :
    (c : Bool) (envelope : String) (f : Fields) (r : Route)
    → plan_job c envelope (object f) ≡ ok r
    → (r ≡ route (meta_of envelope f) f) × IsRouted c envelope f
unfolding plan_job check_envelope
plan-IsRouted c envelope f r h = elim (Checked-cases (extract_job_meta (object f) envelope)) [
  | inl (m, e) ↦
      let (same, target) = extract-meta f envelope m e in
      (
        ground arith,
        record {
          alive = ground arith;
          target = subst HasTarget same target;
          agrees = ground arith;
        },
      )
  | inr (x, e) ↦ ground arith
]

check_target_ok : (m : JobMeta) → HasTarget m → check_target m ≡ ok m
unfolding check_target
check_target_ok m t = ground (arith, t.known, t.process_target, t.merge_target)

chosen_type_ok :
    (envelope : String) (f : Fields)
    → HasTarget (meta_of envelope f)
    → chosen_type envelope f ≡ ok (if f.job_type == "" then envelope else f.job_type)
unfolding chosen_type
chosen_type_ok envelope f t = elim (Bool-cases (f.job_type == "")) [
  | inl e ↦ elim (Bool-cases (envelope == "")) [
    | inl e' ↦
        let k : known_type (normalize envelope) ≡ true = (rw e at t.known) in
        cc (k, no_type envelope e')
    | inr e' ↦ rw (e, e')
  ]
  | inr e ↦ rw e
]

IsRouted-plan :
    (c : Bool) (envelope : String) (f : Fields)
    → IsRouted c envelope f
    → plan_job c envelope (object f) ≡ ok (route (meta_of envelope f) f)
unfolding plan_job extract_job_meta check_envelope
IsRouted-plan c envelope f v = ground (
  arith,
  v.alive,
  v.agrees,
  chosen_type_ok envelope f v.target,
  check_target_ok (meta_of envelope f) v.target,
)

-- Where a job of each type goes.
pub data Goes (envelope : String) (f : Fields) : Route → Type 0 where
  preprocessed : job_type_of envelope f ≡ "preprocess" → Goes envelope f complete_now
  scanned : job_type_of envelope f ≡ "scan_dataset" → Goes envelope f (scan_dataset (object f))
  merges : job_type_of envelope f ≡ "merge_dataset" → Goes envelope f (merge_dataset (object f))
  whole_dataset :
      job_type_of envelope f ≡ "process"
      → f.chunk_id ≡ ""
      → f.dataset_id ≢ ""
      → Goes envelope f complete_now
  chunk_by_name :
      job_type_of envelope f ≡ "process"
      → f.chunk_id ≢ ""
      → f.plugin_code ≡ ""
      → Goes envelope f
          (process_chunk (object (if f.id == "" then f else record f { job_id = f.id })))
  chunk_with_code :
      job_type_of envelope f ≡ "process"
      → f.chunk_id ≢ ""
      → f.plugin_code ≢ ""
      → Goes envelope f (execute_plugin (executor_job_id f) f)

equal : (a b : String) → (a == b) ≡ true → a ≡ b
equal a b h = (eq_iff a b).0 h

unequal : (a b : String) → (a == b) ≡ false → a ≢ b
unequal a b q h = ground (arith, q, (eq_iff a b).1 h)

differs : (a b : String) → a ≢ b → (a == b) ≡ false
differs a b h = elim (Bool-cases (a == b)) [ inl e ↦ absurd (h (equal a b e)) | inr e ↦ e ]

same : (a b : String) → a ≡ b → (a == b) ≡ true
same a b h = (eq_iff a b).1 h

and_false : (x : Bool) → (x && false) ≡ false
and_false true = refl
and_false false = refl

route-Goes :
    (envelope : String) (f : Fields)
    → HasTarget (meta_of envelope f)
    → Goes envelope f (route (meta_of envelope f) f)
unfolding route inject_job_id
route-Goes envelope f v =
    let t = job_type_of envelope f in
    elim (Bool-cases (t == "preprocess")) [
      | inl e ↦ rw (e, route) (preprocessed (equal t _ e))
      | inr e ↦ elim (Bool-cases (t == "scan_dataset")) [
        | inl s ↦ rw (e, route, s) (scanned (equal t _ s))
        | inr s ↦ elim (Bool-cases (t == "merge_dataset")) [
          | inl m ↦ rw (e, route, s, m) (merges (equal t _ m))
          | inr m ↦
              let p : (t == "process") ≡ true = ground (arith, v.known, e, s, m) in
              let process = equal t _ p in
              elim (Bool-cases (f.chunk_id == "")) [
                | inl c ↦
                    let d : (f.dataset_id == "") ≡ false = ground (arith, v.process_target p, c) in
                    rw (e, route, s, m, p, c, d, and_false (f.plugin_code == ""))
                      (whole_dataset process (equal f.chunk_id "" c) (unequal f.dataset_id "" d))
                | inr c ↦ elim (Bool-cases (f.plugin_code == "")) [
                  | inl n ↦
                      rw (e, route, s, m, p, c, n)
                        (chunk_by_name process (unequal f.chunk_id "" c) (equal f.plugin_code "" n))
                  | inr n ↦
                      rw (e, route, s, m, p, c, n)
                        (chunk_with_code process (unequal f.chunk_id "" c)
                          (unequal f.plugin_code "" n))
                ]
              ]
        ]
      ]
    ]

Goes-route :
    (envelope : String) (f : Fields) (r : Route)
    → Goes envelope f r
    → r ≡ route (meta_of envelope f) f
unfolding route inject_job_id
Goes-route envelope f r (preprocessed t) = rw (t, route) refl
Goes-route envelope f r (scanned t) = rw (t, route) refl
Goes-route envelope f r (merges t) = rw (t, route) refl
Goes-route envelope f r (whole_dataset t c d) =
    rw (t, route, same f.chunk_id "" c, differs f.dataset_id "" d, and_false (f.plugin_code == ""))
      refl
Goes-route envelope f r (chunk_by_name t c n) =
    rw (t, route, differs f.chunk_id "" c, same f.plugin_code "" n) refl
Goes-route envelope f r (chunk_with_code t c n) =
    rw (t, route, differs f.chunk_id "" c, differs f.plugin_code "" n) refl

-- `ExecuteJob` gives an object payload a route exactly when the job is not cancelled, its type is
-- one of the four with the identifiers that the type needs, and its envelope, if there is one,
-- names the same type. A preprocessing job and a process job without a chunk are completed at once, a
-- scan, a merge and a chunk without inline code go to their handlers, the last with the job's id if
-- it has one, and a chunk with inline code goes to the plugin executor.
pub plan_job_lem :
    (c : Bool) (envelope : String) (f : Fields) (r : Route)
    → (plan_job c envelope (object f) ≡ ok r) ↔ (Goes envelope f r × IsRouted c envelope f)
plan_job_lem c envelope f r = (
  λ h.
      let (e, v) = plan-IsRouted c envelope f r h in
      (subst (λ x. Goes envelope f x) (sym e) (route-Goes envelope f v.target), v),
  λ h. rw (Goes-route envelope f r h.0) (IsRouted-plan c envelope f h.1),
)

-- The plugin executor is reached only by a chunk's process job with inline code, with the job's
-- own fields and the id that `ExecuteJob` chooses from them.
pub executor_only_inline :
    (c : Bool) (envelope : String) (f g : Fields) (id : String)
    → plan_job c envelope (object f) ≡ ok (execute_plugin id g)
    → (g ≡ f)
      × (id ≡ executor_job_id f)
      × ((job_type_of envelope f == "process") ≡ true)
      × ((f.plugin_code == "") ≡ false)
      × ((f.chunk_id == "") ≡ false)
unfolding route
executor_only_inline c envelope f g id h =
    let (e, v) = plan-IsRouted c envelope f _ h in
    ground (arith, v.target.known, v.target.process_target)
