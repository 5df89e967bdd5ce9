-- ===== src/Dispatcher/Dedup/Window.antt =====
-- How long a job id is remembered, within one run and across a restart.
use sentrazero.Base.{
  ℕ, ◌+◌, ◌≤◌, ◌<◌, ◌≡◌, String, true, false, arith, ltb, leb, if◌then◌else◌, ◌==◌, eq_iff,
}
use sentrazero.Base.Dict.{Dict, occurs, lookup-insert, lookup-delete, lookup-retain}
use sentrazero.Dispatcher.Dedup.{Store, live, load, contains, add, remove, close}

-- No job id stands twice: what a Go map gives, and what the operations keep.
abbrev pub IsMap : Dict ℕ → Type 0
IsMap m = (k : String) → occurs k m ≤ 1

-- A job that is added at `now` is refused until `now + ttl`, that instant included, and no other
-- job's answer changes.
pub contains-add :
    (s : Store) (id j : String) (now later : ℕ)
    → contains (add id now s) j later
      ≡ (if id == j then leb later (now + s.ttl) else contains s j later)
unfolding contains add
contains-add s id j now later = ground (arith, eq_iff id j, lookup-insert id j (now + s.ttl) s.jobs)

-- Removing a job forgets it and no other.
pub contains-remove :
    (s : Store) (id j : String) (later : ℕ)
    → contains (remove id s) j later ≡ (if id == j then false else contains s j later)
unfolding contains remove
contains-remove s id j later = ground (arith, eq_iff id j, lookup-delete id j s.jobs)

-- An agent that closes its store, in which no id stands twice, and loads it again at `now` from the file
-- that the close has written, which nothing has written since, gives the answers of the old store at
-- every later instant.
pub contains-load-close :
    (s fresh : Store) (j : String) (now later : ℕ)
    → IsMap s.jobs
    → now < later
    → fresh.file ≡ (close true s).file
    → contains (load now fresh) j later ≡ contains s j later
unfolding contains load close live
contains-load-close s fresh j now later m h e =
    rw (e, load, contains) (ground (arith, lookup-retain (λ expiry. ltb now expiry) j s.jobs (m j)))
