-- ===== src/Tests/Http.antt =====
-- A network that fails twice, and a masked token.
use sentrazero.Base.{ℕ, zero, suc, ◌+◌, ◌≡◌, ◌≤◌, ◌<◌, ◌⊎◌, refl, true, if◌then◌else◌, leb}
use sentrazero.Base.Int.{pos}
use sentrazero.HttpClient.{Network, broken, responded, reply_of, do_with_req}
use sentrazero.HttpClient.Retries.{Fails, Passes, do_with_req_lem}

-- An error, then a status of 503, then 200.
abbrev flaky : Network
flaky = record {
  builds = λ i. true;
  has_headers = λ i. true;
  answer = λ i. elim i [ zero ↦ broken | suc n ↦ if leb 1 n then responded 200 else responded 503 ];
}

do_with_req_lem_example :
    (k : ℕ) × (k ≤ 3)
    × ((i : ℕ) → i < k → Fails (flaky.answer i))
    × ((k ≡ 3) ⊎ Passes (flaky.answer k))
    × ((do_with_req (pos 3) flaky).sends ≡ k + 1)
    × ((do_with_req (pos 3) flaky).reply ≡ reply_of (flaky.answer k))
do_with_req_lem_example = do_with_req_lem 3 flaky refl
