-- ===== src/HttpClient/Retries.antt =====
-- Which answer a request with retries returns, and how long it waits.
use sentrazero.Base.{
  ℕ, zero, suc, sym, subst, ◌+◌, ◌*◌, ◌≤◌, ◌<◌, ◌≡◌, refl, ◌⊎◌, inl, inr, Bool, true, false, List,
  [], ◌∷◌, arith, Bool-cases, ◌&&◌,
}
use sentrazero.Base.Int.{pos}
use sentrazero.HttpClient.{
  Answer, broken, responded, Network, Trace, backoff, max_backoff, retryable, reply_of, checked,
  sent_once, sent_before, tries, do_with_req,
}

-- The attempts from one on, that many, can be made.
abbrev pub can_send : Network → ℕ → ℕ → Bool
can_send w zero attempt = true
can_send w (suc n) attempt =
    w.builds attempt && (w.has_headers attempt && can_send w n (suc attempt))

-- The attempts from one on, that many, are answered by errors that are tried again.
abbrev pub all_retried : Network → ℕ → ℕ → Bool
all_retried w zero attempt = true
all_retried w (suc n) attempt = retryable (w.answer attempt) && all_retried w n (suc attempt)

-- The attempt whose answer is returned: the `k`-th after the first.
abbrev pub Settles : Network → ℕ → ℕ → ℕ → Trace → Type 0
Settles w left attempt k t =
    (k ≤ left)
    × (all_retried w k attempt ≡ true)
    × ((k ≡ left) ⊎ (retryable (w.answer (attempt + k)) ≡ false))
    × (t.sends ≡ k + 1)
    × (t.reply ≡ reply_of (w.answer (attempt + k)))

checked_sent :
    (w : Network) (attempt n : ℕ) (t : Trace)
    → can_send w (suc n) attempt ≡ true
    → checked w attempt t ≡ t
unfolding checked
checked_sent w attempt n t h = ground arith

can_send-tail :
    (w : Network) (attempt n : ℕ)
    → can_send w (suc n) attempt ≡ true
    → can_send w n (suc attempt) ≡ true
can_send-tail w attempt n h = ground arith

settled :
    (answer : ℕ → Answer) {left i j : ℕ}
    → (left ≡ 0) ⊎ (retryable (answer i) ≡ false)
    → j ≡ i
    → (0 ≡ left) ⊎ (retryable (answer j) ≡ false)
settled answer (inl e) same = inl (sym e)
settled answer (inr e) same = inr (rw same e)

carried :
    (answer : ℕ → Answer) {k left i j : ℕ}
    → (k ≡ left) ⊎ (retryable (answer i) ≡ false)
    → i ≡ j
    → (suc k ≡ suc left) ⊎ (retryable (answer j) ≡ false)
carried answer (inl e) same = inl (omega arith)
carried answer (inr e) same = inr (rw (sym same) e)

here-Settles :
    (w : Network) (left attempt : ℕ)
    → (left ≡ 0) ⊎ (retryable (w.answer attempt) ≡ false)
    → Settles w left attempt 0 (sent_once (w.answer attempt))
here-Settles w left attempt h =
    let same : attempt + 0 ≡ attempt = omega arith in
    (omega arith, refl, settled w.answer h same, omega arith, rw same refl)

later-Settles :
    (w : Network) (left attempt k pause : ℕ) (t : Trace)
    → retryable (w.answer attempt) ≡ true
    → Settles w left (suc attempt) k t
    → Settles w (suc left) attempt (suc k) (sent_before pause t)
later-Settles w left attempt k pause t h (a, b, c, d, e) =
    let same : suc attempt + k ≡ attempt + suc k = omega arith in
    (omega arith, ground (arith, h, b), carried w.answer c same, omega arith, rw (sym same) e)

tries_again :
    (w : Network) (left attempt : ℕ)
    → can_send w (suc (suc left)) attempt ≡ true
    → retryable (w.answer attempt) ≡ true
    → tries w (suc left) attempt ≡ sent_before (backoff attempt) (tries w left (suc attempt))
unfolding tries
tries_again w left attempt h again = rw (checked_sent w attempt (suc left) _ h, again) refl

tries_done :
    (w : Network) (left attempt : ℕ)
    → can_send w (suc left) attempt ≡ true
    → (left ≡ 0) ⊎ (retryable (w.answer attempt) ≡ false)
    → tries w left attempt ≡ sent_once (w.answer attempt)
unfolding tries
tries_done w zero attempt h done = checked_sent w attempt 0 _ h
tries_done w (suc left) attempt h (inl e) = absurd (omega arith)
tries_done w (suc left) attempt h (inr e) = rw (checked_sent w attempt (suc left) _ h, e) refl

-- From an attempt on, with that many behind it, one of the answers is settled on.
tries_settle :
    (w : Network) (left attempt : ℕ)
    → can_send w (suc left) attempt ≡ true
    → (k : ℕ) × Settles w left attempt k (tries w left attempt)
tries_settle w zero attempt h = (
  0,
  subst (λ t. Settles w 0 attempt 0 t) (sym (tries_done w 0 attempt h (inl refl)))
      (here-Settles w 0 attempt (inl refl)),
)
tries_settle w (suc left) attempt h =
    let (k, later) = tries_settle w left (suc attempt) (can_send-tail w attempt (suc left) h) in
    elim (Bool-cases (retryable (w.answer attempt))) [
      | inl again ↦ (
        suc k,
        subst (λ t. Settles w (suc left) attempt (suc k) t)
            (sym (tries_again w left attempt h again))
            (later-Settles w left attempt k (backoff attempt) (tries w left (suc attempt)) again
              later),
      )
      | inr done ↦ (
        0,
        subst (λ t. Settles w (suc left) attempt 0 t)
            (sym (tries_done w (suc left) attempt h (inr done)))
            (here-Settles w (suc left) attempt (inr done)),
      )
    ]

unfoldable pub total : List ℕ → ℕ
total [] = 0
total (n ∷ ns) = n + total ns

-- An answer that is an error or has a status of 500 or more, and one that is neither.
abbrev pub Fails : Answer → Type 0
Fails broken = Unit {0}
Fails (responded status) = 500 ≤ status

abbrev pub Passes : Answer → Type 0
Passes broken = ⊥
Passes (responded status) = status < 500

retried-Fails : (a : Answer) → retryable a ≡ true → Fails a
unfolding retryable
retried-Fails broken h = tt
retried-Fails (responded status) h = ground (arith, h)

settled-Passes : (a : Answer) → retryable a ≡ false → Passes a
unfolding retryable
settled-Passes broken h = ground (arith, h)
settled-Passes (responded status) h = ground (arith, h)

retried_at :
    (w : Network) (k attempt i : ℕ)
    → all_retried w k attempt ≡ true
    → i < k
    → Fails (w.answer (attempt + i))
retried_at w zero attempt i h l = absurd (omega (arith, l))
retried_at w (suc k) attempt zero h l =
    let same : attempt + 0 ≡ attempt = omega arith in
    rw same (retried-Fails (w.answer attempt) (ground (arith, h)))
retried_at w (suc k) attempt (suc i) h l =
    let same : attempt + suc i ≡ suc attempt + i = omega arith in
    rw same (retried_at w k (suc attempt) i (ground (arith, h)) (omega (arith, l)))

-- With at most `n` retries, n not negative, and requests that can be built with their headers: the
-- call returns the answer of the first attempt that is neither an error nor a status of 500 or more,
-- or that of attempt n + 1 where each one before is such; it sends no request after that one.
pub do_with_req_lem :
    (n : ℕ) (w : Network)
    → can_send w (suc n) 0 ≡ true
    → (k : ℕ) × (k ≤ n)
      × ((i : ℕ) → i < k → Fails (w.answer i))
      × ((k ≡ n) ⊎ Passes (w.answer k))
      × ((do_with_req (pos n) w).sends ≡ k + 1)
      × ((do_with_req (pos n) w).reply ≡ reply_of (w.answer k))
unfolding do_with_req
do_with_req_lem n w h =
    let (k, (a, b, c, d, e)) = tries_settle w n 0 h in
    let same : 0 + k ≡ k = omega arith in
    (
      k,
      a,
      λ i l.
          let at : 0 + i ≡ i = omega arith in
          subst (λ j. Fails (w.answer j)) at (retried_at w k 0 i b l),
      elim (rw same at c) as (λ x. (k ≡ n) ⊎ Passes (w.answer k)) [
        | inl last ↦ inl last
        | inr done ↦ inr (settled-Passes (w.answer k) done)
      ],
      d,
      rw same at e,
    )

backoff_le : (attempt : ℕ) → backoff attempt ≤ max_backoff
unfolding backoff
backoff_le attempt = ground arith

tries-sleeps :
    (w : Network) (left attempt : ℕ) → total (tries w left attempt).sleeps ≤ left * max_backoff
unfolding tries checked total
tries-sleeps w zero attempt = ground arith
tries-sleeps w (suc left) attempt =
    ground (arith, backoff_le attempt, tries-sleeps w left (suc attempt))

-- However the network answers, the pauses of a call with at most `n` retries add up to n seconds at
-- most.
pub do_with_req-sleeps :
    (n : ℕ) (w : Network) → total (do_with_req (pos n) w).sleeps ≤ n * max_backoff
unfolding do_with_req
do_with_req-sleeps n w = tries-sleeps w n 0
