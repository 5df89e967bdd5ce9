-- ===== src/HttpClient.antt =====
-- internal/httpclient/client.go: the requests with their retries, and the masked token.
-- The network is an argument: what it answers at each attempt. Times are nanoseconds.
pub mod Retries
pub mod Mask
use sentrazero.Base.{
  ℕ, zero, suc, ◌+◌, ◌-◌, ◌*◌, ◌%◌, ◌^◌, Bool, true, false, not, List, [], ◌∷◌, ◌++◌, length, take,
  drop, ltb, leb, if◌then◌else◌,
}
use sentrazero.Base.Int.{ℤ, pos, negsuc}

abbrev pub default_max_retries : ℕ
default_max_retries = 3

abbrev pub initial_backoff : ℕ
initial_backoff = 200_000_000

abbrev pub max_backoff : ℕ
max_backoff = 1_000_000_000

-- What `http.Client.Do` returns: an error, or a response with its status.
pub data Answer : Type 0 where
  broken : Answer
  responded : ℕ → Answer

-- At each attempt: is the request built, are both authentication headers there, and the answer.
pub record Network : Type 0 where
  pub builds : ℕ → Bool
  pub has_headers : ℕ → Bool
  pub answer : ℕ → Answer

-- What the caller gets; `no_reply` is `nil, nil`.
pub data Reply : Type 0 where
  no_reply request_error headers_missing transport_error : Reply
  response : ℕ → Reply

-- The reply, the number of requests sent, and the pauses between them, the first one first.
pub record Trace : Type 0 where
  pub reply : Reply
  pub sends : ℕ
  pub sleeps : List ℕ

-- `InitialBackoff * time.Duration(1<<uint(attempt))` wraps in 64 bits with a sign: a negative pause is
-- none at all.
unfoldable pub backoff : ℕ → ℕ
backoff attempt =
    let product = (initial_backoff * 2 ^ attempt) % 2 ^ 64 in
    if leb (2 ^ 63) product then 0 else if ltb max_backoff product then max_backoff else product

unfoldable pub retryable : Answer → Bool
retryable broken = true
retryable (responded status) = leb 500 status

unfoldable pub reply_of : Answer → Reply
reply_of broken = transport_error
reply_of (responded status) = response status

abbrev pub stopped : Reply → Trace
stopped reply = record { reply = reply; sends = 0; sleeps = [] }

-- A request is built and checked before it is sent.
unfoldable pub checked : Network → ℕ → Trace → Trace
checked w attempt sent =
    if not (w.builds attempt)
    then stopped request_error
    else if not (w.has_headers attempt)
    then stopped headers_missing
    else sent

abbrev pub sent_once : Answer → Trace
sent_once a = record { reply = reply_of a; sends = 1; sleeps = [] }

abbrev pub sent_before : ℕ → Trace → Trace
sent_before pause t = record { reply = t.reply; sends = 1 + t.sends; sleeps = pause ∷ t.sleeps }

-- The loop from an attempt on, with that many attempts behind it.
unfoldable pub tries : Network → ℕ → ℕ → Trace
tries w zero attempt = checked w attempt (sent_once (w.answer attempt))
tries w (suc left) attempt =
    let again = sent_before (backoff attempt) (tries w left (suc attempt)) in
    checked w attempt (if retryable (w.answer attempt) then again else sent_once (w.answer attempt))

-- A negative maximum of retries leaves the loop at once.
unfoldable pub do_with_req : ℤ → Network → Trace
do_with_req (pos max_retries) w = tries w max_retries 0
do_with_req (negsuc n) w = stopped no_reply

-- `MaskToken`, a token being its bytes.
unfoldable pub mask_token : List ℕ → List ℕ
mask_token token =
    let stars = 42 ∷ (42 ∷ (42 ∷ [])) in
    if leb (length token) 8 then stars else take 4 token ++ stars ++ drop (length token - 4) token
