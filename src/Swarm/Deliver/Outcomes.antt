-- ===== src/Swarm/Deliver/Outcomes.antt =====
-- What `_deliver_one` of services/swarm_mcp/worker.py has seen when it answers other than "retry".
use public_gbrain_agentos.Base.{
  ℕ, ◌≡◌, ◌≢◌, refl, String, Bool, true, not, ◌&&◌, some, arith, Option-cases, inl, inr, leb, ltb,
  ◌==◌,
}
use public_gbrain_agentos.Base.Text.{Text}
use public_gbrain_agentos.Swarm.Outbox.Rows.{Row}
use public_gbrain_agentos.Swarm.Deliver.{
  Config, Request, PostOutcome, response, timeout_exception, http_error, uncaught, Verdict,
  delivered, retry, failed, gateway_url, build_request, classify, deliver_one,
}

-- The request that was posted for a letter, and the status and the body that came back.
abbrev pub IsAnswered : Config → (Request → PostOutcome) → Row → (ℕ → Bool) → Type 0
IsAnswered c post row p =
    (url : String) × (request : Request) × (code : ℕ) × (body : Text) × (gateway_url c row.to_agent
      ≡ some url)
    × (build_request c row url ≡ some request)
    × (post request ≡ response code body)
    × (p code ≡ true)

abbrev pub is_success : ℕ → Bool
is_success code = leb 200 code && ltb code 300

abbrev pub is_refusal : ℕ → Bool
is_refusal code = leb 400 code && ltb code 500 && not (code == 429)

-- the status codes behind a verdict; `retry` has other causes too
abbrev pub codes_of : Verdict → ℕ → Bool
codes_of delivered = is_success
codes_of failed = is_refusal
codes_of retry = λ _. true

classify_verdict :
    (o : PostOutcome) (v : Verdict) (e : Text)
    → classify o ≡ some (v, e)
    → v ≢ retry
    → (code : ℕ) × (body : Text) × (o ≡ response code body) × (codes_of v code ≡ true)
unfolding classify
classify_verdict (response code body) v e h final = (code, body, refl, ground arith)
classify_verdict (timeout_exception m) v e h final = absurd (ground arith)
classify_verdict (http_error name m) v e h final = absurd (ground arith)
classify_verdict uncaught v e h final = absurd (ground arith)

-- If `deliver_one` returns the verdict `delivered` or `failed`, then the recipient has a gateway URL,
-- the request built for it was posted, and the answer's status is a 2xx for `delivered`, and a 4xx
-- other than 429 for `failed`.
pub verdict-IsAnswered :
    (c : Config) (post : Request → PostOutcome) (row : Row) (v : Verdict) (e : Text)
    → deliver_one c post row ≡ some (v, e)
    → v ≢ retry
    → IsAnswered c post row (codes_of v)
unfolding deliver_one
verdict-IsAnswered c post row v e h final = elim (Option-cases (gateway_url c row.to_agent)) [
  | inl missing ↦ absurd (ground (arith, missing))
  | inr (url, found) ↦ elim (Option-cases (build_request c row url)) [
    | inl held ↦ absurd (ground (arith, found, held))
    | inr (request, built) ↦
        let (code, body, answered, good) =
          classify_verdict (post request) v e (ground (arith, found, built)) final in
        (url, request, code, body, found, built, answered, good)
  ]
]
