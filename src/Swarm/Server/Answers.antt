-- ===== src/Swarm/Server/Answers.antt =====
-- What the answers of the tools promise about the letter that is delivered later.
use public_gbrain_agentos.Base.{
  ℕ, ◌+◌, ◌≡◌, refl, String, Option, some, [], ◌∷◌, ◌++◌, arith, inl, inr, Bool-cases, length, take,
  length-take, length-append, ltb, ◌=ₛ◌, eq_iff, if◌then◌else◌, ok,
}
use public_gbrain_agentos.Base.Text.{Text}
use public_gbrain_agentos.Base.Json.{Json, Fields, end, field}
use public_gbrain_agentos.Swarm.Render.{
  Unicode, get, sections, lead, lead_text, render_payload_body_full, render_payload_body,
  measure_payload_body, render_body_limit, truncate, truncation_mark,
}
use public_gbrain_agentos.Swarm.Server.{Setting, Swarm, Notified, notify, set_key}

length-truncate :
    (limit : ℕ) (full : Text)
    → length (truncate limit full) ≡ (if ltb limit (length full) then limit + 32 else length full)
length-truncate limit full = elim (Bool-cases (ltb limit (length full))) [
  | inl over ↦
      rw over
        (ground (arith, length-append (take limit full) truncation_mark, length-take limit full))
  | inr fits ↦ rw fits refl
]

get_body-set :
    (payload : Fields) (message : Json)
    → get "body" (set_key "message" message payload) ≡ get "body" payload
unfolding get set_key
get_body-set end message = refl
get_body-set (field k v fields) message = elim (Bool-cases (k =ₛ "message")) [
  | inl here ↦ let same : k ≡ "message" = ground (arith, eq_iff k "message") in rw same refl
  | inr there ↦ rw (there, get_body-set fields message) refl
]

sections-set :
    (u : Unicode) (payload : Fields) (message : Json)
    → sections u (set_key "message" message payload) ≡ sections u payload
unfolding sections set_key
sections-set u end message = refl
sections-set u (field k v fields) message = elim (Bool-cases (k =ₛ "message")) [
  | inl here ↦ let same : k ≡ "message" = ground (arith, eq_iff k "message") in rw same refl
  | inr there ↦ rw (there, sections-set u fields message) refl
]

-- Under the sender's render settings, an untruncated answer means that the body is delivered whole;
-- a truncated one, that its first `body_limit` characters are. `body_chars` is the whole length.
pub notify_foretells :
    (s : Setting) (agent nonce to_agent : String) (payload : Fields) (task_id : Option String)
    (n : ℕ) (w w' : Swarm) (a : Notified)
    → notify s (ok agent) nonce to_agent payload task_id n w ≡ ok (a, w')
    → let full = render_payload_body_full s.unicode payload in
      (a.body_chars ≡ length full)
      × (render_payload_body s.body_limit s.unicode payload
          ≡ (if a.truncated then take a.body_limit full ++ truncation_mark else full))
      × (length (render_payload_body s.body_limit s.unicode payload)
          ≡ (if a.truncated then a.body_limit + 32 else a.body_chars))
unfolding notify render_payload_body measure_payload_body
notify_foretells s agent nonce to_agent payload task_id n w w' a h =
    let full = render_payload_body_full s.unicode payload in
    let limit = render_body_limit s.body_limit in
    let chars : a.body_chars ≡ length full = ground arith in
    let bound : a.body_limit ≡ limit = ground arith in
    let cut : a.truncated ≡ ltb limit (length full) = ground arith in
    (chars, rw (bound, cut) refl, rw (bound, cut, chars) (length-truncate limit full))

lead-body :
    (payload : Fields) (t : Text) → lead_text (get "body" payload) ≡ some t → lead payload ≡ t ∷ []
unfolding lead
lead-body payload t h = rw (h, lead) refl

-- A non-blank `body` shadows `message`: whatever the payload says under "message", the rendered
-- letter is the same.
pub message_shadowed :
    (u : Unicode) (payload : Fields) (t : Text) (message : Json)
    → lead_text (get "body" payload) ≡ some t
    → render_payload_body_full u (set_key "message" message payload)
      ≡ render_payload_body_full u payload
unfolding render_payload_body_full
message_shadowed u payload t message h =
    let h' : lead_text (get "body" (set_key "message" message payload)) ≡ some t =
      rw (get_body-set payload message) h in
    rw
      (
        lead-body (set_key "message" message payload) t h',
        lead-body payload t h,
        sections-set u payload message,
      )
      refl
