-- ===== src/Swarm/Prompt/Body.antt =====
-- The rendered body stands in the prompt, whichever envelope the letter gets.
use mathlib.Core.List.{append_assoc}
use public_gbrain_agentos.Base.{◌≡◌, refl, sym, String, Option, List, [], ◌∷◌, ◌++◌}
use public_gbrain_agentos.Base.Text.{Text, concat}
use public_gbrain_agentos.Base.Json.{Fields}
use public_gbrain_agentos.Swarm.Render.{Unicode, render_payload_body}
use public_gbrain_agentos.Swarm.Render.Content.{IsInfix}
use public_gbrain_agentos.Swarm.Prompt.{
  Letter, Kind, letter, letter_kind, envelope, header, actions, prompt_of, format_virtual_prompt,
}

concat-append : (xs ys : List Text) → concat (xs ++ ys) ≡ concat xs ++ concat ys
concat-append [] ys = refl
concat-append (x ∷ xs) ys = rw (concat-append xs ys) (sym (append_assoc x (concat xs) (concat ys)))

prompt_of-body : (kind : Kind) (m : Letter) → IsInfix m.body (prompt_of kind m)
unfolding prompt_of
prompt_of-body kind m = (
  concat (envelope m (header kind)),
  concat (actions kind m),
  concat-append (envelope m (header kind)) (m.body ∷ actions kind m),
)

-- Whatever the recipient and the payload, the prompt that is posted holds the rendered body, cut to
-- the render limit, in one piece.
pub body-IsInfix :
    (env : Option Text) (u : Unicode) (coordinator from_agent to_agent task_id : String)
    (payload : Fields)
    → IsInfix
        (render_payload_body env u payload)
        (format_virtual_prompt env u coordinator from_agent to_agent task_id payload)
unfolding format_virtual_prompt letter
body-IsInfix env u coordinator from_agent to_agent task_id payload =
    let m = letter env u from_agent to_agent task_id payload in
    prompt_of-body (letter_kind coordinator u.repr_str to_agent m.title payload) m
