-- ===== src/Memory/Notes/Supersession/Target.antt =====
-- The paths of new decisions.
use public_gbrain_agentos.Base.{
  ◌≤◌, ◌≡◌, refl, true, false, ◌||◌, [], ◌∷◌, ◌++◌, arith, All-map, All-append, length,
  length-append, ◌==◌, ok,
}
use public_gbrain_agentos.Base.Text.{Text, text, concat}
use public_gbrain_agentos.Auth.Scopes.{AgentContext}
use public_gbrain_agentos.Memory.Service.{Setting}
use public_gbrain_agentos.Memory.Paths.{check_path, resolve_write_target}
use public_gbrain_agentos.Memory.Paths.Passing.{IsSegment, NoMark, write_target_passes}
use public_gbrain_agentos.Memory.Notes.{slugify, is_slug_char}
use public_gbrain_agentos.Memory.Notes.Slug.{is_slug_or_dash, Slugs, slugify_lem}
use public_gbrain_agentos.Memory.Notes.Supersession.{decision_path}

Slugs-NoMark : (s : Text) → Slugs s → NoMark s
unfolding is_slug_char
Slugs-NoMark s h =
    All-map (λ c. is_slug_or_dash c ≡ true) (λ c. ((c == b'/') || (c == b'~')) ≡ false)
      (λ c k. ground arith) s h

long-IsSegment : (s : Text) → NoMark s → 3 ≤ length s → IsSegment s
long-IsSegment [] h k = absurd (omega arith)
long-IsSegment (a ∷ []) h k = absurd (omega arith)
long-IsSegment (a ∷ b ∷ []) h k = absurd (omega arith)
long-IsSegment (a ∷ b ∷ c ∷ s) h k = record {
  plain = h;
  not_empty = refl;
  not_dot = ground arith;
  not_parent = ground arith;
}

name-IsSegment :
    (day slug : Text)
    → Slugs day
    → Slugs slug
    → IsSegment (concat (day ∷ text "-" ∷ slug ∷ text ".md" ∷ []))
name-IsSegment day slug h k =
    long-IsSegment _
      (joined day _ (Slugs-NoMark day h)
        (refl, joined slug _ (Slugs-NoMark slug k) (refl, (refl, (refl, tt)))))
      (omega
        (arith, length-append day (b'-' ∷ (slug ++ text ".md")), length-append slug (text ".md")))
  where
    joined : (xs ys : Text) → NoMark xs → NoMark ys → NoMark (xs ++ ys)
    joined = All-append (λ c. ((c == b'/') || (c == b'~')) ≡ false)

-- The path that create_decision_note and supersede_decision give a new decision passes the guard,
-- whatever the title is, for every caller with a scope to write to. Digests, and the date of today,
-- hold only lower-case letters, digits and dashes.
pub decision_path_passes :
    (s : Setting) (agent_ctx : AgentContext) (title : Text) (target : Text × Text)
    → ((t : Text) → Slugs (s.sha256 t))
    → Slugs s.today
    → resolve_write_target s.sha256 agent_ctx "30-decisions" ≡ ok target
    → check_path (decision_path s target.1 title) ≡ ok (decision_path s target.1 title)
unfolding decision_path
decision_path_passes s agent_ctx title target digits day h =
    write_target_passes s.sha256 (λ t. Slugs-NoMark _ (digits t)) agent_ctx "30-decisions" target.0
      target.1 (concat (s.today ∷ text "-" ∷ slugify s title ∷ text ".md" ∷ []))
      (long-IsSegment (text "30-decisions")
        (
          refl,
          (
            refl,
            (refl, (refl, (refl, (refl, (refl, (refl, (refl, (refl, (refl, (refl, tt)))))))))),
          ),
        )
        (omega arith))
      refl (name-IsSegment s.today (slugify s title) day (slugify_lem s title (digits title)).2) h
