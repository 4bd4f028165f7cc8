-- ===== src/Memory/Paths/Owned.antt =====
-- Where new notes land, and whose subtree a path is in.
use public_gbrain_agentos.Base.{
  ℕ, zero, suc, ◌≡◌, ◌≢◌, ◌⊎◌, refl, sym, ap, ◌∙◌, true, false, List, [], ◌∷◌, ◌++◌, arith, All,
  Bool-cases, inl, inr, take, ◌==◌, String, ok,
}
use mathlib.Core.List.{append_assoc}
use mathlib.Core.Path.{subst}
use public_gbrain_agentos.Base.Text.{Text, text, text_eq}
use public_gbrain_agentos.Auth.Scopes.{AgentContext, check_write_scope}
use public_gbrain_agentos.Auth.Signing.RoundTrip.{text_eq_self}
use public_gbrain_agentos.Memory.Paths.{
  split_path, ops_scope, is_path_safe, component_rest, is_component_char, is_component_start,
  agent_path_component, canonical_kind_from_path, kind_of, is_verbatim, assert_ops_subtree_owner,
  owned_parts, resolve_write_target,
}

-- a single segment
abbrev pub NoSlash : Text → Type 0
NoSlash s = All (λ c. (c == b'/') ≡ false) s

pub split-segment :
    (p rest : Text) → NoSlash p → split_path (p ++ b'/' ∷ rest) ≡ p ∷ split_path rest
unfolding split_path
split-segment [] rest h = refl
split-segment (c ∷ p) rest h = rw (h.0, split_path, split-segment p rest h.1) refl

pub split-last : (p : Text) → NoSlash p → split_path p ≡ p ∷ []
unfolding split_path
split-last [] h = refl
split-last (c ∷ p) h = rw (h.0, split_path, split-last p h.1) refl

component_rest-NoSlash : (n : ℕ) (s : Text) → component_rest n s ≡ true → NoSlash s
unfolding component_rest is_component_char is_component_start
component_rest-NoSlash n [] h = tt
component_rest-NoSlash zero (c ∷ []) h = (ground arith, tt)
component_rest-NoSlash zero (c ∷ d ∷ s) h = absurd (ground arith)
component_rest-NoSlash (suc n) (c ∷ []) h = (ground arith, tt)
component_rest-NoSlash (suc n) (c ∷ d ∷ s) h =
    (ground arith, component_rest-NoSlash n (d ∷ s) (ground arith))

pub is_path_safe-NoSlash : (s : Text) → is_path_safe s ≡ true → NoSlash s
unfolding is_path_safe is_component_start
is_path_safe-NoSlash [] h = tt
is_path_safe-NoSlash (c ∷ s) h = (ground arith, component_rest-NoSlash 62 s (ground arith))

take-NoSlash : (n : ℕ) (s : Text) → NoSlash s → NoSlash (take n s)
take-NoSlash zero s h = tt
take-NoSlash (suc n) [] h = tt
take-NoSlash (suc n) (c ∷ s) h = (h.0, take-NoSlash n s h.1)

pub ops_plain : NoSlash ops_scope
ops_plain = (refl, (refl, (refl, (refl, (refl, (refl, tt))))))

not_marked : (s : Text) → is_path_safe (b'_' ∷ s) ≢ true
unfolding is_path_safe is_component_start
not_marked s h = ground arith

module _ (sha256 : Text → Text) where
  component-NoSlash :
      ((s : Text) → NoSlash (sha256 s))
      → (agent : Text) → NoSlash (agent_path_component sha256 agent)
  unfolding agent_path_component
  component-NoSlash digits agent = elim (Bool-cases (is_verbatim agent)) [
    | inl kept ↦ rw kept (is_path_safe-NoSlash agent (ground arith))
    | inr hashed ↦ rw hashed (refl, take-NoSlash 16 (sha256 agent) (digits agent))
  ]

  -- the ops path of a note has the segments scope, component, kind, name
  ops_segments :
      (owner scope name : Text)
      → NoSlash owner
      → NoSlash scope
      → NoSlash name
      → split_path ((ops_scope ++ b'/' ∷ (owner ++ b'/' ∷ scope)) ++ b'/' ∷ name)
        ≡ ops_scope ∷ owner ∷ scope ∷ name ∷ []
  ops_segments owner scope name o s n =
      split-segment ops_scope ((owner ++ b'/' ∷ scope) ++ b'/' ∷ name) ops_plain
      ∙ ap (λ (r : Text). ops_scope ∷ split_path r)
          (append_assoc owner (b'/' ∷ scope) (b'/' ∷ name))
      ∙ ap (λ (r : List Text). ops_scope ∷ r)
          (split-segment owner (scope ++ b'/' ∷ name) o
            ∙ ap (λ (r : List Text). owner ∷ r)
                (split-segment scope name s
                  ∙ ap (λ (r : List Text). scope ∷ r) (split-last name n)))

  abbrev IsHome : Text → Text → Text → Text → Type 0
  IsHome owner scope name prefix =
      (kind_of (split_path (prefix ++ b'/' ∷ name)) ≡ scope)
      × (owned_parts owner (split_path (prefix ++ b'/' ∷ name)) ≡ ok tt)

  -- If `resolve_write_target` picks a prefix for a scope other than 50-ops, then the path of that
  -- prefix and a file name is of the scope's kind, and the agent passes `assert_ops_subtree_owner`
  -- there. The scope and the file name are single segments, and digests have no slash.
  pub write_target_owned :
      ((s : Text) → NoSlash (sha256 s))
      → (agent_ctx : AgentContext) (canonical_scope : String) (scope prefix name : Text)
      → NoSlash (text canonical_scope)
      → text_eq (text canonical_scope) ops_scope ≡ false
      → NoSlash name
      → resolve_write_target sha256 agent_ctx canonical_scope ≡ ok (scope, prefix)
      → (canonical_kind_from_path (prefix ++ b'/' ∷ name) ≡ text canonical_scope)
        × (assert_ops_subtree_owner sha256 agent_ctx (prefix ++ b'/' ∷ name) ≡ ok tt)
  unfolding resolve_write_target canonical_kind_from_path kind_of assert_ops_subtree_owner
      owned_parts
  write_target_owned digits agent_ctx canonical_scope scope prefix name plain shared single h =
      elim (Bool-cases (check_write_scope agent_ctx canonical_scope)) [
        | inl direct ↦
            let same : prefix ≡ text canonical_scope = ground (arith, direct) in
            let segments : split_path (text canonical_scope ++ b'/' ∷ name)
                ≡ text canonical_scope ∷ name ∷ [] =
              split-segment (text canonical_scope) name plain
              ∙ ap (λ (r : List Text). text canonical_scope ∷ r) (split-last name single) in
            let owner = agent_path_component sha256 (text agent_ctx.agent) in
            subst (IsHome owner (text canonical_scope) name) (sym same)
              (ap kind_of segments, ap (owned_parts owner) segments ∙ rw shared refl)
        | inr fallback ↦ elim (Bool-cases (check_write_scope agent_ctx "50-ops")) [
          | inl ops ↦
              let owner = agent_path_component sha256 (text agent_ctx.agent) in
              let same : prefix ≡ ops_scope ++ b'/' ∷ (owner ++ b'/' ∷ text canonical_scope) =
                ground (arith, fallback, ops) in
              let segments =
                ops_segments owner (text canonical_scope) name
                  (component-NoSlash digits (text agent_ctx.agent)) plain single in
              subst (IsHome owner (text canonical_scope) name) (sym same) (
                ap kind_of segments,
                ap (owned_parts owner) segments ∙ rw (text_eq_self owner) refl,
              )
          | inr refused ↦ absurd (ground (arith, fallback, refused))
        ]
      ]

  -- Two agents share a path component only if they have the same name, or the first 16 characters
  -- of their names' digests are the same.
  pub component-injective :
      (a b : Text)
      → agent_path_component sha256 a ≡ agent_path_component sha256 b
      → (a ≡ b) ⊎ (take 16 (sha256 a) ≡ take 16 (sha256 b))
  unfolding agent_path_component
  component-injective a b h = elim (Bool-cases (is_verbatim a)) [
    | inl plain_a ↦ elim (Bool-cases (is_verbatim b)) [
      | inl plain_b ↦ inl (ground (arith, plain_a, plain_b))
      | inr hashed_b ↦
          let marked : a ≡ b'_' ∷ take 16 (sha256 b) = ground (arith, plain_a, hashed_b) in
          absurd (
            not_marked (take 16 (sha256 b))
              (subst (λ s. is_path_safe s ≡ true) marked (ground arith)))
    ]
    | inr hashed_a ↦ elim (Bool-cases (is_verbatim b)) [
      | inl plain_b ↦
          let marked : b ≡ b'_' ∷ take 16 (sha256 a) = ground (arith, hashed_a, plain_b) in
          absurd (
            not_marked (take 16 (sha256 a))
              (subst (λ s. is_path_safe s ≡ true) marked (ground arith)))
      | inr hashed_b ↦ inr (ground (arith, hashed_a, hashed_b))
    ]
  ]
