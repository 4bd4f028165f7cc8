-- ===== src/Memory/Paths/Passing.antt =====
-- Paths that the guard lets through: those of plain segments below a scope of the vault.
use public_gbrain_agentos.Base.{
  ℕ, zero, suc, ◌≡◌, refl, sym, Bool, true, false, ◌||◌, String, List, [], ◌∷◌, ◌++◌, arith, All,
  All-take, any, Bool-cases, inl, inr, ◌==◌, ok,
}
use mathlib.Core.List.{append_assoc}
use mathlib.Core.Path.{subst}
use public_gbrain_agentos.Base.Text.{Text, text, text_eq, is_empty, starts_with}
use public_gbrain_agentos.Auth.Scopes.{AgentContext, check_write_scope}
use public_gbrain_agentos.Memory.Paths.{
  split_path, has_segment, allowed_scopes, normalize_rel_path, check_scope, check_path, ops_scope,
  is_path_safe, component_rest, is_component_char, is_component_start, is_verbatim,
  agent_path_component, resolve_write_target,
}
use public_gbrain_agentos.Memory.Paths.Owned.{split-segment, split-last}

-- a character that neither separates segments nor stands for the home directory
abbrev pub NoMark : Text → Type 0
NoMark s = All (λ c. ((c == b'/') || (c == b'~')) ≡ false) s

pub record IsSegment (s : Text) : Type 0 where
  pub plain : NoMark s
  pub not_empty : is_empty s ≡ false
  pub not_dot : text_eq s (text ".") ≡ false
  pub not_parent : text_eq s (text "..") ≡ false

pub noslash : (s : Text) → NoMark s → All (λ c. (c == b'/') ≡ false) s
noslash [] h = tt
noslash (c ∷ s) h = (ground arith, noslash s h.1)

-- what normalize_rel_path asks for
pub record Passes (path : Text) : Type 0 where
  pub relative : starts_with path (text "/") ≡ false
  pub not_empty : is_empty path ≡ false
  pub no_home : any (λ c. c == b'~') path ≡ false
  pub no_parent : has_segment (text "..") (split_path path) ≡ false
  pub no_empty : has_segment [] (split_path path) ≡ false
  pub no_dot : has_segment (text ".") (split_path path) ≡ false

no_home_in : (s : Text) → NoMark s → any (λ c. c == b'~') s ≡ false
no_home_in [] h = refl
no_home_in (c ∷ s) h = ground (arith, h.0, no_home_in s h.1)

any-append :
    {A : Type 0} (p : A → Bool) (xs ys : List A)
    → any p xs ≡ false
    → any p ys ≡ false
    → any p (xs ++ ys) ≡ false
any-append p [] ys h k = k
any-append p (x ∷ xs) ys h k = ground (arith, any-append p xs ys)

not_blank : (s : Text) → is_empty s ≡ false → text_eq s [] ≡ false
not_blank [] h = absurd (ground arith)
not_blank (c ∷ s) h = refl

pub Passes-last : (s : Text) → IsSegment s → Passes s
Passes-last [] h = absurd (ground (arith, h.not_empty))
Passes-last (c ∷ s) h = record {
  relative = ground (arith, h.plain.0);
  not_empty = refl;
  no_home = no_home_in (c ∷ s) h.plain;
  no_parent = rw (split-last (c ∷ s) (noslash (c ∷ s) h.plain), h.not_parent) refl;
  no_empty = rw (split-last (c ∷ s) (noslash (c ∷ s) h.plain)) refl;
  no_dot = rw (split-last (c ∷ s) (noslash (c ∷ s) h.plain), h.not_dot) refl;
}

pub Passes-segment : (s rest : Text) → IsSegment s → Passes rest → Passes (s ++ b'/' ∷ rest)
Passes-segment [] rest h k = absurd (ground (arith, h.not_empty))
Passes-segment (c ∷ s) rest h k = record {
  relative = ground (arith, h.plain.0);
  not_empty = refl;
  no_home =
      any-append (λ c. c == b'~') (c ∷ s) (b'/' ∷ rest) (no_home_in (c ∷ s) h.plain) k.no_home;
  no_parent = rw (split-segment (c ∷ s) rest (noslash (c ∷ s) h.plain), h.not_parent) k.no_parent;
  no_empty = rw (split-segment (c ∷ s) rest (noslash (c ∷ s) h.plain)) k.no_empty;
  no_dot = rw (split-segment (c ∷ s) rest (noslash (c ∷ s) h.plain), h.not_dot) k.no_dot;
}

pub Passes-normal : (path : Text) → Passes path → normalize_rel_path path ≡ ok path
unfolding normalize_rel_path
Passes-normal path h =
    rw (h.not_empty, h.no_home, h.relative, h.no_parent, h.no_empty, h.no_dot) refl

Passes-check :
    (scope rest : Text)
    → IsSegment scope
    → Passes rest
    → has_segment scope allowed_scopes ≡ true
    → check_path (scope ++ b'/' ∷ rest) ≡ ok (scope ++ b'/' ∷ rest)
unfolding check_path check_scope
Passes-check scope rest h k known =
    rw
      (
        Passes-normal (scope ++ b'/' ∷ rest) (Passes-segment scope rest h k),
        split-segment scope rest (noslash scope h.plain),
        known,
      )
      refl

rest-NoMark : (n : ℕ) (s : Text) → component_rest n s ≡ true → NoMark s
unfolding component_rest is_component_char is_component_start
rest-NoMark n [] h = tt
rest-NoMark zero (c ∷ []) h = (ground arith, tt)
rest-NoMark zero (c ∷ d ∷ s) h = absurd (ground arith)
rest-NoMark (suc n) (c ∷ []) h = (ground arith, tt)
rest-NoMark (suc n) (c ∷ d ∷ s) h = (ground arith, rest-NoMark n (d ∷ s) (ground arith))

safe-IsSegment : (s : Text) → is_verbatim s ≡ true → IsSegment s
unfolding is_path_safe is_component_start
safe-IsSegment [] h = absurd (ground arith)
safe-IsSegment (c ∷ s) h = record {
  plain = (ground arith, rest-NoMark 62 s (ground arith));
  not_empty = refl;
  not_dot = ground arith;
  not_parent = ground arith;
}

module _ (sha256 : Text → Text) (digits : (s : Text) → NoMark (sha256 s)) where
  component-IsSegment : (agent : Text) → IsSegment (agent_path_component sha256 agent)
  unfolding agent_path_component
  component-IsSegment agent = elim (Bool-cases (is_verbatim agent)) [
    | inl kept ↦ rw kept (safe-IsSegment agent kept)
    | inr hashed ↦ rw hashed record {
      plain = (
        refl,
        All-take (λ c. ((c == b'/') || (c == b'~')) ≡ false) 16 (sha256 agent) (digits agent),
      );
      not_empty = refl;
      not_dot = refl;
      not_parent = refl;
    }
  ]

  -- A new note below the folder that resolve_write_target picks passes the guard, if the shared
  -- scope is one of the vault's and the name is a plain segment: a tool that may write does not
  -- refuse its own path. Digests hold neither slashes nor tildes.
  pub write_target_passes :
      (agent_ctx : AgentContext) (canonical_scope : String) (scope prefix name : Text)
      → IsSegment (text canonical_scope)
      → has_segment (text canonical_scope) allowed_scopes ≡ true
      → IsSegment name
      → resolve_write_target sha256 agent_ctx canonical_scope ≡ ok (scope, prefix)
      → check_path (prefix ++ b'/' ∷ name) ≡ ok (prefix ++ b'/' ∷ name)
  unfolding resolve_write_target
  write_target_passes agent_ctx canonical_scope scope prefix name shared known single h =
      elim (Bool-cases (check_write_scope agent_ctx canonical_scope)) [
        | inl direct ↦
            let same : prefix ≡ text canonical_scope = ground (arith, direct) in
            subst Checked (sym same)
              (Passes-check (text canonical_scope) name shared (Passes-last name single) known)
        | inr fallback ↦ elim (Bool-cases (check_write_scope agent_ctx "50-ops")) [
          | inl ops ↦
              let owner = agent_path_component sha256 (text agent_ctx.agent) in
              let same : prefix ≡ ops_scope ++ b'/' ∷ (owner ++ b'/' ∷ text canonical_scope) =
                ground (arith, fallback, ops) in
              let below =
                Passes-segment owner (text canonical_scope ++ b'/' ∷ name)
                  (component-IsSegment (text agent_ctx.agent))
                  (Passes-segment (text canonical_scope) name shared (Passes-last name single)) in
              subst Checked (sym same) (
                subst
                  (λ (r : Text). check_path (ops_scope ++ b'/' ∷ r) ≡ ok (ops_scope ++ b'/' ∷ r))
                  (sym (append_assoc owner (b'/' ∷ text canonical_scope) (b'/' ∷ name)))
                  (Passes-check ops_scope _ ops-IsSegment below refl))
          | inr refused ↦ absurd (ground (arith, fallback, refused))
        ]
      ]
    where
      Checked : Text → Type 0
      Checked p = check_path (p ++ b'/' ∷ name) ≡ ok (p ++ b'/' ∷ name)

      ops-IsSegment : IsSegment ops_scope
      ops-IsSegment = record {
        plain = (refl, (refl, (refl, (refl, (refl, (refl, tt))))));
        not_empty = refl;
        not_dot = refl;
        not_parent = refl;
      }
