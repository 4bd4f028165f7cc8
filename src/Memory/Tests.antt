-- ===== src/Memory/Tests.antt =====
-- The path guards at concrete inputs.
mod Setting
mod Slots
mod Notes
use public_gbrain_agentos.Base.{◌≡◌, ◌⊎◌, refl, true, [], ◌∷◌, ◌++◌, take, ok}
use mathlib.Core.Logic.{◌↔◌}
use public_gbrain_agentos.Base.Text.{Text, text}
use public_gbrain_agentos.Auth.Scopes.{AgentContext, check_write_scope}
use public_gbrain_agentos.Memory.Paths.{
  split_path, has_segment, first_segment, allowed_scopes, normalize_rel_path, check_path, ops_scope,
  agent_path_component, is_path_safe, canonical_kind_from_path, assert_ops_subtree_owner,
  resolve_write_target,
}
use public_gbrain_agentos.Memory.Paths.Owned.{NoSlash, write_target_owned, component-injective}
use public_gbrain_agentos.Memory.Paths.Safe.{IsVaultPath, check_path_lem}

-- a stand-in for the digest
abbrev sha256 : Text → Text
sha256 s = text "00112233445566778899"

sha256_digits : (s : Text) → NoSlash (sha256 s)
sha256_digits s = (
  refl,
  (
    refl,
    (
      refl,
      (
        refl,
        (
          refl,
          (
            refl,
            (
              refl,
              (
                refl,
                (
                  refl,
                  (
                    refl,
                    (
                      refl,
                      (refl, (refl, (refl, (refl, (refl, (refl, (refl, (refl, (refl, tt))))))))),
                    ),
                  ),
                ),
              ),
            ),
          ),
        ),
      ),
    ),
  ),
)

abbrev operator : AgentContext
operator = record { agent = "ivi"; write_scopes = "50-ops" ∷ []; read_scopes = [] }

abbrev home : Text
home = text "50-ops/ivi/30-decisions"

picked : resolve_write_target sha256 operator "30-decisions" ≡ ok (ops_scope, home)
unfolding resolve_write_target check_write_scope agent_path_component is_path_safe
picked = refl

kind_plain : NoSlash (text "30-decisions")
kind_plain = (
  refl,
  (refl, (refl, (refl, (refl, (refl, (refl, (refl, (refl, (refl, (refl, (refl, tt))))))))))),
)

name_plain : NoSlash (text "a.md")
name_plain = (refl, (refl, (refl, (refl, tt))))

write_target_owned_example :
    (canonical_kind_from_path (home ++ b'/' ∷ text "a.md") ≡ text "30-decisions")
    × (assert_ops_subtree_owner sha256 operator (home ++ b'/' ∷ text "a.md") ≡ ok tt)
write_target_owned_example =
    write_target_owned sha256 sha256_digits operator "30-decisions" ops_scope home (text "a.md")
      kind_plain refl name_plain picked

check_path_lem_example :
    (check_path (text "50-ops/ivi/a.md") ≡ ok (text "50-ops/ivi/a.md"))
    ↔ ((text "50-ops/ivi/a.md" ≡ text "50-ops/ivi/a.md") × IsVaultPath (text "50-ops/ivi/a.md"))
check_path_lem_example = check_path_lem (text "50-ops/ivi/a.md") (text "50-ops/ivi/a.md")
