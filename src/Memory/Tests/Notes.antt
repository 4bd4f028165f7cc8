-- ===== src/Memory/Tests/Notes.antt =====
-- The note tools at concrete inputs.
use public_gbrain_agentos.Base.{
  err, ◌⊎◌, ℕ, ◌≡◌, ◌*◌, ◌/◌, refl, String, true, false, none, List, [], ◌∷◌, arith, ltb, map,
  Result, ok,
}
use public_gbrain_agentos.Base.Json.{end}
use public_gbrain_agentos.Base.Text.{Text, text, lower}
use public_gbrain_agentos.Base.Table.Keys.{lookup}
use public_gbrain_agentos.Auth.Errors.{AuthError}
use public_gbrain_agentos.Auth.Scopes.{AgentContext, check_write_scope}
use public_gbrain_agentos.Memory.Paths.{
  normalize_rel_path, check_path, split_path, canonical_kind_from_path, resolve_write_target,
}
use public_gbrain_agentos.Memory.Service.{Service, Document, Setting}
use public_gbrain_agentos.Memory.Similar.{
  Candidate, Floats, Alphabet, Decision, score, find_supersession_candidates,
}
use public_gbrain_agentos.Memory.Similar.Partition.{
  IsOrder, IsSplit, MostSimilarFirst, find_supersession_candidates_lem,
}
use public_gbrain_agentos.Memory.Notes.{NoteError, slugify, transliterate, is_slug_char}
use public_gbrain_agentos.Memory.Notes.Slug.{Slugs}
use public_gbrain_agentos.Memory.Notes.Store.{exists}
use public_gbrain_agentos.Memory.Notes.Store.Rows.{IsConsistent, IsSound, retired_at}
use public_gbrain_agentos.Memory.Notes.Store.Elsewhere.{KeepsAt}
use public_gbrain_agentos.Memory.Notes.Edit.{update_document}
use public_gbrain_agentos.Memory.Notes.Supersession.{
  supersede_decision, decision_path, supersede_body, is_unchanged,
}
use public_gbrain_agentos.Memory.Notes.Edit.Confined.{update_confined}
use public_gbrain_agentos.Memory.Notes.Supersession.Effect.{Superseded, supersede_effect}
use public_gbrain_agentos.Memory.Notes.Auto.{supersede_all}
use public_gbrain_agentos.Memory.Notes.Auto.Closing.{Decided, supersede_all-Decided}
use public_gbrain_agentos.Memory.Notes.Supersession.Target.{decision_path_passes}
use public_gbrain_agentos.Memory.Notes.History.{
  Call, update, supersede, decision, run, notes-IsSound, retired_forever,
}
use public_gbrain_agentos.Memory.Tests.Setting.{setting, ann, bob}

-- percents in place of floating-point numbers
abbrev percents : Floats
percents = record {
  Float = ℕ;
  divide = λ a b. a * 100 / b;
  less = ltb;
  is_finite = λ x. true;
  parse = λ s. none;
  show = λ x. "";
}

abbrev ascii : Alphabet
ascii = record { lower = lower; is_word = λ c. true; repr_str = λ s. s }

abbrev digest : Text → Text
digest s = text "0f0f0f0f"

abbrev vault : Setting
vault = record setting { sha256 = digest }

abbrev old_path : Text
old_path = text "50-ops/bob/30-decisions/plan.md"

abbrev plan : Document
plan = record {
  id = 1;
  path = old_path;
  frontmatter = end;
  body = text "plan";
  sha256 = text "0";
  source_type = "decision";
  agent = "bob";
  scope = text "50-ops";
  created_at = 5;
  updated_at = 5;
  valid_from = 5;
  valid_until = none;
  is_latest = true;
  superseded_by = none;
  verified_at = none;
  verified_by = none;
  basis = none;
}

abbrev service : Service
service = record {
  slots = [];
  next_slot = 1;
  documents = plan ∷ [];
  next_document = 2;
  jobs = [];
  vault = record { path = old_path; content = text "plan" } ∷ [];
  audit = [];
}

slug : slugify vault (text "новый план! v2") ≡ text "novyy-plan-v2"
unfolding slugify transliterate lower
slug = refl

emoji_slug : slugify vault (text "!!!") ≡ text "n0f0f0f0f"
unfolding slugify transliterate lower
emoji_slug = refl

digest-Slugs : (t : Text) → Slugs (digest t)
unfolding is_slug_char
digest-Slugs t = (refl, (refl, (refl, (refl, (refl, (refl, (refl, (refl, tt))))))))

today-Slugs : Slugs vault.today
unfolding is_slug_char
today-Slugs = (refl, (refl, (refl, (refl, (refl, (refl, (refl, (refl, (refl, (refl, tt))))))))))

decision_path_passes_example :
    check_path (decision_path vault (text "30-decisions") (text "план"))
    ≡ ok (decision_path vault (text "30-decisions") (text "план"))
unfolding check_write_scope resolve_write_target
decision_path_passes_example =
    decision_path_passes vault ann (text "план") (text "30-decisions", text "30-decisions")
      digest-Slugs today-Slugs refl

-- bob's own decision stays as it is
update_confined_example :
    KeepsAt old_path service (update_document vault (ok bob) old_path (text "new") service).1
unfolding canonical_kind_from_path split_path
update_confined_example = update_confined vault (ok bob) old_path (text "new") old_path service refl

-- ann may not write below 50-ops
supersede_effect_example :
    Superseded vault old_path
      (decision_path vault (text "30-decisions") (text "план"))
      (supersede_body old_path (text "old") (text "new"))
      plan
      service.documents
      (supersede_decision vault
        (ok ann)
        old_path
        (text "план")
        (text "new")
        (text "old")
        service).1.documents
unfolding check_write_scope normalize_rel_path check_path split_path decision_path lookup slugify
    transliterate resolve_write_target exists lower is_unchanged
supersede_effect_example =
    supersede_effect vault ann (text "30-decisions", text "30-decisions") old_path old_path old_path
      (decision_path vault (text "30-decisions") (text "план")) (text "план") (text "new")
      (text "old") plan service refl refl refl refl refl refl refl refl

plan-IsConsistent : IsConsistent plan
plan-IsConsistent = record {
  closed_not_latest = refl;
  superseded_not_latest = refl;
  not_self = refl;
  verified_pair = refl;
}

service-IsSound : IsSound service.documents service.next_document
unfolding lookup
service-IsSound = ((refl, tt), ((plan-IsConsistent, omega arith), tt))

describe : NoteError → String
describe e = "error"

abbrev calls : List (Setting × Result AuthError AgentContext × Call percents)
calls =
    (vault, ok ann, supersede old_path (text "план") (text "new") (text "old"))
    ∷ (vault, ok bob, update old_path (text "mine"))
    ∷ (vault, ok bob, decision 80 50 (text "plan") (text "again") [] none none)
    ∷ []

notes-IsSound_example :
    IsSound
      (run percents ascii describe calls service).documents
      (run percents ascii describe calls service).next_document
notes-IsSound_example = notes-IsSound percents ascii describe calls service service-IsSound

abbrev closed : Service
closed = record service { documents = record plan { is_latest = false } ∷ [] }

retired_forever_example :
    retired_at old_path (run percents ascii describe calls closed).documents ≡ true
unfolding lookup
retired_forever_example = retired_forever percents ascii describe old_path calls closed refl

-- one to close, one to hint at, and one to leave out
abbrev rows : List Decision
rows =
    record { path = text "30-decisions/a.md"; frontmatter = end; body = text "keep plan" }
    ∷ record { path = text "30-decisions/b.md"; frontmatter = end; body = text "plan" }
    ∷ record { path = text "30-decisions/c.md"; frontmatter = end; body = text "other" }
    ∷ []

percents-IsOrder : IsOrder percents
percents-IsOrder = record {
  one_way = λ x y h. ground (arith, h);
  negative = λ x y z h k. ground (arith, h, k);
}

find_supersession_candidates_lem_example :
    let found = find_supersession_candidates percents ascii (text "plan" ∷ []) rows 80 50 in
    IsSplit percents 80 50 (map (score percents ascii (text "plan" ∷ [])) rows) found.0 found.1
    × MostSimilarFirst percents found.0
    × MostSimilarFirst percents found.1
find_supersession_candidates_lem_example =
    find_supersession_candidates_lem percents 80 50 percents-IsOrder ascii (text "plan" ∷ []) rows

abbrev candidates : List (Candidate percents)
candidates = record { path = old_path; jaccard = 90; frontmatter = end } ∷ []

supersede_all-Decided_example :
    ((e : NoteError) × (supersede_all percents vault "bob"
          (text "50-ops")
          (text "30-decisions/new.md")
          end
          (text "new")
          (text "h")
          candidates
          service
        ≡ (err e, service)))
    ⊎ ((v : Service) × (supersede_all percents vault "bob"
            (text "50-ops")
            (text "30-decisions/new.md")
            end
            (text "new")
            (text "h")
            candidates
            service
          ≡ (ok tt, v))
        × Decided percents vault (text "30-decisions/new.md") candidates (text "new") service v)
supersede_all-Decided_example =
    supersede_all-Decided percents vault (text "30-decisions/new.md") "bob" (text "50-ops") end
      (text "new") (text "h") candidates service (refl, tt)
