-- ===== src/Memory/Notes/Store/Rows.antt =====
-- The documents after statements of the note tools.
use mathlib.Core.Path.{subst}
use public_gbrain_agentos.Base.{
  ℕ, suc, ◌<◌, ◌≡◌, refl, sym, Bool, true, false, not, ◌&&◌, Option, none, some, List, arith, All,
  All-append, All-map, if◌then◌else◌,
}
use public_gbrain_agentos.Base.Text.{Text, text_eq}
use public_gbrain_agentos.Base.Table.{All-update}
use public_gbrain_agentos.Base.Table.Keys.{
  lookup, lookup-append, lookup-update, updated, Distinct, Distinct-update, Distinct-append_one,
}
use public_gbrain_agentos.Memory.Service.{Document, by_path}
use public_gbrain_agentos.Base.Text.Equality.{text_eq_iff}
use public_gbrain_agentos.Memory.Notes.Store.{at_path, close}
use public_gbrain_agentos.Memory.Notes.Store.Edits.{
  Edit, added, skipped, edited, closed, Edits, start, then_edit, Keeps, is_some,
}

abbrev pub superseded_by_self : Option Text → Text → Bool
superseded_by_self none path = false
superseded_by_self (some new_path) path = text_eq new_path path

-- the CHECK constraints of migrations/007_freshness.sql
pub record IsConsistent (r : Document) : Type 0 where
  pub closed_not_latest : (is_some r.valid_until && r.is_latest) ≡ false
  pub superseded_not_latest : (is_some r.superseded_by && r.is_latest) ≡ false
  pub not_self : superseded_by_self r.superseded_by r.path ≡ false
  pub verified_pair : is_some r.verified_at ≡ is_some r.verified_by

-- the constraints of the table: the paths differ, the CHECKs, and ids below the sequence
abbrev pub IsSound : List Document → ℕ → Type 0
IsSound docs next = Distinct by_path docs × All (λ r. IsConsistent r × (r.id < next)) docs

-- there is a document at the path, and it is not current
abbrev is_retired : Option Document → Bool
is_retired none = false
is_retired (some r) = not r.is_latest

abbrev pub retired_at : Text → List Document → Bool
retired_at path docs = is_retired (lookup by_path path docs)

wider :
    (docs : List Document) (next : ℕ)
    → All (λ r. IsConsistent r × (r.id < next)) docs
    → All (λ r. IsConsistent r × (r.id < suc next)) docs
wider docs next h =
    All-map (λ r. IsConsistent r × (r.id < next)) (λ r. IsConsistent r × (r.id < suc next))
      (λ r k. (k.0, omega (arith, k.1))) docs h

kept-IsConsistent :
    (f : Document → Document) (r : Document) → Keeps f → IsConsistent r → IsConsistent (f r)
kept-IsConsistent f r k h = record {
  closed_not_latest = rw (k.valid_until r, k.is_latest r) h.closed_not_latest;
  superseded_not_latest = rw (k.superseded_by r, k.is_latest r) h.superseded_not_latest;
  not_self = rw (k.superseded_by r, k.path r) h.not_self;
  verified_pair = k.verified r h.verified_pair;
}

Edit-IsSound :
    (docs : List Document) (next : ℕ) {docs' : List Document} {next' : ℕ}
    → Edit docs next docs' next'
    → IsSound docs next
    → IsSound docs' next'
Edit-IsSound docs next (added now path fm body sha256 source_type agent scope valid_from new) h = (
  Distinct-append_one by_path docs _ h.0 new,
  All-append (λ r. IsConsistent r × (r.id < suc next)) docs _ (wider docs next h.1)
      (
        (
          record {
            closed_not_latest = refl;
            superseded_not_latest = refl;
            not_self = refl;
            verified_pair = refl;
          },
          omega arith,
        ),
        tt,
      ),
)
Edit-IsSound docs next skipped h = (h.0, wider docs next h.1)
Edit-IsSound docs next (edited path f keeps) h = (
  Distinct-update by_path (at_path path) f keeps.path docs h.0,
  All-update (λ r. IsConsistent r × (r.id < next)) (at_path path) f
      (λ r k hit. (kept-IsConsistent f r keeps k.0, rw (keeps.id r) k.1)) docs h.1,
)
Edit-IsSound docs next (closed string now old_path new_path other) h = (
  Distinct-update by_path (at_path old_path) (close string now new_path) (λ _. refl) docs h.0,
  All-update (λ r. IsConsistent r × (r.id < next)) (at_path old_path) (close string now new_path)
      (λ r k hit. (
        record {
          closed_not_latest = refl;
          superseded_not_latest = refl;
          not_self = other_path r hit;
          verified_pair = k.0.verified_pair;
        },
        k.1,
      ))
      docs h.1,
)
  where
    other_path : (r : Document) → at_path old_path r ≡ true → text_eq new_path r.path ≡ false
    other_path r hit =
        subst (λ (p : Text). text_eq new_path p ≡ false)
          (sym ((text_eq_iff r.path old_path).0 (ground arith))) other

updated_retired :
    (hit : Bool) (f : Document → Document)
    → ((r : Document) → r.is_latest ≡ false → (f r).is_latest ≡ false)
    → (o : Option Document) → is_retired o ≡ true
    → is_retired (if hit then updated (λ _. true) f o else o) ≡ true
updated_retired false f keeps o h = h
updated_retired true f keeps none h = h
updated_retired true f keeps (some r) h = ground (arith, keeps r)

Edit-retired :
    (p : Text) (docs : List Document) (next : ℕ) {docs' : List Document} {next' : ℕ}
    → Edit docs next docs' next'
    → retired_at p docs ≡ true
    → retired_at p docs' ≡ true
Edit-retired p docs next (added now path fm body sha256 source_type agent scope valid_from new) h =
    rw (lookup-append by_path p docs _) (ground (arith, h))
Edit-retired p docs next skipped h = h
Edit-retired p docs next (edited path f keeps) h =
    rw (lookup-update by_path path p (λ _. true) f keeps.path docs) (
      updated_retired (text_eq path p) f (λ r old. rw (keeps.is_latest r) old)
        (lookup by_path p docs) h)
Edit-retired p docs next (closed string now old_path new_path other) h =
    rw (lookup-update by_path old_path p (λ _. true) (close string now new_path) (λ _. refl) docs) (
      updated_retired (text_eq old_path p) (close string now new_path) (λ r old. refl)
        (lookup by_path p docs) h)

pub Edits-IsSound :
    (docs : List Document) (next : ℕ) {docs' : List Document} {next' : ℕ}
    → Edits docs next docs' next'
    → IsSound docs next
    → IsSound docs' next'
Edits-IsSound docs next start h = h
Edits-IsSound docs next (then_edit {docs'} {next'} es e) h =
    Edit-IsSound docs' next' e (Edits-IsSound docs next es h)

pub Edits-retired :
    (p : Text) (docs : List Document) (next : ℕ) {docs' : List Document} {next' : ℕ}
    → Edits docs next docs' next'
    → retired_at p docs ≡ true
    → retired_at p docs' ≡ true
Edits-retired p docs next start h = h
Edits-retired p docs next (then_edit {docs'} {next'} es e) h =
    Edit-retired p docs' next' e (Edits-retired p docs next es h)
