-- ===== src/Memory/Paths/Safe.antt =====
-- Which paths pass the guard of services/memory_mcp/path_guard.py, before links are resolved.
use mathlib.Core.Logic.{◌↔◌}
use mathlib.Core.Path.{subst}
use mathlib.Core.List.{Memᴰ}
use public_gbrain_agentos.Base.{
  ◌≡◌, refl, sym, ap, ◌∙◌, true, false, List, [], ◌∷◌, arith, All, any, Bool-cases, inl, inr, ◌==◌,
  ==_iff, Result, ok, err,
}
use public_gbrain_agentos.Base.Text.{Text, text, text_eq, is_empty, join}
use public_gbrain_agentos.Base.Text.Equality.{text_eq_iff}
use public_gbrain_agentos.Memory.Paths.{
  PathError, split_path, has_segment, first_segment, allowed_scopes, normalize_rel_path,
  check_scope, check_path,
}
use public_gbrain_agentos.Memory.Paths.Owned.{split-segment, split-last}
use public_gbrain_agentos.Memory.Paths.Passing.{
  IsSegment, NoMark, noslash, Passes, Passes-last, Passes-segment, Passes-normal,
}

-- a list with a first element, which `split_path` always gives
record Parts (ss : List Text) : Type 0 where
  head : Text
  tail : List Text
  parts : ss ≡ head ∷ tail

split-Parts : (s : Text) → Parts (split_path s)
unfolding split_path
split-Parts [] = record { head = []; tail = []; parts = refl }
split-Parts (c ∷ s) = elim (Bool-cases (c == b'/')) [
  | inl slash ↦ record { head = []; tail = split_path s; parts = rw (slash, split_path) refl }
  | inr plain ↦
      let it = split-Parts s in
      record { head = c ∷ it.head; tail = it.tail; parts = rw (plain, split_path, it.parts) refl }
]

join-cons_first :
    (c : _) (p : Text) (ps : List Text)
    → join (text "/") ((c ∷ p) ∷ ps) ≡ c ∷ join (text "/") (p ∷ ps)
unfolding join
join-cons_first c p [] = refl
join-cons_first c p (q ∷ ps) = refl

join-empty_first :
    (ss : List Text) → Parts ss → join (text "/") ([] ∷ ss) ≡ b'/' ∷ join (text "/") ss
unfolding join
join-empty_first ss it = rw it.parts refl

-- the segments of a path, joined again, are the path
join-split : (s : Text) → join (text "/") (split_path s) ≡ s
unfolding split_path join
join-split [] = refl
join-split (c ∷ s) = elim (Bool-cases (c == b'/')) [
  | inl slash ↦
      rw (slash, join-empty_first (split_path s) (split-Parts s), join-split s)
        (ground (arith, slash, ==_iff c b'/'))
  | inr plain ↦
      let it = split-Parts s in
      rw (plain, it.parts, join-cons_first c it.head it.tail, sym it.parts, join-split s) refl
]

split-NoMark : (s : Text) → any (λ c. c == b'~') s ≡ false → All NoMark (split_path s)
unfolding split_path
split-NoMark [] h = (tt, tt)
split-NoMark (c ∷ s) h = elim (Bool-cases (c == b'/')) [
  | inl slash ↦ rw (slash, split_path) (tt, split-NoMark s (ground arith))
  | inr plain ↦
      let it = split-Parts s in
      let rest = subst (All NoMark) it.parts (split-NoMark s (ground arith)) in
      rw (plain, split_path, it.parts) ((ground (arith, plain), rest.0), rest.1)
]

filled : (s : Text) → text_eq s [] ≡ false → is_empty s ≡ false
filled [] h = absurd (ground arith)
filled (c ∷ s) h = refl

IsSegment-All :
    (ss : List Text)
    → All NoMark ss
    → has_segment (text "..") ss ≡ false
    → has_segment [] ss ≡ false
    → has_segment (text ".") ss ≡ false
    → All IsSegment ss
IsSegment-All [] marks parent empty dot = tt
IsSegment-All (s ∷ ss) marks parent empty dot = (
  record {
    plain = marks.0;
    not_empty = filled s (ground arith);
    not_dot = ground arith;
    not_parent = ground arith;
  },
  IsSegment-All ss marks.1 (ground arith) (ground arith) (ground arith),
)

has_segment_iff : (x : Text) (ss : List Text) → (has_segment x ss ≡ true) ↔ Memᴰ x ss
has_segment_iff x ss = (there ss, found ss)
  where
    there : (ss : List Text) → has_segment x ss ≡ true → Memᴰ x ss
    there [] h = absurd (ground arith)
    there (s ∷ ss) h = elim (Bool-cases (text_eq s x)) [
      | inl same ↦ Memᴰ.head (sym ((text_eq_iff s x).0 same))
      | inr other ↦ Memᴰ.tail (there ss (ground (arith, other)))
    ]

    found : (ss : List Text) → Memᴰ x ss → has_segment x ss ≡ true
    found [] m = elim m [ ]
    found (s ∷ ss) (Memᴰ.head e) = ground (arith, (text_eq_iff s x).1 (sym e))
    found (s ∷ ss) (Memᴰ.tail m) = ground (arith, found ss m)

-- a path of the vault, as its segments spell it
pub record IsVaultPath (path : Text) : Type 0 where
  pub scope : Text
  pub rest : List Text
  pub spelled : path ≡ join (text "/") (scope ∷ rest)
  pub known : Memᴰ scope allowed_scopes
  pub segments : All IsSegment (scope ∷ rest)

split-join :
    (s : Text) (ss : List Text)
    → All IsSegment (s ∷ ss)
    → split_path (join (text "/") (s ∷ ss)) ≡ s ∷ ss
unfolding join
split-join s [] h = split-last s (noslash s h.0.plain)
split-join s (r ∷ rs) h =
    split-segment s (join (text "/") (r ∷ rs)) (noslash s h.0.plain)
    ∙ ap (◌∷◌ s) (split-join r rs h.1)

join-Passes :
    (s : Text) (ss : List Text) → All IsSegment (s ∷ ss) → Passes (join (text "/") (s ∷ ss))
unfolding join
join-Passes s [] h = Passes-last s h.0
join-Passes s (r ∷ rs) h = Passes-segment s (join (text "/") (r ∷ rs)) h.0 (join-Passes r rs h.1)

normalize-segments :
    (path p : Text) → normalize_rel_path path ≡ ok p → (p ≡ path) × All IsSegment (split_path path)
unfolding normalize_rel_path
normalize-segments path p h = (
  ground arith,
  IsSegment-All (split_path path) (split-NoMark path (ground arith)) (ground arith) (ground arith)
      (ground arith),
)

check-IsVaultPath : (path p : Text) → check_path path ≡ ok p → (p ≡ path) × IsVaultPath path
unfolding check_path check_scope
check-IsVaultPath path p h = go (normalize_rel_path path) refl h
  where
    go :
        (r : Result PathError Text)
        → normalize_rel_path path ≡ r
        → check_scope r ≡ ok p
        → (p ≡ path) × IsVaultPath path
    go (err e) n k = absurd (ground arith)
    go (ok q) n k = elim (Bool-cases (has_segment (first_segment (split_path q)) allowed_scopes)) [
      | inl known ↦
          let (same, segments) = normalize-segments path q n in
          let it = split-Parts path in
          let returned : q ≡ p = ground (arith, known) in
          (
            sym returned ∙ same,
            record {
              scope = it.head;
              rest = it.tail;
              spelled = sym (join-split path) ∙ ap (join (text "/")) it.parts;
              known = (has_segment_iff it.head allowed_scopes).0 (
                  subst (λ ss. has_segment (first_segment ss) allowed_scopes ≡ true)
                    (ap split_path same ∙ it.parts) known);
              segments = subst (All IsSegment) it.parts segments;
            },
          )
      | inr unknown ↦ absurd (ground (arith, unknown))
    ]

vault_path-check : (path : Text) → IsVaultPath path → check_path path ≡ ok path
unfolding check_path check_scope
vault_path-check path h =
    let spelling = join (text "/") (h.scope ∷ h.rest) in
    subst (λ p. check_path p ≡ ok p) (sym h.spelled)
      (rw
        (
          Passes-normal spelling (join-Passes h.scope h.rest h.segments),
          split-join h.scope h.rest h.segments,
          (has_segment_iff h.scope allowed_scopes).1 h.known,
        )
        refl)

-- A path passes the checks, and comes back unchanged, exactly if it is a list of segments joined by
-- slashes: the first is a scope of the vault, and each is non-empty, holds neither a slash nor "~",
-- and is not "." or "..".
pub check_path_lem : (path p : Text) → (check_path path ≡ ok p) ↔ ((p ≡ path) × IsVaultPath path)
check_path_lem path p = (check-IsVaultPath path p, λ h. vault_path-check path h.1 ∙ ap ok (sym h.0))
