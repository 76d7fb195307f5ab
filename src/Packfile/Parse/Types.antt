-- ===== src/Packfile/Parse/Types.antt =====
-- The types of the objects that `parse` of git-core/src/packfile.rs returns.
use near_git_storage.Prelude.{
  ℕ, zero, suc, ◌≡◌, refl, subst, List, [], ◌∷◌, Option, none, some, true, false, Bool, ltb, ◌==◌,
  if◌then◌else◌, Bool-cases, inl, inr, none-ne-some, ok, >>=-eq-ok, ok-injective, err-ne-ok, All,
  All-append, length, drop, guard,
}
use near_git_storage.Text.{ascii}
use near_git_storage.Packfile.{Bytes, Outcome}
use near_git_storage.Packfile.Entries.{read_entry_header, read_ofs_offset}
use near_git_storage.Packfile.Parse.{
  PackObject, ParsedEntry, object, ref_delta, ofs_delta, Entries, Resolution, whole, external,
  ParseResult, type_from_bits, decompress, ref_delta_entry, ofs_delta_entry, object_entry,
  parse_entry, parse_entries, entry_at, add_resolution, num_objects, parse,
}
use near_git_storage.Packfile.Parse.Resolve.{Resolves, from_object, from_ref, applied, chained}
use near_git_storage.Packfile.Parse.Results.{
  ResolvesFrom, no_more, next, collect, parse-ResolvesFrom,
}

-- The four types of objects.
pub data IsGitType : Bytes → Type 0 where
  commit : IsGitType (ascii "commit")
  tree : IsGitType (ascii "tree")
  blob : IsGitType (ascii "blob")
  tag : IsGitType (ascii "tag")

named : (obj_type : Bytes) {t : Bytes} → IsGitType obj_type → some obj_type ≡ some t → IsGitType t
named obj_type git e = subst IsGitType (some_of e) git
  where
    some_of : {s t : Bytes} → some s ≡ some t → s ≡ t
    some_of h = cc

type_from_bits-IsGitType : (bits : ℕ) {t : Bytes} → type_from_bits bits ≡ some t → IsGitType t
unfolding type_from_bits
type_from_bits-IsGitType bits = split (bits == 1) (bits == 2) (bits == 3) (bits == 4)
  where
    split :
        (one two three four : Bool) {t : Bytes}
        → (if one
            then some (ascii "commit")
            else if two
            then some (ascii "tree")
            else if three
            then some (ascii "blob")
            else if four
            then some (ascii "tag")
            else none)
          ≡ some t
        → IsGitType t
    split true two three four e = named _ commit e
    split false true three four e = named _ tree e
    split false false true four e = named _ blob e
    split false false false true e = named _ tag e
    split false false false false e = absurd (none-ne-some e)

-- An entry that is an object has one of the types.
abbrev IsTyped : ParsedEntry → Type 0
IsTyped (object obj) = IsGitType obj.obj_type
IsTyped (ref_delta d) = Unit {0}
IsTyped (ofs_delta base_pos delta) = Unit {0}

typed :
    (entry : ParsedEntry) (rest : Bytes) {p : ParsedEntry × Bytes}
    → IsTyped entry
    → ◌≡◌ {A = Outcome (ParsedEntry × Bytes)} (ok (entry, rest)) (ok p)
    → IsTyped p.0
typed entry rest h e = subst (λ q. IsTyped q.0) (ok-injective e) h

module _ (inflate : Bytes → Option (Bytes × ℕ)) where
  ref_delta_entry-IsTyped :
      (size : ℕ) (rest : Bytes) {p : ParsedEntry × Bytes}
      → ref_delta_entry inflate size rest ≡ ok p
      → IsTyped p.0
  unfolding ref_delta_entry
  ref_delta_entry-IsTyped size rest e =
      let (_, _, e₁) = >>=-eq-ok (guard (ltb 19 (length rest)) _) _ e in
      let (_, _, e₂) = >>=-eq-ok (decompress inflate size (drop 20 rest)) _ e₁ in
      typed (ref_delta _) _ tt e₂

  ofs_delta_entry-IsTyped :
      (pos size : ℕ) (rest : Bytes) {p : ParsedEntry × Bytes}
      → ofs_delta_entry inflate pos size rest ≡ ok p
      → IsTyped p.0
  unfolding ofs_delta_entry
  ofs_delta_entry-IsTyped pos size rest e =
      let (found, _, e₁) = >>=-eq-ok (read_ofs_offset rest) _ e in
      elim (Bool-cases (ltb pos found.0)) [
        | inl beyond ↦ absurd (err-ne-ok (rw beyond at e₁))
        | inr within ↦
            let (_, _, e₂) = >>=-eq-ok (decompress inflate size found.1) _ (rw within at e₁) in
            typed (ofs_delta _ _) _ tt e₂
      ]

  object_entry-IsTyped :
      (bits size : ℕ) (obj_type : Option Bytes) (rest : Bytes) {p : ParsedEntry × Bytes}
      → type_from_bits bits ≡ obj_type
      → object_entry inflate bits size obj_type rest ≡ ok p
      → IsTyped p.0
  unfolding object_entry
  object_entry-IsTyped bits size none rest t e = absurd (err-ne-ok e)
  object_entry-IsTyped bits size (some obj_type) rest t e =
      let (_, _, e₁) = >>=-eq-ok (decompress inflate size rest) _ e in
      typed (object _) _ (type_from_bits-IsGitType bits t) e₁

  parse_entry-IsTyped :
      (pos : ℕ) (rest : Bytes) {p : ParsedEntry × Bytes}
      → parse_entry inflate pos rest ≡ ok p
      → IsTyped p.0
  unfolding parse_entry
  parse_entry-IsTyped pos rest e =
      let ((bits, size, rest'), _, e₁) = >>=-eq-ok (read_entry_header rest) _ e in
      elim (Bool-cases (bits == 7)) [
        | inl is_ref ↦ ref_delta_entry-IsTyped size rest' (rw is_ref at e₁)
        | inr no_ref ↦ elim (Bool-cases (bits == 6)) [
          | inl is_ofs ↦ ofs_delta_entry-IsTyped pos size rest' (rw (no_ref, is_ofs) at e₁)
          | inr no_ofs ↦
              object_entry-IsTyped bits size (type_from_bits bits) rest' refl
                (rw (no_ref, no_ofs) at e₁)
        ]
      ]

  parse_entries-IsTyped :
      (left pos : ℕ) (rest : Bytes) {entries : Entries}
      → parse_entries inflate left pos rest ≡ ok entries
      → All (λ e. IsTyped e.1) entries
  unfolding parse_entries
  parse_entries-IsTyped zero pos rest e =
      subst (All (λ (q : ℕ × ParsedEntry). IsTyped q.1)) (ok-injective e) tt
  parse_entries-IsTyped (suc left) pos rest e =
      let ((entry, rest'), read, e₁) = >>=-eq-ok (parse_entry inflate pos rest) _ e in
      let (entries, behind, e₂) = >>=-eq-ok (parse_entries inflate left _ rest') _ e₁ in
      subst (All (λ (q : ℕ × ParsedEntry). IsTyped q.1)) (ok-injective e₂)
        (parse_entry-IsTyped pos rest read, parse_entries-IsTyped left _ rest' behind)

entry_at-IsTyped :
    (idx : ℕ) (entries : Entries) {obj : PackObject}
    → All (λ e. IsTyped e.1) entries
    → entry_at idx entries ≡ some (object obj)
    → IsGitType obj.obj_type
unfolding entry_at
entry_at-IsTyped idx [] all e = absurd (none-ne-some e)
entry_at-IsTyped zero ((pos, entry) ∷ entries) (h, all) e = subst IsTyped (same e) h
  where
    same : {a b : ParsedEntry} → some a ≡ some b → a ≡ b
    same q = cc
entry_at-IsTyped (suc idx) (f ∷ entries) (h, all) e = entry_at-IsTyped idx entries all e

abbrev IsWholeTyped : Resolution → Type 0
IsWholeTyped (whole obj) = IsGitType obj.obj_type
IsWholeTyped (external base_sha deltas) = Unit {0}

-- A delta keeps the type of its base.
Resolves-IsWholeTyped :
    (entries : Entries) (idx : ℕ) (r : Resolution)
    → All (λ e. IsTyped e.1) entries
    → Resolves entries idx r
    → IsWholeTyped r
Resolves-IsWholeTyped entries idx _ all (from_object at) = entry_at-IsTyped idx entries all at
Resolves-IsWholeTyped entries idx _ all (from_ref at) = tt
Resolves-IsWholeTyped entries idx _ all
      (applied {base_idx = base_idx} {base_obj = base} at found based done) =
    Resolves-IsWholeTyped entries base_idx (whole base) all based
Resolves-IsWholeTyped entries idx _ all (chained at found based) = tt

abbrev pub AreTyped : List PackObject → Type 0
AreTyped = All (λ obj. IsGitType obj.obj_type)

collect-AreTyped :
    (entries : Entries) (i : ℕ) (rs : List Resolution) (result out : ParseResult)
    → All (λ e. IsTyped e.1) entries
    → ResolvesFrom entries i rs
    → AreTyped result.objects
    → collect rs result ≡ ok out
    → AreTyped out.objects
unfolding add_resolution
collect-AreTyped entries i _ result out all no_more h e =
    subst (λ r. AreTyped r.objects) (ok-injective e) h
collect-AreTyped entries i _ result out all (next {r = whole obj} {rs = rs} resolves more) h e =
    collect-AreTyped entries _ rs _ out all more
      (All-append (λ (o : PackObject). IsGitType o.obj_type) result.objects (obj ∷ []) h
        (Resolves-IsWholeTyped entries i (whole obj) all resolves, tt))
      e
collect-AreTyped entries i _ result out all (next {r = external base_sha []} resolves more) h e =
    absurd (err-ne-ok e)
collect-AreTyped entries i _ result out all
      (next {r = external base_sha (d ∷ ds)} {rs = rs} resolves more) h e =
    collect-AreTyped entries _ rs _ out all more h e

-- Where parse succeeds, each object that it returns is a commit, a tree, a blob or a tag, also those that
-- deltas make.
pub parse-AreTyped :
    (inflate : Bytes → Option (Bytes × ℕ)) (bytes : Bytes) (result : ParseResult)
    → parse inflate bytes ≡ ok result
    → AreTyped result.objects
parse-AreTyped inflate bytes result e =
    let (entries, read, (rs, long, all, collected)) = parse-ResolvesFrom inflate bytes result e in
    collect-AreTyped entries 0 rs (record { objects = []; deltas = [] }) result
      (parse_entries-IsTyped inflate (num_objects bytes) 12 (drop 12 bytes) read) all tt collected
