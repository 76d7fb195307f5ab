-- ===== src/Packfile/Build/RoundTrip.antt =====
-- What `build_with_bases` of git-core/src/packfile.rs writes, `parse` reads.
use near_git_storage.Prelude.{
  ℕ, suc, ◌+◌, ◌-◌, ◌^◌, ◌≤◌, ◌<◌, ◌≡◌, refl, sym, ap, subst, ◌∙◌, arith, List, [], ◌∷◌, ◌++◌,
  Option, ok, map, length, length-append, append_assoc, append-nil, map-append, All, All-append,
  All-map,
}
use near_git_storage.Hex.{Bytes}
use near_git_storage.Packfile.Parse.{
  PackObject, ParsedEntry, Resolution, parse_entry, parse_entries,
}
use near_git_storage.Packfile.Build.{Base, Entry, write_entry, write_entries}
use near_git_storage.Packfile.Build.Plan.{
  Fits, Rebuilds, IsChosen, whole_object, on_external, on_entry,
}
use near_git_storage.Packfile.Build.Steps.{Step, placed, Restores, object_at-step, All-get_elem?}
use near_git_storage.Packfile.Build.Table.{Tabled, no_steps, next_step}
use near_git_storage.Packfile.Build.Codec.{IsCodec}
use near_git_storage.Packfile.Parse.Types.{IsGitType}
use near_git_storage.Packfile.Build.Written.{
  IsWritten, whole-IsWritten, ref-IsWritten, ofs-IsWritten,
}

-- The entries behind those that are planned, each with a base that is chosen from what stands before it.
pub data PlannedAfter (digest : Bytes → Bytes) (bases : List PackObject)
    : List Entry → List Entry → Type 0 where
  planned : {earlier : List Entry} → PlannedAfter digest bases earlier []
  then_one :
      {earlier rest : List Entry} {e : Entry}
      → IsChosen digest bases earlier e.obj e.base
      → PlannedAfter digest bases (earlier ++ (e ∷ [])) rest
      → PlannedAfter digest bases earlier (e ∷ rest)

-- An object that the format can hold.
abbrev pub IsStorable : PackObject → Type 0
IsStorable obj = IsGitType obj.obj_type × Fits obj

module _ (inflate : Bytes → Option (Bytes × ℕ)) (deflate digest : Bytes → Bytes)
    (codec : IsCodec inflate deflate digest) (bases : List PackObject) where
  entry-IsWritten :
      (earlier : List Step) (pos : ℕ) (e : Entry)
      → IsStorable e.obj
      → All (λ s. (s.start ≤ pos) × Restores digest bases s.entry.obj s.resolved) earlier
      → IsChosen digest bases (map (λ s. s.entry) earlier) e.obj e.base
      → (bytes : Bytes) × (parsed : ParsedEntry) × (resolved : Resolution) × IsWritten inflate
          deflate digest codec bases earlier pos e.obj e.base bytes parsed resolved
  entry-IsWritten earlier pos e (git, fits) all chosen = chosen_base e.base chosen
    where
      chosen_base :
          (base : Base)
          → IsChosen digest bases (map (λ s. s.entry) earlier) e.obj base
          → (bytes : Bytes) × (parsed : ParsedEntry) × (resolved : Resolution) × IsWritten inflate
              deflate digest codec bases earlier pos e.obj base bytes parsed resolved
      chosen_base _ whole_object =
          whole-IsWritten inflate deflate digest codec bases earlier pos e.obj git fits
      chosen_base _ (on_external {base = base} {delta = delta} among rebuilds) =
          ref-IsWritten inflate deflate digest codec bases earlier pos e.obj base delta fits among
            rebuilds
      chosen_base _ (on_entry {idx = idx} {base = base} {delta = delta} at rebuilds) =
          let (s, found, same) = object_at-step earlier idx at in
          let (before, restores) = All-get_elem? _ earlier idx all found in
          ofs-IsWritten inflate deflate digest codec bases earlier pos idx e.obj s delta fits found
            before restores (subst (λ b. Rebuilds e.obj b delta) (sym same) rebuilds)

  -- What is written for entries behind earlier steps, from a position on, and what is read from it.
  pub record Writes (earlier : List Step) (pos : ℕ) (es : List Entry) : Type 0 where
    pub steps : List Step
    pub bytes : Bytes
    pub entries_of : map (λ s. s.entry) steps ≡ es
    pub writes :
        (out : Bytes)
        → length out ≡ pos
        → write_entries deflate digest es (map (λ s. s.start) earlier) out ≡ ok (out ++ bytes)
    pub parses :
        (rest : Bytes)
        → pos + length bytes < 2 ^ 64
        → parse_entries inflate (length es) pos (bytes ++ rest) ≡ ok (map placed steps)
    pub tabled : Tabled earlier steps
    pub restored : All (λ s. Restores digest bases s.entry.obj s.resolved) steps

  -- One entry, and those behind it.
  parse_entries-step :
      (pos n : ℕ) (first bytes rest : Bytes) (parsed : ParsedEntry)
      (entries : List (ℕ × ParsedEntry))
      → parse_entry inflate pos (first ++ (bytes ++ rest)) ≡ ok (parsed, bytes ++ rest)
      → parse_entries inflate n (pos + length first) (bytes ++ rest) ≡ ok entries
      → parse_entries inflate (suc n) pos ((first ++ bytes) ++ rest) ≡ ok ((pos, parsed) ∷ entries)
  unfolding parse_entries
  parse_entries-step pos n first bytes rest parsed entries e es =
      let next : (parse_entries inflate n
            (pos + (length (first ++ (bytes ++ rest)) - length (bytes ++ rest))) (bytes ++ rest)
          ≡ ok entries) =
        ap (λ (p : ℕ). parse_entries inflate n p (bytes ++ rest))
          (omega (arith, length-append first (bytes ++ rest)))
        ∙ es in
      rw (append_assoc first bytes rest, e, next) refl

  write_entries-step :
      (positions : List ℕ) (pos : ℕ) (e : Entry) (es : List Entry) (first bytes out : Bytes)
      → length out ≡ pos
      → write_entry deflate digest (positions ++ (pos ∷ [])) pos e.obj e.base ≡ ok first
      → write_entries deflate digest es (positions ++ (pos ∷ [])) (out ++ first)
        ≡ ok ((out ++ first) ++ bytes)
      → write_entries deflate digest (e ∷ es) positions out ≡ ok (out ++ (first ++ bytes))
  unfolding write_entries
  write_entries-step positions pos e es first bytes out size w ws =
      rw (size, w) (ws ∙ ap ok (append_assoc out first bytes))

  pub entries-Writes :
      (es : List Entry) (earlier : List Step) (pos : ℕ)
      → All (λ e. IsStorable e.obj) es
      → All (λ s. (s.start ≤ pos) × Restores digest bases s.entry.obj s.resolved) earlier
      → PlannedAfter digest bases (map (λ s. s.entry) earlier) es
      → Writes earlier pos es
  unfolding write_entries parse_entries
  entries-Writes [] earlier pos storable all planned = record {
    steps = [];
    bytes = [];
    entries_of = refl;
    writes = λ out size. ap ok (sym (append-nil out));
    parses = λ rest low. refl;
    tabled = no_steps;
    restored = tt;
  }
  entries-Writes (e ∷ es) earlier pos (can, storable) all (then_one chosen rest_planned) =
      let (first, parsed, resolved, w) = entry-IsWritten earlier pos e can all chosen in
      let s : Step = record { entry = e; start = pos; parsed = parsed; resolved = resolved } in
      let pos' = pos + length first in
      let IsDone = λ (t : Step). (t.start ≤ pos') × Restores digest bases t.entry.obj t.resolved in
      let all' =
        All-append IsDone earlier (s ∷ [])
          (All-map earlier (λ t (before, restores). (omega arith, restores)) all)
          ((omega arith, w.restores), tt) in
      let behind = entries-Writes es (earlier ++ (s ∷ [])) pos' storable all' (
        subst (λ E. PlannedAfter digest bases E es)
          (sym (map-append (λ (t : Step). t.entry) earlier (s ∷ []))) rest_planned) in
      record {
        steps = s ∷ behind.steps;
        bytes = first ++ behind.bytes;
        entries_of = ap (λ es'. e ∷ es') behind.entries_of;
        writes = λ out size.
            write_entries-step (map (λ t. t.start) earlier) pos e es first behind.bytes out size
              w.writes
              (rw (map-append (λ (t : Step). t.start) earlier (s ∷ [])) at behind.writes
                (out ++ first) (omega (arith, size, length-append out first)));
        parses = λ rest low.
            parse_entries-step pos (length es) first behind.bytes rest parsed
              (map placed behind.steps)
              (w.parses (behind.bytes ++ rest) (omega (arith, length-append first behind.bytes)))
              (behind.parses rest (omega (arith, length-append first behind.bytes)));
        tabled = next_step w.reads behind.tabled;
        restored = (w.restores, behind.restored);
      }
