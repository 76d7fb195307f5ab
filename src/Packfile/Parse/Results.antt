-- ===== src/Packfile/Parse/Results.antt =====
-- What `parse` returns, and an offset on which it does not return.
use near_git_storage.Prelude.{
  ℕ, zero, suc, ◌+◌, ◌≡◌, refl, ap, ◌∙◌, List, [], ◌∷◌, Option, none, some, ok, err, ◌>>=◌,
  >>=-eq-ok, ok-injective, err-ne-ok, none-ne-some, length, replicate, drop,
}
use near_git_storage.Packfile.{Bytes, Outcome, out_of_fuel}
use near_git_storage.Packfile.Parse.{
  ParseResult, ofs_delta, Entries, Resolution, check_head, num_objects, parse_entries, pos_to_idx,
  entry_at, Cache, cached, resolve_entry, resolve, add_resolution, resolve_all, parse,
}
use near_git_storage.Packfile.Parse.Resolve.{Resolves, IsSound, resolve-IsResolved}

-- The resolutions of the entries from an index on, one for each.
pub data ResolvesFrom (entries : Entries) : ℕ → List Resolution → Type 0 where
  no_more : {i : ℕ} → ResolvesFrom entries i []
  next :
      {i : ℕ} {r : Resolution} {rs : List Resolution}
      → Resolves entries i r
      → ResolvesFrom entries (i + 1) rs
      → ResolvesFrom entries i (r ∷ rs)

-- The resolutions, sorted into objects and unresolved deltas in their order.
abbrev pub collect : List Resolution → ParseResult → Outcome ParseResult
collect [] result = ok result
collect (r ∷ rs) result = add_resolution r result >>= collect rs

cached-replicate : (n idx : ℕ) {r : Resolution} → cached idx (replicate n none) ≡ ok (some r) → ⊥
unfolding cached
cached-replicate zero idx e = err-ne-ok e
cached-replicate (suc n) zero e = none-ne-some (ok-injective e)
cached-replicate (suc n) (suc idx) e = cached-replicate n idx e

resolve_all-ResolvesFrom :
    (left i : ℕ) (entries : Entries) (cache : Cache) (result out : ParseResult)
    → IsSound entries cache
    → resolve_all left i entries cache result ≡ ok out
    → (rs : List Resolution) × (length rs ≡ left)
      × ResolvesFrom entries i rs
      × (collect rs result ≡ ok out)
unfolding resolve_all
resolve_all-ResolvesFrom zero i entries cache result out sound e = ([], refl, no_more, e)
resolve_all-ResolvesFrom (suc left) i entries cache result out sound e =
    let (resolved, called, e₁) = >>=-eq-ok (resolve (length entries) entries i cache) _ e in
    let (result₁, added, e₂) = >>=-eq-ok (add_resolution resolved.0 result) _ e₁ in
    let (h, sound₁) = resolve-IsResolved (length entries) entries i cache resolved sound called in
    let (rs, long, all, collected) =
      resolve_all-ResolvesFrom left (i + 1) entries resolved.1 result₁ out sound₁ e₂ in
    (resolved.0 ∷ rs, ap suc long, next h all, ap (λ m. m >>= collect rs) added ∙ collected)

-- Where `parse` succeeds, its entries were read from the bytes behind the head, as many as the head
-- declares. Its result is what they resolve to, one resolution for each entry, sorted into objects and
-- unresolved deltas in the order of the entries.
pub parse-ResolvesFrom :
    (inflate : Bytes → Option (Bytes × ℕ)) (bytes : Bytes) (result : ParseResult)
    → parse inflate bytes ≡ ok result
    → (entries : Entries) × (parse_entries inflate (num_objects bytes) 12 (drop 12 bytes)
        ≡ ok entries)
      × ((rs : List Resolution) × (length rs ≡ length entries)
          × ResolvesFrom entries 0 rs
          × (collect rs (record { objects = []; deltas = [] }) ≡ ok result))
unfolding parse
parse-ResolvesFrom inflate bytes result e =
    let (_, _, e₁) = >>=-eq-ok (check_head bytes) _ e in
    let (entries, read, e₂) =
      >>=-eq-ok (parse_entries inflate (num_objects bytes) 12 (drop 12 bytes)) _ e₁ in
    (
      entries,
      read,
      resolve_all-ResolvesFrom (length entries) 0 entries (replicate (length entries) none) _ result
          (λ idx r hit. absurd (cached-replicate (length entries) idx hit)) e₂,
    )

-- An entry whose base is the entry itself, as an offset of 0 makes it, and which is not in the cache:
-- the nested calls never end, whatever the fuel.
pub resolve_self :
    (fuel : ℕ) (entries : Entries) (idx base_pos : ℕ) (delta_data : Bytes) (cache : Cache)
    → entry_at idx entries ≡ some (ofs_delta base_pos delta_data)
    → pos_to_idx entries 0 base_pos ≡ some idx
    → cached idx cache ≡ ok none
    → resolve fuel entries idx cache ≡ err out_of_fuel
unfolding resolve resolve_entry
resolve_self zero entries idx base_pos delta_data cache at self miss = refl
resolve_self (suc fuel) entries idx base_pos delta_data cache at self miss =
    rw
      (
        resolve,
        miss,
        at,
        self,
        resolve_self fuel entries idx base_pos delta_data cache at self miss,
      )
      refl
