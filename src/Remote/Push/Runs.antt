-- ===== src/Remote/Push/Runs.antt =====
-- A push in front of the storage contract, and its law there.
use Prim.Native.Char.{Char, code, nul}
use near_git_storage.Prelude.{
  ℕ, zero, suc, ◌≡◌, ◌≢◌, refl, sym, ap, ◌∙◌, List, [], ◌∷◌, ◌++◌, Option, none, some, String,
  Result, ok, err, ◌==◌, if◌then◌else◌,
}
use Prim.Native.String.{[], ◌∷◌}
use near_git_storage.Hex.{Bytes}
use near_git_storage.Text.{ascii}
use near_git_storage.Contract
use near_git_storage.Contract.{
  GitStorage, push, assert_owner, store_pack, compare_and_swap, update_refs,
}
use near_git_storage.Contract.Runs.Maps.{listed_refs, indexed_packs}
use near_git_storage.Remote.{RefUpdate, Reply, succeeded, failed, Host, encode_push_args}
use near_git_storage.Remote.Push.{
  do_push, push_ops, push_op, push_local, pack_for, build_packfile, send_push, collect_new_shas,
  listed, resolve_local_ref, resolved, parse_specs, parse_spec, keep_op, op_of, split_plus,
  remote_ref, not_args, keep_word, first_words, with_newlines, ok_line, error_line, result_line,
}
use near_git_storage.Remote.Push.Landing.{IsContract, update_of, AreResults, do_push-AreResults}

abbrev Storage : Type 0
Storage = GitStorage listed_refs indexed_packs

-- The character of a text with this code.
abbrev char_in : String → ℕ → Char
char_in [] n = nul
char_in (c ∷ s) n = let later = char_in s n in if code c == n then c else later

abbrev to_text : Bytes → String
to_text [] = ""
to_text (b ∷ bs) = char_in "abcdefghijklmnopqrstuvwxyz/0123456789" b ∷ to_text bs

-- An encoding that marks where a text ends.
abbrev mark : Bytes → Bytes
mark [] = 0 ∷ []
mark (b ∷ bs) = suc b ∷ mark bs

abbrev unmark : Bytes → Bytes × Bytes
unmark [] = ([], [])
unmark (zero ∷ rest) = ([], rest)
unmark (suc b ∷ bs) = let (text, rest) = unmark bs in (b ∷ text, rest)

unmark-mark : (text rest : Bytes) → unmark (mark text ++ rest) ≡ (text, rest)
unmark-mark [] rest = refl
unmark-mark (b ∷ text) rest = rw (unmark-mark text rest) refl

abbrev mark_option : Option Bytes → Bytes
mark_option none = 0 ∷ []
mark_option (some text) = 1 ∷ mark text

abbrev unmark_option : Bytes → Option Bytes × Bytes
unmark_option [] = (none, [])
unmark_option (zero ∷ rest) = (none, rest)
unmark_option (suc b ∷ rest) = let (text, rest') = unmark rest in (some text, rest')

unmark_option-mark_option :
    (o : Option Bytes) (rest : Bytes) → unmark_option (mark_option o ++ rest) ≡ (o, rest)
unmark_option-mark_option none rest = refl
unmark_option-mark_option (some text) rest = rw (unmark-mark text rest) refl

abbrev mark_updates : List RefUpdate → Bytes
mark_updates [] = []
mark_updates (u ∷ us) =
    mark u.name ++ (mark_option u.old_sha ++ (mark u.new_sha ++ mark_updates us))

-- The pack and the first update.
abbrev unmark_args : Bytes → Bytes × RefUpdate
unmark_args args =
    let (pack, r₁) = unmark args in
    let (name, r₂) = unmark r₁ in
    let (old, r₃) = unmark_option r₂ in
    let (new, r₄) = unmark r₃ in (pack, record { name = name; old_sha = old; new_sha = new })

unmark_args-mark :
    (pack : Bytes) (u : RefUpdate) → unmark_args (mark pack ++ mark_updates (u ∷ [])) ≡ (pack, u)
unmark_args-mark pack u =
    rw
      (
        unmark-mark pack (mark_updates (u ∷ [])),
        unmark-mark u.name (mark_option u.old_sha ++ (mark u.new_sha ++ [])),
        unmark_option-mark_option u.old_sha (mark u.new_sha ++ []),
        unmark-mark u.new_sha [],
      )
      refl

abbrev answered : Result Contract.Panic Storage → Storage → Reply × Storage
answered (ok s) w = (succeeded, s)
answered (err e) w = (failed (ascii "panicked"), w)

answered-succeeded :
    (r : Result Contract.Panic Storage) (w w' : Storage)
    → answered r w ≡ (succeeded, w')
    → r ≡ ok w'
answered-succeeded (ok s) w w' h = ap (λ p. ok p.1) h
answered-succeeded (err e) w w' h = absurd (no (ap (λ p. p.0) h))
  where
    no : ◌≢◌ {A = Reply} (failed (ascii "panicked")) succeeded
    no h = cc

abbrev call : String → Bytes × RefUpdate → Storage → Reply × Storage
call signer (pack, u) w =
    answered (push listed_refs indexed_packs signer pack (update_of to_text u ∷ []) w) w

-- A repository whose local head is `b2`, one commit behind `a1`.
abbrev local_host : Host Storage String
local_host = record {
  get_refs = λ w. ok ((ascii "refs/heads/main", ascii "a1") ∷ [], w);
  get_packs = λ from w. ok ([], w);
  call_push = λ signer args w. call signer (unmark_args args) w;
  resolve_credentials = λ w. ok ("alice", w);
  rev_parse = λ refspec w. some (ascii "b2\n");
  rev_list = λ args w. some (ascii "b2 commit\nc3 tree\n");
  pack_objects = λ revs w. ok (1 ∷ 2 ∷ [], w);
  index_pack = λ pack w. ok w;
  from_utf8_lossy = λ output. output;
  serialize_pack = mark;
  serialize_updates = mark_updates;
}

local_contract : IsContract local_host listed_refs indexed_packs
unfolding encode_push_args
local_contract = record {
  text = to_text;
  caller = λ signer. signer;
  storage = λ w. w;
  call_push-succeeded = λ signer pack u w w' h.
      answered-succeeded (push listed_refs indexed_packs signer pack (update_of to_text u ∷ []) w) w
        w' (ap (λ p. call signer p w) (sym (unmark_args-mark pack u)) ∙ h);
}

abbrev before : Storage
before = record {
  refs = ("refs/heads/main", "a1") ∷ [];
  packs = λ i. none;
  pack_count = 0;
  owner = "alice";
}

abbrev specs : List Bytes
specs = ascii "push refs/heads/main:refs/heads/main" ∷ ascii "push :refs/heads/old" ∷ []

abbrev after : Storage
after = record {
  refs = ("refs/heads/main", "b2") ∷ ("refs/heads/main", "a1") ∷ [];
  packs = λ j. if 0 == j then some (1 ∷ 2 ∷ []) else none;
  pack_count = 1;
  owner = "alice";
}

pushed :
    do_push local_host "alice" specs before
    ≡ ok (
      ascii "ok refs/heads/main" ∷ ascii "error refs/heads/old delete not supported yet" ∷ [],
      after,
    )
unfolding do_push push_ops push_op push_local pack_for build_packfile send_push collect_new_shas
    listed resolve_local_ref resolved parse_specs parse_spec keep_op op_of split_plus remote_ref
    not_args keep_word first_words with_newlines ok_line error_line result_line encode_push_args
    push assert_owner store_pack compare_and_swap update_refs
pushed = refl

do_push-AreResults_example :
    (remote_refs : List (Bytes × Bytes)) × (w' : Storage) × (local_host.get_refs before
      ≡ ok (remote_refs, w'))
    × AreResults local_host listed_refs indexed_packs local_contract "alice" remote_refs
        (parse_specs specs)
        w'
        (ascii "ok refs/heads/main" ∷ ascii "error refs/heads/old delete not supported yet" ∷ [])
        after
do_push-AreResults_example =
    do_push-AreResults local_host listed_refs indexed_packs local_contract "alice" specs before
      (
        ascii "ok refs/heads/main" ∷ ascii "error refs/heads/old delete not supported yet" ∷ [],
        after,
      )
      pushed
