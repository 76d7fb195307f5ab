-- ===== src/Remote/Push.antt =====
-- `do_push` of git-remote-near/src/main.rs and the functions that it calls.
pub mod Landing
mod Runs
use near_git_storage.Prelude.{
  ℕ, List, [], ◌∷◌, ◌++◌, Option, none, some, Bool, true, false, ◌==◌, if◌then◌else◌, Result, ok,
  err, ◌>>=◌, ◌>>◌,
}
use near_git_storage.Hex.{Bytes}
use near_git_storage.Text.{ascii, text_eq, without_prefix, split_once, lines, first_word, trim}
use near_git_storage.Remote.{RefUpdate, Reply, succeeded, failed, not_sent, Host, encode_push_args}

pub record PushOp : Type 0 where
  pub force : Bool
  pub src_ref : Bytes
  pub dst_ref : Bytes

-- `spec.starts_with('+')`, and the text behind it.
pub split_plus : Bytes → Bool × Bytes
split_plus [] = (false, [])
split_plus (c ∷ cs) = if c == b'+' then (true, cs) else (false, c ∷ cs)

pub op_of : Bool → Bytes × Option Bytes → Option PushOp
op_of force (src_ref, none) = none
op_of force (src_ref, some dst_ref) =
    some (record { force = force; src_ref = src_ref; dst_ref = dst_ref })

-- `push [+]<src>:<dst>`; a text without a colon is passed over.
pub parse_spec : Bytes → Option PushOp
parse_spec spec =
    let (force, refs) = split_plus (without_prefix (ascii "push ") spec) in
    op_of force (split_once b':' refs)

pub keep_op : Option PushOp → List PushOp → List PushOp
keep_op none ops = ops
keep_op (some op) ops = op ∷ ops

pub parse_specs : List Bytes → List PushOp
parse_specs [] = []
parse_specs (spec ∷ specs) = keep_op (parse_spec spec) (parse_specs specs)

abbrev pub later_or : Option Bytes → Option Bytes → Option Bytes
later_or none first = first
later_or (some later) first = some later

-- `remote_ref_map.get(dst)`: of equal names in the list, the last one counts.
pub remote_ref : List (Bytes × Bytes) → Bytes → Option Bytes
remote_ref [] dst = none
remote_ref ((name, sha) ∷ refs) dst =
    later_or (remote_ref refs dst) (if text_eq name dst then some sha else none)

-- The lines `--not <old>`.
pub not_args : Option Bytes → List Bytes
not_args none = []
not_args (some old) = ascii "--not" ∷ old ∷ []

unfoldable pub keep_word : Bytes → List Bytes → List Bytes
keep_word [] words = words
keep_word (c ∷ cs) words = (c ∷ cs) ∷ words

pub first_words : List Bytes → List Bytes
first_words [] = []
first_words (line ∷ rest) = keep_word (first_word line) (first_words rest)

-- `writeln!` of each.
unfoldable pub with_newlines : List Bytes → Bytes
with_newlines [] = []
with_newlines (line ∷ rest) = line ++ (10 ∷ with_newlines rest)

pub ok_line : Bytes → Bytes
ok_line dst = ascii "ok " ++ dst

pub error_line : Bytes → Bytes → Bytes
error_line dst why = ascii "error " ++ (dst ++ (32 ∷ why))

pub result_line : Bytes → Reply → Bytes
result_line dst succeeded = ok_line dst
result_line dst (failed why) = error_line dst why
result_line dst (not_sent why) = error_line dst why

module _ {World Signer : Type 0} (host : Host World Signer) where
  pub resolved : Option Bytes → Bytes
  resolved none = []
  resolved (some output) = trim (host.from_utf8_lossy output)

  pub resolve_local_ref : Bytes → World → Bytes
  resolve_local_ref refspec w = resolved (host.rev_parse refspec w)

  pub listed : Option Bytes → List Bytes
  listed none = []
  listed (some output) = first_words (lines (host.from_utf8_lossy output))

  pub collect_new_shas : Bytes → Option Bytes → World → List Bytes
  collect_new_shas local_sha old_sha w =
      listed (host.rev_list (ascii "rev-list" ∷ ascii "--objects" ∷ local_sha ∷ not_args old_sha) w)

  pub build_packfile : Bytes → Option Bytes → World → Result World (Bytes × World)
  build_packfile new_sha old_sha w =
      host.pack_objects (with_newlines (new_sha ∷ not_args old_sha)) w

  -- Without new objects the pack is empty.
  pub pack_for : Bytes → Option Bytes → List Bytes → World → Result World (Bytes × World)
  pack_for local_sha old_sha [] w = ok ([], w)
  pack_for local_sha old_sha (sha ∷ shas) w = build_packfile local_sha old_sha w

  module _ (signer : Signer) where
    pub send_push : PushOp → Bytes → Option Bytes → Bytes × World → Bytes × World
    send_push op local_sha old_sha (pack_data, w) =
        let update : RefUpdate = record {
          name = op.dst_ref;
          old_sha = old_sha;
          new_sha = local_sha;
        } in
        let (reply, w') = host.call_push signer (encode_push_args host pack_data (update ∷ [])) w in
        (result_line op.dst_ref reply, w')

    -- What follows once the source is known to be no deletion.
    pub push_local : PushOp → Bytes → Option Bytes → World → Result World (Bytes × World)
    push_local op [] old_sha w = ok (error_line op.dst_ref (ascii "cannot resolve ref"), w)
    push_local op (c ∷ cs) old_sha w = do
      packed ← pack_for (c ∷ cs) old_sha (collect_new_shas (c ∷ cs) old_sha w) w
      ok (send_push op (c ∷ cs) old_sha packed)

    -- One round of `for op in &ops`: the result, and the world behind it.
    pub push_op : List (Bytes × Bytes) → PushOp → World → Result World (Bytes × World)
    push_op remote_refs op w =
        if text_eq op.src_ref []
        then ok (error_line op.dst_ref (ascii "delete not supported yet"), w)
        else push_local op (resolve_local_ref op.src_ref w) (remote_ref remote_refs op.dst_ref) w

    pub push_ops : List (Bytes × Bytes) → List PushOp → World → Result World (List Bytes × World)
    push_ops remote_refs [] w = ok ([], w)
    push_ops remote_refs (op ∷ ops) w = do
      (line, w') ← push_op remote_refs op w
      (results, w'') ← push_ops remote_refs ops w'
      ok (line ∷ results, w'')

    pub do_push : List Bytes → World → Result World (List Bytes × World)
    do_push push_specs w = do
      (remote_refs, w') ← host.get_refs w
      push_ops remote_refs (parse_specs push_specs) w'
