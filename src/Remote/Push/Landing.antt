-- ===== src/Remote/Push/Landing.antt =====
-- `do_push` of git-remote-near/src/main.rs in front of the storage contract of src/lib.rs.
use near_git_storage.Prelude.{
  String, str_eq, eq_iff, ◌≡◌, ◌≢◌, refl, sym, subst, ◌∙◌, arith, List, [], ◌∷◌, Option, none, some,
  true, false, Bool-cases, inl, inr, if◌then◌else◌, ok, ok-injective, >>=-eq-ok,
}
use near_git_storage.Hex.{Bytes}
use near_git_storage.Text.{ascii, text_eq}
use near_git_storage.Contract
use near_git_storage.Contract.Collections.{RefMap, PackMap}
use near_git_storage.Contract.{GitStorage}
use near_git_storage.Contract.Clients.{push-last_sha, push-expected, last_sha}
use near_git_storage.Remote.{RefUpdate, Reply, succeeded, failed, not_sent, Host, encode_push_args}
use near_git_storage.Remote.Push.{
  PushOp, parse_specs, remote_ref, ok_line, error_line, result_line, resolve_local_ref,
  collect_new_shas, pack_for, send_push, push_local, push_op, push_ops, do_push,
}

abbrev pub option_map {ℓ κ} : {A : Type ℓ} {B : Type κ} → (A → B) → Option A → Option B
option_map f none = none
option_map f (some a) = some (f a)

abbrev pub update_of : (Bytes → String) → RefUpdate → Contract.RefUpdate
update_of text u = record {
  name = text u.name;
  old_sha = option_map text u.old_sha;
  new_sha = text u.new_sha;
}

-- A host whose contract is the one of src/lib.rs: its state is part of the world, and a transaction
-- that succeeded with one update is a call of `push` with the arguments that were encoded. `text` is a text as the
-- contract has it.
pub record IsContract {World Signer : Type 0} (host : Host World Signer) (R : RefMap) (P : PackMap)
    : Type 0 where
  pub text : Bytes → String
  pub caller : Signer → String
  pub storage : World → GitStorage R P
  pub call_push-succeeded :
      (signer : Signer) (pack_data : Bytes) (update : RefUpdate) (w w' : World)
      → host.call_push signer (encode_push_args host pack_data (update ∷ [])) w ≡ (succeeded, w')
      → Contract.push R P (caller signer) pack_data (update_of text update ∷ []) (storage w)
        ≡ ok (storage w')

-- An update of one name leaves another name's SHA.
kept :
    (dst name new_sha : String) (sha : Option String)
    → name ≢ dst
    → (if str_eq dst name then some new_sha else sha) ≡ sha
kept dst name new_sha sha apart = elim (Bool-cases (str_eq dst name)) [
  | inl same ↦ absurd (apart (sym ((eq_iff dst name).0 same)))
  | inr other ↦ rw other refl
]

module _ {World Signer : Type 0} (host : Host World Signer) (R : RefMap) (P : PackMap)
    (contract : IsContract host R P) where
  -- What the contract's refs are, of a world.
  abbrev pub ref_in : Bytes → World → Option String
  ref_in name w = R.get (contract.text name) (contract.storage w).refs

  abbrev pub update_for : List (Bytes × Bytes) → PushOp → Bytes → RefUpdate
  update_for remote_refs op new_sha = record {
    name = op.dst_ref;
    old_sha = remote_ref remote_refs op.dst_ref;
    new_sha = new_sha;
  }

  -- What the push of an operation does to the refs of the contract: its ref was still what the list of
  -- refs says, and becomes the SHA; the others stay.
  pub record Moves (remote_refs : List (Bytes × Bytes)) (op : PushOp) (new_sha : Bytes)
      (before after : World) : Type 0 where
    pub expected :
        ref_in op.dst_ref before ≡ option_map contract.text (remote_ref remote_refs op.dst_ref)
    pub moved : ref_in op.dst_ref after ≡ some (contract.text new_sha)
    pub others :
        (name : Bytes)
        → contract.text name ≢ contract.text op.dst_ref
        → ref_in name after ≡ ref_in name before

  module _ (signer : Signer) (remote_refs : List (Bytes × Bytes)) where
    -- In the world `w`, the source of the operation is this SHA in the local repository, and the pack for
    -- it was made, which left the world `before`; there the push of the one update was called, and came
    -- back with the reply in the world `after`.
    pub record Sent (op : PushOp) (new_sha : Bytes) (w before : World) (reply : Reply)
        (after : World) : Type 0 where
      pub source : resolve_local_ref host op.src_ref w ≡ new_sha
      pub found : new_sha ≢ []
      pub pack_data : Bytes
      pub packed :
          pack_for host new_sha
            (remote_ref remote_refs op.dst_ref)
            (collect_new_shas host new_sha (remote_ref remote_refs op.dst_ref) w)
            w
          ≡ ok (pack_data, before)
      pub called :
          host.call_push signer
            (encode_push_args host pack_data (update_for remote_refs op new_sha ∷ []))
            before
          ≡ (reply, after)

    -- An operation, from a world to a world: a deletion and a source that is not found are refused and
    -- nothing is sent; else the push is sent, and its line is the error that comes back, or `ok`, and then
    -- the push has moved the ref.
    pub data IsResult (op : PushOp) (w : World) : Bytes → World → Type 0 where
      deletion :
          text_eq op.src_ref [] ≡ true
          → IsResult op w (error_line op.dst_ref (ascii "delete not supported yet")) w
      unresolved :
          text_eq op.src_ref [] ≡ false
          → resolve_local_ref host op.src_ref w ≡ []
          → IsResult op w (error_line op.dst_ref (ascii "cannot resolve ref")) w
      rejected :
          {new_sha why : Bytes} {before after : World}
          → text_eq op.src_ref [] ≡ false
          → Sent op new_sha w before (failed why) after
          → IsResult op w (error_line op.dst_ref why) after
      unsent :
          {new_sha why : Bytes} {before after : World}
          → text_eq op.src_ref [] ≡ false
          → Sent op new_sha w before (not_sent why) after
          → IsResult op w (error_line op.dst_ref why) after
      landed :
          {new_sha : Bytes} {before after : World}
          → text_eq op.src_ref [] ≡ false
          → Sent op new_sha w before succeeded after
          → Moves remote_refs op new_sha before after
          → IsResult op w (ok_line op.dst_ref) after

    -- One result for each operation, each from the world that the one before it left.
    pub data AreResults : List PushOp → World → List Bytes → World → Type 0 where
      no_results : {w : World} → AreResults [] w [] w
      result :
          {op : PushOp} {ops : List PushOp} {line : Bytes} {results : List Bytes} {w w' w'' : World}
          → IsResult op w line w'
          → AreResults ops w' results w''
          → AreResults (op ∷ ops) w (line ∷ results) w''

    -- What a push that succeeded did.
    push-Moves :
        (op : PushOp) (pack_data new_sha : Bytes) (w w' : World)
        → Contract.push R P
            (contract.caller signer)
            pack_data
            (update_of contract.text (update_for remote_refs op new_sha) ∷ [])
            (contract.storage w)
          ≡ ok (contract.storage w')
        → Moves remote_refs op new_sha w w'
    push-Moves op pack_data new_sha w w' done =
        let u = update_of contract.text (update_for remote_refs op new_sha) in
        let after = λ (k : String).
          push-last_sha R P (contract.caller signer) pack_data (u ∷ []) (contract.storage w)
            (contract.storage w') k done in
        let dst = contract.text op.dst_ref in
        let same : (last_sha dst (u ∷ []) (ref_in op.dst_ref w) ≡ some (contract.text new_sha)) =
          ground (arith, eq_iff dst dst) in
        record {
          expected = sym (
              push-expected R P (contract.caller signer) pack_data u [] (contract.storage w)
                (contract.storage w') done);
          moved = after dst ∙ same;
          others = λ name apart.
              after (contract.text name)
              ∙ kept dst (contract.text name) u.new_sha (ref_in name w) apart;
        }

    result_line-IsResult :
        (op : PushOp) (new_sha : Bytes) (reply : Reply) (w before after : World)
        → text_eq op.src_ref [] ≡ false
        → Sent op new_sha w before reply after
        → IsResult op w (result_line op.dst_ref reply) after
    unfolding result_line
    result_line-IsResult op new_sha succeeded w before after update s = landed update s (
        push-Moves op s.pack_data new_sha before after (
          contract.call_push-succeeded signer s.pack_data (update_for remote_refs op new_sha) before
            after s.called))
    result_line-IsResult op new_sha (failed why) w before after update s = rejected update s
    result_line-IsResult op new_sha (not_sent why) w before after update s = unsent update s

    push_local-IsResult :
        (op : PushOp) (new_sha : Bytes) (w : World) (done : Bytes × World)
        → text_eq op.src_ref [] ≡ false
        → resolve_local_ref host op.src_ref w ≡ new_sha
        → push_local host signer op new_sha (remote_ref remote_refs op.dst_ref) w ≡ ok done
        → IsResult op w done.0 done.1
    unfolding push_local send_push
    push_local-IsResult op [] w done update source h =
        subst (λ d. IsResult op w d.0 d.1) (ok-injective h) (unresolved update source)
    push_local-IsResult op (c ∷ cs) w done update source h =
        let old_sha = remote_ref remote_refs op.dst_ref in
        let ((pack_data, before), packed, sent) =
          >>=-eq-ok (pack_for host (c ∷ cs) old_sha (collect_new_shas host (c ∷ cs) old_sha w) w) _
            h in
        let call =
          host.call_push signer
            (encode_push_args host pack_data (update_for remote_refs op (c ∷ cs) ∷ [])) before in
        subst (λ d. IsResult op w d.0 d.1) (ok-injective sent)
          (result_line-IsResult op (c ∷ cs) call.0 w before call.1 update (record {
            source = source;
            found = λ e. cc;
            pack_data = pack_data;
            packed = packed;
            called = refl;
          }))

    push_op-IsResult :
        (op : PushOp) (w : World) (done : Bytes × World)
        → push_op host signer remote_refs op w ≡ ok done
        → IsResult op w done.0 done.1
    unfolding push_op
    push_op-IsResult op w done h = elim (Bool-cases (text_eq op.src_ref [])) [
      | inl none_given ↦
          subst (λ d. IsResult op w d.0 d.1) (ok-injective (rw none_given at h))
            (deletion none_given)
      | inr update ↦
          push_local-IsResult op (resolve_local_ref host op.src_ref w) w done update refl
            (rw update at h)
    ]

    push_ops-AreResults :
        (ops : List PushOp) (w : World) (done : List Bytes × World)
        → push_ops host signer remote_refs ops w ≡ ok done
        → AreResults ops w done.0 done.1
    unfolding push_ops
    push_ops-AreResults [] w done h =
        subst (λ d. AreResults [] w d.0 d.1) (ok-injective h) no_results
    push_ops-AreResults (op ∷ ops) w done h =
        let ((line, w₁), e, h₁) = >>=-eq-ok (push_op host signer remote_refs op w) _ h in
        let ((results, w₂), es, h₂) = >>=-eq-ok (push_ops host signer remote_refs ops w₁) _ h₁ in
        subst (λ d. AreResults (op ∷ ops) w d.0 d.1) (ok-injective h₂)
          (result (push_op-IsResult op w (line, w₁) e)
            (push_ops-AreResults ops w₁ (results, w₂) es))

  -- Where a transaction that succeeded is a call of the contract's push, and do_push comes back: it has
  -- read the refs of the contract, and its lines are one result for each operation, in their order, each
  -- from the world that the one before left. A deletion, or a source that is not found, is an error and
  -- nothing is sent. Under ok, the push of the operation was called and succeeded: when it came, the ref
  -- was still what had been read, so no update of others is lost; it made the ref the SHA of the local
  -- source, and changed no other ref.
  pub do_push-AreResults :
      (signer : Signer) (push_specs : List Bytes) (w : World) (done : List Bytes × World)
      → do_push host signer push_specs w ≡ ok done
      → (remote_refs : List (Bytes × Bytes)) × (w' : World) × (host.get_refs w
          ≡ ok (remote_refs, w'))
        × AreResults signer remote_refs (parse_specs push_specs) w' done.0 done.1
  unfolding do_push
  do_push-AreResults signer push_specs w done h =
      let ((remote_refs, w₁), e, h₁) = >>=-eq-ok (host.get_refs w) _ h in
      (
        remote_refs,
        w₁,
        e,
        push_ops-AreResults signer remote_refs (parse_specs push_specs) w₁ done h₁,
      )
