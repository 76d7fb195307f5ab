-- ===== src/Remote/Session.antt =====
-- `run` of git-remote-near/src/main.rs: the commands of git, line by line, with `list_refs` and `do_fetch`.
pub mod Commands
mod Runs
use near_git_storage.Prelude.{
  ℕ, zero, suc, List, [], ◌∷◌, ◌++◌, Option, none, some, Bool, ◌||◌, if◌then◌else◌, Result, ok, err,
  ◌>>=◌, map, length, false,
}
use near_git_storage.Hex.{Bytes}
use near_git_storage.Text.{ascii, text_eq, trim, starts_with, second_word}
use near_git_storage.Remote.{Host}
use near_git_storage.Remote.Credentials.{
  Panic, invalid_contract_id, Surroundings, or_panic, resolve_network,
}
use near_git_storage.Remote.Push.{do_push, keep_word, with_newlines}

-- What `run` keeps: the world, what it has written to git, and the credentials once it needed them.
pub record Session (World Signer : Type 0) : Type 0 where
  pub world : World
  pub out : Bytes
  pub signer_cache : Option Signer

-- `out_of_fuel` is no outcome of the code.
pub data Halt (World Signer : Type 0) : Type 0 where
  panicked : Session World Signer → Halt World Signer
  out_of_fuel : Halt World Signer

-- `sha refname`, and the head where there is a main branch.
pub ref_line : Bytes × Bytes → Bytes
ref_line (sha, name) = sha ++ (32 ∷ name)

pub has_ref : Bytes → List (Bytes × Bytes) → Bool
has_ref wanted [] = false
has_ref wanted ((sha, name) ∷ refs) = text_eq name wanted || has_ref wanted refs

pub head_lines : List (Bytes × Bytes) → List Bytes
head_lines refs =
    if has_ref (ascii "refs/heads/main") refs
    then ascii "@refs/heads/main HEAD" ∷ []
    else if has_ref (ascii "refs/heads/master") refs
    then ascii "@refs/heads/master HEAD" ∷ []
    else []

-- The trimmed lines up to a blank one, and what stands behind that.
pub read_batch : List Bytes → List Bytes × List Bytes
read_batch [] = ([], [])
read_batch (line ∷ lines) =
    let (batch, rest) = read_batch lines in
    if text_eq (trim line) [] then ([], lines) else (trim line ∷ batch, rest)

pub wants_of : List Bytes → List Bytes
wants_of [] = []
wants_of (line ∷ lines) =
    let wants = wants_of lines in
    if starts_with (ascii "fetch ") line then keep_word (second_word line) wants else wants

-- The contract gives the name and the SHA; git wants the SHA first.
pub swap : Bytes × Bytes → Bytes × Bytes
swap (name, sha) = (sha, name)

module _ {World Signer : Type 0} (host : Host World Signer) where
  pub list_refs : World → Result World (List (Bytes × Bytes) × World)
  list_refs w = do (refs, w') ← host.get_refs w; ok (map swap refs, w')

  pub index_packs : List Bytes → World → Result World World
  index_packs [] w = ok w
  index_packs (pack ∷ packs) w = do w' ← host.index_pack pack w; index_packs packs w'

  -- `_wants` are not looked at: all packs are fetched.
  pub do_fetch : List Bytes → World → Result World World
  do_fetch wants w = do (packs, w') ← host.get_packs 0 w; index_packs packs w'

  pub write : Bytes → Session World Signer → Session World Signer
  write text s = record s { out = s.out ++ text }

  -- The session in the world that a step leaves, also where it panics.
  pub in_session :
      {A : Type 0} → Session World Signer → Result World A → Result (Halt World Signer) A
  in_session s (ok a) = ok a
  in_session s (err w) = err (panicked (record s { world = w }))

  pub list_command : Session World Signer → Result (Halt World Signer) (Session World Signer)
  list_command s = do
    (refs, w) ← in_session s (list_refs s.world)
    ok (
        write (with_newlines (map ref_line refs) ++ (with_newlines (head_lines refs) ++ ascii "\n"))
          (record s { world = w }))

  pub fetch_command :
      List Bytes → Session World Signer → Result (Halt World Signer) (Session World Signer)
  fetch_command wants s = do
    w ← in_session s (do_fetch wants s.world)
    ok (write (ascii "\n") (record s { world = w }))

  -- The credentials are resolved once.
  pub signer_of :
      Option Signer
      → Session World Signer
      → Result (Halt World Signer) (Signer × Session World Signer)
  signer_of (some signer) s = ok (signer, s)
  signer_of none s = do
    (signer, w) ← in_session s (host.resolve_credentials s.world)
    ok (signer, record s { world = w; signer_cache = some signer })

  pub push_command :
      List Bytes → Session World Signer → Result (Halt World Signer) (Session World Signer)
  push_command push_specs s = do
    (signer, s') ← signer_of s.signer_cache s
    (results, w) ← in_session s' (do_push host signer push_specs s'.world)
    ok (write (with_newlines results ++ ascii "\n") (record s' { world = w }))

  -- A command, given the lines behind it: what is left of these, and the session.
  pub command :
      Bytes
      → List Bytes
      → Session World Signer
      → Result (Halt World Signer) (List Bytes × Session World Signer)
  command line lines s =
      let (batch, rest) = read_batch lines in
      if text_eq line []
      then ok (lines, s)
      else if text_eq line (ascii "capabilities")
      then ok (lines, write (ascii "fetch\npush\n\n") s)
      else if text_eq line (ascii "list") || text_eq line (ascii "list for-push")
      then (list_command s >>= λ s'. ok (lines, s'))
      else if starts_with (ascii "fetch ") line
      then (fetch_command (wants_of (line ∷ batch)) s >>= λ s'. ok (rest, s'))
      else if starts_with (ascii "push ") line
      then (push_command (line ∷ batch) s >>= λ s'. ok (rest, s'))
      else if starts_with (ascii "option ") line
      then ok (lines, write (ascii "unsupported\n") s)
      else ok (lines, s)

  -- `while let Some(Ok(line)) = lines.next()`, with as many rounds as there is fuel; `lines` are those
  -- before the end of the input, or before one that cannot be read.
  pub run_loop :
      ℕ → List Bytes → Session World Signer → Result (Halt World Signer) (Session World Signer)
  run_loop fuel [] s = ok s
  run_loop zero (line ∷ lines) s = err out_of_fuel
  run_loop (suc fuel) (line ∷ lines) s = do
    (rest, s') ← command (trim line) lines s
    run_loop fuel rest s'

-- The session before the first line.
abbrev pub empty_session : {World Signer : Type 0} → World → Session World Signer
empty_session w = record { world = w; out = []; signer_cache = none }

-- A panic before the first line has written nothing.
abbrev pub before_lines :
    {World Signer A : Type 0} → World → Result Panic A → Result (Halt World Signer) A
before_lines w (ok a) = ok a
before_lines w (err why) = err (panicked (empty_session w))

-- `around` is what the network is resolved from, and `connect` the host for a contract on a network.
module _ {World Url Key Signer : Type 0} (around : Surroundings Url Key Signer)
    (connect : Bytes → Bytes × Url → Host World Signer) where
  -- The contract's account and the network, before any line is read.
  pub start : Bytes → Result Panic (Host World Signer)
  start contract_id_str = do
    contract_id ← or_panic invalid_contract_id (around.parse_account contract_id_str)
    network ← resolve_network around
    ok (connect contract_id network)

  pub run : Bytes → List Bytes → World → Result (Halt World Signer) (Session World Signer)
  run contract_id_str lines w = do
    host ← before_lines w (start contract_id_str)
    run_loop host (length lines) lines (empty_session w)
