-- ===== src/Remote/Session/Commands.antt =====
-- The commands that git sends to a remote helper, and what `run` of git-remote-near/src/main.rs does on
-- their lines.
use near_git_storage.Prelude.{
  ℕ, zero, suc, ◌≤◌, ◌≡◌, refl, ap, ◌∙◌, arith, List, [], ◌∷◌, ◌++◌, false, Result, ok, err, ◌>>=◌,
  length, length-append, append_assoc, All, fun_ext,
}
use near_git_storage.Hex.{Bytes}
use near_git_storage.Text.{ascii, text_eq, trim}
use near_git_storage.Remote.{Host}
use near_git_storage.Remote.Session.{
  Session, Halt, read_batch, wants_of, write, list_command, fetch_command, push_command, command,
  run_loop, empty_session, before_lines, start, run,
}
use near_git_storage.Remote.Credentials.{
  invalid_contract_id, Surroundings, or_panic, resolve_network,
}

-- The texts are what stands behind the command's word, and the further lines of its batch.
pub data Command : Type 0 where
  capabilities list list_for_push blank : Command
  fetch push : Bytes → List Bytes → Command
  option : Bytes → Command

abbrev pub print : Command → List Bytes
print capabilities = ascii "capabilities" ∷ []
print list = ascii "list" ∷ []
print list_for_push = ascii "list for-push" ∷ []
print blank = [] ∷ []
print (fetch text more) = (ascii "fetch " ++ text) ∷ (more ++ ([] ∷ []))
print (push text more) = (ascii "push " ++ text) ∷ (more ++ ([] ∷ []))
print (option text) = (ascii "option " ++ text) ∷ []

abbrev pub print_all : List Command → List Bytes
print_all [] = []
print_all (c ∷ cs) = print c ++ print_all cs

abbrev pub IsTrimmed : Bytes → Type 0
IsTrimmed line = trim line ≡ line

-- A line of a batch is not blank, which would end it.
abbrev pub IsInner : Bytes → Type 0
IsInner line = IsTrimmed line × (text_eq line [] ≡ false)

abbrev pub IsCommand : Command → Type 0
IsCommand (fetch text more) = IsTrimmed (ascii "fetch " ++ text) × All IsInner more
IsCommand (push text more) = IsTrimmed (ascii "push " ++ text) × All IsInner more
IsCommand (option text) = IsTrimmed (ascii "option " ++ text)
IsCommand _ = Unit {0}

length-print : (c : Command) → 1 ≤ length (print c)
length-print capabilities = omega arith
length-print list = omega arith
length-print list_for_push = omega arith
length-print blank = omega arith
length-print (fetch text more) = omega arith
length-print (push text more) = omega arith
length-print (option text) = omega arith

read_batch-append :
    (more rest : List Bytes) → All IsInner more → read_batch (more ++ ([] ∷ rest)) ≡ (more, rest)
unfolding read_batch
read_batch-append [] rest h = refl
read_batch-append (line ∷ more) rest ((trimmed, inner), h) =
    rw (trimmed, inner, read_batch-append more rest h) refl

module _ {World Signer : Type 0} (host : Host World Signer) where
  -- What a command asks for.
  abbrev pub perform :
      Command → Session World Signer → Result (Halt World Signer) (Session World Signer)
  perform capabilities s = ok (write host (ascii "fetch\npush\n\n") s)
  perform list s = list_command host s
  perform list_for_push s = list_command host s
  perform blank s = ok s
  perform (fetch text more) s = fetch_command host (wants_of ((ascii "fetch " ++ text) ∷ more)) s
  perform (push text more) s = push_command host ((ascii "push " ++ text) ∷ more) s
  perform (option text) s = ok (write host (ascii "unsupported\n") s)

  abbrev pub perform_all :
      List Command → Session World Signer → Result (Halt World Signer) (Session World Signer)
  perform_all [] s = ok s
  perform_all (c ∷ cs) s = perform c s >>= perform_all cs

  -- A round of the loop.
  round :
      ℕ
      → Result (Halt World Signer) (List Bytes × Session World Signer)
      → Result (Halt World Signer) (Session World Signer)
  round fuel r = r >>= λ (rest, s). run_loop host fuel rest s

  round-ended :
      (fuel : ℕ) (rest : List Bytes) (r : Result (Halt World Signer) (Session World Signer))
      (next : Session World Signer → Result (Halt World Signer) (Session World Signer))
      → ((s : Session World Signer) → run_loop host fuel rest s ≡ next s)
      → round fuel (r >>= λ s. ok (rest, s)) ≡ (r >>= next)
  unfolding round
  round-ended fuel rest (ok s) next h = h s
  round-ended fuel rest (err e) next h = refl

  fetch-step :
      (text : Bytes) (more rest : List Bytes) (s : Session World Signer)
      → All IsInner more
      → command host (ascii "fetch " ++ text) (more ++ ([] ∷ rest)) s
        ≡ (perform (fetch text more) s >>= λ s'. ok (rest, s'))
  unfolding command
  fetch-step text more rest s h = rw (read_batch-append more rest h) refl

  push-step :
      (text : Bytes) (more rest : List Bytes) (s : Session World Signer)
      → All IsInner more
      → command host (ascii "push " ++ text) (more ++ ([] ∷ rest)) s
        ≡ (perform (push text more) s >>= λ s'. ok (rest, s'))
  unfolding command
  push-step text more rest s h = rw (read_batch-append more rest h) refl

  run_loop-print_all :
      (cs : List Command) (fuel : ℕ) (s : Session World Signer)
      → All IsCommand cs
      → length (print_all cs) ≤ fuel
      → run_loop host fuel (print_all cs) s ≡ perform_all cs s
  unfolding run_loop command round
  run_loop-print_all [] fuel s h enough = refl
  run_loop-print_all (c ∷ cs) zero s h enough =
      absurd (omega (arith, length-print c, length-append (print c) (print_all cs)))
  run_loop-print_all (capabilities ∷ cs) (suc fuel) s (_, h) enough =
      run_loop-print_all cs fuel _ h (omega arith)
  run_loop-print_all (list ∷ cs) (suc fuel) s (_, h) enough =
      round-ended fuel (print_all cs) (list_command host s) (perform_all cs)
        λ s'. run_loop-print_all cs fuel s' h (omega arith)
  run_loop-print_all (list_for_push ∷ cs) (suc fuel) s (_, h) enough =
      round-ended fuel (print_all cs) (list_command host s) (perform_all cs)
        λ s'. run_loop-print_all cs fuel s' h (omega arith)
  run_loop-print_all (blank ∷ cs) (suc fuel) s (_, h) enough =
      run_loop-print_all cs fuel s h (omega arith)
  run_loop-print_all (fetch text more ∷ cs) (suc fuel) s ((trimmed, inner), h) enough =
      ap (λ line. round fuel (command host line ((more ++ ([] ∷ [])) ++ print_all cs) s)) trimmed
      ∙ ap (λ lines. round fuel (command host (ascii "fetch " ++ text) lines s))
          (append_assoc more ([] ∷ []) (print_all cs))
      ∙ ap (round fuel) (fetch-step text more (print_all cs) s inner)
      ∙ round-ended fuel (print_all cs) (perform (fetch text more) s) (perform_all cs) λ s'.
        run_loop-print_all cs fuel s' h
          (omega (arith, length-append (more ++ ([] ∷ [])) (print_all cs)))
  run_loop-print_all (push text more ∷ cs) (suc fuel) s ((trimmed, inner), h) enough =
      ap (λ line. round fuel (command host line ((more ++ ([] ∷ [])) ++ print_all cs) s)) trimmed
      ∙ ap (λ lines. round fuel (command host (ascii "push " ++ text) lines s))
          (append_assoc more ([] ∷ []) (print_all cs))
      ∙ ap (round fuel) (push-step text more (print_all cs) s inner)
      ∙ round-ended fuel (print_all cs) (perform (push text more) s) (perform_all cs) λ s'.
        run_loop-print_all cs fuel s' h
          (omega (arith, length-append (more ++ ([] ∷ [])) (print_all cs)))
  run_loop-print_all (option text ∷ cs) (suc fuel) s (trimmed, h) enough =
      ap (λ line. round fuel (command host line (print_all cs) s)) trimmed
      ∙ run_loop-print_all cs fuel (write host (ascii "unsupported\n") s) h (omega arith)

-- For commands whose lines have no white space around them, and none of whose batches has a blank line:
-- where the contract's ID is no account, or the network has no URL, run panics at once and has written
-- nothing. Else run, on the lines that git writes for the commands, comes to its end, and does, from the
-- first answer to the last and panics included, what the commands ask for one after the other. It takes
-- no line of a command for another command.
pub run-print_all :
    {World Url Key Signer : Type 0} (around : Surroundings Url Key Signer)
    (connect : Bytes → Bytes × Url → Host World Signer) (contract_id_str : Bytes)
    (cs : List Command) (w : World)
    → All IsCommand cs
    → run around connect contract_id_str (print_all cs) w ≡ (
        before_lines w (
          or_panic invalid_contract_id (around.parse_account contract_id_str) >>= λ contract_id.
          resolve_network around >>= λ network. ok (connect contract_id network))
        >>= λ host. perform_all host cs (empty_session w))
unfolding run start
run-print_all around connect contract_id_str cs w h =
    ap (λ next. before_lines w (start around connect contract_id_str) >>= next)
      (fun_ext λ host.
        run_loop-print_all host cs (length (print_all cs)) (empty_session w) h (omega arith))
