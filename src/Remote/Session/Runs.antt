-- ===== src/Remote/Session/Runs.antt =====
-- A session with git, and its law there.
use near_git_storage.Prelude.{ℕ, ◌+◌, ◌≡◌, refl, List, [], ◌∷◌, Option, none, some, ok, err}
use near_git_storage.Hex.{Bytes}
use near_git_storage.Text.{ascii}
use near_git_storage.Remote.Credentials.{Surroundings, resolve_network}
use near_git_storage.Remote.{Host, succeeded}
use near_git_storage.Remote.Session.{
  panicked, empty_session, start, run, run_loop, command, read_batch, wants_of, write, in_session,
  list_command, fetch_command, list_refs, swap, ref_line, has_ref, head_lines, do_fetch,
  index_packs,
}
use near_git_storage.Remote.Session.Commands.{
  Command, capabilities, list_for_push, fetch, blank, option, print_all, perform_all, run-print_all,
}
use near_git_storage.Remote.Push.{with_newlines, keep_word}

-- A repository with one pack; the world counts the packs that git took.
abbrev host : Host ℕ (Unit {0})
host = record {
  get_refs = λ w. ok ((ascii "refs/heads/main", ascii "a1") ∷ [], w);
  get_packs = λ from w. ok ((1 ∷ []) ∷ [], w);
  call_push = λ signer args w. (succeeded, w);
  resolve_credentials = λ w. ok (tt, w);
  rev_parse = λ refspec w. some (ascii "a1");
  rev_list = λ args w. none;
  pack_objects = λ revs w. ok ([], w);
  index_pack = λ pack w. ok (w + 1);
  from_utf8_lossy = λ output. output;
  serialize_pack = λ pack. pack;
  serialize_updates = λ updates. [];
}

-- Every text but the empty one is an account; nothing is set in the environment.
abbrev account_of : Bytes → Option Bytes
account_of [] = none
account_of (c ∷ cs) = some (c ∷ cs)

abbrev around : Surroundings Bytes Bytes (Unit {0})
around = record {
  var = λ name. none;
  read_to_string = λ path. none;
  get_owner = λ contract_id. none;
  parse_account = account_of;
  parse_key = λ text. some text;
  from_secret_key = λ key. some tt;
  parse_json = λ text. none;
  parse_url = λ text. some text;
}

abbrev commands : List Command
commands =
    option (ascii "verbosity 1")
    ∷ list_for_push
    ∷ fetch (ascii "a1 refs/heads/main") (ascii "fetch b2 refs/heads/x" ∷ [])
    ∷ capabilities
    ∷ blank
    ∷ []

-- An unknown command has no answer, and a batch ends with the input, too.
answers :
    run around
      (λ contract_id network. host)
      (ascii "repo")
      (ascii " list " ∷ ascii "what" ∷ ascii "fetch a1 x" ∷ [])
      0
    ≡ ok (record {
      world = 1;
      out = ascii "a1 refs/heads/main\n@refs/heads/main HEAD\n\n\n";
      signer_cache = none;
    })
unfolding run start resolve_network run_loop command read_batch wants_of write in_session
    list_command fetch_command list_refs swap ref_line has_ref head_lines do_fetch index_packs
    with_newlines keep_word
answers = refl

-- A contract's ID that is no account, or a network without a URL: nothing is written.
bad_contract :
    run around (λ contract_id network. host) [] (ascii "list" ∷ []) 0
    ≡ err (panicked (empty_session 0))
unfolding run start
bad_contract = refl

run-print_all_example :
    run around (λ contract_id network. host) (ascii "repo") (print_all commands) 0
    ≡ perform_all host commands (empty_session 0)
unfolding resolve_network
run-print_all_example =
    run-print_all around (λ contract_id network. host) (ascii "repo") commands 0
      (refl, (tt, ((refl, ((refl, refl), tt)), (tt, (tt, tt)))))
