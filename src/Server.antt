-- ===== src/Server.antt =====
-- git-server/src/main.rs: its answers that consist of packet lines, which are the refs that are
-- advertised and the report on a push; the handlers are the modules below. A text is its bytes.
pub mod Answers
pub mod Receive
pub mod Upload
pub mod Merge
pub mod Http
pub mod Call
pub mod ParsePackfile
pub mod Setup
mod Runs
use near_git_storage.Prelude.{
  ℕ, List, [], ◌∷◌, ◌++◌, Option, none, some, Bool, true, false, ◌&&◌, ◌==◌, if◌then◌else◌,
  replicate,
}
use near_git_storage.Hex.{Bytes}
use near_git_storage.Text.{ascii, text_eq}
use near_git_storage.PktLine.{encode, flush}

abbrev pub zero_sha : Bytes
zero_sha = replicate 40 b'0'

abbrev pub capabilities : Bytes
capabilities = ascii "report-status delete-refs"

abbrev pub main_ref : Bytes
main_ref = ascii "refs/heads/main"

abbrev pub master_ref : Bytes
master_ref = ascii "refs/heads/master"

-- `refs.iter().find(|(name, _)| name == wanted)`
pub find_ref : Bytes → List (Bytes × Bytes) → Option (Bytes × Bytes)
find_ref wanted [] = none
find_ref wanted ((name, sha) ∷ refs) =
    let rest = find_ref wanted refs in if text_eq name wanted then some (name, sha) else rest

abbrev pub or_else {ℓ} : {A : Type ℓ} → Option A → Option A → Option A
or_else (some found) other = some found
or_else none other = other

-- The ref that HEAD stands for, of refs with a first one.
pub head_of : Bytes × Bytes → List (Bytes × Bytes) → Bytes × Bytes
head_of first refs = elim (or_else (find_ref main_ref refs) (find_ref master_ref refs)) [
  | some found ↦ found
  | none ↦ first
]

pub announcement : Bytes → Bytes
announcement service = ascii "# service=" ++ (service ++ (10 ∷ []))

pub empty_line : Bytes
empty_line = zero_sha ++ (ascii " capabilities^{}" ++ (0 ∷ (capabilities ++ (10 ∷ []))))

pub head_line : Bytes × Bytes → Bytes
head_line (head_ref, sha) =
    sha
    ++ (ascii " HEAD" ++ (0 ∷ (capabilities ++ (ascii " symref=HEAD:" ++ (head_ref ++ (10 ∷ []))))))

pub ref_line : Bytes × Bytes → Bytes
ref_line (ref_name, sha) = sha ++ (b' ' ∷ (ref_name ++ (10 ∷ [])))

-- `for line in lines { body.extend_from_slice(&pktline::encode(line)); }`
pub encode_lines : List Bytes → Bytes
encode_lines [] = []
encode_lines (l ∷ ls) = encode l ++ encode_lines ls

pub ref_lines : List (Bytes × Bytes) → List Bytes
ref_lines [] = []
ref_lines (r ∷ refs) = ref_line r ∷ ref_lines refs

-- The lines behind the announcement.
pub advertised : List (Bytes × Bytes) → List Bytes
advertised [] = empty_line ∷ []
advertised (first ∷ rest) = head_line (head_of first (first ∷ rest)) ∷ ref_lines (first ∷ rest)

-- The body of `handle_info_refs`.
pub info_refs_body : Bytes → List (Bytes × Bytes) → Bytes
info_refs_body service refs =
    encode (announcement service) ++ (flush ++ (encode_lines (advertised refs) ++ (flush ++ [])))

pub with_newlines : List Bytes → List Bytes
with_newlines [] = []
with_newlines (l ∷ ls) = (l ++ (10 ∷ [])) ∷ with_newlines ls

-- The body of `make_receive_pack_response`.
pub report_body : List Bytes → Bytes
report_body status_lines = encode_lines (with_newlines status_lines) ++ (flush ++ [])
