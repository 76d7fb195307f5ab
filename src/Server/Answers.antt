-- ===== src/Server/Answers.antt =====
-- A client reads from the answers what the server put into them.
use near_git_storage.Prelude.{
  ◌≡◌, refl, sym, ap, ◌∙◌, subst, List, [], ◌∷◌, ◌++◌, Option, none, some, false, Bool-cases, inl,
  inr, All, append-nil, map, replicate,
}
use near_git_storage.Hex.{Bytes}
use near_git_storage.Text.{ascii, text_eq}
use near_git_storage.Text.Laws.{text_eq→≡}
use near_git_storage.PktLine.{encode, flush, read_until_flush}
use near_git_storage.PktLine.Laws.{Fits, encode_all, read_until_flush-flush}
use near_git_storage.Server.{
  main_ref, master_ref, find_ref, or_else, head_of, announcement, empty_line, head_line, ref_line,
  encode_lines, ref_lines, advertised, info_refs_body, with_newlines, report_body,
}

encode_lines_lem : (lines : List Bytes) → encode_lines lines ≡ encode_all lines
unfolding encode_lines
encode_lines_lem [] = refl
encode_lines_lem (l ∷ lines) = ap (λ t. encode l ++ t) (encode_lines_lem lines)

read_lines :
    (lines : List Bytes) (rest : Bytes)
    → All Fits lines
    → read_until_flush (encode_lines lines ++ (flush ++ rest)) ≡ (lines, rest)
read_lines lines rest fit = rw (encode_lines_lem lines) (read_until_flush-flush lines rest fit)

-- Where the lines of a report fit, the client reads each status line with its newline, and nothing is
-- left.
pub read_until_flush-report_body :
    (status_lines : List Bytes)
    → All Fits (with_newlines status_lines)
    → read_until_flush (report_body status_lines) ≡ (with_newlines status_lines, [])
unfolding report_body
read_until_flush-report_body status_lines fit = read_lines (with_newlines status_lines) [] fit

-- The first ref of a name has the SHA.
pub data IsNamed (wanted sha : Bytes) : List (Bytes × Bytes) → Type 0 where
  here : (refs : List (Bytes × Bytes)) → IsNamed wanted sha ((wanted, sha) ∷ refs)
  there :
      (name other : Bytes) (refs : List (Bytes × Bytes))
      → text_eq name wanted ≡ false
      → IsNamed wanted sha refs
      → IsNamed wanted sha ((name, other) ∷ refs)

abbrev pub IsAbsent : Bytes → List (Bytes × Bytes) → Type 0
IsAbsent wanted = All (λ r. text_eq r.0 wanted ≡ false)

-- HEAD stands for main, without a main for master, and without both for the first ref.
pub data IsHead : List (Bytes × Bytes) → Bytes × Bytes → Type 0 where
  main :
      (refs : List (Bytes × Bytes)) (sha : Bytes)
      → IsNamed main_ref sha refs
      → IsHead refs (main_ref, sha)
  master :
      (refs : List (Bytes × Bytes)) (sha : Bytes)
      → IsAbsent main_ref refs
      → IsNamed master_ref sha refs
      → IsHead refs (master_ref, sha)
  first_ref :
      (r : Bytes × Bytes) (refs : List (Bytes × Bytes))
      → IsAbsent main_ref (r ∷ refs)
      → IsAbsent master_ref (r ∷ refs)
      → IsHead (r ∷ refs) r

abbrev pub terminated : Bytes → Bytes
terminated text = text ++ (10 ∷ [])

-- What git's protocol has a server advertise: HEAD with the capabilities and what it stands for, then
-- each ref in order; a repository without refs has a line of its own.
pub data IsAdvertisement : List (Bytes × Bytes) → List Bytes → Type 0 where
  empty_repo : IsAdvertisement [] (
      (replicate 40 b'0'
        ++ (ascii " capabilities^{}" ++ (0 ∷ terminated (ascii "report-status delete-refs"))))
      ∷ [])
  with_refs :
      (r head : Bytes × Bytes) (rs : List (Bytes × Bytes))
      → IsHead (r ∷ rs) head
      → IsAdvertisement (r ∷ rs) (
          (head.1
            ++ (ascii " HEAD"
                ++ (0
                    ∷ (ascii "report-status delete-refs"
                        ++ (ascii " symref=HEAD:" ++ terminated head.0)))))
          ∷ map (λ (ref : Bytes × Bytes). ref.1 ++ (b' ' ∷ terminated ref.0)) (r ∷ rs))

-- What find_ref finds, or that there is none.
abbrev IsFound : Bytes → List (Bytes × Bytes) → Option (Bytes × Bytes) → Type 0
IsFound wanted refs none = IsAbsent wanted refs
IsFound wanted refs (some (name, sha)) = (name ≡ wanted) × IsNamed wanted sha refs

IsFound-there :
    (wanted name sha : Bytes) (refs : List (Bytes × Bytes)) (o : Option (Bytes × Bytes))
    → text_eq name wanted ≡ false
    → IsFound wanted refs o
    → IsFound wanted ((name, sha) ∷ refs) o
IsFound-there wanted name sha refs none other h = (other, h)
IsFound-there wanted name sha refs (some (n, s)) other (e, h) = (e, there name sha refs other h)

find_ref-IsFound :
    (wanted : Bytes) (refs : List (Bytes × Bytes)) → IsFound wanted refs (find_ref wanted refs)
unfolding find_ref
find_ref-IsFound wanted [] = tt
find_ref-IsFound wanted ((name, sha) ∷ refs) = elim (Bool-cases (text_eq name wanted)) [
  | inl same ↦
      let e = text_eq→≡ name wanted same in
      rw same (e, subst (λ n. IsNamed wanted sha ((n, sha) ∷ refs)) (sym e) (here refs))
  | inr other ↦ rw other (
      IsFound-there wanted name sha refs (find_ref wanted refs) other
        (find_ref-IsFound wanted refs))
]

head_of-IsHead :
    (r : Bytes × Bytes) (rs : List (Bytes × Bytes)) → IsHead (r ∷ rs) (head_of r (r ∷ rs))
unfolding head_of
head_of-IsHead r rs =
    choose (find_ref main_ref (r ∷ rs)) (find_ref master_ref (r ∷ rs))
      (find_ref-IsFound main_ref (r ∷ rs)) (find_ref-IsFound master_ref (r ∷ rs))
  where
    choose :
        (m n : Option (Bytes × Bytes))
        → IsFound main_ref (r ∷ rs) m
        → IsFound master_ref (r ∷ rs) n
        → IsHead (r ∷ rs) (elim (or_else m n) [ some found ↦ found | none ↦ r ])
    choose (some (name, sha)) n (e, h) _ =
        subst (λ b. IsHead (r ∷ rs) (b, sha)) (sym e) (main (r ∷ rs) sha h)
    choose none (some (name, sha)) h (e, g) =
        subst (λ b. IsHead (r ∷ rs) (b, sha)) (sym e) (master (r ∷ rs) sha h g)
    choose none none h g = first_ref r rs h g

ref_lines_lem :
    (rs : List (Bytes × Bytes))
    → ref_lines rs ≡ map (λ (ref : Bytes × Bytes). ref.1 ++ (b' ' ∷ terminated ref.0)) rs
unfolding ref_lines ref_line
ref_lines_lem [] = refl
ref_lines_lem ((name, sha) ∷ rs) =
    ap (λ ls. (sha ++ (b' ' ∷ terminated name)) ∷ ls) (ref_lines_lem rs)

advertised-IsAdvertisement : (rs : List (Bytes × Bytes)) → IsAdvertisement rs (advertised rs)
unfolding advertised empty_line head_line
advertised-IsAdvertisement [] = empty_repo
advertised-IsAdvertisement (r ∷ rs) =
    let head = head_of r (r ∷ rs) in
    subst (λ ls. IsAdvertisement (r ∷ rs) (head_line head ∷ ls)) (sym (ref_lines_lem (r ∷ rs)))
      (with_refs r head rs (head_of-IsHead r rs))

-- Where the lines fit, a client that reads the advertisement of refs up to its first flush packet has
-- the announcement of the service, and a second read gives, with nothing left, what git's protocol has
-- a server advertise: for refs, HEAD with the capabilities, which is main if there is one, else master,
-- else the first, and then each ref with its SHA, in order; without refs, the line of an empty
-- repository.
pub info_refs_body-IsAdvertisement :
    (service : Bytes) (rs : List (Bytes × Bytes))
    → Fits (announcement service)
    → All Fits (advertised rs)
    → (rest : Bytes) × (lines : List Bytes) × (read_until_flush (info_refs_body service rs)
        ≡ ((ascii "# service=" ++ terminated service) ∷ [], rest))
      × (read_until_flush rest ≡ (lines, []))
      × IsAdvertisement rs lines
unfolding info_refs_body encode_lines announcement
info_refs_body-IsAdvertisement service rs fits fit =
    let rest = encode_lines (advertised rs) ++ (flush ++ []) in
    (
      rest,
      advertised rs,
      ap (λ t. read_until_flush (t ++ (flush ++ rest)))
            (sym (append-nil (encode (announcement service))))
          ∙ read_lines (announcement service ∷ []) rest (fits, tt),
      read_lines (advertised rs) [] fit,
      advertised-IsAdvertisement rs,
    )
