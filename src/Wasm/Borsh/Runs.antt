-- ===== src/Wasm/Borsh/Runs.antt =====
-- Runs of the readers, and their laws at a concrete answer.
use near_git_storage.Prelude.{◌≡◌, refl, arith, List, [], ◌∷◌, ◌++◌, none, some, ok, err, take}
use near_git_storage.Text.{ascii}
use near_git_storage.Wasm.{end_of_data, bad_utf8}
use near_git_storage.Wasm.Borsh.{
  Fetched, decode_objects, write_bytes, read_u32, read_bytes, read_string, read_objects,
  encode_push_objects, encode_git_objects, write_string,
}
use near_git_storage.Wasm.Borsh.Objects.{encode_objects, decode_objects-encode_objects}
use near_git_storage.Wasm.Borsh.Refusal.{decode_objects-take}

abbrev fetched : List Fetched
fetched = (ascii "a1", some (ascii "blob", 1 ∷ 2 ∷ [])) ∷ (ascii "b2", none) ∷ []

-- A SHA of one byte that is no UTF-8.
no_text : decode_objects (1 ∷ 0 ∷ 0 ∷ 0 ∷ 1 ∷ 0 ∷ 0 ∷ 0 ∷ 255 ∷ 0 ∷ []) ≡ err bad_utf8
unfolding decode_objects read_objects read_string read_bytes read_u32
no_text = refl

-- What is behind the objects is not looked at.
trailing : decode_objects (0 ∷ 0 ∷ 0 ∷ 0 ∷ 7 ∷ []) ≡ ok []
unfolding decode_objects read_objects read_u32
trailing = refl

one_pushed :
    encode_push_objects ((ascii "a1", ascii "blob", 9 ∷ []) ∷ [])
    ≡ 1
      ∷ 0
      ∷ 0
      ∷ 0
      ∷ 2
      ∷ 0
      ∷ 0
      ∷ 0
      ∷ b'a'
      ∷ b'1'
      ∷ 4
      ∷ 0
      ∷ 0
      ∷ 0
      ∷ (ascii "blob" ++ (1 ∷ 0 ∷ 0 ∷ 0 ∷ 9 ∷ []))
unfolding encode_push_objects encode_git_objects write_string write_bytes
one_pushed = refl

decode_objects-encode_objects_example : decode_objects (encode_objects fetched) ≡ ok fetched
unfolding write_bytes
decode_objects-encode_objects_example =
    decode_objects-encode_objects fetched ((refl, refl), ((refl, tt), tt)) (omega arith)

decode_objects-take_example : decode_objects (take 12 (encode_objects fetched)) ≡ err end_of_data
unfolding write_bytes
decode_objects-take_example =
    decode_objects-take fetched 12 ((refl, refl), ((refl, tt), tt)) (omega arith) (omega arith)
