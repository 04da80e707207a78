-- ===== src/Tokenizer/Examples.antt =====
-- Numbers and a small vocabulary, and a file on which the parser does not end.
use vvaves.Common.{ℕ, ◌+◌, ◌≡◌, refl, none, some, List, [], ◌∷◌, ◌++◌, length, arith}
use vvaves.Common.Results.{ok}
use vvaves.Common.Bytes.{from_le}
use vvaves.Tokenizer.{read_varint, encode_varint}
use vvaves.Tokenizer.Varint.{read_varint-encode}
use vvaves.Tokenizer.Vocab.{finished, unfinished, outer_loop, parse_sentencepiece_vocab}
use vvaves.Tokenizer.Vocab.Endless.{looping, looping-unfinished}
use vvaves.Tokenizer.Vocab.Pieces.{Entry, encode_piece}
use vvaves.Tokenizer.Vocab.Pieces.File.{file, vocab_of, unk_of, IsEntry, parse-file}

read_varint-encode_example :
    read_varint ((7 ∷ 8 ∷ []) ++ (encode_varint 300 ++ (9 ∷ []))) 2
    ≡ ok (300, 2 + length (encode_varint 300))
read_varint-encode_example = read_varint-encode (7 ∷ 8 ∷ []) (9 ∷ []) 300 (omega arith)

-- "a", then the unknown piece.
abbrev letter : Entry
letter = record { piece = 97 ∷ []; score = 0 ∷ 0 ∷ 0 ∷ 64 ∷ []; piece_type = none }

abbrev unknown : Entry
unknown = record { piece = 60 ∷ 62 ∷ []; score = 0 ∷ 0 ∷ 0 ∷ 0 ∷ []; piece_type = some 2 }

abbrev lossy : List ℕ → List ℕ
lossy bytes = bytes

parse-file_example :
    parse_sentencepiece_vocab lossy from_le 0 (file (letter ∷ unknown ∷ []))
    ≡ finished
        (ok (vocab_of lossy from_le (letter ∷ unknown ∷ []), unk_of (letter ∷ unknown ∷ []) 0 0))
unfolding IsEntry file encode_piece encode_varint
parse-file_example =
    parse-file lossy from_le 0 letter (unknown ∷ []) (omega arith)
      ((refl, tt, refl), ((refl, omega arith, refl), tt))

looping-unfinished_example :
    outer_loop lossy from_le 0 (looping []) 7 (record { vocab = []; unk_id = 0; pos = 0 })
    ≡ unfinished
looping-unfinished_example = looping-unfinished lossy from_le 0 7 []
