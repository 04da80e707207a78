-- ===== src/Tokenizer.antt =====
-- apps/tts/crates/engine/src/conditioners/text.rs: numbers in a SentencePiece file. A byte is a
-- number below 256, a file the list of its bytes; a `u64` keeps its wrap-around.
pub mod Varint
pub mod Vocab
mod Examples
use vvaves.Common.{
  ℕ, zero, suc, ◌+◌, ◌*◌, ◌/◌, ◌%◌, ◌^◌, bit_and, bit_or, List, [], ◌∷◌, drop, ltb, leb, ◌==◌,
  if◌then◌else◌,
}
use vvaves.Common.Results.{Result, ok, err}

-- The loop of `read_varint`, on the bytes from `pos` on.
pub varint_from : List ℕ → ℕ → ℕ → ℕ → Result (ℕ × ℕ)
varint_from [] pos shift result = err
varint_from (byte ∷ rest) pos shift result =
    let result' = bit_or result (bit_and byte 0x7f * 2 ^ shift % 2 ^ 64) in
    let more = varint_from rest (suc pos) (shift + 7) result' in
    if bit_and byte 0x80 == 0
    then ok (result', suc pos)
    else if leb 64 (shift + 7)
    then err
    else more

pub read_varint : List ℕ → ℕ → Result (ℕ × ℕ)
unfolding varint_from
read_varint bytes pos = varint_from (drop pos bytes) pos 0 0

-- The loop of `encode_varint`, for as many bytes as the fuel allows.
pub varint_bytes : ℕ → ℕ → List ℕ
varint_bytes zero value = []
varint_bytes (suc fuel) value =
    let more = varint_bytes fuel (value / 2 ^ 7) in
    if ltb value 0x80 then value % 256 ∷ [] else bit_or (bit_and (value % 256) 0x7f) 0x80 ∷ more

-- Ten bytes hold every `u64`.
pub encode_varint : ℕ → List ℕ
unfolding varint_bytes
encode_varint value = varint_bytes 10 value
