-- ===== src/KvCache/VoiceState.antt =====
-- apps/tts/crates/engine/src/voice_state.rs: the state of the modules as maps from names. A tensor
-- is read as a scalar only; an `i64` is its bit pattern.
use text.Mathlib.Text.{◌==◌ as str_eq}
use text.Mathlib.TextPositions.{eq_refl}
use Prim.Native.String.{String}
use vvaves.Common.{
  ℕ, ◌+◌, ◌%◌, ◌^◌, ◌<◌, ◌≡◌, refl, ap, ◌∙◌, Option, none, some, ltb, if◌then◌else◌, arith, lt→ltb,
}

pub data Tensor : Type 0 where
  i64 u32 : ℕ → Tensor
  other : Tensor

abbrev pub ModuleState : Type 0
ModuleState = String → Option Tensor

abbrev pub ModelState : Type 0
ModelState = String → Option ModuleState

pub record AttentionCursor : Type 0 where
  pub pos : ℕ
  pub len : ℕ
  pub head : ℕ

-- `HashMap::insert`
abbrev put {ℓ} : {A : Type ℓ} → String → A → (String → Option A) → String → Option A
put k a m key = if str_eq key k then some a else m key

pub init_states : ModelState
init_states name = none

pub tensor_to_usize : Tensor → Option ℕ
tensor_to_usize (i64 v) = some (if ltb v (2 ^ 63) then v else 0)
tensor_to_usize (u32 v) = some v
tensor_to_usize other = none

-- `and_then(tensor_to_usize).unwrap_or(0)`
scalar : Option Tensor → ℕ
unfolding tensor_to_usize
scalar none = 0
scalar (some t) = elim (tensor_to_usize t) [ none ↦ 0 | some n ↦ n ]

pub read_attention_cursor : ModuleState → AttentionCursor
unfolding scalar
read_attention_cursor m = record {
  pos = scalar (m "pos");
  len = scalar (m "l");
  head = scalar (m "head");
}

pub write_attention_cursor : ModuleState → AttentionCursor → ModuleState
write_attention_cursor m cursor =
    put "head" (i64 (cursor.head % 2 ^ 64))
      (put "l" (i64 (cursor.len % 2 ^ 64)) (put "pos" (u32 (cursor.pos % 2 ^ 32)) m))

pub get_attention_cursor : ModelState → String → AttentionCursor
unfolding read_attention_cursor
get_attention_cursor state name = elim (state name) [
  | none ↦ record { pos = 0; len = 0; head = 0 }
  | some m ↦ read_attention_cursor m
]

-- What `increment_steps` makes of the tensor under the key.
incremented : ℕ → Option Tensor → Option Tensor
incremented n none = none
incremented n (some (i64 v)) = some (i64 ((v + n) % 2 ^ 64))
incremented n (some (u32 v)) = some (u32 v)
incremented n (some other) = some other

in_module : String → ℕ → Option ModuleState → Option ModuleState
unfolding incremented
in_module key n none = none
in_module key n (some m) = some (λ k. if str_eq k key then incremented n (m k) else m k)

pub increment_steps : ModelState → String → ℕ → ModelState
unfolding in_module
increment_steps state key n name = in_module key n (state name)

offset_of : Option Tensor → ℕ
offset_of none = 0
offset_of (some (i64 v)) = v
offset_of (some (u32 v)) = 0
offset_of (some other) = 0

pub get_offset : ModelState → String → ℕ
unfolding offset_of
get_offset state name = elim (state name) [ none ↦ 0 | some m ↦ offset_of (m "offset") ]

-- `get_or_create_state`, as a copy.
state_of : Option ModuleState → ModuleState
state_of none k = none
state_of (some m) k = m k

pub set_offset : ModelState → String → ℕ → ModelState
unfolding state_of
set_offset state name offset =
    put name (put "offset" (i64 (offset % 2 ^ 64)) (state_of (state name))) state

small_position : (v : ℕ) → v < 2 ^ 32 → v % 2 ^ 32 ≡ v
small_position v h = omega arith

small_count : (v : ℕ) → v < 2 ^ 63 → (if ltb (v % 2 ^ 64) (2 ^ 63) then v % 2 ^ 64 else 0) ≡ v
small_count v h =
    let same : v % 2 ^ 64 ≡ v = omega arith in
    ap (λ x. if ltb x (2 ^ 63) then x else 0) same
    ∙ ap (λ b. if b then v else 0) (lt→ltb v (2 ^ 63) h)

abbrev cursor_at : ℕ → ℕ → ℕ → AttentionCursor
cursor_at p l h = record { pos = p; len = l; head = h }

-- A cursor that is written is read back, if its position is below 2^32 and its length and its head
-- are below 2^63.
pub read-write_attention_cursor :
    (m : ModuleState) (cursor : AttentionCursor)
    → cursor.pos < 2 ^ 32
    → cursor.len < 2 ^ 63
    → cursor.head < 2 ^ 63
    → read_attention_cursor (write_attention_cursor m cursor) ≡ cursor
unfolding read_attention_cursor write_attention_cursor scalar tensor_to_usize
read-write_attention_cursor m cursor p l h =
    let saved = write_attention_cursor m cursor in
    ap (λ x. cursor_at x (scalar (saved "l")) (scalar (saved "head"))) (small_position cursor.pos p)
    ∙ ap (λ x. cursor_at cursor.pos x (scalar (saved "head"))) (small_count cursor.len l)
    ∙ ap (λ x. cursor_at cursor.pos cursor.len x) (small_count cursor.head h)

-- Stepping all modules on by `n` adds `n` to the offset that was set, in the range of an `i64` as
-- its bit pattern.
pub increment-set_offset :
    (state : ModelState) (name : String) (offset n : ℕ)
    → get_offset (increment_steps (set_offset state name offset) "offset" n) name
      ≡ (offset % 2 ^ 64 + n) % 2 ^ 64
unfolding get_offset increment_steps set_offset in_module incremented offset_of
increment-set_offset state name offset n = rw (eq_refl name, get_offset) refl
