-- ===== src/KvCache/Examples.antt =====
-- The caches on short runs.
use vvaves.Common.{none, ◌+◌, ◌*◌, ◌/◌, ◌%◌, ◌^◌, ℕ, ◌≤◌, ◌≡◌, refl, some, List, [], ◌∷◌, arith}
use vvaves.KvCache.Stacked.{empty}
use vvaves.KvCache.Stacked.Rows.{IsAligned, views}
use vvaves.KvCache.Stacked.Runs.{
  Call, add, remove, push_all, run, keep, keep_all, run-empty-views, pushes-le-cap,
}
use vvaves.KvCache.VoiceState.{
  AttentionCursor, init_states, read_attention_cursor, write_attention_cursor, get_offset,
  set_offset, increment_steps, read-write_attention_cursor, increment-set_offset,
}
use vvaves.KvCache.Streaming.{init_state}
use vvaves.KvCache.Streaming.Runs.{read_on, should_see, reading-sees}

-- A stream of three items and one of one, two steps, the first stream taken out, a step.
abbrev calls : List (Call ℕ)
calls =
    add (1 ∷ 2 ∷ 3 ∷ []) 3
    ∷ add (9 ∷ []) 1
    ∷ push_all (4 ∷ 8 ∷ [])
    ∷ push_all (5 ∷ 7 ∷ [])
    ∷ remove 0
    ∷ push_all (6 ∷ [])
    ∷ []

-- A type that holds even numbers only.
abbrev halved : ℕ → ℕ
halved x = x / 2 * 2

run-empty-views_example :
    (views (run 0 halved empty calls) ≡ keep_all 0 halved [] calls)
    × IsAligned (run 0 halved empty calls)
unfolding keep
run-empty-views_example =
    run-empty-views 0 halved calls (tt, (tt, (refl, (refl, (tt, (refl, tt))))))

pushes-le-cap_example : 3 ≤ (run 0 halved empty calls).cap
unfolding keep
pushes-le-cap_example = pushes-le-cap 0 halved calls (tt, (tt, (refl, (refl, (tt, (refl, tt))))))

-- A chunk longer than the window, then single items that make the ring wrap.
abbrev chunks : List (List ℕ × ℕ)
chunks = (1 ∷ 2 ∷ 3 ∷ [], 0) ∷ (4 ∷ [], 3) ∷ (5 ∷ 6 ∷ [], 4) ∷ (7 ∷ [], 6) ∷ []

reading-sees_example :
    read_on 0 (some 2) (init_state 0 (some 2)) chunks ≡ should_see 0 (some 2) [] chunks
reading-sees_example = reading-sees 0 (some 2) chunks (omega arith)

abbrev cursor : AttentionCursor
cursor = record { pos = 5; len = 3; head = 1 }

read-write_attention_cursor_example :
    read_attention_cursor (write_attention_cursor (λ key. none) cursor) ≡ cursor
read-write_attention_cursor_example =
    read-write_attention_cursor (λ key. none) cursor (omega arith) (omega arith) (omega arith)

increment-set_offset_example :
    get_offset (increment_steps (set_offset init_states "flow_lm" 40) "offset" 2) "flow_lm"
    ≡ (40 % 2 ^ 64 + 2) % 2 ^ 64
increment-set_offset_example = increment-set_offset init_states "flow_lm" 40 2
