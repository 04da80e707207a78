-- ===== src/Lib.antt =====
-- The speech engine of vvaves, apps/tts: what carries a reading from text to the bytes a listener
-- gets. The crate `server` (apps/tts/crates/server/src) admits readings, encodes and sends them;
-- the crate `engine` (apps/tts/crates/engine/src) turns text into audio frames, one frame of 80
-- ms for every stream at each step.
--
-- Encode models encode.rs and lame.rs of the server: the sample formats (Encode/Format), the lead
-- trimmer (Encode/Trim, `LeadTrimmer`), the mp3 encoder over LAME (Encode/Lame, `Mp3Encoder`) and
-- the encoder that is fed frame by frame (Encode/Chunked, `Chunked`). Speech/Stream models
-- `framed` and the task of `stream` in main.rs, which drives a `Chunked` with the pieces that the
-- scheduler sends and sends the bytes on; Speech/Buffered models the end of the handler `speech`,
-- which waits for the first frame and answers by `stream` or, where the format cannot be sent
-- before its end (wav), by `buffered`, as one body.
--
-- KvCache models the two caches of modules/attention.rs of the engine along the time axis: an
-- item is the key and value of one time step for all heads of a row. KvCache/Stacked is
-- `StackedKv`, the rows of several streams on one cursor; KvCache/Streaming is the cache of
-- `StreamingMultiheadAttention::forward`, a ring where the layer has a window and a growing
-- buffer where it has none. `StackedKv` converts what it stores to `cache_dtype()`, half
-- precision unless the environment says otherwise: that conversion is a parameter (`to_dtype`),
-- and the environment is taken to stay as it is while a cache lives. Attend models
-- modules/sdpa.rs, the attention kernel: masks (`generate_mask_chunk`), the path at once, the
-- tiled path and `sdpa_chunked`; Attend/Streamed puts it behind the streaming cache, as `forward`
-- does. Conv models modules/conv.rs, the two convolutions of Mimi that carry columns from chunk
-- to chunk: Conv is `StreamingConv1d`, Conv/Transposed `StreamingConvTranspose1d`. Batch models
-- batch.rs: `Batcher` keeps a `StackedKv` for each layer and a stream for each row.
-- KvCache/VoiceState models voice_state.rs, where cursors are kept. Text models pause.rs
-- (Text/Pause: markers; Text/Pause/Found: the pauses) and `prepare_text_prompt`, the bounds of a
-- generation and `split_into_best_sentences` (Text/Sentences) of tts_model.rs. Generate models
-- the rest of tts_model.rs that reads a text alone: a segment frame by frame, the stream of a
-- text, of a text with pauses and the whole audio; Generate/VoicePrompt is how a voice prompt is
-- cut for Mimi. Audio models audio.rs, the wavs of voice prompts, and Weights models weights.rs,
-- where the weights come from. Tokenizer models conditioners/text.rs: the numbers of a protobuf
-- file (`read_varint`), the vocabulary of a SentencePiece file (Tokenizer/Vocab) and the encoders
-- of its tests (Tokenizer/Vocab/Pieces).
--
-- Scheduler models engine.rs of the server: `Slot`, `EngineHandle::submit` and the queues
-- (Scheduler), and one round of the loop of `run` with `start` and all that is done with a frame
-- (Scheduler/Loop). Scheduler/Metrics is the histogram of metrics.rs. The batcher is an interface
-- there (`Batching`), the listener a function that says whether a send finds one; a job keeps
-- what was sent to its channel. Other threads act between rounds, since all they do is one atomic
-- admission and a send.
--
-- Common holds the shared names and lemmas. A Rust `Result` is Common/Results, without the
-- error's text; a call on `&mut self` returns the new state beside its result, and what an error
-- leaves behind is returned too wherever a caller goes on with it. A `u32` or `u64` keeps its
-- wrap-around; a `usize` that counts items in memory is a natural number. Where Rust panics on an
-- index past the end, the definition's comment says what stands there: `StackedKv::remove_row`
-- then changes nothing, and `Batcher`, its only caller, gives it an index that it found. A sample
-- is an `i16` as its bit pattern. Most loops are recursions on a list or on a count.
-- `next_power_of_two` (KvCache/Pow2) doubles at most as often as its argument. Blocks of queries,
-- chunks of a prompt and windows of a convolution get as fuel the number of items they are cut
-- from, since each takes one at least. The bytes of a number are at most ten. The loops over the
-- fields of a vocabulary get an amount of fuel as an argument, of which the file's length is
-- enough for a file of pieces; there are files, with lengths that make a position wrap, on which
-- no amount is.
--
-- Not under the repository, and so parameters: the floating-point operations (Common/Floats; a
-- law of them that a theorem needs is a hypothesis of it), the functions of LAME (`Lame`),
-- Unicode's tables beyond white space (`Unicode`), reading a decimal number (`Durations`), the
-- iterator and the writer of wav samples of the package hound, the constructor of a tensor
-- (`FromVec`), and the client of the hub of weights. The tensor code that the batcher and a
-- segment call is a parameter (`Model`); nothing is assumed of it. A convolution over a whole
-- input, and the arithmetic of attention (`Kernel`), are parameters too; where a theorem needs
-- sums that are exact, or a softmax that gives a hidden key no weight, that is a hypothesis of
-- it, and holds of `f32` up to rounding. Not modelled: the networks, rotary embedding, multi-
-- layer perceptrons and quantization, which are tensor arithmetic without state; the tensors of a
-- file of weights; resampling; HTTP, logs and times; the other services of the repository.
pub mod Attend
pub mod Audio
pub mod Batch
pub mod Common
pub mod Conv
pub mod Encode
pub mod Generate
pub mod KvCache
pub mod Scheduler
pub mod Speech
pub mod Text
pub mod Tokenizer
pub mod Weights
