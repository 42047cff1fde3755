-- ===== src/Handler/Stream.antt =====
-- The writer of a streamed response (internal/handler/stream_handler.go), for the Anthropic
-- response format. Texts are lists of runes. A frame is one event of the list `sent`, latest
-- first. The connection takes as many frames as `lifetime` says, if it says so, and then every
-- write fails. `blockIndex` is -1 at first and counts the blocks: `next_index` is one more.
-- `activeBlockType` and the indices that go with it are one value. Log lines are left out, and so
-- is the flushing.
pub mod Blocks
pub mod Finish
pub mod Monitor
pub mod Tracking
pub mod Open
pub mod Brackets
pub mod Deltas
pub mod Ended
pub mod Finished
pub mod Calls
pub mod Silent
pub mod Closed
pub mod Returned
mod Tests
use inf_api.Common.{
  ℕ, zero, suc, ◌+◌, Bool, true, false, ◌&&◌, ◌||◌, Option, none, some, List, [], ◌∷◌, ◌++◌,
  is_empty, if◌then◌else◌,
}
use inf_api.Common.Text.{Text, bytes}
use inf_api.Tiktoken.Estimator.{Estimator, new_estimator, add, count, estimate_text_tokens}

pub data BlockKind : Type 0 where
  thinking_kind : Text → BlockKind
  text_kind : BlockKind
  tool_kind : Text → Text → BlockKind

pub data DeltaKind : Type 0 where
  thinking_delta : DeltaKind
  text_delta : DeltaKind
  input_json_delta : DeltaKind

pub data Event : Type 0 where
  message_start : Text → ℕ → ℕ → Event
  content_block_start : ℕ → BlockKind → Event
  content_block_delta : ℕ → DeltaKind → Text → Event
  content_block_stop : ℕ → Event
  message_delta : Text → ℕ → Event
  message_stop : Event
  keep_alive : Event

-- the block that is open: its index in the stream and in `contentBlocks`
pub data ActiveBlock : Type 0 where
  no_block : ActiveBlock
  in_thinking : ℕ → ℕ → ActiveBlock
  in_text : ℕ → ℕ → ActiveBlock

pub record ToolCall : Type 0 where
  pub call_id : Text
  pub call_name : Text
  pub call_input : Text
  pub is_json : Bool

-- an entry of `contentBlocks`, with the text of its builder
pub data ContentBlock : Type 0 where
  thinking_content : Text → Text → ContentBlock
  text_content : Text → ContentBlock
  tool_content : Text → Text → Text → ContentBlock

pub record StreamHandler : Type 0 where
  pub is_stream : Bool
  pub suppress_thinking : Bool
  pub lifetime : Option ℕ
  pub sent : List Event
  pub next_index : ℕ
  pub has_return : Bool
  pub final_stop_reason : Text
  pub use_upstream_usage : Bool
  pub input_tokens : ℕ
  pub output_tokens : ℕ
  pub thinking_tokens : ℕ
  pub output_estimator : Estimator
  pub active : ActiveBlock
  pub pending_thinking_sig : Text
  pub content_blocks : List ContentBlock
  pub response_text : Text
  pub has_text_output : Bool
  pub write_chunk_buffer : Text
  pub pending_tool_calls : List ToolCall
  pub tool_call_emitted : List Text
  pub tool_call_count : ℕ

-- `newStreamHandler`
unfoldable pub new_stream_handler : Bool → Bool → Option ℕ → StreamHandler
new_stream_handler suppress_thinking is_stream lifetime = record {
  is_stream = is_stream;
  suppress_thinking = suppress_thinking;
  lifetime = lifetime;
  sent = [];
  next_index = 0;
  has_return = false;
  final_stop_reason = [];
  use_upstream_usage = false;
  input_tokens = 0;
  output_tokens = 0;
  thinking_tokens = 0;
  output_estimator = new_estimator;
  active = no_block;
  pending_thinking_sig = [];
  content_blocks = [];
  response_text = [];
  has_text_output = false;
  write_chunk_buffer = [];
  pending_tool_calls = [];
  tool_call_emitted = [];
  tool_call_count = 0;
}

-- `markWriteErrorLocked`
unfoldable pub mark_write_error : StreamHandler → StreamHandler
mark_write_error h =
    if h.has_return
    then h
    else record h { has_return = true; final_stop_reason = bytes "write_error" }

-- the write of a frame
unfoldable pub write_frame : Event → StreamHandler → StreamHandler
unfolding mark_write_error
write_frame e h = elim h.lifetime [
  | none ↦ record h { sent = e ∷ h.sent }
  | some n ↦ elim n [
    | zero ↦ mark_write_error h
    | suc m ↦ record h { sent = e ∷ h.sent; lifetime = some m }
  ]
]

-- `writeFinalSSEBytesLockedWithHint`
unfoldable pub write_final_sse : Event → StreamHandler → StreamHandler
unfolding write_frame
write_final_sse e h = if h.is_stream then write_frame e h else h

-- `writeSSEBytesLockedWithHint`
unfoldable pub write_sse : Event → StreamHandler → StreamHandler
unfolding write_frame
write_sse e h = if h.is_stream then (if h.has_return then h else write_frame e h) else h

-- the choice between the two by the argument `final`
unfoldable pub write_mode : Bool → Event → StreamHandler → StreamHandler
write_mode true e h = write_final_sse e h
write_mode false e h = write_sse e h

-- `writeSSEMessageStart`
unfoldable pub write_sse_message_start : Text → ℕ → ℕ → StreamHandler → StreamHandler
write_sse_message_start model input output h = write_sse (message_start model input output) h

-- `writeKeepAlive`
unfoldable pub write_keep_alive : StreamHandler → StreamHandler
write_keep_alive h = write_sse keep_alive h

-- `addThinkingTokens`
unfoldable pub add_thinking_tokens : Text → StreamHandler → StreamHandler
add_thinking_tokens [] h = h
add_thinking_tokens (c ∷ text) h = if h.use_upstream_usage then h else record h {
  thinking_tokens = h.thinking_tokens + estimate_text_tokens (c ∷ text);
  output_tokens = h.output_tokens + estimate_text_tokens (c ∷ text);
}

-- `addOutputTokens`
unfoldable pub add_output_tokens : Text → StreamHandler → StreamHandler
add_output_tokens [] h = h
add_output_tokens (c ∷ text) h =
    if h.use_upstream_usage
    then h
    else record h { output_estimator = add (c ∷ text) h.output_estimator }

-- `finalizeOutputTokens`
unfoldable pub finalize_output_tokens : StreamHandler → StreamHandler
finalize_output_tokens h =
    if h.use_upstream_usage then h else record h { output_tokens = count h.output_estimator }

-- `if input >= 0 { h.inputTokens = input }`
abbrev pub given_or : Option ℕ → ℕ → ℕ
given_or none old = old
given_or (some n) old = n

-- `setUsageTokens`; a negative argument is none
unfoldable pub set_usage_tokens : Option ℕ → Option ℕ → StreamHandler → StreamHandler
set_usage_tokens input output h = record h {
  use_upstream_usage = true;
  input_tokens = given_or input h.input_tokens;
  output_tokens = given_or output h.output_tokens;
}
