-- ===== src/Lib.antt =====
-- PocketMoE runs large mixture-of-experts models on a few consumer GPUs with the routed experts
-- on the CPU. These modules model the parts of its Python code that decide what is loaded where,
-- what runs when, and what a file says; the tensors themselves are parameters.
--
-- The parts and the files that model them:
-- Gguf: the GGUF reader (src/loader/gguf/reader.py) and the tool that rewrites a file with some
-- routed tensors in another type (src/cli/make_routed_source_gguf.py). Gguf/Stream is a binary
-- file with a position, `_read_struct` and `struct.unpack`; Gguf/Types the tables of types,
-- `align_up` and `tensor_nbytes`; Gguf/Reader the methods of `GGUFReader`, ending in `read_gguf`
-- for `read`; Gguf/Writer `_write_tensor_records`, `_pad_file` and `_copy_bytes`;
-- Gguf/Writer/Plan `_plan_rewrite` and the offsets of `rewrite_gguf`; Gguf/Writer/Skip
-- `_metadata_raw_bytes`. A file is a list of bytes. The rewriter uses the reader's header, and
-- its output is read again by the reader. Gguf/Resolve and Gguf/Bundle are a file in shards
-- (src/loader/gguf/bundle.py): `resolve_gguf_bundle`, and `read_gguf_bundle` with the reading of
-- a shard as an argument.
-- Partition: which rank holds what (src/models/deepseek_v4/partition.py). Partition has the
-- policies, Partition/Rules the kinds of rule and `shard_tensor_for_rank`, Partition/Layers the
-- ranges of the pipeline and `parameter_owner_rank`, Partition/Keys the checkpoint keys. The
-- loaders of both formats ask these functions.
-- Scheduler: the scheduler of prefill and decode (src/runtime/pd_scheduler.py). A request is a
-- mutable object that the two queues share, so Scheduler keeps the requests in a store and the
-- queues hold references to it; `deque.remove`, which compares by value, is `remove`.
-- Scheduler/Phases has `apply_phase_resources`: the environment of the process and a log of the
-- calls to the operating system; Scheduler/CpuList has `_parse_cpu_list`.
-- Snapshot: the cache of KV prefix snapshots (src/runtime/prefix_snapshot.py), an ordered
-- dictionary with the entry used last at its end.
-- Serving: the serving engine (src/server/engine.py). Serving has the bounded queue and what it
-- lets in, Serving/Worker `_collect_batch`, `_batch_payload` and the end of `_run`. What the
-- clock and the submitting threads do is an argument, a list of polls.
-- Encoding: the chat format of DeepSeek-V4 (src/encoding/dsv4.py). Encoding has the tokens and
-- what a message is, Encoding/Templates the long texts, Encoding/Messages the passes over a
-- conversation from `merge_tool_messages` to `_drop_thinking_messages`, Encoding/Render
-- `render_message` and `encode_messages` with the texts of their parts in Encoding/Render/Texts,
-- Encoding/Parse `parse_message_from_completion_text`; an index into the text is there the text
-- that is left.
-- Ipc: the memory that the ranks share with the server of the experts
-- (src/components/moe/ipc.py). Ipc has its operations, Ipc/Layout where the fields lie, and
-- Ipc/Protocol the processes at work on it: rank 0 and the other ranks with
-- `_external_cpu_server_submit_decode` and `_external_cpu_server_wait_decode` of
-- src/models/deepseek_v4/runtime.py, the server with the loop of
-- src/models/deepseek_v4/moe_server.py. Every write to the memory and every tensor copied from it
-- is a step, an output may stand half written, and steps come in any order. The cells of the
-- acknowledgements are a flat list, so that a rank past its row meets the next one's.
-- Mapping: the tensors of a DeepSeek-V4 GGUF file against the keys of the model's state
-- (src/loader/mappings/deepseek_v4.py): Mapping/Table is the table, Mapping/Validation the check.
-- Mapping/Glm and Mapping/Minimax have the names of the two other architectures
-- (src/loader/mappings/glm_dsa.py, src/loader/mappings/minimax_m2.py).
-- Planning: what tensor types are good for and where experts go
-- (src/components/moe/capability.py, src/components/moe/placement.py), and the counts of a report
-- (src/components/moe/spec.py).
-- Tokens: the greedy loop over token ids (src/runtime/generation.py). Prelude has what these
-- share: Booleans and their tests, lists over native numbers, integers, results with Python's
-- classes of exceptions, dictionaries in insertion order, and texts as lists of code points. The
-- proofs are in the children named Laws, in Scheduler/Phases/Keys and Scheduler/Phases/Env, in
-- Ipc/Layout, and in the children of Serving/Worker; Tests applies the theorems at concrete
-- inputs.
--
-- Bounds and fuel: a number of w bytes is unsigned and packed with a check of its range, as
-- struct does, and Python's integers are unbounded; the numbers of the shared memory are below 2
-- ^ 63. Three loops are on fuel. For `copy_bytes` any fuel above the number of bytes to copy is
-- enough when the chunk size is above 0; the two loops of the parser of answers get one round
-- more than the characters left. Both are enough. The other loops recurse on a list or on a
-- count; a loop that waits is one round of it.
--
-- Parameters: `bytes.decode` and `str.encode`, `int` of a float, `narrow` of a tensor, the digest
-- of a prefix, the copies of a model's buffers, what runs a payload and how two JSON values
-- compare, the names that a directory has, the JSON reader and writer of the chat format, what a
-- layer computes, and the answers of the operating system.
--
-- Not modelled: the numeric code (block formats, kernels, the model runtimes), the HTTP server,
-- the other chat encodings and the command lines, the safetensors index, the text of exceptions
-- and of logs, and the C++ engine. In the chat format a field that is missing is not told from
-- one that is null. In the protocol a round of a wait is one step, and nothing sets the flag that
-- stops the server. The OverflowError that Python raises for a count of 2 ^ 63 or more in a GGUF
-- file, and a read of the rewriter that the operating system cuts short, are not modelled. A
-- capture of the snapshot cache runs with no other thread between its two critical sections.
pub mod Prelude
pub mod Gguf
pub mod Partition
pub mod Scheduler
pub mod Snapshot
pub mod Serving
pub mod Encoding
pub mod Ipc
pub mod Mapping
pub mod Planning
pub mod Tokens
pub mod Tests
