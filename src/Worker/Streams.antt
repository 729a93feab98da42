-- ===== src/Worker/Streams.antt =====
-- `_read_limited_stream`.
pub mod Limited
use tgent.Prelude.{
  ℕ, suc, ◌+◌, ◌-◌, min, Bool, true, false, List, [], ◌∷◌, ◌++◌, concat, length, take, ltb,
  if◌then◌else◌,
}

module _ {Byte : Type 0} where
  -- `if remaining > 0`: what is kept of a chunk, and how much is kept then
  abbrev pub keep : ℕ → List Byte → List (List Byte) → List (List Byte)
  keep remaining chunk chunks =
      if ltb 0 remaining then chunks ++ take remaining chunk ∷ [] else chunks

  abbrev pub count_kept : ℕ → List Byte → ℕ → ℕ
  count_kept remaining chunk retained =
      if ltb 0 remaining then retained + min (length chunk) remaining else retained

  -- The loop, with `chunks`, `retained` and `truncated`; the chunks that `read` returns before the
  -- end of the stream are not empty.
  unfoldable pub read_chunks : ℕ → List (List Byte) → List (List Byte) → ℕ → Bool → List Byte × Bool
  read_chunks max_bytes [] chunks retained truncated = (concat chunks, truncated)
  read_chunks max_bytes (chunk ∷ stream) chunks retained truncated =
      let remaining = max_bytes - retained in
      read_chunks max_bytes stream (keep remaining chunk chunks)
        (count_kept remaining chunk retained)
        (if ltb remaining (length chunk) then true else truncated)

-- `_read_limited_stream`, with the limit `MAX_SUBPROCESS_OUTPUT_BYTES`
unfoldable pub read_limited_stream : {Byte : Type 0} → List (List Byte) → List Byte × Bool
unfolding read_chunks
read_limited_stream stream = read_chunks 256000 stream [] 0 false
