-- ===== src/Worker/Streams/Limited.antt =====
-- The output of a command is cut at the limit, and nowhere else.
use mathlib.Core.List.{append-nil, append_assoc}
use tgent.Prelude.{
  ℕ, zero, suc, ◌-◌, min, Bool, true, false, ◌≡◌, refl, sym, ap, ◌∙◌, List, [], ◌∷◌, ◌++◌, concat,
  length, take, ltb, if◌then◌else◌, arith, length-append, take-append, concat-snoc,
}
use tgent.Worker.Streams.{read_chunks, read_limited_stream, keep, count_kept}

zero_lt : (n : ℕ) → ltb 0 (suc n) ≡ true
zero_lt n = ground arith

module _ {Byte : Type 0} (max_bytes : ℕ) where
  -- What the loop keeps of the bytes `seen` so far.
  record Keeps (seen : List Byte) (chunks : List (List Byte)) (retained : ℕ) (truncated : Bool)
      : Type 0 where
    prefix : concat chunks ≡ take max_bytes seen
    measured : retained ≡ min (length seen) max_bytes
    told : truncated ≡ ltb max_bytes (length seen)

  keep-prefix :
      (seen chunk : List Byte) (chunks : List (List Byte)) (remaining : ℕ)
      → concat chunks ≡ take max_bytes seen
      → remaining ≡ max_bytes - length seen
      → concat (keep remaining chunk chunks) ≡ take max_bytes (seen ++ chunk)
  keep-prefix seen chunk chunks zero kept left =
      kept
      ∙ sym (append-nil (take max_bytes seen))
      ∙ ap (λ k. take max_bytes seen ++ take k chunk) left
      ∙ sym (take-append max_bytes seen chunk)
  keep-prefix seen chunk chunks (suc n) kept left =
      ap (λ b. concat (if b then chunks ++ take (suc n) chunk ∷ [] else chunks)) (zero_lt n)
      ∙ concat-snoc chunks (take (suc n) chunk)
      ∙ ap (λ xs. xs ++ take (suc n) chunk) kept
      ∙ ap (λ k. take max_bytes seen ++ take k chunk) left
      ∙ sym (take-append max_bytes seen chunk)

  count_kept-measured :
      (seen chunk : List Byte) (retained : ℕ)
      → retained ≡ min (length seen) max_bytes
      → count_kept (max_bytes - retained) chunk retained ≡ min (length (seen ++ chunk)) max_bytes
  count_kept-measured seen chunk retained h = ground (arith, length-append seen chunk)

  told_longer :
      (seen chunk : List Byte) (retained : ℕ) (truncated : Bool)
      → retained ≡ min (length seen) max_bytes
      → truncated ≡ ltb max_bytes (length seen)
      → (if ltb (max_bytes - retained) (length chunk) then true else truncated)
        ≡ ltb max_bytes (length (seen ++ chunk))
  told_longer seen chunk retained truncated h told = ground (arith, length-append seen chunk)

  read_chunks_lem :
      (stream : List (List Byte)) (seen : List Byte) (chunks : List (List Byte)) (retained : ℕ)
      (truncated : Bool)
      → Keeps seen chunks retained truncated
      → read_chunks max_bytes stream chunks retained truncated
        ≡ (take max_bytes (seen ++ concat stream), ltb max_bytes (length (seen ++ concat stream)))
  unfolding read_chunks
  read_chunks_lem [] seen chunks retained truncated k =
      rw (append-nil seen) (λ i. (k.prefix i, k.told i))
  read_chunks_lem (chunk ∷ stream) seen chunks retained truncated k =
      read_chunks_lem stream (seen ++ chunk) (keep (max_bytes - retained) chunk chunks)
        (count_kept (max_bytes - retained) chunk retained)
        (if ltb (max_bytes - retained) (length chunk) then true else truncated)
        (record {
          prefix =
              keep-prefix seen chunk chunks (max_bytes - retained) k.prefix
                (ground (arith, k.measured));
          measured = count_kept-measured seen chunk retained k.measured;
          told = told_longer seen chunk retained truncated k.measured k.told;
        })
      ∙ ap (λ (xs : List Byte). (take max_bytes xs, ltb max_bytes (length xs)))
          (append_assoc seen chunk (concat stream))

module _ {Byte : Type 0} where
  -- However a stream is cut into chunks, its first 256000 bytes are returned, and that it is
  -- truncated exactly if it is longer.
  pub read_limited_stream_lem :
      (stream : List (List Byte))
      → read_limited_stream stream
        ≡ (take 256000 (concat stream), ltb 256000 (length (concat stream)))
  unfolding read_limited_stream
  read_limited_stream_lem stream =
      read_chunks_lem 256000 stream [] [] 0 false
        (record { prefix = refl; measured = refl; told = refl })
