-- ===== src/Ipc/Messages/Lines.antt =====
-- A line that is written is read back.
use tgent.Prelude.{ℕ, false, ◌≡◌, refl, ltb, ap, sym, ◌∙◌, String}
use tgent.Result.{Result, ok, err, >>=-eq-ok, guard-eq-ok}
use tgent.Json.{Fields}
use tgent.Ipc.Messages.{Codec, IsCodec, encode_line, read_line, or_ipc}

module _ (codec : Codec) (max_bytes : ℕ) where
  ok-injective : (l m : codec.Line) → ok l ≡ ok m → l ≡ m
  ok-injective l m h = cc

  or_ipc-eq-ok :
      {A : Type 0} (r : Result A) (text : String) (a : A) → or_ipc text r ≡ ok a → r ≡ ok a
  or_ipc-eq-ok (ok b) text a h = h
  or_ipc-eq-ok (err e) text a h = cc

  -- What `_encode_line` returns was written, and is not too long.
  pub encode_line-eq-ok :
      (fs : Fields) (line : codec.Line)
      → encode_line codec max_bytes fs ≡ ok line
      → (codec.dumps fs ≡ ok line) × (ltb max_bytes (codec.size line) ≡ false)
  unfolding encode_line
  encode_line-eq-ok fs line h =
      let (l, wrapped, h1) =
        >>=-eq-ok (or_ipc "Could not encode JSON-RPC message" (codec.dumps fs)) _ h in
      let (short, same) = guard-eq-ok (ltb max_bytes (codec.size l)) _ (ok l) h1 in
      (
        or_ipc-eq-ok (codec.dumps fs) _ l wrapped ∙ same,
        ap (λ x. ltb max_bytes (codec.size x)) (sym (ok-injective l line same)) ∙ short,
      )

  pub read-encoded :
      (fs : Fields) (line : codec.Line)
      → IsCodec codec
      → encode_line codec max_bytes fs ≡ ok line
      → read_line codec max_bytes (ok line) ≡ ok fs
  unfolding read_line
  read-encoded fs line is_codec h =
      let (dumped, short) = encode_line-eq-ok fs line h in
      let (loaded, ended, present) = is_codec.written fs line dumped in
      rw (present, short, ended, loaded) refl
