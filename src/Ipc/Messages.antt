-- ===== src/Ipc/Messages.antt =====
-- `_encode_line`, `_read_line` and `_validate_request`. The JSON codec is a parameter.
pub mod Lines
use Prim.Native.String.{◌++◌}
use tgent.Prelude.{
  ℕ, String, Bool, true, false, not, ◌&&◌, ◌||◌, ◌≡◌, Option, none, some, ltb, decimal, ◌==◌,
  if◌then◌else◌,
}
use tgent.Result.{Result, ok, err, Error, ipc_error, os_error, message, ◌>>=◌, ◌>>◌, raise_if}
use tgent.Json.{
  Json, null, bool, int, float, str, arr, obj, Fields, end, get, get_value, eq_text, is_null,
}

-- What the transport takes from its surroundings. `dumps` is the compact `json.dumps` of an object
-- in UTF-8, with a newline behind it; `loads` is `json.loads`; `size` counts bytes; `ended` says
-- that a line ends with a newline, and `empty` that there is none.
pub record Codec : Type 1 where
  pub Line : Type 0
  pub dumps : Fields → Result Line
  pub loads : Line → Result Json
  pub size : Line → ℕ
  pub ended : Line → Bool
  pub empty : Line → Bool

-- What the documentation of `json` says of an object that can be written.
pub record IsCodec (codec : Codec) : Type 0 where
  pub written :
      (fs : Fields) (line : codec.Line)
      → codec.dumps fs ≡ ok line
      → (codec.loads line ≡ ok (obj fs)) × (codec.ended line ≡ true) × (codec.empty line ≡ false)

-- `except … as err: raise AgentIPCError(f"{text}: {err}")`
abbrev or_ipc {ℓ} : {A : Type ℓ} → String → Result A → Result A
or_ipc text (ok a) = ok a
or_ipc text (err e) = err (ipc_error (text ++ (": " ++ message e)))

-- the same with a text of its own
abbrev or_refused {ℓ} : {A : Type ℓ} → String → Result A → Result A
or_refused text (ok a) = ok a
or_refused text (err e) = err (ipc_error text)

-- What `reader.readline()` raises: an OSError is let through, a LimitOverrunError or a ValueError is
-- not.
abbrev or_limit {ℓ} : {A : Type ℓ} → Result A → Result A
or_limit (err (os_error text)) = err (os_error text)
or_limit outcome = or_refused "JSON-RPC message exceeds stream limit" outcome

abbrev too_long : ℕ → Error
too_long max_bytes = ipc_error ("JSON-RPC message exceeds " ++ (decimal max_bytes ++ " byte limit"))

abbrev or_object : Json → Result Fields
or_object (obj fs) = ok fs
or_object _ = err (ipc_error "JSON-RPC message must be an object")

module _ (codec : Codec) (max_bytes : ℕ) where
  -- `_encode_line`
  unfoldable pub encode_line : Fields → Result codec.Line
  encode_line value = do
    line ← or_ipc "Could not encode JSON-RPC message" (codec.dumps value)
    raise_if (ltb max_bytes (codec.size line)) (too_long max_bytes)
    ok line

  -- `_read_line`, over the outcome of `reader.readline()`
  unfoldable pub read_line : Result codec.Line → Result Fields
  read_line outcome = do
    raw ← or_limit outcome
    raise_if (codec.empty raw) (ipc_error "Peer closed the connection")
    raise_if (ltb max_bytes (codec.size raw)) (too_long max_bytes)
    raise_if (not (codec.ended raw)) (ipc_error "JSON-RPC message must end with newline")
    value ← or_refused "Invalid JSON-RPC JSON" (codec.loads raw)
    or_object value

abbrev pub or_method : Json → Result String
or_method (str method) =
    if method == ""
    then err (ipc_error "JSON-RPC request requires a non-empty method")
    else ok method
or_method _ = err (ipc_error "JSON-RPC request requires a non-empty method")

-- `None`, a text or an integer that is no `bool`
abbrev pub is_id : Json → Bool
is_id null = true
is_id (str s) = true
is_id (int n) = true
is_id _ = false

abbrev pub or_params : Option Json → Result Fields
or_params none = ok end
or_params (some (obj fs)) = ok fs
or_params (some _) = err (ipc_error "JSON-RPC params must be an object")

pub record Request : Type 0 where
  pub method : String
  pub request_id : Json
  pub params : Fields

-- `_validate_request`
unfoldable pub validate_request : Fields → Result Request
validate_request fs = do
  raise_if (not (eq_text "2.0" (get_value "jsonrpc" fs))) (ipc_error "Unsupported JSON-RPC version")
  method ← or_method (get_value "method" fs)
  raise_if (not (is_id (get_value "id" fs))) (ipc_error "JSON-RPC id must be a string or integer")
  params ← or_params (get "params" fs)
  ok (record { method = method; request_id = get_value "id" fs; params = params })
