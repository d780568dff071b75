-- ===== src/S3/Wire.antt =====
-- What the s3 client sends, what comes back, and the errors that it makes of it. The endpoint is any
-- function of its own state; signing does not change what a request asks for.
use Prim.Native.String.{String}
use packages_go.Prelude.{
  ℤ, ℕ, Bool, true, false, ◌||◌, ◌&&◌, Option, List, [], ◌∷◌, ◌++◌, Bytes, codes, leb, ltb,
}

-- An error: whether errors.As finds a net.Error in it, and its text.
pub record Failure : Type 0 where
  pub is_net : Bool
  pub text : Bytes

-- The bytes of a message, kept shut.
unfoldable pub text : String → Bytes
text s = codes s

-- errors.New and fmt.Errorf without %w
abbrev pub plain : Bytes → Failure
plain message = record { is_net = false; text = message }

-- fmt.Errorf("…: %w", err)
unfoldable pub wrap : Bytes → Failure → Failure
wrap prefix e = record { is_net = e.is_net; text = prefix ++ e.text }

-- errors.Join
unfoldable pub join : Failure → Failure → Failure
join e f = record { is_net = e.is_net || f.is_net; text = e.text ++ (b'\n' ∷ f.text) }

pub data Result {ℓ} (A : Type ℓ) : Type ℓ where
  ok : A → Result A
  err : Failure → Result A

-- A completed part of a multipart upload.
pub record Part : Type 0 where
  pub number : ℕ
  pub etag : Bytes

pub data Request : Type 0 where
  -- POST key?uploads
  create : Bytes → Request
  -- PUT key?partNumber=number&uploadId=id, with the part's bytes
  upload : Bytes → Bytes → ℕ → Bytes → Request
  -- POST key?uploadId=id, with the list of parts
  complete : Bytes → Bytes → List Part → Request
  -- DELETE key?uploadId=id
  abort : Bytes → Bytes → Request
  -- GET key with a Range header ("" for none), and PUT key with its bytes and content type
  fetch : Bytes → Bytes → Request
  put : Bytes → Bytes → Bytes → Request
  -- DELETE key
  remove : Bytes → Request
  -- GET of the bucket with prefix, start-after ("" for none) and max-keys
  list : Bytes → Bytes → ℤ → Request

pub data Reply : Type 0 where
  -- an error of http.Client.Do: a *url.Error, which is a net.Error
  broken : Bytes → Reply
  -- status, ETag ("" when absent), the bytes of the body, and the error of reading it to its end
  answered : ℕ → Bytes → Bytes → Option Failure → Reply

-- The endpoint's state, and the requests sent so far with their replies, oldest first.
pub record World (S : Type 0) : Type 0 where
  pub endpoint : S
  pub log : List (Request × Reply)

module _ {S : Type 0} (serve : Request → S → Reply × S) where
  -- c.http.Do(request)
  unfoldable pub send : Request → World S → Reply × World S
  send q w =
      let (reply, s) = serve q w.endpoint in
      (reply, record { endpoint = s; log = w.log ++ (q, reply) ∷ [] })

-- The error that Do returns.
abbrev pub network : Bytes → Failure
network message = record { is_net = true; text = message }

-- status < 200 || status >= 300, negated
abbrev pub is_success : ℕ → Bool
is_success status = leb 200 status && ltb status 300
