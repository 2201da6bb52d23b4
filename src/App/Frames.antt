-- ===== src/App/Frames.antt =====
-- src/app/Application.cpp: the frames by which a second start hands a URI to the first. The socket is a
-- list of chunks of bytes; the text of a payload, trimmed, is a parameter.
pub mod Cutting
pub mod Delivery
pub mod Bounds
use shelf_remote.Prelude.{
  ℕ, true, false, zero, suc, [], Bool, ◌*◌, List, Chars, length, if◌then◌else◌, is_empty, ◌∷◌, not,
  ◌==◌, ◌%◌, ◌++◌, ◌||◌, ◌+◌, ltb, take, drop, ◌≤◌, ◌/◌,
}

abbrev pub Bytes : Type 0
Bytes = List ℕ

abbrev pub max_frame_bytes : ℕ
max_frame_bytes = 64 * 1024

-- The size as a 32-bit integer, its highest byte first, and the payload.
unfoldable pub frame : Bytes → Bytes
frame payload =
    let n = length payload % 4294967296 in
    n / 16777216 ∷ n / 65536 % 256 ∷ n / 256 % 256 ∷ n % 256 ∷ payload

-- What stands at the front of a buffer: too little, a length that is refused, or a payload and the rest.
pub data Front : Type 0 where
  wait bad : Front
  whole : Bytes → Bytes → Front

unfoldable pub cut : ℕ → Bytes → Front
cut len rest =
    if len == 0 || ltb max_frame_bytes len
    then bad
    else if ltb (length rest) len
    then wait
    else whole (take len rest) (drop len rest)

unfoldable pub front : Bytes → Front
front (a ∷ b ∷ c ∷ d ∷ rest) = cut (((a * 256 + b) * 256 + c) * 256 + d) rest
front bytes = wait

-- A connection: what is left to read, whether it is open, the URIs handed on, newest first, and the
-- acknowledgements written.
pub record Conn : Type 0 where
  pub buffer : Bytes
  pub is_open : Bool
  pub received : List Chars
  pub acks : ℕ

unfoldable pub deliver : Chars → Conn → Conn
deliver uri c =
    if is_empty uri then c else record c { received = uri ∷ c.received; acks = c.acks + 1 }

module _ (text_of : Bytes → Chars) where
  -- The loop that takes whole frames off the buffer; each is at least five bytes, so the length of the
  -- buffer is fuel enough.
  unfoldable pub drain : ℕ → Conn → Conn
  drain zero c = c
  drain (suc n) c = elim (front c.buffer) [
    | wait ↦ c
    | bad ↦ record c { is_open = false }
    | whole payload rest ↦ drain n (deliver (text_of payload) (record c { buffer = rest }))
  ]

  -- A connection that was aborted hears no more.
  unfoldable pub on_ready_read : Bytes → Conn → Conn
  on_ready_read chunk c =
      if not c.is_open
      then c
      else let bytes = c.buffer ++ chunk in drain (length bytes) (record c { buffer = bytes })

  unfoldable pub read_all : List Bytes → Conn → Conn
  read_all [] c = c
  read_all (chunk ∷ chunks) c = read_all chunks (on_ready_read chunk c)

abbrev pub new_conn : Conn
new_conn = record { buffer = []; is_open = true; received = []; acks = 0 }
