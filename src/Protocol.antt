-- ===== src/Protocol.antt =====
-- The instructions that libguac sends: src/libguac/protocol.c. A child module stands for each group of
-- senders.
-- A layer, a stream or an object is its index, which is all that a sender reads of it; an enumeration
-- is its number. A string is the list of its bytes, without the terminator.
-- `snprintf` is a parameter: what it makes of "%" PRIi64 and of "%.16g" in a buffer of 128 bytes.
pub mod Drawing
pub mod Layers
pub mod Streams
pub mod Control
pub mod Elements
pub mod Calls
pub mod Delivery
pub mod Received
use guacenc.Base.{
  ℕ, zero, suc, ◌+◌, ◌-◌, ◌*◌, ◌/◌, ◌%◌, ◌^◌, ◌≤◌, ◌<◌, min, ◌≡◌, refl, sym, ap, ◌∙◌, ◌≢◌, ◌↔◌, ◌⊎◌,
  inl, inr, Bool, true, false, not, ◌&&◌, ◌||◌, Option, none, some, List, [], ◌∷◌, ◌++◌, map,
  append-nil, append_assoc, arith, ltb, leb, ◌==◌, if◌then◌else◌, Bool-cases, Option-cases, tests,
  ltb→lt, lt→ltb, leb→le, ==_iff, length, get_elem?, set, get_or, take, drop, replicate,
  length-append, length-set, length-take, length-drop, length-replicate, length-map,
  get_elem?-set_self, get_elem?-set_ne, take-append-drop, take_left, drop_left, set_middle,
  get_elem?-none,
}
use Prim.Native.String.{String}
use guacenc.Base.Int.{ℤ, pos}
use guacenc.Utf8.{strlen}
use guacenc.Output.{Handlers, Action, ◌or_else◌, codes, is_zero, write, write_string}

pub record Formats : Type 1 where
  pub Double : Type 0
  pub format_int : ℤ → List ℕ
  pub format_double : Double → List ℕ

-- A socket's handlers, and the formatting of numbers.
pub record Port : Type 1 where
  pub handlers : Handlers
  pub formats : Formats

-- `GUACAMOLE_PROTOCOL_VERSION`
abbrev pub protocol_version : List ℕ
protocol_version = codes "VERSION_1_1_0"

-- `GUAC_PROTOCOL_BLOB_MAX_LENGTH`
abbrev pub blob_max_length : ℕ
blob_max_length = 6048

module _ (port : Port) where
  abbrev pub Sender : Type 0
  Sender = Action port.handlers.World

  abbrev pub literal : String → Sender
  literal str = write_string port.handlers (codes str)

  -- `guac_socket_write_int`
  unfoldable pub write_int : ℤ → Sender
  unfolding write
  write_int i = write port.handlers (port.formats.format_int i)

  -- `__guac_socket_write_length_string`
  unfoldable pub write_length_string : List ℕ → Sender
  unfolding ◌or_else◌ write_string strlen write_int
  write_length_string str =
      write_int (pos (strlen str)) or_else literal "." or_else write_string port.handlers str

  -- `__guac_socket_write_length_int`
  unfoldable pub write_length_int : ℤ → Sender
  unfolding write_length_string
  write_length_int i = write_length_string (port.formats.format_int i)

  -- `__guac_socket_write_length_double`
  unfoldable pub write_length_double : port.formats.Double → Sender
  unfolding write_length_string
  write_length_double d = write_length_string (port.formats.format_double d)

  -- `flag ? "1.1" : "1.0"`
  unfoldable pub write_flag : ℤ → Sender
  unfolding write_string is_zero
  write_flag flag = write_string port.handlers (if is_zero flag then codes "1.0" else codes "1.1")
