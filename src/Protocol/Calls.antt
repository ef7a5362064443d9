-- ===== src/Protocol/Calls.antt =====
-- What the senders of src/libguac/protocol.c are asked to send, as a client of the protocol sees it: an
-- opcode with its arguments.
pub mod Drawing
pub mod Layers
pub mod Streams
pub mod Control
pub mod Blobs
pub mod Lists
pub mod Names
pub mod Characters
use guacenc.Base.{
  ℕ, zero, suc, ◌+◌, ◌-◌, ◌*◌, ◌/◌, ◌%◌, ◌^◌, ◌≤◌, ◌<◌, min, ◌≡◌, refl, sym, ap, ◌∙◌, ◌≢◌, ◌↔◌, ◌⊎◌,
  inl, inr, Bool, true, false, not, ◌&&◌, ◌||◌, Option, none, some, List, [], ◌∷◌, ◌++◌, map,
  append-nil, append_assoc, arith, ltb, leb, ◌==◌, if◌then◌else◌, Bool-cases, Option-cases, tests,
  ltb→lt, lt→ltb, leb→le, ==_iff, length, get_elem?, set, get_or, take, drop, replicate,
  length-append, length-set, length-take, length-drop, length-replicate, length-map,
  get_elem?-set_self, get_elem?-set_ne, take-append-drop, take_left, drop_left, set_middle,
  get_elem?-none,
}
use guacenc.Base.Int.{ℤ, pos}
use guacenc.Parser.Wire.{Element}
use guacenc.Parser.Elements.{wire}
use guacenc.Protocol.{Formats, blob_max_length}
use guacenc.Base64.RoundTrip.{AllBytes}
use guacenc.Output.Encoding.{base64}
use guacenc.Protocol.Elements.{
  Text, element, int_element, double_element, ascii, fixed, flag_element,
}

-- The data of one blob, which is sent in base64.
pub record Block : Type 0 where
  pub content : List ℕ
  pub all_bytes : AllBytes content
  pub limit : length content ≤ blob_max_length

-- A Boolean is sent as 0 or 1.
pub data Arg (Double : Type 0) : Type 0 where
  of_int of_flag : ℤ → Arg Double
  of_text : Text → Arg Double
  of_block : Block → Arg Double
  of_double : Double → Arg Double

pub record Request (Double : Type 0) : Type 0 where
  pub name : List ℕ
  pub arguments : List (Arg Double)

module _ (formats : Formats) where
  abbrev pub argument_element : Arg formats.Double → Element
  argument_element (of_int i) = int_element formats i
  argument_element (of_flag f) = flag_element f
  argument_element (of_text t) = element formats t.chars
  argument_element (of_block b) = element formats (ascii (base64 b.content))
  argument_element (of_double d) = double_element formats d

  -- The request as it is written.
  abbrev pub request_wire : Request formats.Double → List ℕ
  request_wire r = wire (fixed r.name) (map argument_element r.arguments)
