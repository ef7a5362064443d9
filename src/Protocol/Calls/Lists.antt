-- ===== src/Protocol/Calls/Lists.antt =====
-- The senders whose number of arguments the caller chooses, and the log: what each asks for, and what it
-- sends.
use guacenc.Base.{ℕ, ◌≡◌, refl, ap, List, [], ◌∷◌, ◌++◌, map, arith}
use mathlib.Core.Path.{subst}
use guacenc.Utf8.Sizes.{bytes}
use guacenc.Parser.Wire.{Element}
use guacenc.Parser.Elements.{wire, head}
use guacenc.Output.{codes}
use guacenc.Output.Delivery.{instruction-Sends, write_string-Sends, or_else-Sends, or_fail-Sends}
use guacenc.Protocol.{Port, Sender, protocol_version}
use guacenc.Protocol.Elements.{
  is_ascii→AllAscii, ascii-IsText, ascii-IsText, IsPort, Puts, Text, text, opcode, last, element,
  ascii, fixed,
}
use guacenc.Protocol.Calls.{Arg, of_text, Request, argument_element, request_wire}
use guacenc.Protocol.Control.{args_loop, send_args, send_connect, send_log}

-- The protocol's version as a text.
abbrev version : Text
version = record {
  chars = ascii protocol_version;
  text = ascii-IsText protocol_version (is_ascii→AllAscii protocol_version refl);
  short = omega arith;
}

pub data ListCall : Type 0 where
  call_args call_connect : List Text → ListCall
  call_log : Text → ListCall

abbrev texts : {Double : Type 0} → List Text → List (Arg Double)
texts [] = []
texts (t ∷ ts) = of_text t ∷ texts ts

-- The opcode and the arguments; the version of the protocol comes first among those of "args".
abbrev pub request : {Double : Type 0} → ListCall → Request Double
request (call_args ts) = record { name = codes "args"; arguments = of_text version ∷ texts ts }
request (call_connect ts) = record { name = codes "connect"; arguments = texts ts }
request (call_log t) = record { name = codes "log"; arguments = of_text t ∷ [] }

abbrev strings : List Text → List (List ℕ)
strings [] = []
strings (t ∷ ts) = bytes t.chars ∷ strings ts

module _ (port : Port) where
  abbrev pub send : ListCall → Sender port
  send (call_args ts) = send_args port (strings ts)
  send (call_connect ts) = send_connect port (strings ts)
  send (call_log t) = send_log port (bytes t.chars)

-- What stands behind the first element of an instruction.
abbrev tail_wire : List Element → List ℕ
tail_wire [] = b';' ∷ []
tail_wire (e ∷ es) = b',' ∷ (head e ++ tail_wire es)

wire-tail : (e : Element) (es : List Element) → head e ++ tail_wire es ≡ wire e es
wire-tail e [] = refl
wire-tail e (f ∷ es) = ap (λ l. head e ++ (b',' ∷ l)) (wire-tail f es)

module _ {port : Port} (correct : IsPort port) where
  args_loop-Puts :
      (ts : List Text)
      → Puts correct
          (args_loop port (strings ts))
          (tail_wire (map (argument_element port.formats) (texts ts)))
  unfolding args_loop
  args_loop-Puts [] = write_string-Sends correct.channel (codes ";")
  args_loop-Puts (t ∷ ts) =
      or_fail-Sends correct.channel (write_string-Sends correct.channel (codes ","))
        (or_fail-Sends correct.channel (text correct t.chars t.text).puts (args_loop-Puts ts))

  pub send-Puts :
      (c : ListCall) → Puts correct (send port c) (request_wire port.formats (request c))
  unfolding send_args send_connect send_log
  send-Puts (call_args ts) =
      let es = map (argument_element port.formats) (texts ts) in
      let v = element port.formats version.chars in
      let c = correct.channel in
      let first =
        or_else-Sends c (write_string-Sends c (codes ","))
          (text correct version.chars version.text).puts in
      let all =
        or_fail-Sends c (write_string-Sends c (codes "4.args"))
          (or_fail-Sends c first (args_loop-Puts ts)) in
      instruction-Sends c
        (subst (Puts correct _) (ap (λ l. codes "4.args" ++ (b',' ∷ l)) (wire-tail v es)) all)
  send-Puts (call_connect ts) =
      let es = map (argument_element port.formats) (texts ts) in
      instruction-Sends correct.channel (
        subst (Puts correct _) (wire-tail (fixed (codes "connect")) es) (
          or_fail-Sends correct.channel (write_string-Sends correct.channel (codes "7.connect"))
            (args_loop-Puts ts)))
  send-Puts (call_log t) =
      instruction-Sends correct.channel
        (opcode (codes "3.log,") (last (text correct t.chars t.text)))
