-- ===== src/Protocol/Calls/Layers.antt =====
-- The calls of the senders that change a layer, or the cursor, what each asks for, and what it sends.
use guacenc.Base.{[], ◌∷◌}
use guacenc.Base.Int.{ℤ}
use guacenc.Utf8.Sizes.{bytes}
use guacenc.Output.{codes}
use guacenc.Output.Delivery.{instruction-Sends}
use guacenc.Protocol.{Port, Sender}
use guacenc.Protocol.Elements.{IsPort, Text, Puts, int, text, double, opcode, ◌comma◌, last}
use guacenc.Protocol.Calls.{of_int, of_text, of_double, Request, request_wire}
use guacenc.Protocol.Layers.{
  send_clip, send_cursor, send_dispose, send_distort, send_identity, send_move, send_pop, send_push,
  send_reset, send_set, send_shade, send_size, send_transform,
}

pub data LayerCall (Double : Type 0) : Type 0 where
  call_clip : ℤ → LayerCall Double
  call_cursor : ℤ → ℤ → ℤ → ℤ → ℤ → ℤ → ℤ → LayerCall Double
  call_dispose : ℤ → LayerCall Double
  call_distort : ℤ → Double → Double → Double → Double → Double → Double → LayerCall Double
  call_identity : ℤ → LayerCall Double
  call_move : ℤ → ℤ → ℤ → ℤ → ℤ → LayerCall Double
  call_pop : ℤ → LayerCall Double
  call_push : ℤ → LayerCall Double
  call_reset : ℤ → LayerCall Double
  call_set : ℤ → Text → Text → LayerCall Double
  call_shade : ℤ → ℤ → LayerCall Double
  call_size : ℤ → ℤ → ℤ → LayerCall Double
  call_transform : ℤ → Double → Double → Double → Double → Double → Double → LayerCall Double

-- The opcode and the arguments.
abbrev pub request : {Double : Type 0} → LayerCall Double → Request Double
request (call_clip layer) = record { name = codes "clip"; arguments = of_int layer ∷ [] }
request (call_cursor x y srcl srcx srcy w h) = record {
  name = codes "cursor";
  arguments =
      of_int x ∷ of_int y ∷ of_int srcl ∷ of_int srcx ∷ of_int srcy ∷ of_int w ∷ of_int h ∷ [];
}
request (call_dispose layer) = record { name = codes "dispose"; arguments = of_int layer ∷ [] }
request (call_distort layer a b c d e f) = record {
  name = codes "distort";
  arguments =
      of_int layer
      ∷ of_double a
      ∷ of_double b
      ∷ of_double c
      ∷ of_double d
      ∷ of_double e
      ∷ of_double f
      ∷ [];
}
request (call_identity layer) = record { name = codes "identity"; arguments = of_int layer ∷ [] }
request (call_move layer parent x y z) = record {
  name = codes "move";
  arguments = of_int layer ∷ of_int parent ∷ of_int x ∷ of_int y ∷ of_int z ∷ [];
}
request (call_pop layer) = record { name = codes "pop"; arguments = of_int layer ∷ [] }
request (call_push layer) = record { name = codes "push"; arguments = of_int layer ∷ [] }
request (call_reset layer) = record { name = codes "reset"; arguments = of_int layer ∷ [] }
request (call_set layer name value) = record {
  name = codes "set";
  arguments = of_int layer ∷ of_text name ∷ of_text value ∷ [];
}
request (call_shade layer a) = record {
  name = codes "shade";
  arguments = of_int layer ∷ of_int a ∷ [];
}
request (call_size layer w h) = record {
  name = codes "size";
  arguments = of_int layer ∷ of_int w ∷ of_int h ∷ [];
}
request (call_transform layer a b c d e f) = record {
  name = codes "transform";
  arguments =
      of_int layer
      ∷ of_double a
      ∷ of_double b
      ∷ of_double c
      ∷ of_double d
      ∷ of_double e
      ∷ of_double f
      ∷ [];
}

module _ (port : Port) where
  abbrev pub send : LayerCall port.formats.Double → Sender port
  send (call_clip layer) = send_clip port layer
  send (call_cursor x y srcl srcx srcy w h) = send_cursor port x y srcl srcx srcy w h
  send (call_dispose layer) = send_dispose port layer
  send (call_distort layer a b c d e f) = send_distort port layer a b c d e f
  send (call_identity layer) = send_identity port layer
  send (call_move layer parent x y z) = send_move port layer parent x y z
  send (call_pop layer) = send_pop port layer
  send (call_push layer) = send_push port layer
  send (call_reset layer) = send_reset port layer
  send (call_set layer name value) = send_set port layer (bytes name.chars) (bytes value.chars)
  send (call_shade layer a) = send_shade port layer a
  send (call_size layer w h) = send_size port layer w h
  send (call_transform layer a b c d e f) = send_transform port layer a b c d e f

module _ {port : Port} (correct : IsPort port) where
  pub send-Puts :
      (c : LayerCall port.formats.Double)
      → Puts correct (send port c) (request_wire port.formats (request c))
  unfolding send_clip send_cursor send_dispose send_distort send_identity send_move send_pop
      send_push send_reset send_set send_shade send_size send_transform
  send-Puts (call_clip layer) =
      instruction-Sends correct.channel (opcode (codes "4.clip,") (last (int correct layer)))
  send-Puts (call_cursor x y srcl srcx srcy w h) = instruction-Sends correct.channel (
      opcode (codes "6.cursor,") (
        int correct x
        comma int correct y
        comma int correct srcl
        comma int correct srcx
        comma int correct srcy
        comma int correct w
        comma last (int correct h)))
  send-Puts (call_dispose layer) =
      instruction-Sends correct.channel (opcode (codes "7.dispose,") (last (int correct layer)))
  send-Puts (call_distort layer a b c d e f) = instruction-Sends correct.channel (
      opcode (codes "7.distort,") (
        int correct layer
        comma double correct a
        comma double correct b
        comma double correct c
        comma double correct d
        comma double correct e
        comma last (double correct f)))
  send-Puts (call_identity layer) =
      instruction-Sends correct.channel (opcode (codes "8.identity,") (last (int correct layer)))
  send-Puts (call_move layer parent x y z) = instruction-Sends correct.channel (
      opcode (codes "4.move,") (
        int correct layer
        comma int correct parent
        comma int correct x
        comma int correct y
        comma last (int correct z)))
  send-Puts (call_pop layer) =
      instruction-Sends correct.channel (opcode (codes "3.pop,") (last (int correct layer)))
  send-Puts (call_push layer) =
      instruction-Sends correct.channel (opcode (codes "4.push,") (last (int correct layer)))
  send-Puts (call_reset layer) =
      instruction-Sends correct.channel (opcode (codes "5.reset,") (last (int correct layer)))
  send-Puts (call_set layer name value) = instruction-Sends correct.channel (
      opcode (codes "3.set,") (
        int correct layer
        comma text correct name.chars name.text
        comma last (text correct value.chars value.text)))
  send-Puts (call_shade layer a) =
      instruction-Sends correct.channel
        (opcode (codes "5.shade,") (int correct layer comma last (int correct a)))
  send-Puts (call_size layer w h) =
      instruction-Sends correct.channel (
        opcode (codes "4.size,") (int correct layer comma int correct w comma last (int correct h)))
  send-Puts (call_transform layer a b c d e f) = instruction-Sends correct.channel (
      opcode (codes "9.transform,") (
        int correct layer
        comma double correct a
        comma double correct b
        comma double correct c
        comma double correct d
        comma double correct e
        comma last (double correct f)))
