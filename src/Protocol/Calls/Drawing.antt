-- ===== src/Protocol/Calls/Drawing.antt =====
-- The calls of the senders that draw, what each asks for, and what it sends.
use guacenc.Base.{[], ◌∷◌}
use guacenc.Base.Int.{ℤ}
use guacenc.Utf8.Sizes.{bytes}
use guacenc.Output.{codes}
use guacenc.Output.Delivery.{instruction-Sends}
use guacenc.Protocol.{Port, Sender}
use guacenc.Protocol.Elements.{IsPort, Text, Puts, int, text, double, flag, opcode, ◌comma◌, last}
use guacenc.Protocol.Calls.{of_int, of_text, of_double, of_flag, Request, request_wire}
use guacenc.Protocol.Drawing.{
  send_arc, send_cfill, send_copy, send_cstroke, send_curve, send_line, send_lfill, send_lstroke,
  send_rect, send_start, send_close, send_transfer, send_img,
}

pub data DrawingCall (Double : Type 0) : Type 0 where
  call_arc : ℤ → ℤ → ℤ → ℤ → Double → Double → ℤ → DrawingCall Double
  call_cfill : ℤ → ℤ → ℤ → ℤ → ℤ → ℤ → DrawingCall Double
  call_copy : ℤ → ℤ → ℤ → ℤ → ℤ → ℤ → ℤ → ℤ → ℤ → DrawingCall Double
  call_cstroke : ℤ → ℤ → ℤ → ℤ → ℤ → ℤ → ℤ → ℤ → ℤ → DrawingCall Double
  call_curve : ℤ → ℤ → ℤ → ℤ → ℤ → ℤ → ℤ → DrawingCall Double
  call_line : ℤ → ℤ → ℤ → DrawingCall Double
  call_lfill : ℤ → ℤ → ℤ → DrawingCall Double
  call_lstroke : ℤ → ℤ → ℤ → ℤ → ℤ → ℤ → DrawingCall Double
  call_rect : ℤ → ℤ → ℤ → ℤ → ℤ → DrawingCall Double
  call_start : ℤ → ℤ → ℤ → DrawingCall Double
  call_close : ℤ → DrawingCall Double
  call_transfer : ℤ → ℤ → ℤ → ℤ → ℤ → ℤ → ℤ → ℤ → ℤ → DrawingCall Double
  call_img : ℤ → ℤ → ℤ → Text → ℤ → ℤ → DrawingCall Double

-- The opcode and the arguments.
abbrev pub request : {Double : Type 0} → DrawingCall Double → Request Double
request (call_arc layer x y radius start_angle end_angle negative) = record {
  name = codes "arc";
  arguments =
      of_int layer
      ∷ of_int x
      ∷ of_int y
      ∷ of_int radius
      ∷ of_double start_angle
      ∷ of_double end_angle
      ∷ of_flag negative
      ∷ [];
}
request (call_cfill mode layer r g b a) = record {
  name = codes "cfill";
  arguments = of_int mode ∷ of_int layer ∷ of_int r ∷ of_int g ∷ of_int b ∷ of_int a ∷ [];
}
request (call_copy srcl srcx srcy w h mode dstl dstx dsty) = record {
  name = codes "copy";
  arguments =
      of_int srcl
      ∷ of_int srcx
      ∷ of_int srcy
      ∷ of_int w
      ∷ of_int h
      ∷ of_int mode
      ∷ of_int dstl
      ∷ of_int dstx
      ∷ of_int dsty
      ∷ [];
}
request (call_cstroke mode layer cap join thickness r g b a) = record {
  name = codes "cstroke";
  arguments =
      of_int mode
      ∷ of_int layer
      ∷ of_int cap
      ∷ of_int join
      ∷ of_int thickness
      ∷ of_int r
      ∷ of_int g
      ∷ of_int b
      ∷ of_int a
      ∷ [];
}
request (call_curve layer cp1x cp1y cp2x cp2y x y) = record {
  name = codes "curve";
  arguments =
      of_int layer
      ∷ of_int cp1x
      ∷ of_int cp1y
      ∷ of_int cp2x
      ∷ of_int cp2y
      ∷ of_int x
      ∷ of_int y
      ∷ [];
}
request (call_line layer x y) = record {
  name = codes "line";
  arguments = of_int layer ∷ of_int x ∷ of_int y ∷ [];
}
request (call_lfill mode layer srcl) = record {
  name = codes "lfill";
  arguments = of_int mode ∷ of_int layer ∷ of_int srcl ∷ [];
}
request (call_lstroke mode layer cap join thickness srcl) = record {
  name = codes "lstroke";
  arguments =
      of_int mode ∷ of_int layer ∷ of_int cap ∷ of_int join ∷ of_int thickness ∷ of_int srcl ∷ [];
}
request (call_rect layer x y width height) = record {
  name = codes "rect";
  arguments = of_int layer ∷ of_int x ∷ of_int y ∷ of_int width ∷ of_int height ∷ [];
}
request (call_start layer x y) = record {
  name = codes "start";
  arguments = of_int layer ∷ of_int x ∷ of_int y ∷ [];
}
request (call_close layer) = record { name = codes "close"; arguments = of_int layer ∷ [] }
request (call_transfer srcl srcx srcy w h fn dstl dstx dsty) = record {
  name = codes "transfer";
  arguments =
      of_int srcl
      ∷ of_int srcx
      ∷ of_int srcy
      ∷ of_int w
      ∷ of_int h
      ∷ of_int fn
      ∷ of_int dstl
      ∷ of_int dstx
      ∷ of_int dsty
      ∷ [];
}
request (call_img stream mode layer mimetype x y) = record {
  name = codes "img";
  arguments =
      of_int stream ∷ of_int mode ∷ of_int layer ∷ of_text mimetype ∷ of_int x ∷ of_int y ∷ [];
}

module _ (port : Port) where
  abbrev pub send : DrawingCall port.formats.Double → Sender port
  send (call_arc layer x y radius start_angle end_angle negative) =
      send_arc port layer x y radius start_angle end_angle negative
  send (call_cfill mode layer r g b a) = send_cfill port mode layer r g b a
  send (call_copy srcl srcx srcy w h mode dstl dstx dsty) =
      send_copy port srcl srcx srcy w h mode dstl dstx dsty
  send (call_cstroke mode layer cap join thickness r g b a) =
      send_cstroke port mode layer cap join thickness r g b a
  send (call_curve layer cp1x cp1y cp2x cp2y x y) = send_curve port layer cp1x cp1y cp2x cp2y x y
  send (call_line layer x y) = send_line port layer x y
  send (call_lfill mode layer srcl) = send_lfill port mode layer srcl
  send (call_lstroke mode layer cap join thickness srcl) =
      send_lstroke port mode layer cap join thickness srcl
  send (call_rect layer x y width height) = send_rect port layer x y width height
  send (call_start layer x y) = send_start port layer x y
  send (call_close layer) = send_close port layer
  send (call_transfer srcl srcx srcy w h fn dstl dstx dsty) =
      send_transfer port srcl srcx srcy w h fn dstl dstx dsty
  send (call_img stream mode layer mimetype x y) =
      send_img port stream mode layer (bytes mimetype.chars) x y

module _ {port : Port} (correct : IsPort port) where
  pub send-Puts :
      (c : DrawingCall port.formats.Double)
      → Puts correct (send port c) (request_wire port.formats (request c))
  unfolding send_arc send_cfill send_copy send_cstroke send_curve send_line send_lfill send_lstroke
      send_rect send_start send_close send_transfer send_img
  send-Puts (call_arc layer x y radius start_angle end_angle negative) =
      instruction-Sends correct.channel (
        opcode (codes "3.arc,") (
          int correct layer
          comma int correct x
          comma int correct y
          comma int correct radius
          comma double correct start_angle
          comma double correct end_angle
          comma last (flag correct negative)))
  send-Puts (call_cfill mode layer r g b a) = instruction-Sends correct.channel (
      opcode (codes "5.cfill,") (
        int correct mode
        comma int correct layer
        comma int correct r
        comma int correct g
        comma int correct b
        comma last (int correct a)))
  send-Puts (call_copy srcl srcx srcy w h mode dstl dstx dsty) = instruction-Sends correct.channel (
      opcode (codes "4.copy,") (
        int correct srcl
        comma int correct srcx
        comma int correct srcy
        comma int correct w
        comma int correct h
        comma int correct mode
        comma int correct dstl
        comma int correct dstx
        comma last (int correct dsty)))
  send-Puts (call_cstroke mode layer cap join thickness r g b a) =
      instruction-Sends correct.channel (
        opcode (codes "7.cstroke,") (
          int correct mode
          comma int correct layer
          comma int correct cap
          comma int correct join
          comma int correct thickness
          comma int correct r
          comma int correct g
          comma int correct b
          comma last (int correct a)))
  send-Puts (call_curve layer cp1x cp1y cp2x cp2y x y) = instruction-Sends correct.channel (
      opcode (codes "5.curve,") (
        int correct layer
        comma int correct cp1x
        comma int correct cp1y
        comma int correct cp2x
        comma int correct cp2y
        comma int correct x
        comma last (int correct y)))
  send-Puts (call_line layer x y) =
      instruction-Sends correct.channel (
        opcode (codes "4.line,") (int correct layer comma int correct x comma last (int correct y)))
  send-Puts (call_lfill mode layer srcl) = instruction-Sends correct.channel (
      opcode (codes "5.lfill,")
        (int correct mode comma int correct layer comma last (int correct srcl)))
  send-Puts (call_lstroke mode layer cap join thickness srcl) = instruction-Sends correct.channel (
      opcode (codes "7.lstroke,") (
        int correct mode
        comma int correct layer
        comma int correct cap
        comma int correct join
        comma int correct thickness
        comma last (int correct srcl)))
  send-Puts (call_rect layer x y width height) = instruction-Sends correct.channel (
      opcode (codes "4.rect,") (
        int correct layer
        comma int correct x
        comma int correct y
        comma int correct width
        comma last (int correct height)))
  send-Puts (call_start layer x y) =
      instruction-Sends correct.channel (
        opcode (codes "5.start,")
          (int correct layer comma int correct x comma last (int correct y)))
  send-Puts (call_close layer) =
      instruction-Sends correct.channel (opcode (codes "5.close,") (last (int correct layer)))
  send-Puts (call_transfer srcl srcx srcy w h fn dstl dstx dsty) =
      instruction-Sends correct.channel (
        opcode (codes "8.transfer,") (
          int correct srcl
          comma int correct srcx
          comma int correct srcy
          comma int correct w
          comma int correct h
          comma int correct fn
          comma int correct dstl
          comma int correct dstx
          comma last (int correct dsty)))
  send-Puts (call_img stream mode layer mimetype x y) = instruction-Sends correct.channel (
      opcode (codes "3.img,") (
        int correct stream
        comma int correct mode
        comma int correct layer
        comma text correct mimetype.chars mimetype.text
        comma int correct x
        comma last (int correct y)))
