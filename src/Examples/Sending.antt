-- ===== src/Examples/Sending.antt =====
-- Instructions and data through a socket that takes one byte at a time, and through one that fails.
use guacenc.Base.{
  ℕ, ◌≡◌, refl, sym, ap, ◌≢◌, inr, true, Option, none, some, List, [], ◌∷◌, ◌++◌, arith, length,
  replicate, length-replicate,
}
use guacenc.Base.Int.{ℤ, pos, negsuc}
use guacenc.Parser.{Parser, parse_length}
use guacenc.Parser.Reader.{Socket, got, ok, read}
use guacenc.Parser.Reader.Strings.{IsRead}
use guacenc.Utf8.{charsize}
use guacenc.Base64.{decode_base64}
use guacenc.Base64.RoundTrip.{decode_base64-base64}
use mathlib.Core.Option.{some_inj, none-ne-some}
use guacenc.Output.{
  triplet_output, Handlers, GuacSocket, returned, overrun, codes, write_base64_byte, write_base64,
  flush_base64,
}
use guacenc.Output.Delivery.{Taken, Channel, Delivered}
use guacenc.Output.Encoding.{base64, whole, whole-Delivered}
use guacenc.Output.Failing.{write_base64_overrun}
use guacenc.Protocol.{Port}
use guacenc.Protocol.Elements.{IsPort, fixed}
use guacenc.Protocol.Calls.{Block, request_wire}
use guacenc.Protocol.Calls.Layers.{call_size}
use guacenc.Protocol.Calls.Blobs.{contents, blobs_wire, send_blobs-Delivered}
use guacenc.Protocol.Layers.{send_size}
use guacenc.Protocol.Streams.{send_blobs}
use guacenc.Protocol.Delivery.{Call, for_layer, request, send, send-Delivered}
use guacenc.Protocol.Received.{arguments, read-send}
use guacenc.Examples.Formatting.{decimals, decimals-IsFormats}

-- The world is what has been taken so far.
abbrev one_byte : List ℕ → List ℕ → Option ℕ × List ℕ
one_byte world [] = (some 0, world)
one_byte world (b ∷ bs) = (some 1, world ++ (b ∷ []))

abbrev slow : Handlers
slow = record {
  World = List ℕ;
  now = λ world. length world;
  write_handler = some one_byte;
  flush_handler = none;
  lock_handler = some (λ world. world);
  unlock_handler = none;
}

one_byte-Taken :
    (world buf : List ℕ)
    → buf ≢ []
    → Taken (λ w. w) world buf (one_byte world buf).0 (one_byte world buf).1
one_byte-Taken world [] h = absurd (h refl)
one_byte-Taken world (b ∷ bs) h = record {
  taken = b ∷ [];
  rest = bs;
  parts = refl;
  sent = refl;
  counts = λ n e. (sym (some_inj.0 e), omega (arith, some_inj.0 e));
}

abbrev slow-Channel : Channel slow
slow-Channel = record {
  sent = λ w. w;
  handler = one_byte;
  installed = refl;
  takes = one_byte-Taken;
  lock-sent = λ f world e. ap (λ g. g world) (sym (some_inj.0 e));
  unlock-sent = λ f world e. absurd (none-ne-some f e);
}

abbrev port : Port
port = record { handlers = slow; formats = decimals }

abbrev port-IsPort : IsPort port
port-IsPort = record { channel = slow-Channel; contract = decimals-IsFormats }

abbrev fresh : GuacSocket (List ℕ)
fresh = record {
  world = [];
  last_write_timestamp = 0;
  ready = 0;
  ready_buf = record { at_0 = pos 0; at_1 = pos 0; at_2 = pos 0 };
}

-- A layer that is resized.
abbrev resized : Call ℤ
resized = for_layer (call_size (pos 0) (pos 640) (pos 480))

abbrev size_sent : List ℕ
size_sent = codes "4.size,1.0,3.640,3.480;"

abbrev after_size : GuacSocket (List ℕ)
after_size = record fresh { world = size_sent; last_write_timestamp = 22 }

size_run : send port resized fresh ≡ returned (pos 0) after_size
unfolding send_size charsize
size_run = refl

send-Delivered_example :
    Delivered slow-Channel fresh
      (request_wire decimals (request resized))
      0
      (send port resized fresh)
send-Delivered_example = send-Delivered port-IsPort resized fresh refl

-- A parser with the instruction in its buffer.
abbrev filler : List ℕ
filler = replicate 32745 0

abbrev loaded : Parser
loaded = record {
  opcode = none;
  argc = 0;
  argv = none;
  state = parse_length;
  element_length = 0;
  elementc = 0;
  elementv = replicate 128 0;
  unparsed_start = 0;
  unparsed_end = 23;
  instructionbuf = size_sent ++ filler;
}

abbrev silent : Socket
silent = record { Stream = Unit {0}; select = λ s. (true, s); receive = λ s n. (got [], s) }

read-send_example :
    (q : Parser) × (read silent 5 loaded tt ≡ (ok, q, tt))
    × IsRead loaded q (fixed (codes "size")) (arguments port resized)
read-send_example =
    read-send port-IsPort resized fresh after_size size_sent silent 5 loaded tt [] [] filler
      (omega arith) refl size_run refl
      (record {
        vector = length-replicate {A = ℕ} 128 0;
        state = inr (refl, refl, refl);
        start = refl;
        size = refl;
        buffer = refl;
      })
      (omega arith)

-- The data "guac", which fills the buffer of base64 once and leaves one byte in it.
guac_in_base64 : base64 (codes "guac") ≡ codes "Z3VhYw=="
unfolding triplet_output
guac_in_base64 = refl

whole-Delivered_example :
    Delivered slow-Channel fresh (base64 (codes "guac")) 0 (whole slow-Channel (codes "guac") fresh)
whole-Delivered_example = whole-Delivered slow-Channel (codes "guac") fresh refl

decode_base64-base64_example : decode_base64 (base64 (codes "guac")) ≡ codes "guac"
decode_base64-base64_example =
    decode_base64-base64 (codes "guac")
      (omega arith, (omega arith, (omega arith, (omega arith, tt))))

send_blobs-Delivered_example :
    (blocks : List Block) × (contents blocks ≡ codes "guac")
    × Delivered slow-Channel fresh
        (blobs_wire port (pos 1) blocks)
        0
        (send_blobs port (pos 1) (codes "guac") fresh)
send_blobs-Delivered_example =
    send_blobs-Delivered port-IsPort (pos 1) (codes "guac") fresh
      (omega arith, (omega arith, (omega arith, (omega arith, tt)))) refl

-- A socket whose other end is gone.
abbrev refuse : List ℕ → List ℕ → Option ℕ × List ℕ
refuse world buf = (none, world)

abbrev broken : Handlers
broken = record slow { write_handler = some refuse }

-- Two bytes wait, and the third one cannot be sent.
abbrev waiting : GuacSocket (List ℕ)
waiting = record fresh {
  ready = 2;
  ready_buf = record { at_0 = pos 103; at_1 = pos 117; at_2 = pos 0 };
}

abbrev stuck : GuacSocket (List ℕ)
stuck = record fresh {
  ready = 3;
  ready_buf = record { at_0 = pos 103; at_1 = pos 117; at_2 = pos 97 };
}

broken_run : write_base64_byte broken (pos 97) waiting ≡ returned (negsuc 0) stuck
unfolding write_base64_byte
broken_run = refl

write_base64_overrun_example :
    (write_base64 broken (codes "c") stuck ≡ overrun) × (flush_base64 broken stuck ≡ overrun)
write_base64_overrun_example =
    write_base64_overrun broken waiting stuck (pos 97) (negsuc 0) b'c' [] broken_run refl
