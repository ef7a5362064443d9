-- ===== src/Protocol/Calls/Blobs.antt =====
-- What `guac_protocol_send_blob` and `guac_protocol_send_blobs` send.
use guacenc.Base.{
  ℕ, zero, suc, ◌+◌, ◌*◌, ◌/◌, ◌≤◌, ◌≡◌, refl, sym, ap, ◌∙◌, inl, inr, List, [], ◌∷◌, ◌++◌,
  append-nil, append_assoc, arith, ltb, if◌then◌else◌, length, take, drop, length-append,
  length-take, length-drop, take-append-drop,
}
use mathlib.Core.Path.{ap₂, subst}
use guacenc.Base.Int.{ℤ, pos, negsuc}
use guacenc.Utf8.Sizes.{bytes}
use guacenc.Parser.Wire.{Element}
use guacenc.Parser.Elements.{wire}
use guacenc.Output.{
  GuacSocket, is_zero, flush_base64, write_base64, codes, ◌or_else◌, triplet_output,
}
use guacenc.Output.Delivery.{
  Delivered, chained, stopped, reached, instruction-Sends, write_string-Sends, or_else-Sends,
}
use guacenc.Output.Encoding.{base64, whole-Sends}
use guacenc.Base64.RoundTrip.{AllBytes}
use guacenc.Protocol.{Sender, Port, blob_max_length, write_int, literal}
use guacenc.Protocol.Elements.{
  IsPort, Puts, PutsRest, write_int-Puts, opcode, int, ◌comma◌, element, ascii, bytes-ascii,
  length-ascii,
}
use guacenc.Protocol.Calls.{of_int, of_block, Request, Block, request_wire}
use guacenc.Protocol.Streams.{send_blobs, blobs_loop, send_blob}

length-triplet_output : (a b c : ℤ) → length (triplet_output a b c) ≡ 4
unfolding triplet_output
length-triplet_output a b c = ground arith

-- The length that the sender announces.
pub length-base64 : (content : List ℕ) → length (base64 content) ≡ (length content + 2) / 3 * 4
length-base64 [] = refl
length-base64 (a ∷ []) = length-triplet_output (pos a) (negsuc 0) (negsuc 0)
length-base64 (a ∷ b ∷ []) = length-triplet_output (pos a) (pos b) (negsuc 0)
length-base64 (a ∷ b ∷ c ∷ more) = omega (
  arith,
  length-append (triplet_output (pos a) (pos b) (pos c)) (base64 more),
  length-triplet_output (pos a) (pos b) (pos c),
  length-base64 more,
)

abbrev pub blob_request : {Double : Type 0} → ℤ → Block → Request Double
blob_request stream block = record {
  name = codes "blob";
  arguments = of_int stream ∷ of_block block ∷ [];
}

module _ {port : Port} (correct : IsPort port) where
  abbrev block_element : List ℕ → Element
  block_element content = element port.formats (ascii (base64 content))

  -- The data behind its length, and the end of the instruction.
  content_puts :
      (content : List ℕ)
      → PutsRest correct
          (write_int port (pos ((length content + 2) / 3 * 4))
            or_else literal port "."
            or_else (write_base64 port.handlers content or_else flush_base64 port.handlers)
            or_else literal port ";")
          (block_element content)
          []
  content_puts content =
      let c = correct.channel in
      let size = write_int-Puts correct (pos ((length content + 2) / 3 * 4)) in
      let behind =
        or_else-Sends c (write_string-Sends c (codes "."))
          (or_else-Sends c (whole-Sends c content) (write_string-Sends c (codes ";"))) in
      let same_size : (length content + 2) / 3 * 4 ≡ length (ascii (base64 content)) =
        sym (length-ascii (base64 content) ∙ length-base64 content) in
      let regroup : port.formats.format_int (pos ((length content + 2) / 3 * 4))
            ++ (b'.' ∷ (base64 content ++ (b';' ∷ [])))
          ≡ wire (block_element content) [] =
        ap₂ (λ n l. port.formats.format_int (pos n) ++ (b'.' ∷ (l ++ (b';' ∷ [])))) same_size
          (sym (bytes-ascii (base64 content)))
        ∙ sym (
            append_assoc (port.formats.format_int (pos (length (ascii (base64 content)))))
              (b'.' ∷ bytes (ascii (base64 content))) (b';' ∷ [])) in
      record {
        puts =
            subst
              (Puts correct (
                write_int port (pos ((length content + 2) / 3 * 4))
                or_else literal port "."
                or_else (write_base64 port.handlers content or_else flush_base64 port.handlers)
                or_else literal port ";"))
              regroup (or_else-Sends c size behind);
      }

  pub send_blob-Puts :
      (stream : ℤ) (block : Block)
      → Puts correct
          (send_blob port stream block.content)
          (request_wire port.formats (blob_request stream block))
  unfolding send_blob
  send_blob-Puts stream block =
      instruction-Sends correct.channel
        (opcode (codes "4.blob,") (int correct stream comma content_puts block.content))

-- The blobs that data is sent as.
abbrev pub blob_size : ℕ → ℕ
blob_size count = if ltb blob_max_length count then blob_max_length else count

abbrev pub blobs_wire : (port : Port) → ℤ → List Block → List ℕ
blobs_wire port stream [] = []
blobs_wire port stream (b ∷ bs) =
    request_wire port.formats (blob_request stream b) ++ blobs_wire port stream bs

abbrev pub contents : List Block → List ℕ
contents [] = []
contents (b ∷ bs) = b.content ++ contents bs

take-AllBytes : (n : ℕ) (bs : List ℕ) → AllBytes bs → AllBytes (take n bs)
take-AllBytes zero bs h = tt
take-AllBytes (suc n) [] h = tt
take-AllBytes (suc n) (b ∷ bs) h = (h.0, take-AllBytes n bs h.1)

drop-AllBytes : (n : ℕ) (bs : List ℕ) → AllBytes bs → AllBytes (drop n bs)
drop-AllBytes zero bs h = h
drop-AllBytes (suc n) [] h = tt
drop-AllBytes (suc n) (b ∷ bs) h = drop-AllBytes n bs h.1

module _ {port : Port} (correct : IsPort port) where
  abbrev Blobs : ℤ → List ℕ → Sender port → Type 0
  Blobs stream content a =
      (blocks : List Block) × (contents blocks ≡ content)
      × Puts correct a (blobs_wire port stream blocks)

  -- Nothing to send.
  idle : (stream : ℤ) (rounds : ℕ) → Puts correct (blobs_loop port rounds stream []) []
  unfolding blobs_loop
  idle stream rounds s z = record {
    code = pos 0;
    socket = s;
    returns = refl;
    taken = [];
    rest = [];
    parts = refl;
    sent = sym (append-nil _);
    result = inl (refl, refl, z);
  }

  -- A round that sends one blob, and the rounds behind it.
  round_puts :
      (rounds : ℕ) (stream : ℤ) (byte : ℕ) (content : List ℕ) (out more : List ℕ)
      → Puts correct
          (send_blob port stream (take (blob_size (length (byte ∷ content))) (byte ∷ content)))
          out
      → Puts correct
          (blobs_loop port rounds stream
            (drop (blob_size (length (byte ∷ content))) (byte ∷ content)))
          more
      → Puts correct (blobs_loop port (suc rounds) stream (byte ∷ content)) (out ++ more)
  unfolding blobs_loop is_zero
  round_puts rounds stream byte content out more p q s z =
      let c = correct.channel in
      let d = p s z in
      elim d.result [
        | inl (done, all, ready) ↦
            reached c (rw (blobs_loop, d.returns, done) refl) (chained c d all (q d.socket ready))
        | inr error ↦ stopped c more d d.code (rw (blobs_loop, d.returns, error) refl) error
      ]

  blobs_loop-Blobs :
      (rounds : ℕ) (stream : ℤ) (content : List ℕ)
      → AllBytes content
      → length content ≤ rounds
      → Blobs stream content (blobs_loop port rounds stream content)
  blobs_loop-Blobs rounds stream [] h enough = ([], refl, idle stream rounds)
  blobs_loop-Blobs zero stream (byte ∷ content) h enough = absurd (omega arith)
  blobs_loop-Blobs (suc rounds) stream (byte ∷ content) h enough =
      let whole = byte ∷ content in
      let n = blob_size (length whole) in
      let size : (1 ≤ n) × (n ≤ blob_max_length) × (n ≤ length whole) = ground arith in
      let block : Block = record {
        content = take n whole;
        all_bytes = take-AllBytes n whole h;
        limit = omega (arith, length-take n whole, size);
      } in
      let left : length (drop n whole) ≤ rounds = omega (arith, length-drop n whole, size) in
      let (blocks, all, rest) =
        blobs_loop-Blobs rounds stream (drop n whole) (drop-AllBytes n whole h) left in
      (
        block ∷ blocks,
        ap (λ l. take n whole ++ l) all ∙ take-append-drop n whole,
        round_puts rounds stream byte content _ _ (send_blob-Puts correct stream block) rest,
      )

  -- `guac_protocol_send_blobs` splits its data, of any size, into blobs that carry it in order. It sends
  -- them all and returns 0, or sends a first part of them and returns an error. The port is as for a
  -- single instruction, and no data waits in the buffer of base64.
  pub send_blobs-Delivered :
      (stream : ℤ) (content : List ℕ) (s : GuacSocket port.handlers.World)
      → AllBytes content
      → s.ready ≡ 0
      → (blocks : List Block) × (contents blocks ≡ content)
        × Delivered correct.channel s
            (blobs_wire port stream blocks)
            0
            (send_blobs port stream content s)
  unfolding send_blobs
  send_blobs-Delivered stream content s h z =
      let (blocks, all, puts) = blobs_loop-Blobs (length content) stream content h (omega arith) in
      (blocks, all, puts s z)
